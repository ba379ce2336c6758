-- ===== src/Store.antt =====
-- src/storage/LSMStore.ts: the store. Each function is the code between two awaits, or a whole
-- method where nothing can come between; `doFlush` is cut at its awaits into the stages of
-- `FlushStage`. Tables are a `TableService`. The log runs under `SYNC_EVERY_WRITE`.
pub mod View
pub mod Loading
pub mod Flushing
pub mod Swapping
pub mod Writing
pub mod Serving
pub mod Client
pub mod Replay
pub mod Recovery
pub mod Durability
pub mod Crashes
pub mod Reading
pub mod Bounds
pub mod Range
pub mod Listed
pub mod Tabled
pub mod Scanning
use lsm_kv_store.Base.{
  ℕ, ◌+◌, Bool, true, false, not, ◌||◌, ◌&&◌, Option, none, some, List, [], ◌∷◌, ◌++◌, length, map,
  leb, ltb, ◌==◌, if◌then◌else◌,
}
use lsm_kv_store.Text.{Text}
use lsm_kv_store.Codec.{TextCodec}
use lsm_kv_store.SsTable.{Run, SsTableMetadata, TableService}
use lsm_kv_store.MemTable
use lsm_kv_store.MemTable.{MemTable, MemTableEntry, new_table}
use lsm_kv_store.Manifest.{ManifestState, add_sstable, remove_sstables}
use lsm_kv_store.Wal
use lsm_kv_store.Wal.{Wal, LogEntry, LogOperationType, is_falsy}

pub data StoreError : Type 0 where
  not_initialized log_rejected : StoreError

pub data Result {ℓ} (A : Type ℓ) : Type ℓ where
  ok : A → Result A
  err : StoreError → Result A

-- `entry.deleted ? null : entry.value`
abbrev pub live : Option MemTableEntry → Option Text
live none = none
live (some e) = if e.deleted then none else some e.value

-- The locals of a suspended `doFlush`, by the await that it waits at: `writer.build`,
-- `manifest.addSSTable`, `SSTableReader.openFile`, `wal.checkpoint`.
pub data FlushStage : Type 0 where
  idle : FlushStage
  building : ℕ → Run → FlushStage
  recording : SsTableMetadata → Run → FlushStage
  opening : SsTableMetadata → Run → FlushStage
  truncating : FlushStage
  finishing : FlushStage

-- The log entry of each write, with the fields that `append` fills in left at 0.
abbrev pub put_entry : Text → Text → LogEntry
put_entry key value = record {
  sequence_id = 0;
  timestamp = 0;
  operation = LogOperationType.put;
  key = some key;
  value = some value;
  keys = none;
  values = none;
}

abbrev pub delete_entry : Text → LogEntry
delete_entry key = record {
  sequence_id = 0;
  timestamp = 0;
  operation = LogOperationType.delete;
  key = some key;
  value = none;
  keys = none;
  values = none;
}

abbrev pub batch_entry : List (Text × Text) → LogEntry
batch_entry pairs = record {
  sequence_id = 0;
  timestamp = 0;
  operation = LogOperationType.batch_put;
  key = none;
  value = none;
  keys = some (map (λ p. p.0) pairs);
  values = some (map (λ p. p.1) pairs);
}

-- The metadata that `build` returns for a run.
abbrev pub last_key_of : Text → Run → Text
last_key_of k [] = k
last_key_of k ((j, e) ∷ run) = last_key_of j run

abbrev pub metadata_of : ℕ → Run → SsTableMetadata
metadata_of n [] = record { file_number = n; entry_count = 0; first_key = []; last_key = [] }
metadata_of n ((k, e) ∷ run) = record {
  file_number = n;
  entry_count = length ((k, e) ∷ run);
  first_key = k;
  last_key = last_key_of k run;
}

module _ (service : TableService) where
  open service use {Reader, open_file, is_in_range, may_contain, get as read_table}

  pub record SsTableState : Type 0 where
    pub metadata : SsTableMetadata
    pub reader : Reader

  -- The fields of the store, with its part of the disk: `files` are the table files by number, the
  -- newest write of a number first.
  pub record LsmStore : Type 0 where
    pub mem_table_size_limit : ℕ
    pub wal : Wal
    pub manifest : ManifestState
    pub files : List (ℕ × Run)
    pub active : MemTable
    pub immutable : Option MemTable
    pub sstables : List SsTableState
    pub flushing : Bool
    pub stage : FlushStage
    pub initialized : Bool

  -- === get ===

  unfoldable pub search_tables : List SsTableState → Text → Option MemTableEntry
  search_tables [] key = none
  search_tables (t ∷ ts) key =
      let rest = search_tables ts key in
      if not (is_in_range t.reader key)
      then rest
      else if not (may_contain t.reader key)
      then rest
      else elim (read_table t.reader key) [ some e ↦ some e | none ↦ rest ]

  abbrev pub immutable_entry : Option MemTable → Text → Option MemTableEntry
  immutable_entry none key = none
  immutable_entry (some t) key = MemTable.get_entry t key

  abbrev pub first_hit : Option MemTableEntry → Option MemTableEntry → Option MemTableEntry
  first_hit (some e) other = some e
  first_hit none other = other

  unfoldable pub get : LsmStore → Text → Result (Option Text)
  unfolding search_tables
  get s key =
      if s.initialized
      then ok (
          live (
            first_hit (MemTable.get_entry s.active key)
              (first_hit (immutable_entry s.immutable key) (search_tables s.sstables key))))
      else err not_initialized

  -- === flush ===

  -- The start of `doFlush`, up to its first await.
  abbrev pub start_flush : LsmStore → Run → LsmStore
  start_flush s [] = record s { immutable = none; flushing = false }
  start_flush s (e ∷ run) = record s { stage = building s.manifest.next_file_number (e ∷ run) }

  unfoldable pub trigger_flush : LsmStore → LsmStore
  trigger_flush s =
      start_flush
        (record s {
          immutable = some s.active;
          active = new_table s.mem_table_size_limit;
          flushing = true;
        })
        (MemTable.get_all_sorted s.active)

  unfoldable pub maybe_flush : LsmStore → LsmStore
  maybe_flush s =
      if not (MemTable.is_full s.active) then s else if s.flushing then s else trigger_flush s

  -- An error anywhere in `doFlush`: it is logged, and only the flag is reset.
  unfoldable pub fail_flush : LsmStore → LsmStore
  fail_flush s = record s { flushing = false; stage = idle }

  module _ ⦃codec : TextCodec⦄ where
    abbrev pub flush_from : LsmStore → ℕ → FlushStage → LsmStore
    flush_from s now idle = s
    flush_from s now (building n run) = record s {
      files = (n, run) ∷ s.files;
      stage = recording (metadata_of n run) run;
    }
    flush_from s now (recording m run) = record s {
      manifest = add_sstable s.manifest m;
      stage = opening m run;
    }
    flush_from s now (opening m run) = record s {
      sstables = (record { metadata = m; reader = open_file m.file_number run }) ∷ s.sstables;
      stage = truncating;
    }
    flush_from s now truncating =
        let (w, done) = Wal.checkpoint s.wal now in
        if done then record s { wal = w; stage = finishing } else fail_flush (record s { wal = w })
    flush_from s now finishing = record s { immutable = none; flushing = false; stage = idle }

    -- One await of a successful `doFlush`.
    unfoldable pub flush_step : LsmStore → ℕ → LsmStore
    unfolding fail_flush
    flush_step s now = flush_from s now s.stage

    -- === writes ===

    -- `logged` is the clock when the log entry is stamped, `now` when the memtable entry is.
    unfoldable pub put : LsmStore → Text → Text → ℕ → ℕ → Result (Unit {0}) × LsmStore
    unfolding maybe_flush
    put s key value logged now =
        let (w, done) = Wal.append s.wal (put_entry key value) logged in
        if not s.initialized
        then (err not_initialized, s)
        else if done
        then (
          ok tt,
          maybe_flush (record s { wal = w; active = MemTable.put s.active key value false now }),
        )
        else (err log_rejected, record s { wal = w })

    unfoldable pub delete : LsmStore → Text → ℕ → ℕ → Result (Unit {0}) × LsmStore
    unfolding maybe_flush
    delete s key logged now =
        let (w, done) = Wal.append s.wal (delete_entry key) logged in
        if not s.initialized
        then (err not_initialized, s)
        else if done
        then (ok tt, maybe_flush (record s { wal = w; active = MemTable.delete s.active key now }))
        else (err log_rejected, record s { wal = w })

    -- The pairs of a batch carry the clock readings of their puts.
    unfoldable pub put_all : MemTable → List (Text × Text) → (ℕ → ℕ) → MemTable
    put_all t [] clock = t
    put_all t ((k, v) ∷ pairs) clock =
        put_all (MemTable.put t k v false (clock (length pairs))) pairs clock

    unfoldable pub batch_put : LsmStore → List (Text × Text) → ℕ → (ℕ → ℕ) → Result ℕ × LsmStore
    unfolding maybe_flush put_all
    batch_put s pairs logged clock =
        let (w, done) = Wal.append s.wal (batch_entry pairs) logged in
        if not s.initialized
        then (err not_initialized, s)
        else if length pairs == 0
        then (ok 0, s)
        else if done
        then (
          ok (length pairs),
          maybe_flush (record s { wal = w; active = put_all s.active pairs clock }),
        )
        else (err log_rejected, record s { wal = w })
