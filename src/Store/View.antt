-- ===== src/Store/View.antt =====
-- src/storage/LSMStore.ts, `get`: what the store holds under each key, on the path active memtable,
-- immutable memtable, tables, newest first; and what a flush that has not failed looks like.
use lsm_kv_store.Base.{◌≡◌, refl, true, false, Option, none, some, List, [], ◌∷◌, arith}
use lsm_kv_store.Text.{Text}
use lsm_kv_store.Assoc.{find}
use lsm_kv_store.SsTable.{Run, TableService}
use lsm_kv_store.MemTable
use lsm_kv_store.MemTable.{MemTable, MemTableEntry}
use lsm_kv_store.MemTable.Entries.{HasValidMap}
use lsm_kv_store.Store.{
  FlushStage, idle, building, recording, opening, truncating, finishing, SsTableState, LsmStore,
  search_tables, first_hit, immutable_entry, live, get, ok,
}

module _ (service : TableService) where
  open service use {contents, is_in_range, may_contain, get-eq-find, out_of_range, filtered_out}

  unfoldable pub view_tables : List (SsTableState service) → Text → Option MemTableEntry
  view_tables [] key = none
  view_tables (t ∷ ts) key = first_hit service (find key (contents t.reader)) (view_tables ts key)

  -- The entry of a key, tombstones included.
  abbrev pub view : LsmStore service → Text → Option MemTableEntry
  view s key =
      first_hit service (MemTable.get_entry s.active key)
        (first_hit service (immutable_entry service s.immutable key) (view_tables s.sstables key))

  -- Neither the range check nor the filter hides an entry.
  pub search_tables-eq-view_tables :
      (ts : List (SsTableState service)) (key : Text)
      → search_tables service ts key ≡ view_tables ts key
  unfolding search_tables view_tables
  search_tables-eq-view_tables [] key = refl
  search_tables-eq-view_tables (t ∷ ts) key = ground (
    arith,
    search_tables-eq-view_tables ts key,
    get-eq-find t.reader key,
    out_of_range t.reader key,
    filtered_out t.reader key,
  )

  -- An initialized store answers get with the value of the first entry on the read path (active
  -- memtable, immutable memtable, tables newest first), and with null where that entry is a
  -- tombstone or there is none.
  pub get-eq-live-view :
      (s : LsmStore service) (key : Text)
      → s.initialized ≡ true
      → get service s key ≡ ok (live (view s key))
  unfolding get
  get-eq-live-view s key h = rw h (rw search_tables-eq-view_tables)

  -- The newest table holds the run.
  abbrev pub IsNewest : Run → List (SsTableState service) → Type 0
  IsNewest run [] = ⊥
  IsNewest run (t ∷ ts) = contents t.reader ≡ run

  -- The immutable memtable that a flush is writing.
  pub record IsWriting (s : LsmStore service) (run : Run) : Type 0 where
    pub table : MemTable
    pub held : s.immutable ≡ some table
    pub valid : HasValidMap table
    pub run_of : run ≡ MemTable.get_all_sorted table
    pub busy : s.flushing ≡ true

  pub record IsWritten (s : LsmStore service) : Type 0 where
    pub table : MemTable
    pub held : s.immutable ≡ some table
    pub valid : HasValidMap table
    pub newest : IsNewest (MemTable.get_all_sorted table) s.sstables
    pub busy : s.flushing ≡ true

  -- What the stage of the flush says of the other fields.
  abbrev pub IsAt : FlushStage → LsmStore service → Type 0
  IsAt idle s = (s.flushing ≡ false) × (s.immutable ≡ none)
  IsAt (building n run) s = IsWriting s run
  IsAt (recording m run) s = IsWriting s run
  IsAt (opening m run) s = IsWriting s run
  IsAt truncating s = IsWritten s
  IsAt finishing s = IsWritten s

  -- No flush has failed: an immutable memtable is there only while a flush is writing it.
  pub record IsCoherent (s : LsmStore service) : Type 0 where
    pub active_valid : HasValidMap s.active
    pub at_stage : IsAt s.stage s
