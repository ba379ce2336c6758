-- ===== src/Store/Recovery.antt =====
-- src/storage/LSMStore.ts, `initialize`: what a restart finds.
use lsm_kv_store.Base.{ℕ, ◌≡◌, ◌≢◌, refl, ◌∙◌, true, Option, none, some, List, [], ap, sym}
use lsm_kv_store.Text.{Text}
use lsm_kv_store.Codec.{TextCodec}
use lsm_kv_store.SsTable.{Run, TableService}
use lsm_kv_store.MemTable
use lsm_kv_store.MemTable.{MemTable, MemTableEntry, new_table}
use lsm_kv_store.MemTable.Entries.{new_table-HasValidMap, get_entry-new_table}
use lsm_kv_store.Manifest.{ManifestState}
use lsm_kv_store.Wal
use lsm_kv_store.Wal.{Wal, LogEntry, is_serializable}
use lsm_kv_store.Wal.Appending.{all_writable, checkpoint_lem}
use lsm_kv_store.Wal.Ready.{IsReady, checkpoint-IsReady}
use lsm_kv_store.Store.{
  search_tables, SsTableState, LsmStore, ok, first_hit, immutable_entry, live, get, flush_step,
  truncating, finishing, flush_from,
}
use lsm_kv_store.Store.Loading.{apply_log, load_tables, initialize}
use lsm_kv_store.Store.View.{view, view_tables, get-eq-live-view}
use lsm_kv_store.Store.Swapping.{held_over, tables_of}
use lsm_kv_store.Store.Replay.{shown, over, last_write, apply_log_lem, over-none}

module _ (service : TableService) ⦃codec : TextCodec⦄ where
  -- The tables that a restart would load answer as the open ones do.
  abbrev pub AreStored : List (SsTableState service) × ManifestState × List (ℕ × Run) → Type 0
  AreStored (tables, manifest, files) =
      (key : Text)
      → view_tables service (load_tables service manifest.sstables files) key
        ≡ view_tables service tables key

  -- What the memtables hold is in the log, and what the tables hold is on disk.
  pub record IsDurable (s : LsmStore service) : Type 0 where
    pub logged :
        (key : Text) → last_write (Wal.replay s.wal) key ≡ shown (held_over service s key none)
    pub stored : AreStored (tables_of service s)

  nested_hit :
      (a b rest : Option MemTableEntry)
      → first_hit service a (first_hit service b rest)
        ≡ first_hit service (first_hit service a (first_hit service b none)) rest
  nested_hit none none rest = refl
  nested_hit none (some e) rest = refl
  nested_hit (some e) b rest = refl

  live_hit :
      (a b rest : Option MemTableEntry)
      → shown a ≡ shown b
      → live (first_hit service a rest) ≡ live (first_hit service b rest)
  live_hit none none rest h = refl
  live_hit none (some e) rest h = absurd (cc h)
  live_hit (some e) none rest h = absurd (cc h)
  live_hit (some e) (some f) rest h = cc h

  restarted-view :
      (s : LsmStore service) (clock : ℕ → ℕ) (key : Text)
      → IsDurable s
      → live (view service (initialize service s clock) key) ≡ live (view service s key)
  unfolding initialize
  restarted-view s clock key h =
      let (_, replayed) =
        apply_log_lem service (new_table s.mem_table_size_limit) (Wal.replay s.wal) clock
          (new_table-HasValidMap s.mem_table_size_limit) in
      let found =
        MemTable.get_entry
          (apply_log service (new_table s.mem_table_size_limit) (Wal.replay s.wal) clock) key in
      let same =
        replayed key
        ∙ ap (λ (o : Option MemTableEntry). over (last_write (Wal.replay s.wal) key) (shown o))
            (get_entry-new_table s.mem_table_size_limit key)
        ∙ sym (over-none (last_write (Wal.replay s.wal) key))
        ∙ h.logged key in
      ap (λ (o : Option MemTableEntry). live (first_hit service found o)) (h.stored key)
      ∙ live_hit found (held_over service s key none) (view_tables service s.sstables key) same
      ∙ ap live (
          sym (
            nested_hit (MemTable.get_entry s.active key) (immutable_entry service s.immutable key)
              (view_tables service s.sstables key)))

  -- A durable store answers the same after a restart.
  pub get-initialize :
      (s : LsmStore service) (clock : ℕ → ℕ) (key : Text)
      → IsDurable s
      → s.initialized ≡ true
      → get service (initialize service s clock) key ≡ get service s key
  get-initialize s clock key h i =
      get-eq-live-view service (initialize service s clock) key (unfold initialize in refl)
      ∙ ap ok (restarted-view s clock key h)
      ∙ sym (get-eq-live-view service s key i)

  get-initialize_empty_log :
      (s : LsmStore service) (clock : ℕ → ℕ) (key : Text)
      → Wal.replay s.wal ≡ []
      → get service (initialize service s clock) key
        ≡ ok (live (search_tables service (load_tables service s.manifest.sstables s.files) key))
  unfolding initialize apply_log get
  get-initialize_empty_log s clock key h = rw h (rw get_entry-new_table refl)

  truncation :
      (s : LsmStore service) (now : ℕ)
      → IsReady s.wal
      → s.stage ≡ truncating
      → flush_step service s now
        ≡ record s { wal = (Wal.checkpoint s.wal now).0; stage = finishing }
  unfolding flush_step
  truncation s now ready at =
      let (done, _) = checkpoint-IsReady s.wal now ready in
      ap (flush_from service s now) at ∙ rw done refl

  -- When the flush of a store with a ready log truncates the log, and the clock has moved on, a
  -- restart right after answers get of every key with what a search of the tables of the manifest
  -- finds, whatever was written to the active memtable since the flush started.
  pub get-truncated :
      (s : LsmStore service) (now : ℕ) (clock : ℕ → ℕ) (key : Text)
      → IsReady s.wal
      → now ≢ s.wal.log_file
      → s.stage ≡ truncating
      → get service (initialize service (flush_step service s now) clock) key
        ≡ ok (live (search_tables service (load_tables service s.manifest.sstables s.files) key))
  get-truncated s now clock key ready moved at =
      let (_, nothing, _) =
        checkpoint_lem s.wal now ready.opened (ap all_writable ready.nothing_pending) moved in
      rw (truncation s now ready at) (
        get-initialize_empty_log
          (record s { wal = (Wal.checkpoint s.wal now).0; stage = finishing }) clock key nothing)
