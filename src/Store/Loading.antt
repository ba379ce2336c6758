-- ===== src/Store/Loading.antt =====
-- src/storage/LSMStore.ts: what `initialize` does with the manifest, the table files and the log,
-- and `applyLogEntry`, which replay and replication share.
use lsm_kv_store.Base.{
  ℕ, ◌==◌, true, false, not, Option, none, some, List, [], ◌∷◌, length, if◌then◌else◌,
}
use lsm_kv_store.Text.{Text}
use lsm_kv_store.Codec.{TextCodec}
use lsm_kv_store.SsTable.{Run, SsTableMetadata, TableService}
use lsm_kv_store.MemTable
use lsm_kv_store.MemTable.{MemTable, new_table}
use lsm_kv_store.Manifest.{ManifestState, remove_sstables}
use lsm_kv_store.Wal
use lsm_kv_store.Wal.{LogEntry, LogOperationType}
use lsm_kv_store.Store.{
  SsTableState, LsmStore, Result, ok, err, not_initialized, log_rejected, idle, maybe_flush,
}

module _ (service : TableService) where
  open service use {open_file}

  -- The contents of the file with a number, if there is one.
  unfoldable pub find_file : ℕ → List (ℕ × Run) → Option Run
  find_file n [] = none
  find_file n ((m, run) ∷ files) = if n == m then some run else find_file n files

  -- A table whose file cannot be opened is left out, and taken off the manifest.
  unfoldable pub load_tables : List SsTableMetadata → List (ℕ × Run) → List (SsTableState service)
  unfolding find_file
  load_tables [] files = []
  load_tables (m ∷ ms) files =
      let rest = load_tables ms files in
      elim (find_file m.file_number files) [
        | some run ↦ record { metadata = m; reader = open_file m.file_number run } ∷ rest
        | none ↦ rest
      ]

  unfoldable pub drop_missing :
      List SsTableMetadata → List (ℕ × Run) → ManifestState → ManifestState
  unfolding find_file
  drop_missing [] files m = m
  drop_missing (t ∷ ts) files m = drop_missing ts files (elim (find_file t.file_number files) [
    | some run ↦ m
    | none ↦ remove_sstables m (t.file_number ∷ [])
  ])

  module _ ⦃codec : TextCodec⦄ where
    abbrev pub apply_put : MemTable → Option Text → Option Text → ℕ → MemTable
    apply_put t (some (u ∷ key)) (some value) now = MemTable.put t (u ∷ key) value false now
    apply_put t key value now = t

    abbrev pub apply_delete : MemTable → Option Text → ℕ → MemTable
    apply_delete t (some (u ∷ key)) now = MemTable.delete t (u ∷ key) now
    apply_delete t key now = t

    -- A key with no value at its index is passed over.
    abbrev pub apply_pairs : MemTable → List Text → List Text → ℕ → MemTable
    apply_pairs t [] values now = t
    apply_pairs t (k ∷ keys) [] now = t
    apply_pairs t (k ∷ keys) (v ∷ values) now =
        apply_pairs (apply_put t (some k) (some v) now) keys values now

    abbrev pub apply_batch : MemTable → Option (List Text) → Option (List Text) → ℕ → MemTable
    apply_batch t (some keys) (some values) now = apply_pairs t keys values now
    apply_batch t keys values now = t

    unfoldable pub apply_log_entry : MemTable → LogEntry → ℕ → MemTable
    apply_log_entry t e now = elim e.operation [
      | LogOperationType.put ↦ apply_put t e.key e.value now
      | LogOperationType.delete ↦ apply_delete t e.key now
      | LogOperationType.batch_put ↦ apply_batch t e.keys e.values now
    ]

    -- The loop of `initialize` over the replayed entries; `clock` gives the reading at each.
    unfoldable pub apply_log : MemTable → List LogEntry → (ℕ → ℕ) → MemTable
    unfolding apply_log_entry
    apply_log t [] clock = t
    apply_log t (e ∷ log) clock = apply_log (apply_log_entry t e (clock (length log))) log clock

    -- `initialize` on what a stopped process leaves: the log, the manifest and the table files.
    unfoldable pub initialize : LsmStore service → (ℕ → ℕ) → LsmStore service
    unfolding apply_log load_tables drop_missing
    initialize s clock = record s {
      wal = Wal.reopen s.wal;
      manifest = drop_missing s.manifest.sstables s.files s.manifest;
      active = apply_log (new_table s.mem_table_size_limit) (Wal.replay s.wal) clock;
      immutable = none;
      sstables = load_tables s.manifest.sstables s.files;
      flushing = false;
      stage = idle;
      initialized = true;
    }

    unfoldable pub apply_replicated_entry :
        LsmStore service → LogEntry → ℕ → ℕ → Result (Unit {0}) × LsmStore service
    unfolding maybe_flush apply_log_entry
    apply_replicated_entry s e logged now =
        let (w, done) = Wal.append s.wal e logged in
        if not s.initialized
        then (err not_initialized, s)
        else if done
        then (
          ok tt,
          maybe_flush service (record s { wal = w; active = apply_log_entry s.active e now }),
        )
        else (err log_rejected, record s { wal = w })
