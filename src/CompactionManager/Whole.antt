-- ===== src/CompactionManager/Whole.antt =====
-- A compaction that nothing comes between, from the opening of the tables to the hand-over.
use lsm_kv_store.Base.{
  All-imp, ℕ, ◌<◌, ◌≡◌, refl, ap, ◌∙◌, true, false, some, List, [], ◌∷◌, arith, All,
}
use lsm_kv_store.Text.{Text}
use lsm_kv_store.SsTable.{Run, TableService}
use lsm_kv_store.MemTable.{MemTableEntry}
use lsm_kv_store.MergeIterator
use lsm_kv_store.Manifest.{ManifestState, contains}
use lsm_kv_store.Store.{LsmStore, SsTableState, live, get}
use lsm_kv_store.Store.Loading.{find_file}
use lsm_kv_store.CompactionManager.{Engine, numbers_of, restamped, delete_old_files, run_steps}
use lsm_kv_store.CompactionManager.Merging.{
  runs_of, metas_of, runs_of-IsSorted, hit-runs_of, compacted-eq-live,
}
use lsm_kv_store.CompactionManager.Handing.{IsHandOver, get-handle_compaction_complete}
use lsm_kv_store.CompactionManager.Stages.{
  IsCompactable, at_merge, step-opening, result_of, handed_store, IsOver, steps_written,
  step-merging_empty, cleared_store, run_steps-at_clear,
}

module _ (service : TableService) where
  contains-later : (m n : ℕ) (ms : List ℕ) → contains ms n ≡ true → contains (m ∷ ms) n ≡ true
  contains-later m n ms h = ground arith

  all_contained :
      (ts : List (SsTableState service))
      → All
          (λ (t : SsTableState service).
            contains (numbers_of (metas_of service ts)) t.metadata.file_number ≡ true)
          ts
  all_contained [] = tt
  all_contained (t ∷ ts) = (
    ground arith,
    All-imp _ _
        (λ u h.
          contains-later t.metadata.file_number u.metadata.file_number
            (numbers_of (metas_of service ts)) h)
        ts (all_contained ts),
  )

  fresh_number :
      (n : ℕ) (ts : List (SsTableState service))
      → All (λ (t : SsTableState service). t.metadata.file_number < n) ts
      → contains (numbers_of (metas_of service ts)) n ≡ false
  fresh_number n [] h = refl
  fresh_number n (t ∷ ts) h = ground (arith, fresh_number n ts h.1)

  on_disk :
      (n : ℕ) (run : Run) (files : List (ℕ × Run)) (ts : List (SsTableState service))
      → All (λ (t : SsTableState service). t.metadata.file_number < n) ts
      → find_file service n (delete_old_files ((n, run) ∷ files) (metas_of service ts)) ≡ some run
  unfolding find_file delete_old_files
  on_disk n run files ts h = rw (fresh_number n ts h) (ground (arith))

  -- The run that a compaction writes, if there is anything to write, is one that a file keeps.
  abbrev pub IsStorableIfAny : Run → Type 0
  IsStorableIfAny [] = Unit
  IsStorableIfAny (x ∷ run) = service.IsStorable (x ∷ run)

  hand_over :
      (e : Engine service) (clock : ℕ → ℕ) (now : ℕ) (x : Text × MemTableEntry) (run : Run)
      → IsCompactable service e
      → restamped (MergeIterator.iterate false (runs_of service e.store.sstables)) clock ≡ x ∷ run
      → service.IsStorable (x ∷ run)
      → IsHandOver service
          (handed_store service e (x ∷ run))
          (result_of service e (x ∷ run) now)
          []
          e.store.sstables
          (x ∷ run)
  hand_over e clock now x run v h k =
      let ts = e.store.sstables in
      let written =
        compacted-eq-live (runs_of service ts) clock
          (runs_of-IsSorted service ts e.store.files v.stored) in
      record {
        split = refl;
        spared = tt;
        compacted = all_contained ts;
        descending = tt;
        above = tt;
        on_disk = on_disk e.store.manifest.next_file_number (x ∷ run) e.store.files ts v.fresh;
        sorted = rw h at written.0;
        storable = k;
        same = λ key. rw h at (written.1 key) ∙ ap live (hit-runs_of service ts key);
      }

  -- The manifest and the files on the disk do not matter to get.
  get-elsewhere :
      (s : LsmStore service) (manifest : ManifestState) (files : List (ℕ × Run)) (key : Text)
      → get service (record s { manifest = manifest; files = files }) key ≡ get service s key
  unfolding get
  get-elsewhere s manifest files key = refl

  after_merge :
      (e : Engine service) (clock : ℕ → ℕ) (now : ℕ) (run : Run)
      → restamped (MergeIterator.iterate false (runs_of service e.store.sstables)) clock ≡ run
      → IsCompactable service e
      → IsStorableIfAny run
      → IsOver service (run_steps service 6 (at_merge service e) clock now).manager
        × ((key : Text)
            → get service (run_steps service 6 (at_merge service e) clock now).store key
              ≡ get service e.store key)
  unfolding run_steps
  after_merge e clock now [] h v k =
      let cleared =
        ap (λ f. run_steps service 5 f clock now) (step-merging_empty service e clock now h)
        ∙ run_steps-at_clear service e clock now in
      rw cleared (
        (refl, refl),
        λ key.
            get-elsewhere e.store (cleared_store service e).manifest (cleared_store service e).files
              key,
      )
  after_merge e clock now (x ∷ run) h v k =
      let (s', handled, count, answers) =
        get-handle_compaction_complete service (handed_store service e (x ∷ run))
          (result_of service e (x ∷ run) now) [] e.store.sstables (x ∷ run) v.initialized
          (hand_over e clock now x run v h k) in
      rw (steps_written service e clock now x run s' h handled) (
        (refl, refl),
        λ key.
            answers key
            ∙ get-elsewhere e.store (handed_store service e (x ∷ run)).manifest
                (handed_store service e (x ∷ run)).files key,
      )

  -- A compaction that starts on an initialized store's tables, all with files on the disk that
  -- hold what their readers read and numbers below the next file number, and that nothing comes
  -- between, is over after seven awaits, and then get answers every key as before; this where the
  -- runs of the files and, if it is not empty, the run that the compaction writes are storable.
  pub get-run_steps :
      (e : Engine service) (clock : ℕ → ℕ) (now : ℕ)
      → IsCompactable service e
      → IsStorableIfAny
          (restamped (MergeIterator.iterate false (runs_of service e.store.sstables)) clock)
      → IsOver service (run_steps service 7 e clock now).manager
        × ((key : Text)
            → get service (run_steps service 7 e clock now).store key ≡ get service e.store key)
  unfolding run_steps
  get-run_steps e clock now v k =
      rw (step-opening service e clock now v) (after_merge e clock now _ refl v k)
