-- ===== src/CompactionManager/Stages.antt =====
-- The stages of `executeCompaction` when nothing comes between them.
use lsm_kv_store.Base.{ℕ, ◌<◌, ◌≡◌, refl, ap, ◌∙◌, true, false, some, [], ◌∷◌, All, length}
use lsm_kv_store.Base.Int.{pos, ◌-ℤ◌}
use lsm_kv_store.Text.{Text}
use lsm_kv_store.SsTable.{Run, TableService}
use lsm_kv_store.MemTable.{MemTableEntry}
use lsm_kv_store.MergeIterator
use lsm_kv_store.Manifest.{add_sstable, remove_sstables}
use lsm_kv_store.Store.{LsmStore, SsTableState, metadata_of}
use lsm_kv_store.CompactionManager.{
  CompactionManager, CompactionResult, Engine, resting, opening, merging, building, clearing,
  handing, numbers_of, total_entries, restamped, update_stats, finish, delete_old_files,
  handle_compaction_complete, step, step_from, run_steps,
}
use lsm_kv_store.CompactionManager.Merging.{IsStored, runs_of, metas_of, open_sources-eq-runs_of}

module _ (service : TableService) where
  -- A compaction at its start: the tables of the store are those of the manifest's snapshot, their
  -- files are there, and the next file number is above theirs.
  pub record IsCompactable (e : Engine service) : Type 0 where
    pub initialized : e.store.initialized ≡ true
    pub at_start : e.manager.stage ≡ opening (metas_of service e.store.sstables)
    pub stored : All (IsStored service e.store.files) e.store.sstables
    pub fresh :
        All
          (λ (t : SsTableState service). t.metadata.file_number < e.store.manifest.next_file_number)
          e.store.sstables

  -- The engine when the merge has run, before its entries are counted.
  abbrev pub at_merge : Engine service → Engine service
  at_merge e = record e {
    manager = record e.manager {
      stage =
          merging (metas_of service e.store.sstables) e.store.manifest.next_file_number
            (runs_of service e.store.sstables);
    };
  }

  pub step-opening :
      (e : Engine service) (clock : ℕ → ℕ) (now : ℕ)
      → IsCompactable e
      → step service e clock now ≡ at_merge e
  unfolding step
  step-opening e clock now v =
      rw
        (
          v.at_start,
          step_from,
          open_sources-eq-runs_of service e.store.sstables e.store.files v.stored,
        )
        refl

  -- The result that is handed over.
  abbrev pub result_of : Engine service → Run → ℕ → CompactionResult
  result_of e run now =
      let metas = metas_of service e.store.sstables in
      record {
        new_sstable = metadata_of e.store.manifest.next_file_number run;
        compacted_file_numbers = numbers_of metas;
        entries_written = length run;
        entries_removed = pos (total_entries metas) -ℤ pos (length run);
        duration_ms = pos now -ℤ pos e.manager.start_time;
      }

  -- The store when the result is handed over.
  abbrev pub handed_store : Engine service → Run → LsmStore service
  handed_store e run =
      let metas = metas_of service e.store.sstables in
      let number = e.store.manifest.next_file_number in
      record e.store {
        manifest =
            remove_sstables (add_sstable e.store.manifest (metadata_of number run))
              (numbers_of metas);
        files = delete_old_files ((number, run) ∷ e.store.files) metas;
      }

  -- The compaction is over.
  abbrev pub IsOver : CompactionManager → Type 0
  IsOver m = (m.compacting ≡ false) × (m.stage ≡ resting)

  -- The engine when the merged entries have been added to the writer.
  abbrev pub at_build : Engine service → Run → Engine service
  at_build e run = record e {
    manager = record e.manager {
      stage = building (metas_of service e.store.sstables) e.store.manifest.next_file_number run;
    };
  }

  pub step-merging :
      (e : Engine service) (clock : ℕ → ℕ) (now : ℕ) (x : Text × MemTableEntry) (run : Run)
      → restamped (MergeIterator.iterate false (runs_of service e.store.sstables)) clock ≡ x ∷ run
      → step service (at_merge e) clock now ≡ at_build e (x ∷ run)
  unfolding step
  step-merging e clock now x run h = rw (step_from, h) refl

  abbrev pub at_hand : Engine service → Run → ℕ → Engine service
  at_hand e run now = record {
    store = handed_store e run;
    manager =
        record (update_stats e.manager (length run)
          (pos (total_entries (metas_of service e.store.sstables)) -ℤ pos (length run)) now) {
            stage = handing (result_of e run now);
          };
  }

  pub run_steps-at_build :
      (e : Engine service) (clock : ℕ → ℕ) (now : ℕ) (run : Run)
      → run_steps service 5 (at_build e run) clock now ≡ step service (at_hand e run now) clock now
  unfolding run_steps step update_stats
  run_steps-at_build e clock now run = refl

  pub step-handing :
      (e : Engine service) (clock : ℕ → ℕ) (now : ℕ) (run : Run) (s' : LsmStore service)
      → handle_compaction_complete service (handed_store e run) (result_of e run now) ≡ some s'
      → step service (at_hand e run now) clock now
        ≡ record { store = s'; manager = finish (at_hand e run now).manager }
  unfolding step
  step-handing e clock now run s' k = rw (step_from, k) refl

  pub steps_written :
      (e : Engine service) (clock : ℕ → ℕ) (now : ℕ) (x : Text × MemTableEntry) (run : Run)
      (s' : LsmStore service)
      → restamped (MergeIterator.iterate false (runs_of service e.store.sstables)) clock ≡ x ∷ run
      → handle_compaction_complete service (handed_store e (x ∷ run)) (result_of e (x ∷ run) now)
        ≡ some s'
      → run_steps service 6 (at_merge e) clock now
        ≡ record { store = s'; manager = finish (at_hand e (x ∷ run) now).manager }
  unfolding run_steps
  steps_written e clock now x run s' h k =
      ap (λ f. run_steps service 5 f clock now) (step-merging e clock now x run h)
      ∙ run_steps-at_build e clock now (x ∷ run)
      ∙ step-handing e clock now (x ∷ run) s' k

  -- The engine when there is nothing to write.
  abbrev pub at_clear : Engine service → Engine service
  at_clear e = record e {
    manager = record e.manager { stage = clearing (metas_of service e.store.sstables) };
  }

  pub step-merging_empty :
      (e : Engine service) (clock : ℕ → ℕ) (now : ℕ)
      → restamped (MergeIterator.iterate false (runs_of service e.store.sstables)) clock ≡ []
      → step service (at_merge e) clock now ≡ at_clear e
  unfolding step
  step-merging_empty e clock now h = rw (step_from, h) refl

  abbrev pub cleared_store : Engine service → LsmStore service
  cleared_store e = record e.store {
    manifest = remove_sstables e.store.manifest (numbers_of (metas_of service e.store.sstables));
    files = delete_old_files e.store.files (metas_of service e.store.sstables);
  }

  pub run_steps-at_clear :
      (e : Engine service) (clock : ℕ → ℕ) (now : ℕ)
      → run_steps service 5 (at_clear e) clock now ≡ record {
        store = cleared_store e;
        manager = finish (
            update_stats e.manager 0 (pos (total_entries (metas_of service e.store.sstables))) now);
      }
  unfolding run_steps step update_stats
  run_steps-at_clear e clock now = refl
