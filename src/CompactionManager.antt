-- ===== src/CompactionManager.antt =====
-- src/engine/compaction/CompactionManager.ts and CompactionTypes.ts, with `handleCompactionComplete`
-- of src/storage/LSMStore.ts: `executeCompaction` is cut at its awaits into the stages of
-- `CompactionStage`. `clock` gives the readings of `Date.now()` that stamp the entries, `now` the one
-- of the step.
pub mod Merging
pub mod Handing
pub mod Stages
pub mod Whole
use lsm_kv_store.Base.{
  suc, ℕ, zero, suc, ◌+◌, Bool, true, false, not, ◌||◌, Option, none, some, List, [], ◌∷◌, ◌++◌,
  length, map, keep, leb, ltb, if◌then◌else◌,
}
use lsm_kv_store.Base.Int.{ℤ, pos, ◌+ℤ◌, ◌-ℤ◌}
use lsm_kv_store.Text.{Text}
use lsm_kv_store.SsTable.{Run, SsTableMetadata, TableService}
use lsm_kv_store.Manifest.{ManifestState, add_sstable, remove_sstables, contains}
use lsm_kv_store.MergeIterator
use lsm_kv_store.Store.{LsmStore, SsTableState, metadata_of}
use lsm_kv_store.Store.Loading.{find_file}

pub record CompactionResult : Type 0 where
  pub new_sstable : SsTableMetadata
  pub compacted_file_numbers : List ℕ
  pub entries_written : ℕ
  pub entries_removed : ℤ
  pub duration_ms : ℤ

pub record CompactionStats : Type 0 where
  pub total_compactions : ℕ
  pub total_entries_compacted : ℕ
  pub total_entries_removed : ℤ
  pub is_compacting : Bool
  pub last_compaction_time : Option ℕ

-- The locals of a suspended `executeCompaction`, by the await that it waits at: `openFile`, the
-- merge, `writer.build`, `manifest.addSSTable`, `manifest.removeSSTables`, `deleteOldFiles`,
-- `onComplete`; `clearing` and `sweeping` are the two awaits where nothing was written.
pub data CompactionStage : Type 0 where
  resting : CompactionStage
  opening : List SsTableMetadata → CompactionStage
  merging : List SsTableMetadata → ℕ → List Run → CompactionStage
  clearing : List SsTableMetadata → CompactionStage
  sweeping : List SsTableMetadata → CompactionStage
  building : List SsTableMetadata → ℕ → Run → CompactionStage
  adding : List SsTableMetadata → SsTableMetadata → ℕ → CompactionStage
  removing : List SsTableMetadata → SsTableMetadata → ℕ → CompactionStage
  deleting : List SsTableMetadata → CompactionResult → CompactionStage
  handing : CompactionResult → CompactionStage

pub record CompactionManager : Type 0 where
  pub threshold : ℕ
  pub running : Bool
  pub compacting : Bool
  pub timer : Bool
  pub total_compactions : ℕ
  pub total_entries_compacted : ℕ
  pub total_entries_removed : ℤ
  pub last_compaction_time : Option ℕ
  pub start_time : ℕ
  pub stage : CompactionStage

abbrev pub numbers_of : List SsTableMetadata → List ℕ
numbers_of metas = map (λ (m : SsTableMetadata). m.file_number) metas

-- `sstableMetas.reduce((sum, m) => sum + m.entryCount, 0)`
unfoldable pub total_entries : List SsTableMetadata → ℕ
total_entries [] = 0
total_entries (m ∷ ms) = m.entry_count + total_entries ms

-- The entries that are added to the writer: new time stamps, and no tombstones.
unfoldable pub restamped : List (Text × Text) → (ℕ → ℕ) → Run
restamped [] clock = []
restamped ((k, v) ∷ pairs) clock =
    (k, record { value = v; timestamp = clock (length pairs); deleted = false })
    ∷ restamped pairs clock

-- `doCompaction` up to the first await: with fewer than two tables it returns at once.
unfoldable pub do_compaction : CompactionManager → ManifestState → ℕ → CompactionManager
do_compaction m manifest now =
    if m.compacting || ltb (length manifest.sstables) 2
    then m
    else record m { compacting = true; start_time = now; stage = opening manifest.sstables }

unfoldable pub check_and_trigger : CompactionManager → ManifestState → ℕ → CompactionManager
unfolding do_compaction
check_and_trigger m manifest now =
    if m.compacting || not m.running
    then m
    else if leb m.threshold (length manifest.sstables)
    then do_compaction m manifest now
    else m

unfoldable pub start : CompactionManager → ManifestState → ℕ → CompactionManager
unfolding check_and_trigger
start m manifest now =
    if m.running
    then m
    else record (check_and_trigger (record m { running = true }) manifest now) { timer = true }

-- `stop` up to its wait for the compaction under way.
unfoldable pub stop : CompactionManager → CompactionManager
stop m = if m.running then record m { running = false; timer = false } else m

unfoldable pub trigger_compaction : CompactionManager → ManifestState → ℕ → CompactionManager
unfolding do_compaction
trigger_compaction m manifest now =
    if m.compacting
    then m
    else if ltb (length manifest.sstables) 2
    then m
    else do_compaction m manifest now

unfoldable pub get_stats : CompactionManager → CompactionStats
get_stats m = record {
  total_compactions = m.total_compactions;
  total_entries_compacted = m.total_entries_compacted;
  total_entries_removed = m.total_entries_removed;
  is_compacting = m.compacting;
  last_compaction_time = m.last_compaction_time;
}

unfoldable pub update_stats : CompactionManager → ℕ → ℤ → ℕ → CompactionManager
update_stats m compacted removed now = record m {
  total_compactions = m.total_compactions + 1;
  total_entries_compacted = m.total_entries_compacted + compacted;
  total_entries_removed = m.total_entries_removed +ℤ removed;
  last_compaction_time = some now;
}

-- The end of `doCompaction`, by a return or by an error.
abbrev pub finish : CompactionManager → CompactionManager
finish m = record m { compacting = false; stage = resting }

-- `unlink` of the files of the tables; a file that is not there is passed over.
unfoldable pub delete_old_files : List (ℕ × Run) → List SsTableMetadata → List (ℕ × Run)
delete_old_files files metas = keep (λ f. not (contains (numbers_of metas) f.0)) files

module _ (service : TableService) where
  open service use {open_file, iterate_all}

  -- What the store and the compaction share: the manifest and the disk are the store's.
  pub record Engine : Type 0 where
    pub store : LsmStore service
    pub manager : CompactionManager

  -- The tables are opened one after the other; a file that is not there ends the compaction.
  unfoldable pub open_sources : List SsTableMetadata → List (ℕ × Run) → Option (List Run)
  unfolding find_file
  open_sources [] files = some []
  open_sources (m ∷ ms) files =
      let rest = open_sources ms files in
      elim (find_file service m.file_number files) [
        | none ↦ none
        | some run ↦ elim rest [
          | none ↦ none
          | some runs ↦ some (iterate_all (open_file m.file_number run) ∷ runs)
        ]
      ]

  -- `newSSTables.sort` by `b.metadata.fileNumber - a.metadata.fileNumber`.
  unfoldable pub insert_state :
      SsTableState service → List (SsTableState service) → List (SsTableState service)
  insert_state t [] = t ∷ []
  insert_state t (u ∷ us) =
      if ltb t.metadata.file_number u.metadata.file_number
      then u ∷ insert_state t us
      else t ∷ u ∷ us

  unfoldable pub sort_states : List (SsTableState service) → List (SsTableState service)
  unfolding insert_state
  sort_states [] = []
  sort_states (t ∷ ts) = insert_state t (sort_states ts)

  unfoldable pub handle_compaction_complete :
      LsmStore service → CompactionResult → Option (LsmStore service)
  unfolding sort_states find_file
  handle_compaction_complete s result =
      let kept =
        keep
          (λ (t : SsTableState service).
            not (contains result.compacted_file_numbers t.metadata.file_number))
          s.sstables in
      elim (find_file service result.new_sstable.file_number s.files) [
        | none ↦ none
        | some run ↦
            let new : SsTableState service = record {
              metadata = result.new_sstable;
              reader = open_file result.new_sstable.file_number run;
            } in
            some (record s { sstables = sort_states (kept ++ new ∷ []) })
      ]

  abbrev pub step_from : Engine → (ℕ → ℕ) → ℕ → CompactionStage → Engine
  step_from e clock now resting = e
  step_from e clock now (opening metas) = elim (open_sources metas e.store.files) [
    | none ↦ record e { manager = finish e.manager }
    | some runs ↦ record e {
      manager = record e.manager { stage = merging metas e.store.manifest.next_file_number runs };
    }
  ]
  step_from e clock now (merging metas number runs) =
      elim (restamped (MergeIterator.iterate false runs) clock) [
        | [] ↦ record e { manager = record e.manager { stage = clearing metas } }
        | x ∷ run ↦ record e {
          manager = record e.manager { stage = building metas number (x ∷ run) };
        }
      ]
  step_from e clock now (clearing metas) = record e {
    store = record e.store { manifest = remove_sstables e.store.manifest (numbers_of metas) };
    manager = record e.manager { stage = sweeping metas };
  }
  step_from e clock now (sweeping metas) = record e {
    store = record e.store { files = delete_old_files e.store.files metas };
    manager = finish (update_stats e.manager 0 (pos (total_entries metas)) now);
  }
  step_from e clock now (building metas number run) = record e {
    store = record e.store { files = (number, run) ∷ e.store.files };
    manager = record e.manager { stage = adding metas (metadata_of number run) (length run) };
  }
  step_from e clock now (adding metas new written) = record e {
    store = record e.store { manifest = add_sstable e.store.manifest new };
    manager = record e.manager { stage = removing metas new written };
  }
  step_from e clock now (removing metas new written) = record e {
    store = record e.store { manifest = remove_sstables e.store.manifest (numbers_of metas) };
    manager = record e.manager {
      stage = deleting metas (record {
        new_sstable = new;
        compacted_file_numbers = numbers_of metas;
        entries_written = written;
        entries_removed = pos (total_entries metas) -ℤ pos written;
        duration_ms = pos now -ℤ pos e.manager.start_time;
      });
    };
  }
  step_from e clock now (deleting metas result) = record e {
    store = record e.store { files = delete_old_files e.store.files metas };
    manager = record (update_stats e.manager result.entries_written result.entries_removed now) {
      stage = handing result;
    };
  }
  step_from e clock now (handing result) = elim (handle_compaction_complete e.store result) [
    | none ↦ record e { manager = finish e.manager }
    | some store ↦ record e { store = store; manager = finish e.manager }
  ]

  -- One await of `executeCompaction`.
  unfoldable pub step : Engine → (ℕ → ℕ) → ℕ → Engine
  step e clock now = step_from e clock now e.manager.stage

  -- A compaction with nothing in between: seven awaits, or four where nothing is written.
  unfoldable pub run_steps : ℕ → Engine → (ℕ → ℕ) → ℕ → Engine
  run_steps zero e clock now = e
  run_steps (suc n) e clock now = run_steps n (step e clock now) clock now
