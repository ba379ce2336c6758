-- ===== src/Tests/Compactions.antt =====
-- A compaction of two tables, and what a flush during a compaction does.
use lsm_kv_store.Base.{
  sym, ℕ, ◌≡◌, refl, true, false, List, [], ◌∷◌, arith, All, none, some, ap, ◌∙◌, length, ◌+◌,
}
use lsm_kv_store.Base.Int.{pos, ◌-ℤ◌}
use lsm_kv_store.Text.{Text, compare_keys}
use lsm_kv_store.Assoc.{find, IsSorted}
use lsm_kv_store.SsTable.{Run, TableService}
use lsm_kv_store.SortedMap
use lsm_kv_store.MemTable
use lsm_kv_store.MemTable.Entries.{stamped}
use lsm_kv_store.MergeIterator
use lsm_kv_store.MergeIterator.Hits.{hit}
use lsm_kv_store.SsTableWriter.{write_entries}
use lsm_kv_store.SsTableSerializer.{serialize_entry}
use lsm_kv_store.Bytes.{write_u64, write_text_16, write_text_32}
use lsm_kv_store.Manifest.{add_sstable, remove_sstables}
use lsm_kv_store.Store.Loading.{find_file}
use lsm_kv_store.Store
use lsm_kv_store.Store.{LsmStore, SsTableState, metadata_of, live, ok}
use lsm_kv_store.CompactionManager.{
  CompactionManager, CompactionResult, Engine, resting, opening, handle_compaction_complete,
  restamped, update_stats, total_entries, open_sources, delete_old_files, step, run_steps,
  trigger_compaction,
}
use lsm_kv_store.CompactionManager.Merging.{IsStored, runs_of, compacted-eq-live, hit-runs_of}
use lsm_kv_store.CompactionManager.Handing.{IsHandOver, get-handle_compaction_complete}
use lsm_kv_store.CompactionManager.Stages.{IsCompactable, IsOver}
use lsm_kv_store.CompactionManager.Whole.{IsStorableIfAny, get-run_steps}
use lsm_kv_store.Tests.Samples.{ascii, apple, berry, cherry, date}
use lsm_kv_store.Tests.Stores.{plain_tables, ascii_tables, store_on}

abbrev newer : Run
newer = (apple, stamped [] true 9) ∷ (berry, stamped date false 9) ∷ []

abbrev older : Run
older =
    (apple, stamped date false 3)
    ∷ (berry, stamped apple false 3)
    ∷ (cherry, stamped date false 3)
    ∷ []

abbrev table_on : (service : TableService) → ℕ → Run → SsTableState service
table_on service n run = record { metadata = metadata_of n run; reader = service.open_file n run }

abbrev tables_on : (service : TableService) → List (SsTableState service)
tables_on service = table_on service 4 newer ∷ table_on service 2 older ∷ []

abbrev two_tables_on : (service : TableService) → LsmStore service
two_tables_on service = record (store_on service) {
  manifest = record {
    sstables = metadata_of 4 newer ∷ metadata_of 2 older ∷ [];
    next_file_number = 5;
    last_flushed_sequence = 0;
    version = 2;
  };
  files = (4, newer) ∷ (2, older) ∷ [];
  sstables = tables_on service;
}

abbrev two_tables : LsmStore ascii_tables
two_tables = two_tables_on ascii_tables

abbrev tables : List (SsTableState ascii_tables)
tables = tables_on ascii_tables

newer-IsSorted : IsSorted newer
newer-IsSorted = unfold compare_keys in ((refl, tt), (tt, tt))

older-IsSorted : IsSorted older
older-IsSorted = unfold compare_keys in ((refl, (refl, tt)), ((refl, tt), (tt, tt)))

abbrev idle_manager : CompactionManager
idle_manager = record {
  threshold = 2;
  running = true;
  compacting = false;
  timer = true;
  total_compactions = 0;
  total_entries_compacted = 0;
  total_entries_removed = pos 0;
  last_compaction_time = none;
  start_time = 0;
  stage = resting;
}

-- A compaction of the two tables, at its first await.
abbrev started_on : (service : TableService) → Engine service
started_on service = record {
  store = two_tables_on service;
  manager = record idle_manager {
    compacting = true;
    start_time = 20;
    stage = opening (metadata_of 4 newer ∷ metadata_of 2 older ∷ []);
  };
}

abbrev started : Engine ascii_tables
started = started_on ascii_tables

triggered : trigger_compaction idle_manager two_tables.manifest 20 ≡ started.manager
unfolding trigger_compaction
triggered = refl

newer-IsStorable : ascii_tables.IsStorable newer
unfolding write_entries serialize_entry write_u64 write_text_16 write_text_32 compare_keys
newer-IsStorable = refl

older-IsStorable : ascii_tables.IsStorable older
unfolding write_entries serialize_entry write_u64 write_text_16 write_text_32 compare_keys
older-IsStorable = refl

two_tables-IsStored : All (IsStored ascii_tables two_tables.files) tables
two_tables-IsStored = (
  record {
    run = newer;
    on_disk = unfold find_file in refl;
    sorted = newer-IsSorted;
    storable = newer-IsStorable;
    read = ascii_tables.contents-open_file 4 newer newer-IsSorted newer-IsStorable;
  },
  (
    record {
      run = older;
      on_disk = unfold find_file in refl;
      sorted = older-IsSorted;
      storable = older-IsStorable;
      read = ascii_tables.contents-open_file 2 older older-IsSorted older-IsStorable;
    },
    tt,
  ),
)

started-IsCompactable : IsCompactable ascii_tables started
started-IsCompactable = record {
  initialized = refl;
  at_start = refl;
  stored = two_tables-IsStored;
  fresh = (omega arith, (omega arith, tt));
}

-- What the compaction of the two tables writes.
abbrev merged : Run
merged = (berry, stamped date false 1) ∷ (cherry, stamped date false 0) ∷ []

merging : restamped (MergeIterator.iterate false (newer ∷ older ∷ [])) (λ n. n) ≡ merged
unfolding restamped MergeIterator.iterate compare_keys
merging = refl

merged-IsStorable : ascii_tables.IsStorable merged
unfolding write_entries serialize_entry write_u64 write_text_16 write_text_32 compare_keys
merged-IsStorable = refl

runs_of-tables : runs_of ascii_tables tables ≡ newer ∷ older ∷ []
runs_of-tables =
    rw
      (
        ascii_tables.contents-open_file 4 newer newer-IsSorted newer-IsStorable,
        ascii_tables.contents-open_file 2 older older-IsSorted older-IsStorable,
      )
      refl

written-IsStorable :
    IsStorableIfAny ascii_tables
      (restamped (MergeIterator.iterate false (runs_of ascii_tables tables)) (λ n. n))
written-IsStorable = rw (runs_of-tables, merging) merged-IsStorable

get-run_steps_example :
    IsOver ascii_tables (run_steps ascii_tables 7 started (λ n. n) 21).manager
    × ((key : Text)
        → Store.get ascii_tables (run_steps ascii_tables 7 started (λ n. n) 21).store key
          ≡ Store.get ascii_tables two_tables key)
get-run_steps_example =
    get-run_steps ascii_tables started (λ n. n) 21 started-IsCompactable written-IsStorable

-- A table that a flush added while the compaction ran.
abbrev flushed : Run
flushed = (apple, stamped cherry false 30) ∷ []

abbrev handed : LsmStore ascii_tables
handed = record two_tables {
  files = (5, merged) ∷ (6, flushed) ∷ [];
  sstables = table_on ascii_tables 6 flushed ∷ tables;
}

abbrev result : CompactionResult
result = record {
  new_sstable = metadata_of 5 merged;
  compacted_file_numbers = 4 ∷ 2 ∷ [];
  entries_written = 2;
  entries_removed = pos 3;
  duration_ms = pos 10;
}

handed-IsHandOver :
    IsHandOver ascii_tables handed result (table_on ascii_tables 6 flushed ∷ []) tables merged
handed-IsHandOver =
    let written =
      rw merging at
        (compacted-eq-live (newer ∷ older ∷ []) (λ n. n) (newer-IsSorted, (older-IsSorted, tt))) in
    record {
      split = refl;
      spared = (refl, tt);
      compacted = (refl, (refl, tt));
      descending = (tt, tt);
      above = (omega arith, tt);
      on_disk = unfold find_file in refl;
      sorted = written.0;
      storable = merged-IsStorable;
      same = λ key.
          written.1 key
          ∙ ap live (ap (hit key) (sym runs_of-tables) ∙ hit-runs_of ascii_tables tables key);
    }

get-handle_compaction_complete_example :
    (s' : LsmStore ascii_tables) × (handle_compaction_complete ascii_tables handed result ≡ some s')
    × (length s'.sstables ≡ length (table_on ascii_tables 6 flushed ∷ []) + 1)
    × ((key : Text) → Store.get ascii_tables s' key ≡ Store.get ascii_tables handed key)
get-handle_compaction_complete_example =
    get-handle_compaction_complete ascii_tables handed result (table_on ascii_tables 6 flushed ∷ [])
      tables merged refl handed-IsHandOver

-- A flush that ends while the compaction opens its tables takes number 5, and the compaction then
-- writes its older data under number 6.
abbrev overtaken : Engine plain_tables
overtaken = record (started_on plain_tables) {
  store = record (two_tables_on plain_tables) {
    manifest =
        add_sstable (two_tables_on plain_tables).manifest
          (metadata_of 5 ((berry, stamped cherry false 30) ∷ []));
    files = (5, (berry, stamped cherry false 30) ∷ []) ∷ (two_tables_on plain_tables).files;
    sstables =
        table_on plain_tables 5 ((berry, stamped cherry false 30) ∷ []) ∷ tables_on plain_tables;
  };
}

before : Store.get plain_tables overtaken.store berry ≡ ok (some cherry)
unfolding Store.get compare_keys MemTable.get_entry SortedMap.get find
before = refl

-- The flushed value is lost behind the older one.
after :
    Store.get plain_tables (run_steps plain_tables 7 overtaken (λ n. n) 31).store berry
    ≡ ok (some date)
unfolding run_steps step open_sources find_file handle_compaction_complete delete_old_files
    update_stats restamped total_entries MergeIterator.iterate add_sstable remove_sstables Store.get
    compare_keys ◌-ℤ◌ MemTable.get_entry SortedMap.get find
after = refl
