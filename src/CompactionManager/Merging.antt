-- ===== src/CompactionManager/Merging.antt =====
-- What a compaction writes: the merge of the tables, without tombstones and with new time stamps.
use lsm_kv_store.Base.{ℕ, ◌≡◌, refl, ◌∙◌, false, Option, none, some, List, [], ◌∷◌, arith, All, map}
use lsm_kv_store.Text.{Text}
use lsm_kv_store.Assoc.{find, IsSorted, Above}
use lsm_kv_store.SsTable.{Run, SsTableMetadata, TableService}
use lsm_kv_store.MemTable.{MemTableEntry}
use lsm_kv_store.MergeIterator
use lsm_kv_store.MergeIterator.Hits.{hit, visible}
use lsm_kv_store.MergeIterator.Merged.{iterate-eq-hit}
use lsm_kv_store.Store.{SsTableState, live}
use lsm_kv_store.Store.View.{view_tables}
use lsm_kv_store.Store.Loading.{find_file}
use lsm_kv_store.CompactionManager.{restamped, open_sources}

find-restamped :
    (key : Text) (pairs : List (Text × Text)) (clock : ℕ → ℕ)
    → live (find key (restamped pairs clock)) ≡ find key pairs
unfolding find restamped
find-restamped key [] clock = refl
find-restamped key ((k, v) ∷ pairs) clock = ground (arith, find-restamped key pairs clock)

Above-restamped :
    (j : Text) (pairs : List (Text × Text)) (clock : ℕ → ℕ)
    → Above j pairs
    → Above j (restamped pairs clock)
unfolding restamped
Above-restamped j [] clock a = tt
Above-restamped j ((k, v) ∷ pairs) clock a = (a.0, Above-restamped j pairs clock a.1)

restamped-IsSorted :
    (pairs : List (Text × Text)) (clock : ℕ → ℕ) → IsSorted pairs → IsSorted (restamped pairs clock)
unfolding restamped
restamped-IsSorted [] clock s = tt
restamped-IsSorted ((k, v) ∷ pairs) clock s =
    (Above-restamped k pairs clock s.0, restamped-IsSorted pairs clock s.1)

visible-eq-live : (o : Option MemTableEntry) → visible false o ≡ live o
visible-eq-live none = refl
visible-eq-live (some e) = ground arith

-- The run that a compaction writes from sorted tables, newest first, is sorted, holds no tombstone,
-- and has under each key the value of the newest table with an entry for the key, if that entry is
-- not a tombstone.
pub compacted-eq-live :
    (runs : List Run) (clock : ℕ → ℕ)
    → All IsSorted runs
    → IsSorted (restamped (MergeIterator.iterate false runs) clock)
      × ((key : Text)
          → live (find key (restamped (MergeIterator.iterate false runs) clock))
            ≡ live (hit key runs))
compacted-eq-live runs clock s =
    let merged = MergeIterator.iterate false runs in
    let holds = iterate-eq-hit false runs s in
    (
      restamped-IsSorted merged clock holds.0,
      λ key. find-restamped key merged clock ∙ holds.1 key ∙ visible-eq-live (hit key runs),
    )

module _ (service : TableService) where
  open service use {contents, open_file, IsStorable, contents-open_file, iterate_all-eq}

  -- The file of a table is on the disk, and holds what the open reader reads.
  pub record IsStored (files : List (ℕ × Run)) (t : SsTableState service) : Type 0 where
    pub run : Run
    pub on_disk : find_file service t.metadata.file_number files ≡ some run
    pub sorted : IsSorted run
    pub storable : IsStorable run
    pub read : contents t.reader ≡ run

  abbrev pub runs_of : List (SsTableState service) → List Run
  runs_of ts = map (λ (t : SsTableState service). contents t.reader) ts

  abbrev pub metas_of : List (SsTableState service) → List SsTableMetadata
  metas_of ts = map (λ (t : SsTableState service). t.metadata) ts

  pub open_sources-eq-runs_of :
      (ts : List (SsTableState service)) (files : List (ℕ × Run))
      → All (IsStored files) ts
      → open_sources service (metas_of ts) files ≡ some (runs_of ts)
  unfolding open_sources
  open_sources-eq-runs_of [] files s = refl
  open_sources-eq-runs_of (t ∷ ts) files s =
      rw
        (
          open_sources,
          s.0.on_disk,
          open_sources-eq-runs_of ts files s.1,
          iterate_all-eq (open_file t.metadata.file_number s.0.run) (
              rw (contents-open_file t.metadata.file_number s.0.run s.0.sorted s.0.storable)
                s.0.sorted),
          contents-open_file t.metadata.file_number s.0.run s.0.sorted s.0.storable,
          s.0.read,
        )
        refl

  pub runs_of-IsSorted :
      (ts : List (SsTableState service)) (files : List (ℕ × Run))
      → All (IsStored files) ts
      → All IsSorted (runs_of ts)
  runs_of-IsSorted [] files s = tt
  runs_of-IsSorted (t ∷ ts) files s = (rw s.0.read s.0.sorted, runs_of-IsSorted ts files s.1)

  pub hit-runs_of :
      (ts : List (SsTableState service)) (key : Text)
      → hit key (runs_of ts) ≡ view_tables service ts key
  unfolding hit view_tables
  hit-runs_of [] key = refl
  hit-runs_of (t ∷ ts) key = ground (arith, hit-runs_of ts key)
