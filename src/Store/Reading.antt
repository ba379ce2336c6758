-- ===== src/Store/Reading.antt =====
-- src/storage/LSMStore.ts, `readKeyRange`: the sources of a range query and the loop over their
-- merge. The pairs are those that the generator yields until it ends.
use lsm_kv_store.Base.{
  ℕ, ◌+◌, false, not, ◌||◌, Option, none, some, List, [], ◌∷◌, ◌++◌, leb, if◌then◌else◌,
}
use lsm_kv_store.Text.{Text, lt_text, gt_text}
use lsm_kv_store.SsTable.{Run, TableService}
use lsm_kv_store.MemTable
use lsm_kv_store.MemTable.{MemTable}
use lsm_kv_store.MergeIterator
use lsm_kv_store.Store.{LsmStore, SsTableState, Result, ok, err, not_initialized}

-- `if (entries.length > 0) sources.push(entries)`
abbrev pub non_empty : Run → List Run
non_empty [] = []
non_empty (e ∷ run) = (e ∷ run) ∷ []

abbrev pub immutable_range : Option MemTable → Text → Text → Run
immutable_range none start end = []
immutable_range (some t) start end = MemTable.get_range t start end

-- The loop over the merged pairs: the limit is looked at after a pair is yielded.
unfoldable pub limited : Option ℕ → ℕ → List (Text × Text) → List (Text × Text)
limited limit count [] = []
limited none count (p ∷ ps) = p ∷ limited none (count + 1) ps
limited (some n) count (p ∷ ps) =
    let rest = limited (some n) (count + 1) ps in p ∷ (if leb n (count + 1) then [] else rest)

module _ (service : TableService) where
  open service use {iterate as iterate_table}

  unfoldable pub table_ranges : List (SsTableState service) → Text → Text → List Run
  table_ranges [] start end = []
  table_ranges (t ∷ ts) start end =
      let rest = table_ranges ts start end in
      if lt_text t.metadata.last_key start || gt_text t.metadata.first_key end
      then rest
      else iterate_table t.reader start end ∷ rest

  -- Newest first: the memtables, and then the tables.
  abbrev pub range_sources : LsmStore service → Text → Text → List Run
  range_sources s start end =
      non_empty (MemTable.get_range s.active start end)
      ++ (non_empty (immutable_range s.immutable start end) ++ table_ranges s.sstables start end)

  unfoldable pub read_key_range :
      LsmStore service → Text → Text → Option ℕ → Result (List (Text × Text))
  unfolding table_ranges limited MergeIterator.iterate
  read_key_range s start end limit =
      if not s.initialized
      then err not_initialized
      else if gt_text start end
      then ok []
      else ok (limited limit 0 (MergeIterator.iterate false (range_sources s start end)))
