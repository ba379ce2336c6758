-- ===== src/MergeIterator.antt =====
-- src/storage/iterator/MergeIterator.ts and MergeIteratorTypes.ts: the merge of sorted sources. A
-- source is the list of what it has yet to give, whether it is an array or an asynchronous reader.
pub mod Cursors
pub mod Filled
pub mod Duplicates
pub mod Hits
pub mod Rounds
pub mod Merged
use lsm_kv_store.Base.{
  ℕ, zero, suc, ◌+◌, Bool, true, false, not, ◌&&◌, Option, none, some, List, [], ◌∷◌, length, ltb,
  Ordering, if◌then◌else◌,
}
use lsm_kv_store.Text.{Text, compare_keys, eq_text}
use lsm_kv_store.MemTable.{MemTableEntry}
use lsm_kv_store.SsTable.{Run}
use lsm_kv_store.MinHeap

pub record HeapEntry : Type 0 where
  pub key : Text
  pub entry : MemTableEntry
  pub source_index : ℕ

pub record MergeIterator : Type 0 where
  pub sources : List Run
  pub heap : List HeapEntry

-- `compareHeapEntries(a, b) < 0`: by key, and then the earlier source first.
unfoldable pub compare_heap_entries : HeapEntry → HeapEntry → Bool
compare_heap_entries a b = elim (compare_keys a.key b.key) [
  | Ordering.lt ↦ true
  | Ordering.eq ↦ ltb a.source_index b.source_index
  | Ordering.gt ↦ false
]

-- `next` of the source at an index: its entry, and the sources after it.
unfoldable pub next_of : List Run → ℕ → Option (Text × MemTableEntry) × List Run
next_of [] i = (none, [])
next_of ([] ∷ sources) zero = (none, [] ∷ sources)
next_of ((e ∷ run) ∷ sources) zero = (some e, run ∷ sources)
next_of (run ∷ sources) (suc i) = let (e, rest) = next_of sources i in (e, run ∷ rest)

unfoldable pub advance_source : MergeIterator → ℕ → MergeIterator
unfolding next_of MinHeap.insert compare_heap_entries
advance_source m i =
    let (next, sources) = next_of m.sources i in
    elim next [
      | none ↦ record m { sources = sources }
      | some e ↦ record {
        sources = sources;
        heap =
            MinHeap.insert compare_heap_entries m.heap
              (record { key = e.0; entry = e.1; source_index = i });
      }
    ]

-- The loop of `initializeHeap` with `n` sources to go, from index `i`.
unfoldable pub initialize_heap : MergeIterator → ℕ → ℕ → MergeIterator
unfolding advance_source
initialize_heap m zero i = m
initialize_heap m (suc n) i = initialize_heap (advance_source m i) n (i + 1)

unfoldable pub total : List Run → ℕ
total [] = 0
total (run ∷ sources) = length run + total sources

-- The entries that the iterator has yet to look at: each round takes one of them.
abbrev pub remaining : MergeIterator → ℕ
remaining m = length m.heap + total m.sources

-- The inner loop: older entries of the same key are taken off, and their sources moved on.
unfoldable pub skip_duplicates : ℕ → MergeIterator → Text → MergeIterator
unfolding advance_source MinHeap.extract_min
skip_duplicates zero m key = m
skip_duplicates (suc fuel) m key =
    let (least, heap) = MinHeap.extract_min compare_heap_entries m.heap in
    elim least [
      | none ↦ m
      | some d ↦
          let rest =
            skip_duplicates fuel (advance_source (record m { heap = heap }) d.source_index) key in
          if eq_text d.key key then rest else m
    ]

-- `iterate` over a heap that is filled; the pairs are those that it yields.
unfoldable pub iterate_from : ℕ → Bool → MergeIterator → List (Text × Text)
unfolding advance_source skip_duplicates total MinHeap.extract_min
iterate_from zero include_tombstones m = []
iterate_from (suc fuel) include_tombstones m =
    let (least, heap) = MinHeap.extract_min compare_heap_entries m.heap in
    elim least [
      | none ↦ []
      | some winner ↦
          let skipped = skip_duplicates (remaining m) (record m { heap = heap }) winner.key in
          let rest =
            iterate_from fuel include_tombstones (advance_source skipped winner.source_index) in
          if winner.entry.deleted && not include_tombstones
          then rest
          else (winner.key, winner.entry.value) ∷ rest
    ]

unfoldable pub iterate : Bool → List Run → List (Text × Text)
unfolding initialize_heap total iterate_from
iterate include_tombstones sources =
    iterate_from (total sources + 1) include_tombstones
      (initialize_heap (record { sources = sources; heap = [] }) (length sources) 0)
