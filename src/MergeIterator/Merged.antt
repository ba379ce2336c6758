-- ===== src/MergeIterator/Merged.antt =====
-- `iterate`: the merge of sorted sources yields each key once, in order, from the first source that
-- has it.
use mathlib.Core.List.Perm
use lsm_kv_store.Base.{
  ℕ, zero, suc, ◌+◌, ◌≡◌, refl, sym, ap, ◌∙◌, Bool, true, false, some, List, [], ◌∷◌, length, arith,
  All, ◌<◌, Option-cases, inl, inr, if◌then◌else◌, ◌&&◌, not,
}
use lsm_kv_store.Text.{Text, ◌≺◌, lt_of_gt, eq_of_compare}
use lsm_kv_store.Assoc.{IsSorted, Above, find, find-Above}
use lsm_kv_store.MemTable.{MemTableEntry}
use lsm_kv_store.SsTable.{Run}
use lsm_kv_store.MinHeap
use lsm_kv_store.MergeIterator.{
  HeapEntry, MergeIterator, compare_heap_entries, iterate_from, total, initialize_heap, iterate,
  advance_source,
}
use lsm_kv_store.MergeIterator.Cursors.{Cursor, entry_of, heads, rests, head_at, is_due, raise}
use lsm_kv_store.MergeIterator.Filled.{
  IsFilled, IsTaken, advance_source-IsFilled, extract_min-IsTaken,
}
use lsm_kv_store.MergeIterator.Duplicates.{dropped, AllSorted, HasLeast}
use lsm_kv_store.MergeIterator.Hits.{
  hit, visible, runs, AllUp, AllAbove, dropped-AllUp, dropped-AllSorted, dropped-AllAbove,
  AllAbove-dropped, hit-dropped, hit-AllAbove, hit_winner, head_above, ended-AllAbove,
  total-dropped_lt,
}
use lsm_kv_store.MergeIterator.Rounds.{after, after-IsFilled}

-- The list is sorted, holds what the first sources hold, and nothing before their entries.
record IsMerge (include : Bool) (cs : List Cursor) (l : List (Text × Text)) : Type 0 where
  sorted : IsSorted l
  above : (j : Text) → AllAbove j cs → Above j l
  found : (j : Text) → find j l ≡ visible include (hit j (runs cs))

end-IsMerge :
    (include : Bool) (cs : List Cursor) → AllUp cs → heads 0 cs ≡ [] → IsMerge include cs []
unfolding find
end-IsMerge include cs u h = record {
  sorted = tt;
  above = λ j a. tt;
  found = λ j. rw (hit-AllAbove j cs (ended-AllAbove j 0 cs u h)) refl;
}

-- The winner before the merge of what is left, or that merge alone.
winner-IsMerge :
    (include : Bool) (cs : List Cursor) (x : HeapEntry) (l : List (Text × Text))
    → AllUp cs
    → AllSorted cs
    → head_at x.source_index cs ≡ some (x.key, x.entry)
    → HasLeast x.key cs
    → hit x.key (runs cs) ≡ some x.entry
    → IsMerge include (dropped x.key cs) l
    → IsMerge include cs (if x.entry.deleted && not include then l else (x.key, x.entry.value) ∷ l)
unfolding find
winner-IsMerge include cs x l u s h least first v =
    let later = v.above x.key (AllAbove-dropped x.key cs u s least) in
    record {
      sorted = ground (arith, v.sorted, later);
      above = λ j a. ground (
        arith,
        v.above j (dropped-AllAbove j x.key cs a),
        head_above j x.source_index cs (x.key, x.entry) a h,
      );
      found = λ j. ground (
        arith,
        v.found j,
        hit-dropped j x.key cs,
        first,
        eq_of_compare j x.key,
        find-Above j l,
        later,
      );
    }

-- The first source comes first among those that have a key.
first_of_key :
    (x : HeapEntry) (i : ℕ) (e : Text × MemTableEntry)
    → i < x.source_index
    → compare_heap_entries (entry_of i e) x ≡ false
    → x.key ≺ e.0
unfolding compare_heap_entries
first_of_key x i e p h = ground (arith, lt_of_gt e.0 x.key)

-- Fuel above the number of entries is enough.
iterate_from-IsMerge :
    (fuel : ℕ) (include : Bool) (m : MergeIterator) (cs : List Cursor)
    → IsFilled m cs
    → AllUp cs
    → AllSorted cs
    → total (runs cs) < fuel
    → IsMerge include cs (iterate_from fuel include m)
unfolding iterate_from
iterate_from-IsMerge zero include m cs f u s n = absurd (omega arith)
iterate_from-IsMerge (suc fuel) include m cs f u s n =
    let o = MinHeap.extract_min compare_heap_entries m.heap in
    let taken = extract_min-IsTaken m cs f in
    elim (Option-cases o.0) [
      | inl none_left ↦
          rw (iterate_from, none_left) (end-IsMerge include cs u (rw (IsTaken, none_left) at taken))
      | inr (x, some_left) ↦
          let t : IsTaken m cs (some x, o.1) = rw (IsTaken, some_left) at taken in
          let (l, next) = after-IsFilled m cs x o.1 f u s t in
          let first =
            hit_winner x.key x.entry x.source_index cs u s t.0
              (λ i e p q. first_of_key x i e p (t.2 i e q)) in
          let fewer = total-dropped_lt x.key x.source_index cs x.entry t.0 in
          let rest =
            iterate_from-IsMerge fuel include (after m x o.1) (dropped x.key cs) next
              (dropped-AllUp x.key cs u) (dropped-AllSorted x.key cs s) (omega (arith, fewer)) in
          rw (iterate_from, some_left)
            (winner-IsMerge include cs x (iterate_from fuel include (after m x o.1)) u s t.0 l first
              rest)
    ]

-- The sources before the index have been moved on.
begun : ℕ → List Run → List Cursor
begun i [] = []
begun zero (run ∷ runs) = (false, run) ∷ begun zero runs
begun (suc i) (run ∷ runs) = (true, run) ∷ begun i runs

heads-begun : (j : ℕ) (sources : List Run) → heads j (begun 0 sources) ≡ []
unfolding heads begun
heads-begun j [] = refl
heads-begun j (run ∷ sources) = heads-begun (j + 1) sources

rests-begun : (sources : List Run) → rests (begun 0 sources) ≡ sources
unfolding rests begun
rests-begun [] = refl
rests-begun (run ∷ sources) = ap (◌∷◌ run) (rests-begun sources)

raise-begun : (i : ℕ) (sources : List Run) → raise i (begun i sources) ≡ begun (suc i) sources
unfolding raise begun
raise-begun i [] = refl
raise-begun zero (run ∷ sources) = refl
raise-begun (suc i) (run ∷ sources) = ap (◌∷◌ (true, run)) (raise-begun i sources)

is_due-begun : (i : ℕ) (sources : List Run) → i < length sources → is_due i (begun i sources) ≡ true
unfolding is_due begun
is_due-begun i [] h = absurd (omega arith)
is_due-begun zero (run ∷ sources) h = refl
is_due-begun (suc i) (run ∷ sources) h = is_due-begun i sources (omega arith)

runs-begun : (i : ℕ) (sources : List Run) → runs (begun i sources) ≡ sources
unfolding runs begun
runs-begun i [] = refl
runs-begun zero (run ∷ sources) = ap (◌∷◌ run) (runs-begun zero sources)
runs-begun (suc i) (run ∷ sources) = ap (◌∷◌ run) (runs-begun i sources)

begun-AllUp : (sources : List Run) → AllUp (begun (length sources) sources)
unfolding begun
begun-AllUp [] = tt
begun-AllUp (run ∷ sources) = (refl, begun-AllUp sources)

begun-AllSorted : (i : ℕ) (sources : List Run) → All IsSorted sources → AllSorted (begun i sources)
unfolding begun
begun-AllSorted i [] s = tt
begun-AllSorted zero (run ∷ sources) s = (s.0, begun-AllSorted zero sources s.1)
begun-AllSorted (suc i) (run ∷ sources) s = (s.0, begun-AllSorted i sources s.1)

initialize_heap-IsFilled :
    (n i : ℕ) (m : MergeIterator) (sources : List Run)
    → i + n ≡ length sources
    → IsFilled m (begun i sources)
    → IsFilled (initialize_heap m n i) (begun (length sources) sources)
unfolding initialize_heap
initialize_heap-IsFilled zero i m sources h f =
    let whole : length sources ≡ i = omega arith in rw whole f
initialize_heap-IsFilled (suc n) i m sources h f =
    let due = is_due-begun i sources (omega arith) in
    let one_more : suc i ≡ i + 1 = omega arith in
    let next =
      rw (raise-begun i sources, one_more) at
        (advance_source-IsFilled m (begun i sources) i f due) in
    initialize_heap-IsFilled n (i + 1) (advance_source m i) sources (omega arith) next

iterate-IsMerge :
    (include : Bool) (sources : List Run)
    → All IsSorted sources
    → IsMerge include (begun (length sources) sources) (iterate include sources)
unfolding iterate
iterate-IsMerge include sources s =
    let start : MergeIterator = record { sources = sources; heap = [] } in
    let empty : IsFilled start (begun 0 sources) = record {
      sources = sym (rests-begun sources);
      ordered = λ c p q. absurd (omega arith);
      holds = rw (heads-begun 0 sources) Perm.rfl;
    } in
    iterate_from-IsMerge (total sources + 1) include (initialize_heap start (length sources) 0)
      (begun (length sources) sources)
      (initialize_heap-IsFilled (length sources) 0 start sources (omega arith) empty)
      (begun-AllUp sources) (begun-AllSorted (length sources) sources s)
      (rw (runs-begun (length sources) sources) (omega arith))

-- The merge of sources that are sorted by key is sorted by key without repeats, and holds under
-- each key the value that the first source with that key has for it: a tombstone there hides the
-- key unless tombstones are included, in which case the key is yielded with its empty value.
pub iterate-eq-hit :
    (include : Bool) (sources : List Run)
    → All IsSorted sources
    → IsSorted (iterate include sources)
      × ((key : Text) → find key (iterate include sources) ≡ visible include (hit key sources))
iterate-eq-hit include sources s =
    let v = iterate-IsMerge include sources s in
    (
      v.sorted,
      λ key.
          v.found key ∙ ap (λ r. visible include (hit key r)) (runs-begun (length sources) sources),
    )
