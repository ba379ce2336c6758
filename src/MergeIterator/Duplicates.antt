-- ===== src/MergeIterator/Duplicates.antt =====
-- `skipDuplicates` takes every entry of a key off the sources that stand in the heap.
use lsm_kv_store.Base.{
  ℕ, zero, suc, ◌+◌, ◌≡◌, ◌≢◌, refl, ap, true, false, none, some, List, [], ◌∷◌, arith, All, ◌<◌,
  Option-cases, inl, inr, if◌then◌else◌, Bool-cases, Ordering,
}
use lsm_kv_store.Text.{Text, compare_keys, gt_of_lt, lt_of_gt, eq_of_compare, ≺-trans, eq_text}
use lsm_kv_store.Assoc.{IsSorted}
use lsm_kv_store.MemTable.{MemTableEntry}
use lsm_kv_store.MinHeap
use lsm_kv_store.MergeIterator.{
  HeapEntry, MergeIterator, compare_heap_entries, advance_source, skip_duplicates,
}
use lsm_kv_store.MergeIterator.Cursors.{Cursor, entry_of, heads, head_at, is_due, raise, lower}
use lsm_kv_store.MergeIterator.Filled.{
  IsFilled, IsTaken, advance_source-IsFilled, extract_min-IsTaken,
}

-- The sources that stand in the heap without a first entry under `k`.
unfoldable pub dropped : Text → List Cursor → List Cursor
dropped k [] = []
dropped k ((true, []) ∷ cs) = (true, []) ∷ dropped k cs
dropped k ((true, e ∷ run) ∷ cs) = (true, if eq_text e.0 k then run else e ∷ run) ∷ dropped k cs
dropped k ((false, run) ∷ cs) = (false, run) ∷ dropped k cs

-- How many there are.
unfoldable pub duplicates : Text → List Cursor → ℕ
duplicates k [] = 0
duplicates k ((true, []) ∷ cs) = duplicates k cs
duplicates k ((true, e ∷ run) ∷ cs) =
    if eq_text e.0 k then suc (duplicates k cs) else duplicates k cs
duplicates k ((false, run) ∷ cs) = duplicates k cs

abbrev pub AllSorted : List Cursor → Type 0
AllSorted cs = All (λ c. IsSorted c.1) cs

-- No entry in the heap comes before `k`.
abbrev pub HeadFrom : Text → Cursor → Type 0
HeadFrom k (true, []) = Unit
HeadFrom k (true, e ∷ run) = compare_keys e.0 k ≢ Ordering.lt
HeadFrom k (false, run) = Unit

abbrev pub HasLeast : Text → List Cursor → Type 0
HasLeast k cs = All (HeadFrom k) cs

-- The first entry of a source out of the heap, and the next one in.
abbrev pub moved_on : ℕ → List Cursor → List Cursor
moved_on i cs = raise i (lower i cs)

pub is_due-lower :
    (i : ℕ) (cs : List Cursor) {e : Text × MemTableEntry}
    → head_at i cs ≡ some e
    → is_due i (lower i cs) ≡ true
unfolding is_due lower head_at
is_due-lower i [] h = cc
is_due-lower zero ((true, []) ∷ cs) h = cc
is_due-lower zero ((true, e ∷ run) ∷ cs) h = refl
is_due-lower zero ((false, run) ∷ cs) h = cc
is_due-lower (suc i) (c ∷ cs) h = is_due-lower i cs h

-- A duplicate that is moved on is one that is dropped.
dropped-moved_on :
    (k : Text) (i : ℕ) (cs : List Cursor) (e : Text × MemTableEntry)
    → head_at i cs ≡ some e
    → eq_text e.0 k ≡ true
    → AllSorted cs
    → dropped k (moved_on i cs) ≡ dropped k cs
unfolding dropped raise lower head_at
dropped-moved_on k i [] e h q s = cc
dropped-moved_on k zero ((true, []) ∷ cs) e h q s = cc
dropped-moved_on k zero ((true, f ∷ []) ∷ cs) e h q s = ground arith
dropped-moved_on k zero ((true, f ∷ g ∷ run) ∷ cs) e h q s =
    ground (arith, eq_of_compare e.0 k, gt_of_lt f.0 g.0)
dropped-moved_on k zero ((false, run) ∷ cs) e h q s = cc
dropped-moved_on k (suc i) ((true, []) ∷ cs) e h q s =
    ap (◌∷◌ (true, [])) (dropped-moved_on k i cs e h q s.1)
dropped-moved_on k (suc i) ((true, f ∷ run) ∷ cs) e h q s =
    ap (◌∷◌ (true, if eq_text f.0 k then run else f ∷ run)) (dropped-moved_on k i cs e h q s.1)
dropped-moved_on k (suc i) ((false, run) ∷ cs) e h q s =
    ap (◌∷◌ (false, run)) (dropped-moved_on k i cs e h q s.1)

duplicates-moved_on :
    (k : Text) (i : ℕ) (cs : List Cursor) (e : Text × MemTableEntry)
    → head_at i cs ≡ some e
    → eq_text e.0 k ≡ true
    → AllSorted cs
    → duplicates k cs ≡ suc (duplicates k (moved_on i cs))
unfolding duplicates raise lower head_at
duplicates-moved_on k i [] e h q s = cc
duplicates-moved_on k zero ((true, []) ∷ cs) e h q s = cc
duplicates-moved_on k zero ((true, f ∷ []) ∷ cs) e h q s = ground arith
duplicates-moved_on k zero ((true, f ∷ g ∷ run) ∷ cs) e h q s =
    ground (arith, eq_of_compare e.0 k, gt_of_lt f.0 g.0)
duplicates-moved_on k zero ((false, run) ∷ cs) e h q s = cc
duplicates-moved_on k (suc i) ((true, []) ∷ cs) e h q s = duplicates-moved_on k i cs e h q s.1
duplicates-moved_on k (suc i) ((true, f ∷ run) ∷ cs) e h q s =
    ground (arith, duplicates-moved_on k i cs e h q s.1)
duplicates-moved_on k (suc i) ((false, run) ∷ cs) e h q s = duplicates-moved_on k i cs e h q s.1

pub moved_on-AllSorted : (i : ℕ) (cs : List Cursor) → AllSorted cs → AllSorted (moved_on i cs)
unfolding raise lower
moved_on-AllSorted i [] s = tt
moved_on-AllSorted zero ((u, []) ∷ cs) s = s
moved_on-AllSorted zero ((u, e ∷ run) ∷ cs) s = (s.0.1, s.1)
moved_on-AllSorted (suc i) (c ∷ cs) s = (s.0, moved_on-AllSorted i cs s.1)

moved_on-HasLeast :
    (k : Text) (i : ℕ) (cs : List Cursor) (e : Text × MemTableEntry)
    → head_at i cs ≡ some e
    → eq_text e.0 k ≡ true
    → AllSorted cs
    → HasLeast k cs
    → HasLeast k (moved_on i cs)
unfolding raise lower head_at
moved_on-HasLeast k i [] e h q s l = tt
moved_on-HasLeast k zero ((true, []) ∷ cs) e h q s l = cc
moved_on-HasLeast k zero ((true, f ∷ []) ∷ cs) e h q s l = (tt, l.1)
moved_on-HasLeast k zero ((true, f ∷ g ∷ run) ∷ cs) e h q s l =
    (ground (arith, eq_of_compare e.0 k, gt_of_lt f.0 g.0), l.1)
moved_on-HasLeast k zero ((false, run) ∷ cs) e h q s l = cc
moved_on-HasLeast k (suc i) (c ∷ cs) e h q s l = (l.0, moved_on-HasLeast k i cs e h q s.1 l.1)

pub head_not_before :
    (k : Text) (i : ℕ) (cs : List Cursor) (e : Text × MemTableEntry)
    → HasLeast k cs
    → head_at i cs ≡ some e
    → compare_keys e.0 k ≢ Ordering.lt
unfolding head_at
head_not_before k i [] e l h = cc
head_not_before k zero ((true, []) ∷ cs) e l h = cc
head_not_before k zero ((true, f ∷ run) ∷ cs) e l h = ground arith
head_not_before k zero ((false, run) ∷ cs) e l h = cc
head_not_before k (suc i) (c ∷ cs) e l h = head_not_before k i cs e l.1 h

pub heads-HasLeast :
    (k : Text) (cs : List Cursor)
    → ((i : ℕ) (e : Text × MemTableEntry)
        → head_at i cs ≡ some e
        → compare_keys e.0 k ≢ Ordering.lt)
    → HasLeast k cs
unfolding head_at
heads-HasLeast k [] h = tt
heads-HasLeast k ((true, []) ∷ cs) h = (tt, heads-HasLeast k cs (λ i. h (suc i)))
heads-HasLeast k ((true, e ∷ run) ∷ cs) h = (h 0 e refl, heads-HasLeast k cs (λ i. h (suc i)))
heads-HasLeast k ((false, run) ∷ cs) h = (tt, heads-HasLeast k cs (λ i. h (suc i)))

dropped_none :
    (k : Text) (cs : List Cursor)
    → ((i : ℕ) (e : Text × MemTableEntry) → head_at i cs ≡ some e → eq_text e.0 k ≡ false)
    → dropped k cs ≡ cs
unfolding dropped head_at
dropped_none k [] h = refl
dropped_none k ((true, []) ∷ cs) h = ap (◌∷◌ (true, [])) (dropped_none k cs (λ i. h (suc i)))
dropped_none k ((true, e ∷ run) ∷ cs) h =
    rw (h 0 e refl) (ap (◌∷◌ (true, e ∷ run)) (dropped_none k cs (λ i. h (suc i))))
dropped_none k ((false, run) ∷ cs) h = ap (◌∷◌ (false, run)) (dropped_none k cs (λ i. h (suc i)))

pub head_at-heads : (i j : ℕ) (cs : List Cursor) → heads j cs ≡ [] → head_at i cs ≡ none
unfolding heads head_at
head_at-heads i j [] h = refl
head_at-heads zero j ((true, []) ∷ cs) h = refl
head_at-heads (suc i) j ((true, []) ∷ cs) h = head_at-heads i (j + 1) cs h
head_at-heads i j ((true, e ∷ run) ∷ cs) h = cc
head_at-heads zero j ((false, run) ∷ cs) h = refl
head_at-heads (suc i) j ((false, run) ∷ cs) h = head_at-heads i (j + 1) cs h

-- An entry that does not come before another has no lesser key.
pub least_key :
    (x : HeapEntry) (i : ℕ) (e : Text × MemTableEntry)
    → compare_heap_entries (entry_of i e) x ≡ false
    → compare_keys e.0 x.key ≢ Ordering.lt
unfolding compare_heap_entries
least_key x i e h = ground arith

later_key :
    (k j l : Text)
    → compare_keys j k ≢ Ordering.lt
    → eq_text j k ≡ false
    → compare_keys l j ≢ Ordering.lt
    → eq_text l k ≡ false
later_key k j l h d g =
    ground (arith, lt_of_gt j k, lt_of_gt l j, eq_of_compare l j, ≺-trans k j l, gt_of_lt k l)

-- Fuel for each duplicate is enough.
pub skip_duplicates-IsFilled :
    (fuel : ℕ) (m : MergeIterator) (cs : List Cursor) (k : Text)
    → IsFilled m cs
    → AllSorted cs
    → HasLeast k cs
    → duplicates k cs < fuel
    → IsFilled (skip_duplicates fuel m k) (dropped k cs)
unfolding skip_duplicates
skip_duplicates-IsFilled zero m cs k f s l n = absurd (omega arith)
skip_duplicates-IsFilled (suc fuel) m cs k f s l n =
    let o = MinHeap.extract_min compare_heap_entries m.heap in
    let taken = extract_min-IsTaken m cs f in
    elim (Option-cases o.0) [
      | inl none_left ↦
          let empty = rw (IsTaken, none_left) at taken in
          let same = dropped_none k cs (λ i e h. absurd (cc (h, head_at-heads i 0 cs empty))) in
          rw (skip_duplicates, none_left, same) f
      | inr (x, some_left) ↦
          let (at_head, left, least) = rw (IsTaken, some_left) at taken in
          elim (Bool-cases (eq_text x.key k)) [
            | inl same ↦
                let cs' = moved_on x.source_index cs in
                let rest =
                  skip_duplicates-IsFilled fuel
                    (advance_source (record m { heap = o.1 }) x.source_index) cs' k
                    (advance_source-IsFilled (record m { heap = o.1 }) (lower x.source_index cs)
                      x.source_index left (is_due-lower x.source_index cs at_head))
                    (moved_on-AllSorted x.source_index cs s)
                    (moved_on-HasLeast k x.source_index cs (x.key, x.entry) at_head same s l)
                    (omega (
                      arith,
                      duplicates-moved_on k x.source_index cs (x.key, x.entry) at_head same s,
                    )) in
                rw
                  (
                    skip_duplicates,
                    some_left,
                    same,
                    ← dropped-moved_on k x.source_index cs (x.key, x.entry) at_head same s,
                  )
                  rest
            | inr other ↦
                let all_later = λ (i : ℕ) (e : Text × MemTableEntry) (h : head_at i cs ≡ some e).
                  later_key k x.key e.0
                    (head_not_before k x.source_index cs (x.key, x.entry) l at_head) other
                    (least_key x i e (least i e h)) in
                rw (skip_duplicates, some_left, other, dropped_none k cs all_later) f
          ]
    ]
