-- ===== src/MergeIterator/Rounds.antt =====
-- One round of `iterate`: the winner leaves the heap, its duplicates follow, and its source moves on.
use mathlib.Core.Logic.{∥∥₁_elim}
use mathlib.Core.List.{Perm, Permᴰ}
use lsm_kv_store.Base.{
  ℕ, zero, suc, ◌+◌, ◌≡◌, refl, ap, ◌∙◌, true, false, some, List, [], ◌∷◌, length, arith, ◌<◌, ◌≤◌,
  if◌then◌else◌,
}
use lsm_kv_store.Text.{Text, compare_keys_refl, eq_text}
use lsm_kv_store.MemTable.{MemTableEntry}
use lsm_kv_store.MergeIterator.{
  HeapEntry, MergeIterator, advance_source, skip_duplicates, remaining,
}
use lsm_kv_store.MergeIterator.Cursors.{Cursor, heads, head_at, is_due, raise, lower}
use lsm_kv_store.MergeIterator.Filled.{IsFilled, IsTaken, advance_source-IsFilled}
use lsm_kv_store.MergeIterator.Duplicates.{
  dropped, duplicates, AllSorted, HasLeast, heads-HasLeast, is_due-lower, skip_duplicates-IsFilled,
  least_key,
}
use lsm_kv_store.MergeIterator.Hits.{AllUp}

length-permutation {ℓ} : {A : Type ℓ} {xs ys : List A} → Permᴰ xs ys → length xs ≡ length ys
length-permutation Permᴰ.nil = refl
length-permutation (Permᴰ.cons e p) = ap suc (length-permutation p)
length-permutation (Permᴰ.swap d e) = refl
length-permutation (Permᴰ.trans p q) = length-permutation p ∙ length-permutation q

length-perm {ℓ} : {A : Type ℓ} {xs ys : List A} → Perm xs ys → length xs ≡ length ys
length-perm p = ∥∥₁_elim p (hlevel) length-permutation

duplicates_le : (k : Text) (j : ℕ) (cs : List Cursor) → duplicates k cs ≤ length (heads j cs)
unfolding duplicates heads
duplicates_le k j [] = omega arith
duplicates_le k j ((true, []) ∷ cs) = duplicates_le k (j + 1) cs
duplicates_le k j ((true, e ∷ run) ∷ cs) = ground (arith, duplicates_le k (j + 1) cs)
duplicates_le k j ((false, run) ∷ cs) = duplicates_le k (j + 1) cs

duplicates-lower :
    (k : Text) (i : ℕ) (cs : List Cursor) (v : MemTableEntry)
    → head_at i cs ≡ some (k, v)
    → duplicates k (lower i cs) < duplicates k cs
unfolding duplicates lower head_at
duplicates-lower k i [] v h = cc
duplicates-lower k zero ((true, []) ∷ cs) v h = cc
duplicates-lower k zero ((true, e ∷ run) ∷ cs) v h = ground (arith, compare_keys_refl k)
duplicates-lower k zero ((false, run) ∷ cs) v h = cc
duplicates-lower k (suc i) ((true, []) ∷ cs) v h = duplicates-lower k i cs v h
duplicates-lower k (suc i) ((true, e ∷ run) ∷ cs) v h = ground (arith, duplicates-lower k i cs v h)
duplicates-lower k (suc i) ((false, run) ∷ cs) v h = duplicates-lower k i cs v h

lower-AllSorted : (i : ℕ) (cs : List Cursor) → AllSorted cs → AllSorted (lower i cs)
unfolding lower
lower-AllSorted i [] s = tt
lower-AllSorted zero ((u, []) ∷ cs) s = s
lower-AllSorted zero ((u, e ∷ run) ∷ cs) s = (s.0.1, s.1)
lower-AllSorted (suc i) (c ∷ cs) s = (s.0, lower-AllSorted i cs s.1)

lower-HasLeast : (k : Text) (i : ℕ) (cs : List Cursor) → HasLeast k cs → HasLeast k (lower i cs)
unfolding lower
lower-HasLeast k i [] l = tt
lower-HasLeast k zero ((u, []) ∷ cs) l = l
lower-HasLeast k zero ((u, e ∷ run) ∷ cs) l = (tt, l.1)
lower-HasLeast k (suc i) (c ∷ cs) l = (l.0, lower-HasLeast k i cs l.1)

is_due-dropped :
    (k : Text) (i : ℕ) (cs : List Cursor) → is_due i cs ≡ true → is_due i (dropped k cs) ≡ true
unfolding is_due dropped
is_due-dropped k i [] h = h
is_due-dropped k zero ((true, run) ∷ cs) h = cc
is_due-dropped k zero ((false, run) ∷ cs) h = refl
is_due-dropped k (suc i) ((true, []) ∷ cs) h = is_due-dropped k i cs h
is_due-dropped k (suc i) ((true, e ∷ run) ∷ cs) h = is_due-dropped k i cs h
is_due-dropped k (suc i) ((false, run) ∷ cs) h = is_due-dropped k i cs h

-- Taking the winner and its duplicates off is taking its key off every source.
raise-dropped-lower :
    (k : Text) (i : ℕ) (cs : List Cursor) (v : MemTableEntry)
    → AllUp cs
    → head_at i cs ≡ some (k, v)
    → raise i (dropped k (lower i cs)) ≡ dropped k cs
unfolding raise dropped lower head_at
raise-dropped-lower k i [] v u h = cc
raise-dropped-lower k zero ((true, []) ∷ cs) v u h = cc
raise-dropped-lower k zero ((true, e ∷ run) ∷ cs) v u h = ground (arith, compare_keys_refl k)
raise-dropped-lower k zero ((false, run) ∷ cs) v u h = cc
raise-dropped-lower k (suc i) ((true, []) ∷ cs) v u h =
    ap (◌∷◌ (true, [])) (raise-dropped-lower k i cs v u.1 h)
raise-dropped-lower k (suc i) ((true, e ∷ run) ∷ cs) v u h =
    ap (◌∷◌ (true, if eq_text e.0 k then run else e ∷ run)) (raise-dropped-lower k i cs v u.1 h)
raise-dropped-lower k (suc i) ((false, run) ∷ cs) v u h = cc

-- The state of the merge after a winner, in the code's words.
abbrev pub after : MergeIterator → HeapEntry → List HeapEntry → MergeIterator
after m winner heap =
    advance_source (skip_duplicates (remaining m) (record m { heap = heap }) winner.key)
      winner.source_index

pub after-IsFilled :
    (m : MergeIterator) (cs : List Cursor) (x : HeapEntry) (h : List HeapEntry)
    → IsFilled m cs
    → AllUp cs
    → AllSorted cs
    → IsTaken m cs (some x, h)
    → HasLeast x.key cs × IsFilled (after m x h) (dropped x.key cs)
after-IsFilled m cs x h f u s (at_head, left, least) =
    let low = lower x.source_index cs in
    let l = heads-HasLeast x.key cs (λ i e q. least_key x i e (least i e q)) in
    let enough : duplicates x.key low < remaining m = omega (
      arith,
      duplicates-lower x.key x.source_index cs x.entry at_head,
      duplicates_le x.key 0 cs,
      length-perm f.holds,
    ) in
    let skipped =
      skip_duplicates-IsFilled (remaining m) (record m { heap = h }) low x.key left
        (lower-AllSorted x.source_index cs s) (lower-HasLeast x.key x.source_index cs l) enough in
    let due = is_due-dropped x.key x.source_index low (is_due-lower x.source_index cs at_head) in
    (
      l,
      rw (← raise-dropped-lower x.key x.source_index cs x.entry u at_head) (
          advance_source-IsFilled (skip_duplicates (remaining m) (record m { heap = h }) x.key)
            (dropped x.key low) x.source_index skipped due),
    )
