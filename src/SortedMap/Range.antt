-- ===== src/SortedMap/Range.antt =====
-- src/storage/memtable/SortedMap.ts: `range` against the in-order listing.
use lsm_kv_store.Base.{
  ◌≡◌, refl, ◌∙◌, List, [], ◌∷◌, ◌++◌, append-nil, append_assoc, arith, true, false, ◌&&◌,
  if◌then◌else◌, inl, inr, Bool-cases, Bool,
}
use lsm_kv_store.Text.{
  Text, gt_of_lt, lt_of_gt, eq_of_compare, compare_cases, gt_text, ge_text, lt_text, le_text,
}
use lsm_kv_store.Assoc.{Above, Below, IsSorted, IsSorted-split, Above-trans, Below-trans, within}
use lsm_kv_store.SortedMap.{Tree, leaf, node, SortedMap, range_traversal, range, entries}
use lsm_kv_store.SortedMap.Listing.{to_list}
use lsm_kv_store.SortedMap.Lookup.{entries-eq-to_list}

module _ {ℓ} {V : Type ℓ} where
  within-append :
      (a b : Text) (xs ys : List (Text × V))
      → within a b (xs ++ ys) ≡ within a b xs ++ within a b ys
  unfolding within
  within-append a b [] ys = refl
  within-append a b ((k, v) ∷ xs) ys = ground (arith, within-append a b xs ys)

  within-Below : (a b : Text) (xs : List (Text × V)) → Below xs a → within a b xs ≡ []
  unfolding within
  within-Below a b [] h = refl
  within-Below a b ((k, v) ∷ xs) h = ground (arith, within-Below a b xs h.1)

  within-Above : (a b : Text) (xs : List (Text × V)) → Above b xs → within a b xs ≡ []
  unfolding within
  within-Above a b [] h = refl
  within-Above a b ((k, v) ∷ xs) h = ground (arith, within-Above a b xs h.1, gt_of_lt b k)

  lefts_pruned :
      (a b k : Text) (xs : List (Text × V)) → Below xs k → gt_text k a ≡ false → within a b xs ≡ []
  lefts_pruned a b k xs below h = elim (compare_cases k a) [
    | inl e ↦ within-Below a b xs (Below-trans xs k a below e)
    | inr (inl e) ↦ within-Below a b xs (rw (eq_of_compare k a e) at below)
    | inr (inr e) ↦ absurd (ground arith)
  ]

  rights_pruned :
      (a b k : Text) (xs : List (Text × V)) → Above k xs → lt_text k b ≡ false → within a b xs ≡ []
  rights_pruned a b k xs above h = elim (compare_cases k b) [
    | inl e ↦ absurd (ground arith)
    | inr (inl e) ↦ within-Above a b xs (rw (eq_of_compare k b e) at above)
    | inr (inr e) ↦ within-Above a b xs (Above-trans b k xs (lt_of_gt k b e) above)
  ]

  abbrev here : Text → Text → Text → V → List (Text × V)
  here a b k v = if ge_text k a && le_text k b then (k, v) ∷ [] else []

  within-cons :
      (a b k : Text) (v : V) (xs : List (Text × V))
      → within a b ((k, v) ∷ xs) ≡ here a b k v ++ within a b xs
  unfolding within
  within-cons a b k v xs = ground arith

  append_here :
      (a b k : Text) (v : V) (acc : List (Text × V))
      → (if ge_text k a && le_text k b then acc ++ (k, v) ∷ [] else acc) ≡ acc ++ here a b k v
  append_here a b k v acc = elim (Bool-cases (ge_text k a && le_text k b)) [
    | inl e ↦ rw e
    | inr e ↦ rw e (simp append-nil)
  ]

  -- A guarded visit of a subtree, where a failed guard means that nothing is in range.
  visit :
      (test : Bool) (rest acc found : List (Text × V))
      → rest ≡ acc ++ found
      → (test ≡ false → found ≡ [])
      → (if test then rest else acc) ≡ acc ++ found
  visit true rest acc found e pruned = e
  visit false rest acc found e pruned = simp (pruned refl, append-nil)

  pub range_traversal-eq-within :
      (t : Tree V) (a b : Text) (acc : List (Text × V))
      → IsSorted (to_list t)
      → range_traversal t a b acc ≡ acc ++ within a b (to_list t)
  unfolding range_traversal to_list
  range_traversal-eq-within leaf a b acc s = unfold within in simp append-nil
  range_traversal-eq-within (node c l k v r) a b acc s =
      let (sl, below, above, sr) = IsSorted-split (to_list l) k v (to_list r) s in
      rw
        (visit (gt_text k a) _ acc (within a b (to_list l)) (range_traversal-eq-within l a b acc sl)
          (lefts_pruned a b k (to_list l) below))
        (rw (append_here a b k v (acc ++ within a b (to_list l))) (
          visit (lt_text k b) _ _ (within a b (to_list r)) (range_traversal-eq-within r a b _ sr)
            (rights_pruned a b k (to_list r) above)
          ∙ simp (within-append, within-cons, append_assoc)))

  -- On a map with sorted entries, the pruned range traversal returns exactly the entries with keys
  -- in the closed range, in order.
  pub range-eq-within :
      (m : SortedMap V) (a b : Text) → IsSorted (entries m) → range m a b ≡ within a b (entries m)
  unfolding range
  range-eq-within m a b s =
      rw entries-eq-to_list (range_traversal-eq-within m.root a b [] (rw entries-eq-to_list at s))
