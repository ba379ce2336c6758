-- ===== src/Assoc.antt =====
-- Key-sorted association lists: the abstract view of a sorted map, of a sorted run of entries and
-- of a merged read.
use lsm_kv_store.Base.{
  ◌≡◌, refl, Bool, Bool-cases, inl, inr, Option, none, some, List, [], ◌∷◌, ◌++◌, ◌&&◌, arith,
  Ordering, All, All-imp, All-append_left, All-append_right, if◌then◌else◌, keep,
}
use lsm_kv_store.Text.{
  Text, compare_keys, ◌≺◌, ≺-trans, compare_keys_refl, eq_of_compare, gt_of_lt, lt_of_gt, le_text,
  ge_text, eq_text,
}

module _ {ℓ} {V : Type ℓ} where
  -- `k` lies before, or after, every key of the list.
  abbrev pub Above : Text → List (Text × V) → Type 0
  Above k l = All (λ e. k ≺ e.0) l

  abbrev pub Below : List (Text × V) → Text → Type 0
  Below l k = All (λ e. e.0 ≺ k) l

  -- Keys ascend strictly.
  abbrev pub IsSorted : List (Text × V) → Type 0
  IsSorted [] = Unit
  IsSorted ((k, v) ∷ l) = Above k l × IsSorted l

  unfoldable pub find : Text → List (Text × V) → Option V
  find k [] = none
  find k ((j, v) ∷ l) = if eq_text k j then some v else find k l

  -- Insert in order, or replace the value of an equal key.
  unfoldable pub upsert : Text → V → List (Text × V) → List (Text × V)
  upsert k v [] = (k, v) ∷ []
  upsert k v ((j, w) ∷ l) = elim (compare_keys k j) [
    | Ordering.lt ↦ (k, v) ∷ (j, w) ∷ l
    | Ordering.eq ↦ (k, v) ∷ l
    | Ordering.gt ↦ (j, w) ∷ upsert k v l
  ]

  -- The entries whose keys lie in [start, end].
  unfoldable pub within : Text → Text → List (Text × V) → List (Text × V)
  within start end l = keep (λ e. ge_text e.0 start && le_text e.0 end) l

  pub Above-trans : (j k : Text) (l : List (Text × V)) → j ≺ k → Above k l → Above j l
  Above-trans j k l h a = All-imp (λ e. k ≺ e.0) (λ e. j ≺ e.0) (λ e b. ≺-trans j k e.0 h b) l a

  pub Below-trans : (l : List (Text × V)) (j k : Text) → Below l j → j ≺ k → Below l k
  Below-trans l j k a h = All-imp (λ e. e.0 ≺ j) (λ e. e.0 ≺ k) (λ e b. ≺-trans e.0 j k b h) l a

  pub find-Above : (k : Text) (l : List (Text × V)) → Above k l → find k l ≡ none
  unfolding find
  find-Above k [] a = refl
  find-Above k ((j, w) ∷ l) a = ground (arith, find-Above k l a.1)

  pub find-Below : (k : Text) (l : List (Text × V)) → Below l k → find k l ≡ none
  unfolding find
  find-Below k [] a = refl
  find-Below k ((j, w) ∷ l) a = ground (arith, find-Below k l a.1, gt_of_lt j k)

  pub find-upsert :
      (k j : Text) (v : V) (l : List (Text × V))
      → find j (upsert k v l) ≡ (if eq_text j k then some v else find j l)
  unfolding find upsert
  find-upsert k j v [] = refl
  find-upsert k j v ((i, w) ∷ l) = ground (
    arith,
    find-upsert k j v l,
    eq_of_compare k i,
    eq_of_compare j k,
    eq_of_compare j i,
    compare_keys_refl i,
  )

  pub Above-upsert :
      (j k : Text) (v : V) (l : List (Text × V)) → j ≺ k → Above j l → Above j (upsert k v l)
  unfolding upsert
  Above-upsert j k v [] h a = (h, tt)
  Above-upsert j k v ((i, w) ∷ l) h a = ground (arith, Above-upsert j k v l h a.1)

  pub upsert-IsSorted :
      (k : Text) (v : V) (l : List (Text × V)) → IsSorted l → IsSorted (upsert k v l)
  unfolding upsert
  upsert-IsSorted k v [] s = (tt, tt)
  upsert-IsSorted k v ((i, w) ∷ l) s = ground (
    arith,
    upsert-IsSorted k v l s.1,
    Above-trans k i l,
    Above-upsert i k v l,
    eq_of_compare k i,
    lt_of_gt k i,
  )

  -- A split list is sorted exactly when its parts are and the middle key divides them.
  pub IsSorted-split :
      (xs : List (Text × V)) (k : Text) (v : V) (ys : List (Text × V))
      → IsSorted (xs ++ (k, v) ∷ ys)
      → IsSorted xs × Below xs k × Above k ys × IsSorted ys
  IsSorted-split [] k v ys s = (tt, tt, s.0, s.1)
  IsSorted-split ((j, w) ∷ xs) k v ys s =
      let (sx, b, a, sy) = IsSorted-split xs k v ys s.1 in
      let above_xs = All-append_left (λ (e : Text × V). j ≺ e.0) xs ((k, v) ∷ ys) s.0 in
      let above_rest = All-append_right (λ (e : Text × V). j ≺ e.0) xs ((k, v) ∷ ys) s.0 in
      ((above_xs, sx), (above_rest.0, b), a, sy)

  pub upsert-append_right :
      (k : Text) (v : V) (xs ys : List (Text × V))
      → Below xs k
      → upsert k v (xs ++ ys) ≡ xs ++ upsert k v ys
  unfolding upsert
  upsert-append_right k v [] ys b = refl
  upsert-append_right k v ((j, w) ∷ xs) ys b =
      ground (arith, upsert-append_right k v xs ys b.1, gt_of_lt j k)

  pub upsert-append_left :
      (k : Text) (v : V) (xs : List (Text × V)) (j : Text) (w : V) (ys : List (Text × V))
      → k ≺ j
      → upsert k v (xs ++ (j, w) ∷ ys) ≡ upsert k v xs ++ (j, w) ∷ ys
  unfolding upsert
  upsert-append_left k v [] j w ys h = ground arith
  upsert-append_left k v ((i, u) ∷ xs) j w ys h = ground (arith, upsert-append_left k v xs j w ys h)

  pub find-append :
      (k : Text) (xs ys : List (Text × V))
      → find k (xs ++ ys) ≡ elim (find k xs) [ some v ↦ some v | none ↦ find k ys ]
  unfolding find
  find-append k [] ys = refl
  find-append k ((j, w) ∷ xs) ys = ground (arith, find-append k xs ys)

  -- A filter on keys hides exactly the keys that it fails.
  find-keep :
      (p : Text → Bool) (k : Text) (l : List (Text × V))
      → find k (keep (λ e. p e.0) l) ≡ (if p k then find k l else none)
  unfolding find
  find-keep p k [] = ground arith
  find-keep p k ((j, v) ∷ l) = elim (Bool-cases (eq_text k j)) [
    | inl same ↦
        let e : k ≡ j = ground (arith, eq_of_compare k j) in ground (arith, find-keep p k l, e)
    | inr other ↦ ground (arith, find-keep p k l)
  ]

  -- A range of keys has what the list has under the keys inside, and nothing outside.
  pub find-within :
      (start end k : Text) (l : List (Text × V))
      → find k (within start end l) ≡ (if ge_text k start && le_text k end then find k l else none)
  unfolding within
  find-within start end k l = find-keep (λ j. ge_text j start && le_text j end) k l

  Above-keep :
      (p : Text → Bool) (j : Text) (l : List (Text × V)) → Above j l → Above j (keep (λ e. p e.0) l)
  Above-keep p j [] a = tt
  Above-keep p j ((k, v) ∷ l) a = ground (arith, Above-keep p j l a.1)

  keep-IsSorted :
      (p : Text → Bool) (l : List (Text × V)) → IsSorted l → IsSorted (keep (λ e. p e.0) l)
  keep-IsSorted p [] s = tt
  keep-IsSorted p ((k, v) ∷ l) s = ground (arith, keep-IsSorted p l s.1, Above-keep p k l s.0)

  pub within-IsSorted :
      (start end : Text) (l : List (Text × V)) → IsSorted l → IsSorted (within start end l)
  unfolding within
  within-IsSorted start end l s = keep-IsSorted (λ j. ge_text j start && le_text j end) l s
