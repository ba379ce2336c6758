-- ===== src/Text.antt =====
-- JavaScript strings: sequences of UTF-16 code units, compared by `<`, `>` and `===` unit by unit.
-- `compareKeys` of src/storage/memtable/SortedMap.ts.
use lsm_kv_store.Base.{
  ℕ, ◌≡◌, ◌≢◌, refl, ap, Bool, true, false, List, [], ◌∷◌, arith, compare, Ordering, ◌⊎◌,
}

abbrev pub Text : Type 0
Text = List ℕ

unfoldable pub compare_keys : Text → Text → Ordering
compare_keys [] [] = Ordering.eq
compare_keys [] (b ∷ bs) = Ordering.lt
compare_keys (a ∷ as') [] = Ordering.gt
compare_keys (a ∷ as') (b ∷ bs) = elim (compare a b) [
  | Ordering.lt ↦ Ordering.lt
  | Ordering.eq ↦ compare_keys as' bs
  | Ordering.gt ↦ Ordering.gt
]

-- `a < b`, `a <= b`, `a > b`, `a >= b`, `a === b` on strings.
abbrev pub lt_text : Text → Text → Bool
lt_text a b = elim (compare_keys a b) [ Ordering.lt ↦ true | _ ↦ false ]

abbrev pub le_text : Text → Text → Bool
le_text a b = elim (compare_keys a b) [ Ordering.gt ↦ false | _ ↦ true ]

abbrev pub gt_text : Text → Text → Bool
gt_text a b = elim (compare_keys a b) [ Ordering.gt ↦ true | _ ↦ false ]

abbrev pub ge_text : Text → Text → Bool
ge_text a b = elim (compare_keys a b) [ Ordering.lt ↦ false | _ ↦ true ]

abbrev pub eq_text : Text → Text → Bool
eq_text a b = elim (compare_keys a b) [ Ordering.eq ↦ true | _ ↦ false ]

infix 50 ◌≺◌
abbrev pub ◌≺◌ : Text → Text → Type 0
a ≺ b = compare_keys a b ≡ Ordering.lt

pub compare_keys_refl : (a : Text) → compare_keys a a ≡ Ordering.eq
unfolding compare_keys
compare_keys_refl [] = refl
compare_keys_refl (a ∷ as') = ground (arith, compare_keys_refl as')

pub eq_of_compare : (a b : Text) → compare_keys a b ≡ Ordering.eq → a ≡ b
unfolding compare_keys
eq_of_compare [] [] h = refl
eq_of_compare [] (b ∷ bs) h = cc
eq_of_compare (a ∷ as') [] h = cc
eq_of_compare (a ∷ as') (b ∷ bs) h = ground (arith, eq_of_compare as' bs)

pub gt_of_lt : (a b : Text) → a ≺ b → compare_keys b a ≡ Ordering.gt
unfolding compare_keys
gt_of_lt [] [] h = cc
gt_of_lt [] (b ∷ bs) h = refl
gt_of_lt (a ∷ as') [] h = cc
gt_of_lt (a ∷ as') (b ∷ bs) h = ground (arith, gt_of_lt as' bs)

pub lt_of_gt : (a b : Text) → compare_keys a b ≡ Ordering.gt → b ≺ a
unfolding compare_keys
lt_of_gt [] [] h = cc
lt_of_gt [] (b ∷ bs) h = cc
lt_of_gt (a ∷ as') [] h = refl
lt_of_gt (a ∷ as') (b ∷ bs) h = ground (arith, lt_of_gt as' bs)

pub ≺-trans : (a b c : Text) → a ≺ b → b ≺ c → a ≺ c
unfolding compare_keys
≺-trans [] [] c h k = cc
≺-trans [] (b ∷ bs) [] h k = cc
≺-trans [] (b ∷ bs) (c ∷ cs) h k = refl
≺-trans (a ∷ as') [] c h k = cc
≺-trans (a ∷ as') (b ∷ bs) [] h k = cc
≺-trans (a ∷ as') (b ∷ bs) (c ∷ cs) h k = ground (arith, ≺-trans as' bs cs)

pub ≺_ne : (a b : Text) → a ≺ b → a ≢ b
≺_ne a b h e = cc (ap (λ (x : Text). compare_keys a x) e, compare_keys_refl a)

-- The three outcomes of a comparison.
pub compare_cases :
    (a b : Text) → (a ≺ b) ⊎ (compare_keys a b ≡ Ordering.eq) ⊎ (compare_keys a b ≡ Ordering.gt)
compare_cases a b = ground arith
