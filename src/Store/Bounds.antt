-- ===== src/Store/Bounds.antt =====
-- The bounds and the limit of `readKeyRange` of src/storage/LSMStore.ts: which keys lie in a range,
-- which tables the code passes over, and how many pairs it yields.
use lsm_kv_store.Base.{
  ℕ, zero, suc, ◌+◌, ◌-◌, ◌≡◌, refl, sym, ap, ◌∙◌, Bool, true, false, ◌&&◌, Option, none, some,
  List, [], ◌∷◌, leb, if◌then◌else◌, arith, inl, inr, Bool-cases, ◌==◌,
}
use lsm_kv_store.Text.{
  gt_of_lt, ≺-trans, eq_of_compare, lt_of_gt, Text, lt_text, gt_text, le_text, ge_text,
}
use lsm_kv_store.Assoc.{find}
use lsm_kv_store.Store.Reading.{limited}

pub take {ℓ} : {A : Type ℓ} → ℕ → List A → List A
take zero xs = []
take (suc n) [] = []
take (suc n) (x ∷ xs) = x ∷ take n xs

-- All pairs, or as many as the limit, but one where it is 0.
abbrev pub first_pairs : Option ℕ → List (Text × Text) → List (Text × Text)
first_pairs none pairs = pairs
first_pairs (some n) pairs = take (if n == 0 then 1 else n) pairs

pub take-nil {ℓ} : {A : Type ℓ} (n : ℕ) → take {A = A} n [] ≡ []
unfolding take
take-nil zero = refl
take-nil (suc n) = refl

pub first_pairs-nil : (limit : Option ℕ) → first_pairs limit [] ≡ []
first_pairs-nil none = refl
first_pairs-nil (some n) = take-nil (if n == 0 then 1 else n)

pub limited-eq-take :
    (n count : ℕ) (pairs : List (Text × Text))
    → limited (some n) count pairs ≡ take (if leb n count then 1 else n - count) pairs
unfolding limited take
limited-eq-take n count [] = sym (take-nil (if leb n count then 1 else n - count))
limited-eq-take n count (p ∷ pairs) = elim (Bool-cases (leb n (count + 1))) [
  | inl last ↦
      let one : (if leb n count then 1 else n - count) ≡ 1 = ground (arith) in rw (last, one) refl
  | inr more ↦
      let here : (if leb n count then 1 else n - count) ≡ suc (n - (count + 1)) = ground (arith) in
      let there : (if leb n (count + 1) then 1 else n - (count + 1)) ≡ n - (count + 1) =
        ground (arith) in
      rw (more, here, limited-eq-take n (count + 1) pairs, there) refl
]

pub limited-none : (count : ℕ) (pairs : List (Text × Text)) → limited none count pairs ≡ pairs
unfolding limited
limited-none count [] = refl
limited-none count (p ∷ pairs) = ap (◌∷◌ p) (limited-none (count + 1) pairs)

pub limited-eq-first_pairs :
    (limit : Option ℕ) (pairs : List (Text × Text))
    → limited limit 0 pairs ≡ first_pairs limit pairs
limited-eq-first_pairs none pairs = limited-none 0 pairs
limited-eq-first_pairs (some n) pairs =
    limited-eq-take n 0 pairs ∙ ap (λ m. take m pairs) (ground arith)

-- `start <= key && key <= end`
abbrev pub in_bounds : Text → Text → Text → Bool
in_bounds start end key = ge_text key start && le_text key end

pub find-nil {ℓ} : {V : Type ℓ} (key : Text) → find {V = V} key [] ≡ none
unfolding find
find-nil key = refl

pub before_start :
    (last start key : Text)
    → lt_text last start ≡ true
    → ge_text key start ≡ true
    → le_text key last ≡ false
before_start last start key h k =
    ground (
      arith,
      lt_of_gt key start,
      eq_of_compare key start,
      ≺-trans last start key,
      gt_of_lt last key,
    )

pub after_end :
    (first end key : Text)
    → gt_text first end ≡ true
    → le_text key end ≡ true
    → ge_text key first ≡ false
after_end first end key h k =
    ground (arith, lt_of_gt first end, eq_of_compare key end, ≺-trans key end first)

-- No key lies in a range that ends before it starts.
pub no_key_past :
    (start end key : Text) → gt_text start end ≡ true → in_bounds start end key ≡ false
no_key_past start end key h = elim (Bool-cases (le_text key end)) [
  | inl k ↦ ground (arith, after_end start end key h k)
  | inr k ↦ ground (arith)
]
