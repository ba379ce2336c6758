-- ===== src/SsTableReader/Within.antt =====
-- Which entries of a sorted run lie in a range of keys.
use lsm_kv_store.Base.{
  append-nil, Ordering, ◌≡◌, refl, not, ◌&&◌, sym, ap, ◌∙◌, true, false, [], ◌∷◌, ◌++◌, arith, inl,
  inr,
}
use lsm_kv_store.Text.{compare_keys, gt_of_lt, Text, le_text, ◌≺◌, compare_cases}
use lsm_kv_store.Assoc.{Above, within, Below}
use lsm_kv_store.MemTable.{MemTableEntry}
use lsm_kv_store.SsTable.{Run}
use lsm_kv_store.SsTableReader.{gt_text, ge_text, lt_text}

pub ge_text-eq : (a b : Text) → ge_text a b ≡ not (lt_text a b)
ge_text-eq a b = elim (compare_cases a b) [
  | inl h ↦ rw (ge_text, lt_text, h) refl
  | inr (inl h) ↦ rw (ge_text, lt_text, h) refl
  | inr (inr h) ↦ rw (ge_text, lt_text, h) refl
]

pub le_text-eq : (a b : Text) → le_text a b ≡ not (gt_text a b)
le_text-eq a b = elim (compare_cases a b) [
  | inl h ↦ rw (le_text, gt_text, h) refl
  | inr (inl h) ↦ rw (le_text, gt_text, h) refl
  | inr (inr h) ↦ rw (le_text, gt_text, h) refl
]

pub lt_text-lt : (a b : Text) → lt_text a b ≡ true → a ≺ b
lt_text-lt a b t = elim (compare_cases a b) [
  | inl h ↦ h
  | inr (inl h) ↦ absurd (let no_lt : lt_text a b ≡ false = rw (lt_text, h) refl in cc (no_lt, t))
  | inr (inr h) ↦ absurd (let no_lt : lt_text a b ≡ false = rw (lt_text, h) refl in cc (no_lt, t))
]

pub gt_text-gt : (a b : Text) → gt_text a b ≡ true → compare_keys a b ≡ Ordering.gt
gt_text-gt a b t = elim (compare_cases a b) [
  | inl h ↦ absurd (let no_gt : gt_text a b ≡ false = rw (gt_text, h) refl in cc (no_gt, t))
  | inr (inl h) ↦ absurd (let no_gt : gt_text a b ≡ false = rw (gt_text, h) refl in cc (no_gt, t))
  | inr (inr h) ↦ h
]

pub within_low :
    (start end k : Text) (e : MemTableEntry) (run : Run)
    → k ≺ start
    → within start end ((k, e) ∷ run) ≡ within start end run
unfolding within
within_low start end k e run h =
    let out : (ge_text k start && le_text k end) ≡ false = rw (ge_text, h) refl in rw out refl

pub within_high :
    (start end k : Text) (e : MemTableEntry) (run : Run)
    → end ≺ k
    → within start end ((k, e) ∷ run) ≡ within start end run
unfolding within
within_high start end k e run h =
    let out : (ge_text k start && le_text k end) ≡ false =
      (let late : le_text k end ≡ false = rw (le_text, gt_of_lt end k h) refl in
        ground (arith, late)) in
    rw out refl

pub within_inside :
    (start end k : Text) (e : MemTableEntry) (run : Run)
    → lt_text k start ≡ false
    → gt_text k end ≡ false
    → within start end ((k, e) ∷ run) ≡ ((k, e) ∷ within start end run)
unfolding within
within_inside start end k e run h g =
    let both : (ge_text k start && le_text k end) ≡ true =
      rw (ge_text-eq k start, le_text-eq k end, h, g) refl in
    rw both refl

pub within_skip :
    (start end : Text) (before after : Run)
    → Below before start
    → within start end (before ++ after) ≡ within start end after
within_skip start end [] after b = refl
within_skip start end ((j, d) ∷ before) after b =
    within_low start end j d (before ++ after) b.0 ∙ within_skip start end before after b.1

pub within-Above : (start end : Text) (run : Run) → Above end run → within start end run ≡ []
unfolding within
within-Above start end [] a = refl
within-Above start end ((k, e) ∷ run) a =
    within_high start end k e run a.0 ∙ within-Above start end run a.1

pub within-Below : (start end : Text) (run : Run) → Below run start → within start end run ≡ []
within-Below start end run b =
    ap (within start end) (sym (append-nil run))
    ∙ within_skip start end run [] b
    ∙ within-Above start end [] tt
