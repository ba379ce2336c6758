-- ===== src/SsTableReader/Search.antt =====
-- src/storage/sstable/SSTableReader.ts: where `findStartOffset` ends, and lookups in a sorted run.
use lsm_kv_store.Base.{
  ℕ, zero, suc, ◌+◌, ◌-◌, ◌/◌, ◌≡◌, refl, subst, true, false, ◌&&◌, some, List, [], ◌∷◌, ◌++◌, All,
  All-append_right, ltb, Bool-cases, Option-cases, inl, inr,
}
use lsm_kv_store.Text.{
  Text, ge_text, compare_keys, le_text, gt_text, eq_text, ◌≺◌, ≺-trans, gt_of_lt, eq_of_compare,
  compare_keys_refl, compare_cases,
}
use lsm_kv_store.Base.{Ordering, ◌⊎◌}
use lsm_kv_store.Assoc.{Below, IsSorted, find}
use lsm_kv_store.MemTable.{MemTableEntry}
use lsm_kv_store.SsTable.{Run}
use lsm_kv_store.MinHeap.{item_at}
use lsm_kv_store.SsTableSerializer.{IndexEntry}
use lsm_kv_store.SsTableReader.{search}

-- === the binary search ends at the start, or at an index entry that is not above the key ===

All-item_at :
    {A : Type 0} (P : A → Type 0) (xs : List A) (i : ℕ) (x : A)
    → All P xs
    → item_at xs i ≡ some x
    → P x
unfolding item_at
All-item_at P [] i x a h = absurd (cc h)
All-item_at P (y ∷ ys) zero x a h = let same : y ≡ x = cc h in subst P same a.0
All-item_at P (y ∷ ys) (suc i) x a h = All-item_at P ys i x a.1 h

pub search-Good :
    (Good : ℕ → Type 0) (fuel : ℕ) (index : List IndexEntry) (key : Text) (left end result : ℕ)
    → All (λ e. le_text e.key key ≡ true → Good e.offset) index
    → Good result
    → Good (search fuel index key left end result)
unfolding search
search-Good Good zero index key left end result a g = g
search-Good Good (suc fuel) index key left end result a g = elim (Bool-cases (ltb left end)) [
  | inr done ↦ rw (search, done) g
  | inl more ↦ elim (Option-cases (item_at index ((left + end - 1) / 2))) [
    | inl nothing ↦ rw (search, more, nothing) g
    | inr (e, found) ↦ elim (Bool-cases (le_text e.key key)) [
      | inl below ↦
          let here =
            All-item_at (λ e. le_text e.key key ≡ true → Good e.offset) index ((left + end - 1) / 2)
              e a found below in
          rw (search, more, found, below)
            (search-Good Good fuel index key ((left + end - 1) / 2 + 1) end e.offset a here)
      | inr above ↦
          rw (search, more, found, above)
            (search-Good Good fuel index key left ((left + end - 1) / 2) result a g)
    ]
  ]
]

le_text-gt : (a b : Text) → compare_keys a b ≡ Ordering.gt → le_text a b ≡ false
le_text-gt a b h = rw (le_text, h) refl

pub in_range :
    (key first last : Text)
    → (compare_keys key first ≡ Ordering.eq) ⊎ (compare_keys key first ≡ Ordering.gt)
    → (key ≺ last) ⊎ (compare_keys key last ≡ Ordering.eq)
    → (ge_text key first && le_text key last) ≡ true
in_range key first last (inl f) (inl l) = rw (ge_text, le_text, f, l) refl
in_range key first last (inl f) (inr l) = rw (ge_text, le_text, f, l) refl
in_range key first last (inr f) (inl l) = rw (ge_text, le_text, f, l) refl
in_range key first last (inr f) (inr l) = rw (ge_text, le_text, f, l) refl

pub eq_text-lt : (a b : Text) → a ≺ b → eq_text a b ≡ false
eq_text-lt a b h = rw (eq_text, h) refl

pub eq_text-eq : (a b : Text) → compare_keys a b ≡ Ordering.eq → eq_text a b ≡ true
eq_text-eq a b h = rw (eq_text, h) refl

pub eq_text-gt : (a b : Text) → compare_keys a b ≡ Ordering.gt → eq_text a b ≡ false
eq_text-gt a b h = rw (eq_text, h) refl

pub gt_text-lt : (a b : Text) → a ≺ b → gt_text a b ≡ false
gt_text-lt a b h = rw (gt_text, h) refl

pub gt_text-gt : (a b : Text) → compare_keys a b ≡ Ordering.gt → gt_text a b ≡ true
gt_text-gt a b h = rw (gt_text, h) refl

≺-le : (a b c : Text) → a ≺ b → le_text b c ≡ true → a ≺ c
≺-le a b c h l = elim (compare_cases b c) [
  | inl below ↦ ≺-trans a b c h below
  | inr (inl same) ↦ subst (λ z. a ≺ z) (eq_of_compare b c same) h
  | inr (inr above) ↦ absurd (cc (le_text-gt b c above, l))
]

-- Everything before an entry that is not above the key is below it.
pub before-Below :
    (key : Text) (before after : Run) (k : Text) (e : MemTableEntry)
    → IsSorted (before ++ ((k, e) ∷ after))
    → le_text k key ≡ true
    → Below before key
before-Below key [] after k e s h = tt
before-Below key ((j, d) ∷ before) after k e s h =
    let (lower, others) = All-append_right (λ z. j ≺ z.0) before ((k, e) ∷ after) s.0 in
    (≺-le j k key lower h, before-Below key before after k e s.1 h)

pub find_skip :
    (key : Text) (before after : Run)
    → Below before key
    → find key (before ++ after) ≡ find key after
unfolding find
find_skip key [] after b = refl
find_skip key ((j, d) ∷ before) after b =
    let other : eq_text key j ≡ false = eq_text-gt key j (gt_of_lt j key b.0) in
    rw other (find_skip key before after b.1)

pub find_here :
    (k key : Text) (e : MemTableEntry) (run : Run)
    → compare_keys k key ≡ Ordering.eq
    → find key ((k, e) ∷ run) ≡ some e
unfolding find
find_here k key e run h =
    let same : eq_text key k ≡ true =
      subst (λ z. eq_text z k ≡ true) (eq_of_compare k key h)
        (eq_text-eq k k (compare_keys_refl k)) in
    rw same refl

pub find_on :
    (k key : Text) (e : MemTableEntry) (run : Run)
    → eq_text key k ≡ false
    → find key ((k, e) ∷ run) ≡ find key run
unfolding find
find_on k key e run h = rw h refl
