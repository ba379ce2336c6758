-- ===== src/MinHeap/Array.antt =====
-- The array under the heap: reads, writes and swaps in range, and what they hold.
use mathlib.Core.List.{Perm}
use mathlib.Core.List.Perm
use lsm_kv_store.Base.{
  ℕ, zero, suc, ◌+◌, ◌<◌, ◌≡◌, ◌++◌, refl, ap, ◌∙◌, Bool, some, List, [], ◌∷◌, length, arith, ◌==◌,
  if◌then◌else◌,
}
use lsm_kv_store.MinHeap.{item_at, set_item, swap, less_at, last_of, without_last}

module _ {ℓ} {T : Type ℓ} where
  -- `heap[i]` in range, and `d` out of it.
  unfoldable pub item : T → List T → ℕ → T
  item d [] i = d
  item d (x ∷ xs) zero = x
  item d (x ∷ xs) (suc i) = item d xs i

  pub item_at-item :
      (d : T) (xs : List T) (i : ℕ) → i < length xs → item_at xs i ≡ some (item d xs i)
  unfolding item item_at
  item_at-item d [] i h = absurd (omega arith)
  item_at-item d (x ∷ xs) zero h = refl
  item_at-item d (x ∷ xs) (suc i) h = item_at-item d xs i (omega arith)

  pub length-set_item : (xs : List T) (i : ℕ) (v : T) → length (set_item xs i v) ≡ length xs
  unfolding set_item
  length-set_item [] i v = refl
  length-set_item (x ∷ xs) zero v = refl
  length-set_item (x ∷ xs) (suc i) v = ap suc (length-set_item xs i v)

  pub item-set_item :
      (d : T) (xs : List T) (i j : ℕ) (v : T)
      → i < length xs
      → item d (set_item xs i v) j ≡ (if i == j then v else item d xs j)
  unfolding item set_item
  item-set_item d [] i j v h = absurd (omega arith)
  item-set_item d (x ∷ xs) zero zero v h = refl
  item-set_item d (x ∷ xs) zero (suc j) v h = ground arith
  item-set_item d (x ∷ xs) (suc i) zero v h = ground arith
  item-set_item d (x ∷ xs) (suc i) (suc j) v h = ground (arith, item-set_item d xs i j v)

  -- A write trades the old item for the new one.
  set_item-perm :
      (d : T) (xs : List T) (i : ℕ) (v : T)
      → i < length xs
      → Perm (item d xs i ∷ set_item xs i v) (v ∷ xs)
  unfolding item set_item
  set_item-perm d [] i v h = absurd (omega arith)
  set_item-perm d (x ∷ xs) zero v h = Perm.swap v x xs
  set_item-perm d (x ∷ xs) (suc i) v h =
      let deeper = Perm.cons x (set_item-perm d xs i v (omega arith)) in
      Perm.trans (Perm.swap x (item d xs i) (set_item xs i v))
        (Perm.trans deeper (Perm.swap v x xs))

  module _ (d : T) (xs : List T) (i j : ℕ) (hi : i < length xs) (hj : j < length xs) where
    pub swap-eq : swap xs i j ≡ set_item (set_item xs i (item d xs j)) j (item d xs i)
    unfolding swap
    swap-eq = rw (swap, item_at-item d xs i hi, item_at-item d xs j hj) refl

    pub length-swap : length (swap xs i j) ≡ length xs
    length-swap = rw swap-eq (
        length-set_item (set_item xs i (item d xs j)) j (item d xs i)
        ∙ length-set_item xs i (item d xs j))

    pub item-swap :
        (c : ℕ)
        → item d (swap xs i j) c
          ≡ (if j == c then item d xs i else if i == c then item d xs j else item d xs c)
    item-swap c =
        let inside : j < length (set_item xs i (item d xs j)) =
          rw (length-set_item xs i (item d xs j)) hj in
        rw
          (
            swap-eq,
            item-set_item d (set_item xs i (item d xs j)) j c (item d xs i) inside,
            item-set_item d xs i c (item d xs j) hi,
          )
          refl

    pub swap-perm : Perm (swap xs i j) xs
    swap-perm =
        let b = set_item xs i (item d xs j) in
        let inside : j < length b = rw (length-set_item xs i (item d xs j)) hj in
        let kept : item d b j ≡ item d xs j =
          ground (arith, item-set_item d xs i j (item d xs j)) in
        let second = rw kept at (set_item-perm d b j (item d xs i) inside) in
        rw swap-eq (Perm.cons_inv (Perm.trans second (set_item-perm d xs i (item d xs j) hi)))

  pub less_at-item :
      (less : T → T → Bool) (d : T) (xs : List T) (i j : ℕ)
      → i < length xs
      → j < length xs
      → less_at less xs i j ≡ less (item d xs i) (item d xs j)
  unfolding less_at
  less_at-item less d xs i j hi hj =
      rw (less_at, item_at-item d xs i hi, item_at-item d xs j hj) refl

  pub last-perm : (x : T) (xs : List T) → Perm (last_of x xs ∷ without_last x xs) (x ∷ xs)
  unfolding last_of without_last
  last-perm x [] = Perm.rfl
  last-perm x (y ∷ ys) =
      Perm.trans (Perm.swap x (last_of y ys) (without_last y ys)) (Perm.cons x (last-perm y ys))

  pub length-without_last : (x : T) (xs : List T) → length (without_last x xs) ≡ length xs
  unfolding without_last
  length-without_last x [] = refl
  length-without_last x (y ∷ ys) = ap suc (length-without_last y ys)

  pub item-without_last :
      (d x : T) (xs : List T) (i : ℕ)
      → i < length xs
      → item d (without_last x xs) i ≡ item d (x ∷ xs) i
  unfolding item without_last
  item-without_last d x [] i h = absurd (omega arith)
  item-without_last d x (y ∷ ys) zero h = refl
  item-without_last d x (y ∷ ys) (suc i) h = item-without_last d y ys i (omega arith)

  pub item-append :
      (d : T) (xs : List T) (x : T) (i : ℕ)
      → i < length xs + 1
      → item d (xs ++ x ∷ []) i ≡ (if i == length xs then x else item d xs i)
  unfolding item
  item-append d [] x zero h = refl
  item-append d [] x (suc i) h = absurd (omega arith)
  item-append d (y ∷ xs) x zero h = ground arith
  item-append d (y ∷ xs) x (suc i) h = ground (arith, item-append d xs x i)
