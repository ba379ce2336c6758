-- ===== src/MinHeap/Order.antt =====
-- The heap order, for a comparator with the laws of a strict order by which items are ranked.
use mathlib.Core.List.{Perm}
use lsm_kv_store.Base.{ℕ, zero, suc, ◌-◌, ◌/◌, ◌<◌, ◌≡◌, Bool, true, false, List, length, arith}
use lsm_kv_store.MinHeap.Array.{item}

-- What a heap relies on: `less` is a strict weak order.
pub record IsRanking {ℓ} {T : Type ℓ} (less : T → T → Bool) : Type ℓ where
  pub asym : (x y : T) → less x y ≡ true → less y x ≡ false
  -- "Not less" is transitive.
  pub trans : (x y z : T) → less y x ≡ false → less z y ≡ false → less z x ≡ false

pub irreflexive {ℓ} :
    {T : Type ℓ} {less : T → T → Bool} → IsRanking less → (x : T) → less x x ≡ false
irreflexive {less} r x = ground (arith, r.asym x x)

-- The index of the parent.
abbrev pub parent : ℕ → ℕ
parent c = (c - 1) / 2

module _ {ℓ} {T : Type ℓ} (less : T → T → Bool) (d : T) where
  -- No child is less than its parent.
  abbrev pub IsHeap : List T → Type 0
  IsHeap a = (c : ℕ) → 0 < c → c < length a → less (item d a c) (item d a (parent c)) ≡ false

  -- The edges past `i`, from its parent to its children, are in order.
  abbrev pub IsBridged : List T → ℕ → Type 0
  IsBridged a i =
      (c : ℕ)
      → 0 < c
      → c < length a
      → parent c ≡ i
      → 0 < i
      → less (item d a c) (item d a (parent i)) ≡ false

  -- `b` holds the items of `a`, in heap order.
  abbrev pub Sifted : List T → List T → Type ℓ
  Sifted a b = IsHeap b × Perm b a

  module _ (r : IsRanking less) where
    root_least_below :
        (k : ℕ) (a : List T) (i : ℕ)
        → IsHeap a
        → i < k
        → i < length a
        → less (item d a i) (item d a 0) ≡ false
    root_least_below zero a i h f p = absurd (omega arith)
    root_least_below (suc k) a zero h f p = irreflexive r (item d a 0)
    root_least_below (suc k) a (suc i) h f p =
        r.trans (item d a 0) (item d a (parent (suc i))) (item d a (suc i))
          (root_least_below k a (parent (suc i)) h (omega arith) (omega arith))
          (h (suc i) (omega arith) p)

    -- No item of a heap is less than its root.
    pub root_least :
        (a : List T) (i : ℕ) → IsHeap a → i < length a → less (item d a i) (item d a 0) ≡ false
    root_least a i h p = root_least_below (suc i) a i h (omega arith) p
