-- ===== src/MinHeap/Up.antt =====
-- `bubbleUp` restores the heap order above one index.
use mathlib.Core.List.Perm
use lsm_kv_store.Base.{
  ℕ, zero, suc, ◌<◌, ◌≡◌, ◌≢◌, inl, inr, Bool, true, false, List, length, arith, ◌==◌, Bool-cases,
}
use lsm_kv_store.MinHeap.{swap, bubble_up}
use lsm_kv_store.MinHeap.Array.{item, less_at-item, length-swap, item-swap, swap-perm}
use lsm_kv_store.MinHeap.Order.{IsRanking, parent, IsBridged, Sifted}

module _ {ℓ} {T : Type ℓ} (less : T → T → Bool) (d : T) (r : IsRanking less) where
  -- Only the edge above `i` may be out of order.
  pub record UpInv (a : List T) (i : ℕ) : Type ℓ where
    pub inside : i < length a
    pub edges :
        (c : ℕ) → 0 < c → c < length a → c ≢ i → less (item d a c) (item d a (parent c)) ≡ false
    pub bridged : IsBridged less d a i

  swap-UpInv :
      (a : List T) (i : ℕ)
      → UpInv a i
      → 0 < i
      → less (item d a i) (item d a (parent i)) ≡ true
      → UpInv (swap a (parent i) i) (parent i)
  swap-UpInv a i v pos below =
      let above : parent i < length a = omega (arith, v.inside) in
      let size = length-swap d a (parent i) i above v.inside in
      let moved = item-swap d a (parent i) i above v.inside in
      let falls = r.asym (item d a i) (item d a (parent i)) below in
      record {
        inside = omega (arith, size, v.inside);
        edges = λ c p q n. ground (
          arith,
          size,
          moved c,
          moved (parent c),
          falls,
          v.edges c,
          v.bridged c,
          r.trans (item d a i) (item d a (parent i)) (item d a c),
        );
        bridged = λ c p q e n. ground (
          arith,
          size,
          moved c,
          moved (parent (parent i)),
          falls,
          v.edges c,
          v.edges (parent i),
          r.trans (item d a (parent (parent i))) (item d a (parent i)) (item d a c),
        );
      }

  -- Fuel above the index is enough.
  pub bubble_up_restores :
      (k : ℕ) (a : List T) (i : ℕ) → i < k → UpInv a i → Sifted less d a (bubble_up less k a i)
  unfolding bubble_up
  bubble_up_restores zero a i f v = absurd (omega arith)
  bubble_up_restores (suc k) a i f v = elim (Bool-cases (i == 0)) [
    | inl root ↦ rw root (λ c p q. v.edges c p q (ground arith), Perm.rfl)
    | inr deep ↦
        let above : parent i < length a = omega (arith, v.inside) in
        rw (deep, less_at-item less d a i (parent i) v.inside above)
          (elim (Bool-cases (less (item d a i) (item d a (parent i)))) [
            | inl below ↦
                let rest =
                  bubble_up_restores k (swap a (parent i) i) (parent i) (ground arith)
                    (swap-UpInv a i v (ground arith) below) in
                rw below (rest.0, Perm.trans rest.1 (swap-perm d a (parent i) i above v.inside))
            | inr settled ↦ rw settled (λ c p q. ground (arith, v.edges c), Perm.rfl)
          ])
  ]
