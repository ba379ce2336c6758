-- ===== src/MinHeap/Down.antt =====
-- `bubbleDown` restores the heap order below one index.
use mathlib.Core.List.Perm
use lsm_kv_store.Base.{
  ℕ, zero, suc, ◌+◌, ◌*◌, ◌<◌, ◌≤◌, ◌≡◌, ◌≢◌, inl, inr, refl, Bool, true, false, List, length,
  arith, ◌==◌, ltb, Bool-cases, ◌⊎◌, ◌&&◌, ◌∙◌, if◌then◌else◌,
}
use lsm_kv_store.MinHeap.{swap, bubble_down, smallest_of, less_at}
use lsm_kv_store.MinHeap.Array.{item, less_at-item, length-swap, item-swap, swap-perm}
use lsm_kv_store.MinHeap.Order.{IsRanking, irreflexive, parent, IsBridged, Sifted}

module _ {ℓ} {T : Type ℓ} (less : T → T → Bool) (d : T) (r : IsRanking less) where
  -- `m` is the index of a least item among the item at `i` and its children.
  pub record IsSmallest (a : List T) (i m : ℕ) : Type ℓ where
    pub inside : m < length a
    pub place : (m ≡ i) ⊎ ((m ≡ 2 * i + 1) ⊎ (m ≡ 2 * i + 2))
    pub strict : m ≢ i → less (item d a m) (item d a i) ≡ true
    pub least :
        (c : ℕ) → 0 < c → c < length a → parent c ≡ i → less (item d a c) (item d a m) ≡ false

  -- A child is the left one or the right one.
  child_place : (c i : ℕ) → 0 < c → parent c ≡ i → (c ≡ 2 * i + 1) ⊎ (c ≡ 2 * i + 2)
  child_place c i p e = ground arith

  -- One comparison: the index `c` in place of the best index `b` so far.
  abbrev pick : List T → ℕ → ℕ → ℕ
  pick a b c = if ltb c (length a) && less_at less a c b then c else b

  record IsPicked (a : List T) (b c m : ℕ) : Type ℓ where
    in_range : m < length a
    origin : (m ≡ b) ⊎ ((m ≡ c) × (less (item d a m) (item d a b) ≡ true))
    not_old : less (item d a b) (item d a m) ≡ false
    not_new : c < length a → less (item d a c) (item d a m) ≡ false

  pick-IsPicked : (a : List T) (b c : ℕ) → b < length a → IsPicked a b c (pick a b c)
  pick-IsPicked a b c h = elim (Bool-cases (ltb c (length a))) [
    | inl here ↦
        let q : c < length a = ground arith in
        rw (here, less_at-item less d a c b q h)
          (elim (Bool-cases (less (item d a c) (item d a b))) [
            | inl new ↦ rw new (record {
              in_range = q;
              origin = inr (refl, new);
              not_old = r.asym (item d a c) (item d a b) new;
              not_new = λ _. irreflexive r (item d a c);
            })
            | inr old ↦ rw old (record {
              in_range = h;
              origin = inl refl;
              not_old = irreflexive r (item d a b);
              not_new = λ _. old;
            })
          ])
    | inr out ↦ rw out (record {
      in_range = h;
      origin = inl refl;
      not_old = irreflexive r (item d a b);
      not_new = λ p. ground arith;
    })
  ]

  smallest_of-IsSmallest :
      (a : List T) (i : ℕ) → i < length a → IsSmallest a i (smallest_of less a i)
  smallest_of-IsSmallest a i h =
      let first = pick a i (2 * i + 1) in
      let m = pick a first (2 * i + 2) in
      let u = pick-IsPicked a i (2 * i + 1) h in
      let v = pick-IsPicked a first (2 * i + 2) u.in_range in
      record {
        inside = v.in_range;
        place = elim v.origin [
          | inl e ↦ elim u.origin [ inl f ↦ inl (e ∙ f) | inr f ↦ inr (inl (e ∙ f.0)) ]
          | inr e ↦ inr (inr e.0)
        ];
        strict = λ n. elim v.origin [
          | inl e ↦ elim u.origin [ inl f ↦ absurd (n (e ∙ f)) | inr f ↦ rw e f.1 ]
          | inr e ↦ elim (Bool-cases (less (item d a m) (item d a i))) [
            | inl t ↦ t
            | inr w ↦
                let same = r.trans (item d a first) (item d a i) (item d a m) u.not_old w in
                cc (e.1, same)
          ]
        ];
        least = λ c p q e. elim (child_place c i p e) [
          | inl l ↦
              r.trans (item d a m) (item d a first) (item d a c) v.not_old
                (rw l (u.not_new (rw (← l) q)))
          | inr l ↦ rw l (v.not_new (rw (← l) q))
        ];
      }

  -- Only the edges below `i` may be out of order.
  pub record DownInv (a : List T) (i : ℕ) : Type ℓ where
    pub edges :
        (c : ℕ)
        → 0 < c
        → c < length a
        → parent c ≢ i
        → less (item d a c) (item d a (parent c)) ≡ false
    pub bridged : IsBridged less d a i

  swap-DownInv :
      (a : List T) (i m : ℕ)
      → i < length a
      → DownInv a i
      → IsSmallest a i m
      → m ≢ i
      → DownInv (swap a i m) m
  swap-DownInv a i m h v s n =
      let size = length-swap d a i m h s.inside in
      let moved = item-swap d a i m h s.inside in
      let rises = r.asym (item d a m) (item d a i) (s.strict n) in
      record {
        edges = λ c p q t. ground (
          arith,
          size,
          moved c,
          moved (parent c),
          rises,
          s.place,
          v.edges c,
          v.bridged c,
          s.least c,
          v.bridged m,
        );
        bridged = λ c p q t u. ground (arith, size, moved c, moved (parent m), s.place, v.edges c);
      }

  -- Fuel for the way to the end of the array is enough.
  pub bubble_down_restores :
      (k : ℕ) (a : List T) (i : ℕ)
      → i < length a
      → length a ≤ i + k
      → DownInv a i
      → Sifted less d a (bubble_down less k a i)
  unfolding bubble_down
  bubble_down_restores zero a i h f v = absurd (omega arith)
  bubble_down_restores (suc k) a i h f v =
      let m = smallest_of less a i in
      let s = smallest_of-IsSmallest a i h in
      elim (Bool-cases (m == i)) [
        | inl still ↦
            let same : m ≡ i = ground arith in
            rw still (λ c p q. ground (arith, v.edges c, rw same at (s.least c p q)), Perm.rfl)
        | inr moves ↦
            let n : m ≢ i = ground arith in
            let size = length-swap d a i m h s.inside in
            let rest =
              bubble_down_restores k (swap a i m) m (omega (arith, size, s.inside))
                (ground (arith, size, s.place)) (swap-DownInv a i m h v s n) in
            rw moves (rest.0, Perm.trans rest.1 (swap-perm d a i m h s.inside))
      ]
