-- ===== src/MinHeap/Least.antt =====
-- What a client relies on: `insert` adds an item and `extractMin` takes a least one.
use mathlib.Core.List.{Perm}
use mathlib.Core.List.{Mem, perm_append_singleton, not-mem-nil, mem-cons, mem-cons_of_mem}
use mathlib.Core.List.Perm
use mathlib.Core.Logic.Or
use lsm_kv_store.Base.{
  ℕ, zero, suc, ◌+◌, ◌<◌, ◌≡◌, refl, Bool, false, List, length, arith, [], ◌∷◌, ◌++◌, Option, none,
  some, length-append,
}
use lsm_kv_store.MinHeap.{insert, extract_min, last_of, without_last}
use lsm_kv_store.MinHeap.Array.{
  item, last-perm, item-without_last, length-without_last, item-append,
}
use lsm_kv_store.MinHeap.Order.{IsRanking, parent, IsHeap, Sifted, root_least}
use lsm_kv_store.MinHeap.Up.{UpInv, bubble_up_restores}
use lsm_kv_store.MinHeap.Down.{DownInv, bubble_down_restores}

module _ {ℓ} {T : Type ℓ} (less : T → T → Bool) (d : T) (r : IsRanking less) where
  push-UpInv : (h : List T) (x : T) → IsHeap less d h → UpInv less d r (h ++ x ∷ []) (length h)
  push-UpInv h x v =
      let size = length-append h (x ∷ []) in
      record {
        inside = omega (arith, size);
        edges =
            λ c p q n. ground (arith, size, item-append d h x c, item-append d h x (parent c), v c);
        bridged = λ c p q e n. absurd (ground (arith, size));
      }

  -- The heap has one more item, and is in order.
  pub insert-Sifted :
      (h : List T) (x : T) → IsHeap less d h → Sifted less d (x ∷ h) (insert less h x)
  unfolding insert
  insert-Sifted h x v =
      let restored =
        bubble_up_restores less d r (length h + 1) (h ++ x ∷ []) (length h) (omega arith)
          (push-UpInv h x v) in
      (restored.0, Perm.trans restored.1 (perm_append_singleton x h))

  -- What `extractMin` makes of a heap: an item that no other is less than, and a heap of the others.
  abbrev pub Extracted : List T → Option T × List T → Type ℓ
  Extracted h (none, h') = (h ≡ []) × (h' ≡ [])
  Extracted h (some x, h') =
      IsHeap less d h' × Perm h (x ∷ h') × ((y : T) → Mem y h' → less y x ≡ false)

  item-popped :
      (x y : T) (rest : List T) (c : ℕ)
      → 0 < c
      → c < length rest + 1
      → item d (last_of y rest ∷ without_last y rest) c ≡ item d (x ∷ y ∷ rest) c
  unfolding item
  item-popped x y rest zero p q = absurd (omega arith)
  item-popped x y rest (suc c) p q = item-without_last d y rest c (omega arith)

  -- A test that fails at every index fails at every member.
  member_fails :
      (f : T → Bool) (xs : List T) {y : T}
      → ((i : ℕ) → i < length xs → f (item d xs i) ≡ false)
      → Mem y xs
      → f y ≡ false
  unfolding item
  member_fails f [] h m = absurd (not-mem-nil m)
  member_fails f (x ∷ xs) h m =
      Or.elim (hlevel) (mem-cons.0 m) (λ e. rw e (h 0 (omega arith)))
        (member_fails f xs (λ i p. h (suc i) (omega arith)))

  -- The last item put in the place of the first.
  popped-DownInv :
      (x y : T) (rest : List T)
      → IsHeap less d (x ∷ y ∷ rest)
      → DownInv less d r (last_of y rest ∷ without_last y rest) 0
  unfolding item
  popped-DownInv x y rest v =
      let size = length-without_last y rest in
      record {
        edges = λ c p q n.
            ground (arith, size, item-popped x y rest c, item-popped x y rest (parent c), v c);
        bridged = λ c p q t u. absurd (omega arith);
      }

  -- With a comparator that ranks items, extractMin of an array in heap order gives nothing exactly
  -- where the array is empty, and else an item that no other is less than, and an array in heap
  -- order of the other items.
  pub extract_min-Extracted : (h : List T) → IsHeap less d h → Extracted h (extract_min less h)
  unfolding extract_min item
  extract_min-Extracted [] v = (refl, refl)
  extract_min-Extracted (x ∷ []) v =
      (λ c p q. absurd (omega arith), Perm.rfl, λ z m. absurd (not-mem-nil m))
  extract_min-Extracted (x ∷ y ∷ rest) v =
      let a = last_of y rest ∷ without_last y rest in
      let size : length a ≡ length rest + 1 = omega (arith, length-without_last y rest) in
      let restored =
        bubble_down_restores less d r (length rest + 1) a 0 (omega arith) (omega (arith, size))
          (popped-DownInv x y rest v) in
      let kept = Perm.cons x (Perm.symm (Perm.trans restored.1 (last-perm y rest))) in
      (
        restored.0,
        kept,
        λ z m.
            member_fails (λ w. less w x) (x ∷ y ∷ rest)
              (λ i p. root_least less d r (x ∷ y ∷ rest) i v p)
              ((Perm.mem_iff kept).1 (mem-cons_of_mem x m)),
      )
