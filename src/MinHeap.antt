-- ===== src/MinHeap.antt =====
-- src/common/MinHeap.ts: the binary heap in an array. Only the sign of the comparator is used:
-- `less a b` is `compare(a, b) < 0`. Each operation takes the array and returns it.
pub mod Array
pub mod Order
pub mod Up
pub mod Down
pub mod Least
use lsm_kv_store.Base.{
  ℕ, zero, suc, ◌+◌, ◌-◌, ◌*◌, ◌/◌, Bool, false, not, ◌&&◌, Option, none, some, List, [], ◌∷◌, ◌++◌,
  length, ltb, ◌==◌, if◌then◌else◌,
}

module _ {ℓ} {T : Type ℓ} where
  -- `heap[i]`
  unfoldable pub item_at : List T → ℕ → Option T
  item_at [] i = none
  item_at (x ∷ xs) zero = some x
  item_at (x ∷ xs) (suc i) = item_at xs i

  -- `heap[i] = x` for an index that is there.
  unfoldable pub set_item : List T → ℕ → T → List T
  set_item [] i x = []
  set_item (y ∷ ys) zero x = x ∷ ys
  set_item (y ∷ ys) (suc i) x = y ∷ set_item ys i x

  unfoldable pub swap : List T → ℕ → ℕ → List T
  unfolding item_at set_item
  swap heap i j = elim (item_at heap i) [
    | none ↦ heap
    | some x ↦ elim (item_at heap j) [ none ↦ heap | some y ↦ set_item (set_item heap i y) j x ]
  ]

  -- The array without its last item, and that item, of a heap with a first item.
  unfoldable pub last_of : T → List T → T
  last_of x [] = x
  last_of x (y ∷ ys) = last_of y ys

  unfoldable pub without_last : T → List T → List T
  without_last x [] = []
  without_last x (y ∷ ys) = x ∷ without_last y ys

  module _ (less : T → T → Bool) where
    -- Both indexes are in the array where the code compares.
    unfoldable pub less_at : List T → ℕ → ℕ → Bool
    unfolding item_at
    less_at heap i j = elim (item_at heap i) [
      | none ↦ false
      | some x ↦ elim (item_at heap j) [ none ↦ false | some y ↦ less x y ]
    ]

    -- Each round goes to a lower index.
    unfoldable pub bubble_up : ℕ → List T → ℕ → List T
    unfolding swap less_at
    bubble_up zero heap index = heap
    bubble_up (suc fuel) heap index =
        let parent = (index - 1) / 2 in
        let rest = bubble_up fuel (swap heap parent index) parent in
        if index == 0 then heap else if not (less_at heap index parent) then heap else rest

    -- The index of the smallest of an item and its children.
    abbrev pub smallest_of : List T → ℕ → ℕ
    smallest_of heap index =
        let left = 2 * index + 1 in
        let right = 2 * index + 2 in
        let first = if ltb left (length heap) && less_at heap left index then left else index in
        if ltb right (length heap) && less_at heap right first then right else first

    -- Each round goes to a higher index in the array.
    unfoldable pub bubble_down : ℕ → List T → ℕ → List T
    unfolding swap less_at
    bubble_down zero heap index = heap
    bubble_down (suc fuel) heap index =
        let smallest = smallest_of heap index in
        let rest = bubble_down fuel (swap heap index smallest) smallest in
        if smallest == index then heap else rest

    unfoldable pub insert : List T → T → List T
    unfolding bubble_up
    insert heap item = bubble_up (length heap + 1) (heap ++ item ∷ []) (length heap)

    unfoldable pub extract_min : List T → Option T × List T
    unfolding bubble_down last_of without_last
    extract_min [] = (none, [])
    extract_min (x ∷ []) = (some x, [])
    extract_min (x ∷ y ∷ rest) =
        (some x, bubble_down (length rest + 1) (last_of y rest ∷ without_last y rest) 0)
