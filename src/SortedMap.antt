-- ===== src/SortedMap.antt =====
-- src/storage/memtable/SortedMap.ts: the red-black tree under the memtable.
-- The source's nodes carry parent pointers. Here a node under work is a `Cursor`: the subtree that
-- hangs at the node, and the path of frames from its parent up to the root. A frame holds a
-- parent's own fields and its other subtree, so writing a parent's field is writing a frame, and
-- `current = current.parent` closes the innermost frame.
pub mod Listing
pub mod Lookup
pub mod Range
pub mod Balance
pub mod Valid
pub mod Height
use lsm_kv_store.Base.{
  ℕ, suc, ◌+◌, Bool, true, false, Option, none, some, List, [], ◌∷◌, ◌++◌, ◌&&◌, Ordering, length,
  if◌then◌else◌, while,
}
use lsm_kv_store.Text.{Text, compare_keys, lt_text, le_text, gt_text, ge_text}

pub data Color : Type 0 where
  red black : Color

-- `RBNode<V> | null`
pub data Tree {ℓ} (V : Type ℓ) : Type ℓ where
  leaf : Tree V
  node : Color → Tree V → Text → V → Tree V → Tree V

-- A parent seen from its left, or from its right, child: its colour, key, value and other child.
pub data Frame {ℓ} (V : Type ℓ) : Type ℓ where
  from_left : Color → Text → V → Tree V → Frame V
  from_right : Color → Text → V → Tree V → Frame V

pub record Cursor {ℓ} (V : Type ℓ) : Type ℓ where
  pub focus : Tree V
  pub path : List (Frame V)

pub record SortedMap {ℓ} (V : Type ℓ) : Type ℓ where
  pub root : Tree V
  pub count : ℕ

module _ {ℓ} {V : Type ℓ} where
  abbrev pub empty : SortedMap V
  empty = record { root = leaf; count = 0 }

  -- `node?.color === Color.RED`
  abbrev pub is_red : Tree V → Bool
  is_red leaf = false
  is_red (node red _ _ _ _) = true
  is_red (node black _ _ _ _) = false

  -- `node.color = color`
  abbrev pub paint : Color → Tree V → Tree V
  paint c leaf = leaf
  paint c (node _ l k v r) = node c l k v r

  abbrev pub close : Frame V → Tree V → Tree V
  close (from_left c k v r) t = node c t k v r
  close (from_right c k v l) t = node c l k v t

  -- From a node back to the root.
  unfoldable pub plug : Tree V → List (Frame V) → Tree V
  plug t [] = t
  plug t (f ∷ path) = plug (close f t) path

  abbrev pub frame_is_red : Frame V → Bool
  frame_is_red (from_left red _ _ _) = true
  frame_is_red (from_right red _ _ _) = true
  frame_is_red _ = false

  -- A rotation moves links and keeps each node's colour.
  abbrev pub rotate_left : Tree V → Tree V
  rotate_left (node c a k v (node d b j w e)) = node d (node c a k v b) j w e
  rotate_left t = t

  abbrev pub rotate_right : Tree V → Tree V
  rotate_right (node c (node d a j w b) k v e) = node d a j w (node c b k v e)
  rotate_right t = t

  abbrev pub go_left : Tree V → List (Frame V) → Cursor V
  go_left leaf path = record { focus = leaf; path = path }
  go_left (node c l k v r) path = record { focus = l; path = from_left c k v r ∷ path }

  abbrev pub go_right : Tree V → List (Frame V) → Cursor V
  go_right leaf path = record { focus = leaf; path = path }
  go_right (node c l k v r) path = record { focus = r; path = from_right c k v l ∷ path }

  -- The loop test of `fixInsert`: not at the root, the parent red, and, by the `break`, a
  -- grandparent above it.
  abbrev pub goes_on : List (Frame V) → Bool
  goes_on [] = false
  goes_on (p ∷ []) = false
  goes_on (p ∷ g ∷ path) = frame_is_red p

  abbrev pub fix_insert_test : Cursor V → Bool
  fix_insert_test cur = goes_on cur.path

  -- Case 2: from the inner side, `current = parent` and a rotation at it. The result is the subtree
  -- at the parent's place, whose outer child is the new `current`.
  abbrev pub outward_left : Frame V → Tree V → Tree V
  outward_left (from_left c k v r) t = close (from_left c k v r) t
  outward_left (from_right c k v l) t = rotate_left (close (from_right c k v l) t)

  abbrev pub outward_right : Frame V → Tree V → Tree V
  outward_right (from_left c k v r) t = rotate_right (close (from_left c k v r) t)
  outward_right (from_right c k v l) t = close (from_right c k v l) t

  -- One round of the loop, under parent `p` and grandparent `g`.
  unfoldable pub fix_insert_round : Tree V → Frame V → Frame V → List (Frame V) → Cursor V
  fix_insert_round t p (from_left gc gk gv uncle) path =
      if is_red uncle
      then (record {
        focus = node red (paint black (close p t)) gk gv (paint black uncle);
        path = path;
      })
      else go_left (rotate_right (node red (paint black (outward_left p t)) gk gv uncle)) path
  fix_insert_round t p (from_right gc gk gv uncle) path =
      if is_red uncle
      then (record {
        focus = node red (paint black uncle) gk gv (paint black (close p t));
        path = path;
      })
      else go_right (rotate_left (node red uncle gk gv (paint black (outward_right p t)))) path

  abbrev pub under_parents : Tree V → List (Frame V) → Cursor V
  under_parents t (p ∷ g ∷ path) = fix_insert_round t p g path
  under_parents t path = record { focus = t; path = path }

  abbrev pub fix_insert_body : Cursor V → Cursor V
  fix_insert_body cur = under_parents cur.focus cur.path

  -- `node` is the inserted node and `path` its ancestors. The path shrinks in every round, so its
  -- length bounds the rounds.
  unfoldable pub fix_insert : Tree V → List (Frame V) → Tree V
  fix_insert t path =
      let cur =
        while fix_insert_test fix_insert_body (suc (length path))
          (record { focus = t; path = path }) in
      paint black (plug cur.focus cur.path)

-- Where the descent for a key ends: at its node, or at the missing child where it belongs.
pub data Place {ℓ} (V : Type ℓ) : Type ℓ where
  occupied : Color → Tree V → Text → V → Tree V → List (Frame V) → Place V
  vacant : List (Frame V) → Place V

module _ {ℓ} {V : Type ℓ} where
  unfoldable pub find_place : Text → Tree V → List (Frame V) → Place V
  find_place key leaf path = vacant path
  find_place key (node c l k v r) path = elim (compare_keys key k) [
    | Ordering.lt ↦ find_place key l (from_left c k v r ∷ path)
    | Ordering.eq ↦ occupied c l k v r path
    | Ordering.gt ↦ find_place key r (from_right c k v l ∷ path)
  ]

  -- Update in place, or link a new red node and repair the colours.
  unfoldable pub set_at : ℕ → Text → V → Place V → SortedMap V
  unfolding fix_insert
  set_at count key value (occupied c l k v r path) = record {
    root = plug (node c l k value r) path;
    count = count;
  }
  set_at count key value (vacant path) = record {
    root = fix_insert (node red leaf key value leaf) path;
    count = count + 1;
  }

  abbrev pub set_from : Tree V → ℕ → Text → V → SortedMap V
  set_from leaf count key value = record {
    root = node black leaf key value leaf;
    count = count + 1;
  }
  set_from (node c l k v r) count key value =
      set_at count key value (find_place key (node c l k v r) [])

  unfoldable pub set : SortedMap V → Text → V → SortedMap V
  unfolding set_at find_place
  set m key value = set_from m.root m.count key value

  -- `findNode(key)?.value`
  unfoldable pub find_node : Tree V → Text → Option V
  find_node leaf key = none
  find_node (node c l k v r) key = elim (compare_keys key k) [
    | Ordering.lt ↦ find_node l key
    | Ordering.eq ↦ some v
    | Ordering.gt ↦ find_node r key
  ]

  unfoldable pub get : SortedMap V → Text → Option V
  unfolding find_node
  get m key = find_node m.root key

  unfoldable pub has : SortedMap V → Text → Bool
  unfolding find_node
  has m key = elim (find_node m.root key) [ some _ ↦ true | none ↦ false ]

  -- `result.push` appends.
  unfoldable pub in_order_traversal : Tree V → List (Text × V) → List (Text × V)
  in_order_traversal leaf result = result
  in_order_traversal (node c l k v r) result =
      in_order_traversal r (in_order_traversal l result ++ (k, v) ∷ [])

  unfoldable pub entries : SortedMap V → List (Text × V)
  unfolding in_order_traversal
  entries m = in_order_traversal m.root []

  unfoldable pub range_traversal : Tree V → Text → Text → List (Text × V) → List (Text × V)
  range_traversal leaf start_key end_key result = result
  range_traversal (node c l k v r) start_key end_key result =
      let lefts =
        if gt_text k start_key then range_traversal l start_key end_key result else result in
      let mid = if ge_text k start_key && le_text k end_key then lefts ++ (k, v) ∷ [] else lefts in
      let all = range_traversal r start_key end_key mid in if lt_text k end_key then all else mid

  unfoldable pub range : SortedMap V → Text → Text → List (Text × V)
  unfolding range_traversal
  range m start_key end_key = range_traversal m.root start_key end_key []
