-- ===== src/SortedMap/Balance.antt =====
-- src/storage/memtable/SortedMap.ts: the red-black invariant, and `fixInsert`.
use lsm_kv_store.Base.{
  ℕ, suc, ◌≡◌, Bool, true, false, not, List, [], ◌∷◌, arith, if◌then◌else◌, length, while_inv,
  while,
}
use lsm_kv_store.SortedMap.{
  Color, red, black, Tree, leaf, node, Frame, from_left, from_right, Cursor, is_red, paint, close,
  plug, frame_is_red, goes_on, fix_insert_test, fix_insert_round, fix_insert_body, fix_insert,
  under_parents,
}
use lsm_kv_store.SortedMap.Listing.{length-fix_insert_body}

module _ {ℓ} {V : Type ℓ} where
  -- The black nodes on the leftmost way down.
  abbrev pub black_height : Tree V → ℕ
  black_height leaf = 0
  black_height (node red l _ _ _) = black_height l
  black_height (node black l _ _ _) = suc (black_height l)

  -- A red node has no red child.
  abbrev pub IsCalm : Color → Tree V → Tree V → Type 0
  IsCalm red l r = (is_red l ≡ false) × (is_red r ≡ false)
  IsCalm black l r = Unit

  -- Every way down has the same number of black nodes, and no red node has a red child.
  abbrev pub IsRedBlack : Tree V → Type 0
  IsRedBlack leaf = Unit
  IsRedBlack (node c l k v r) =
      IsRedBlack l × IsRedBlack r × (black_height l ≡ black_height r) × IsCalm c l r

  abbrev pub top_is_black : List (Frame V) → Bool
  top_is_black [] = false
  top_is_black (f ∷ path) = not (frame_is_red f)

  abbrev pub sibling : Frame V → Tree V
  sibling (from_left c k v r) = r
  sibling (from_right c k v l) = l

  abbrev pub IsCalmAbove : Bool → Tree V → List (Frame V) → Type 0
  IsCalmAbove false s path = Unit
  IsCalmAbove true s path = (is_red s ≡ false) × (top_is_black path ≡ true)

  -- The tree around a hole that wants black height `h`.
  abbrev pub IsRedBlackAround : List (Frame V) → ℕ → Type 0
  IsRedBlackAround [] h = Unit
  IsRedBlackAround (f ∷ path) h =
      IsRedBlack (sibling f)
      × (black_height (sibling f) ≡ h)
      × IsCalmAbove (frame_is_red f) (sibling f) path
      × IsRedBlackAround path (if frame_is_red f then h else suc h)

  -- The loop invariant: only the edge above the red `current` may be out of order.
  pub record IsRepairing (cur : Cursor V) : Type 0 where
    pub is_red_here : is_red cur.focus ≡ true
    pub below : IsRedBlack cur.focus
    pub around : IsRedBlackAround cur.path (black_height cur.focus)

  fix_insert_round-IsRepairing :
      (t : Tree V) (p g : Frame V) (path : List (Frame V))
      → frame_is_red p ≡ true
      → IsRepairing (record { focus = t; path = p ∷ g ∷ path })
      → IsRepairing (fix_insert_round t p g path)
  unfolding fix_insert_round
  fix_insert_round-IsRepairing leaf p g path e h = absurd (ground arith)
  fix_insert_round-IsRepairing (node red a j w b) (from_left red k v r) (from_left black gk gv leaf)
        path e h =
      ground arith
  fix_insert_round-IsRepairing (node red a j w b) (from_left red k v r)
        (from_left black gk gv (node red x i z y)) path e h =
      ground arith
  fix_insert_round-IsRepairing (node red a j w b) (from_left red k v r)
        (from_right black gk gv (node red x i z y)) path e h =
      ground arith
  fix_insert_round-IsRepairing (node red a j w b) (from_right red k v r)
        (from_left black gk gv (node red x i z y)) path e h =
      ground arith
  fix_insert_round-IsRepairing (node red a j w b) (from_right red k v r)
        (from_right black gk gv (node red x i z y)) path e h =
      ground arith
  fix_insert_round-IsRepairing t p g path e h = ground arith

  fix_insert_body-IsRepairing :
      (t : Tree V) (path : List (Frame V))
      → goes_on path ≡ true
      → IsRepairing (record { focus = t; path = path })
      → IsRepairing (under_parents t path)
  fix_insert_body-IsRepairing t [] e h = cc
  fix_insert_body-IsRepairing t (p ∷ []) e h = cc
  fix_insert_body-IsRepairing t (p ∷ g ∷ path) e h = fix_insert_round-IsRepairing t p g path e h

  -- Once the loop's test fails, the edge above `current` is in order too.
  abbrev pub Joins : Tree V → List (Frame V) → Type 0
  Joins t [] = Unit
  Joins t (f ∷ path) = (is_red t ≡ true → frame_is_red f ≡ false)

  Joins-done :
      (t : Tree V) (path : List (Frame V))
      → goes_on path ≡ false
      → IsRepairing (record { focus = t; path = path })
      → Joins t path
  Joins-done t [] e h = tt
  Joins-done t (p ∷ []) e h = λ _. ground arith
  Joins-done t (p ∷ g ∷ path) e h = λ _. e

  close-IsRedBlack :
      (f : Frame V) (t : Tree V) (path : List (Frame V))
      → IsRedBlack t
      → IsRedBlackAround (f ∷ path) (black_height t)
      → (is_red t ≡ true → frame_is_red f ≡ false)
      → IsRedBlack (close f t)
  close-IsRedBlack (from_left red k v r) t path b a j = ground arith
  close-IsRedBlack f t path b a j = ground arith

  close-around :
      (f : Frame V) (t : Tree V) (path : List (Frame V))
      → IsRedBlack t
      → IsRedBlackAround (f ∷ path) (black_height t)
      → IsRedBlackAround path (black_height (close f t))
  close-around (from_left red k v r) t path b a = a.3
  close-around (from_left black k v r) t path b a = a.3
  close-around (from_right red k v r) t path b a = rw a.1 a.3
  close-around (from_right black k v r) t path b a = rw a.1 a.3

  close-Joins :
      (f : Frame V) (t : Tree V) (path : List (Frame V))
      → IsRedBlackAround (f ∷ path) (black_height t)
      → Joins (close f t) path
  close-Joins f t [] a = tt
  close-Joins (from_left red k v r) t (g ∷ path) a = ground arith
  close-Joins f t (g ∷ path) a = ground arith

  pub plug-IsRedBlack :
      (t : Tree V) (path : List (Frame V))
      → IsRedBlack t
      → IsRedBlackAround path (black_height t)
      → Joins t path
      → IsRedBlack (plug t path)
  unfolding plug
  plug-IsRedBlack t [] b a j = b
  plug-IsRedBlack t (f ∷ path) b a j =
      plug-IsRedBlack (close f t) path (close-IsRedBlack f t path b a j) (close-around f t path b a)
        (close-Joins f t path a)

  paint-black-IsRedBlack : (t : Tree V) → IsRedBlack t → IsRedBlack (paint black t)
  paint-black-IsRedBlack leaf h = tt
  paint-black-IsRedBlack (node c l k v r) h = (h.0, h.1, h.2, tt)

  -- The repair of a valid tree with one new red node is a valid tree.
  pub fix_insert-IsRedBlack :
      (t : Tree V) (path : List (Frame V))
      → IsRepairing (record { focus = t; path = path })
      → IsRedBlack (fix_insert t path)
  unfolding fix_insert
  fix_insert-IsRedBlack t path h =
      let start : Cursor V = record { focus = t; path = path } in
      let done =
        while_inv fix_insert_test fix_insert_body IsRepairing (λ cur. length cur.path)
          (λ cur more ok. (
            length-fix_insert_body cur more,
            fix_insert_body-IsRepairing cur.focus cur.path more ok,
          ))
          (suc (length path)) start h (omega arith) in
      let cur = while fix_insert_test fix_insert_body (suc (length path)) start in
      paint-black-IsRedBlack _ (
        plug-IsRedBlack cur.focus cur.path done.1.below done.1.around
          (Joins-done cur.focus cur.path done.0 done.1))
