-- ===== src/SortedMap/Listing.antt =====
-- src/storage/memtable/SortedMap.ts: the in-order listing of a tree, under rotations, the repair loop
-- and `set`.
use lsm_kv_store.Base.{
  ◌≡◌, refl, ◌∙◌, true, List, [], ◌∷◌, ◌++◌, append-nil, append_assoc, arith, ◌≤◌, ◌<◌, while_inv,
  length, suc, inl, inr, Bool-cases,
}
use lsm_kv_store.Text.{Text}
use lsm_kv_store.SortedMap.{
  Color, red, black, Tree, leaf, node, Frame, from_left, from_right, Cursor, paint, close, plug,
  rotate_left, rotate_right, goes_on, fix_insert_test, fix_insert_round, fix_insert_body,
  fix_insert, under_parents, go_left, go_right, outward_left, outward_right, is_red,
  in_order_traversal,
}

module _ {ℓ} {V : Type ℓ} where
  unfoldable pub to_list : Tree V → List (Text × V)
  to_list leaf = []
  to_list (node c l k v r) = to_list l ++ (k, v) ∷ to_list r

  -- What stands before, and after, the hole of a path.
  unfoldable pub before : List (Frame V) → List (Text × V)
  before [] = []
  before (from_left c k v r ∷ path) = before path
  before (from_right c k v l ∷ path) = before path ++ to_list l ++ (k, v) ∷ []

  unfoldable pub after : List (Frame V) → List (Text × V)
  after [] = []
  after (from_left c k v r ∷ path) = (k, v) ∷ to_list r ++ after path
  after (from_right c k v l ∷ path) = after path

  pub in_order_traversal-eq-append :
      (t : Tree V) (acc : List (Text × V)) → in_order_traversal t acc ≡ acc ++ to_list t
  unfolding in_order_traversal to_list
  in_order_traversal-eq-append leaf acc = simp append-nil
  in_order_traversal-eq-append (node c l k v r) acc =
      simp (in_order_traversal-eq-append l, in_order_traversal-eq-append r, append_assoc)

  pub to_list-plug :
      (t : Tree V) (path : List (Frame V))
      → to_list (plug t path) ≡ before path ++ to_list t ++ after path
  unfolding to_list before after plug
  to_list-plug t [] = simp append-nil
  to_list-plug t (from_left c k v r ∷ path) =
      simp (to_list-plug (node c t k v r) path, append_assoc)
  to_list-plug t (from_right c k v l ∷ path) =
      simp (to_list-plug (node c l k v t) path, append_assoc)

  pub to_list-paint : (c : Color) (t : Tree V) → to_list (paint c t) ≡ to_list t
  unfolding to_list
  to_list-paint c leaf = refl
  to_list-paint c (node d l k v r) = refl

  abbrev pub listing : Cursor V → List (Text × V)
  listing cur = to_list (plug cur.focus cur.path)

  to_list-rotate_left : (t : Tree V) → to_list (rotate_left t) ≡ to_list t
  unfolding to_list
  to_list-rotate_left leaf = refl
  to_list-rotate_left (node c l k v leaf) = refl
  to_list-rotate_left (node c l k v (node d a j w b)) = simp append_assoc

  to_list-rotate_right : (t : Tree V) → to_list (rotate_right t) ≡ to_list t
  unfolding to_list
  to_list-rotate_right leaf = refl
  to_list-rotate_right (node c leaf k v r) = refl
  to_list-rotate_right (node c (node d a j w b) k v r) = simp append_assoc

  -- Trees with one listing are interchangeable at the end of a path.
  to_list-plug_cong :
      (t u : Tree V) (path : List (Frame V))
      → to_list t ≡ to_list u
      → to_list (plug t path) ≡ to_list (plug u path)
  to_list-plug_cong t u path e = simp (to_list-plug, e)

  listing-go_left :
      (t : Tree V) (path : List (Frame V)) → listing (go_left t path) ≡ to_list (plug t path)
  unfolding plug
  listing-go_left leaf path = refl
  listing-go_left (node c l k v r) path = refl

  listing-go_right :
      (t : Tree V) (path : List (Frame V)) → listing (go_right t path) ≡ to_list (plug t path)
  unfolding plug
  listing-go_right leaf path = refl
  listing-go_right (node c l k v r) path = refl

  to_list-outward_left :
      (p : Frame V) (t : Tree V) → to_list (outward_left p t) ≡ to_list (close p t)
  to_list-outward_left (from_left c k v r) t = refl
  to_list-outward_left (from_right c k v l) t = to_list-rotate_left (node c l k v t)

  to_list-outward_right :
      (p : Frame V) (t : Tree V) → to_list (outward_right p t) ≡ to_list (close p t)
  to_list-outward_right (from_left c k v r) t = to_list-rotate_right (node c t k v r)
  to_list-outward_right (from_right c k v l) t = refl

  -- A round of the repair loop keeps the listing.
  pub listing-fix_insert_round :
      (t : Tree V) (p g : Frame V) (path : List (Frame V))
      → listing (fix_insert_round t p g path) ≡ to_list (plug (close g (close p t)) path)
  unfolding fix_insert_round
  listing-fix_insert_round t p (from_left d j w u) path = elim (Bool-cases (is_red u)) [
    | inl e ↦ rw e (to_list-plug_cong _ _ path (unfold to_list in simp to_list-paint))
    | inr e ↦
        rw (e, listing-go_left)
          (to_list-plug_cong _ _ path (
            simp to_list-rotate_right
              (unfold to_list in simp (to_list-paint, to_list-outward_left))))
  ]
  listing-fix_insert_round t p (from_right d j w u) path = elim (Bool-cases (is_red u)) [
    | inl e ↦ rw e (to_list-plug_cong _ _ path (unfold to_list in simp to_list-paint))
    | inr e ↦
        rw (e, listing-go_right)
          (to_list-plug_cong _ _ path (
            simp to_list-rotate_left
              (unfold to_list in simp (to_list-paint, to_list-outward_right))))
  ]

  pub listing-fix_insert_body : (cur : Cursor V) → listing (fix_insert_body cur) ≡ listing cur
  listing-fix_insert_body cur = on_path cur.focus cur.path
    where
      on_path :
          (t : Tree V) (path : List (Frame V))
          → listing (under_parents t path) ≡ to_list (plug t path)
      on_path t [] = refl
      on_path t (p ∷ []) = refl
      on_path t (p ∷ g ∷ path) = unfold plug in listing-fix_insert_round t p g path

  -- The path shrinks in every round.
  length-go_left :
      (t : Tree V) (path : List (Frame V)) → length (go_left t path).path ≤ suc (length path)
  length-go_left leaf path = omega arith
  length-go_left (node c l k v r) path = omega arith

  length-go_right :
      (t : Tree V) (path : List (Frame V)) → length (go_right t path).path ≤ suc (length path)
  length-go_right leaf path = omega arith
  length-go_right (node c l k v r) path = omega arith

  length-fix_insert_round :
      (t : Tree V) (p g : Frame V) (path : List (Frame V))
      → length (fix_insert_round t p g path).path < length (p ∷ g ∷ path)
  unfolding fix_insert_round
  length-fix_insert_round t p (from_left d j w u) path = elim (Bool-cases (is_red u)) [
    | inl e ↦ rw e (omega arith)
    | inr e ↦ rw e (
        omega (
          arith,
          length-go_left (rotate_right (node red (paint black (outward_left p t)) j w u)) path,
        ))
  ]
  length-fix_insert_round t p (from_right d j w u) path = elim (Bool-cases (is_red u)) [
    | inl e ↦ rw e (omega arith)
    | inr e ↦ rw e (
        omega (
          arith,
          length-go_right (rotate_left (node red u j w (paint black (outward_right p t)))) path,
        ))
  ]

  pub length-fix_insert_body :
      (cur : Cursor V)
      → fix_insert_test cur ≡ true
      → length (fix_insert_body cur).path < length cur.path
  length-fix_insert_body cur = on_path cur.focus cur.path
    where
      on_path :
          (t : Tree V) (path : List (Frame V))
          → goes_on path ≡ true
          → length (under_parents t path).path < length path
      on_path t [] h = cc
      on_path t (p ∷ []) h = cc
      on_path t (p ∷ g ∷ path) h = length-fix_insert_round t p g path

  -- The repair as a whole keeps the listing.
  pub to_list-fix_insert :
      (t : Tree V) (path : List (Frame V)) → to_list (fix_insert t path) ≡ to_list (plug t path)
  unfolding fix_insert
  to_list-fix_insert t path =
      let start : Cursor V = record { focus = t; path = path } in
      let kept =
        while_inv fix_insert_test fix_insert_body (λ cur. listing cur ≡ to_list (plug t path))
          (λ cur. length cur.path)
          (λ cur more same. (length-fix_insert_body cur more, listing-fix_insert_body cur ∙ same))
          (suc (length path)) start refl (omega arith) in
      to_list-paint black _ ∙ kept.1
