-- ===== src/SortedMap/Lookup.antt =====
-- src/storage/memtable/SortedMap.ts: `get` and `set` against the in-order listing.
use lsm_kv_store.Base.{
  ℕ, ◌≡◌, refl, ◌∙◌, List, [], ◌∷◌, ◌++◌, append-nil, append_assoc, arith, inl, inr,
}
use lsm_kv_store.Text.{Text, lt_of_gt, eq_of_compare, compare_cases}
use lsm_kv_store.Assoc.{
  IsSorted, find, upsert, IsSorted-split, Above-trans, Below-trans, find-Above, find-Below,
  find-append, upsert-append_left, upsert-append_right,
}
use lsm_kv_store.SortedMap.{
  red, Tree, leaf, node, Frame, from_left, from_right, SortedMap, Place, occupied, vacant,
  find_place, set_at, set_from, set, find_node, entries,
}
use lsm_kv_store.SortedMap.Listing.{
  to_list, before, after, to_list-plug, to_list-fix_insert, in_order_traversal-eq-append,
}

module _ {ℓ} {V : Type ℓ} where
  pub entries-eq-to_list : (m : SortedMap V) → entries m ≡ to_list m.root
  unfolding entries
  entries-eq-to_list m = in_order_traversal-eq-append m.root []

  pub find_node-eq-find :
      (t : Tree V) (key : Text) → IsSorted (to_list t) → find_node t key ≡ find key (to_list t)
  unfolding find_node to_list find
  find_node-eq-find leaf key s = refl
  find_node-eq-find (node c l k v r) key s =
      let (sl, below, above, sr) = IsSorted-split (to_list l) k v (to_list r) s in
      ground (
        arith,
        find_node-eq-find l key sl,
        find_node-eq-find r key sr,
        find-append key (to_list l) ((k, v) ∷ to_list r),
        find-Above key (to_list r),
        find-Below key (to_list l),
        Above-trans key k (to_list r),
        Below-trans (to_list l) k key below,
        lt_of_gt key k,
        eq_of_compare key k,
      )

  abbrev listing_at : Place V → Text → V → List (Text × V)
  listing_at (occupied c l k v r path) key value =
      before path ++ (to_list l ++ (k, value) ∷ to_list r) ++ after path
  listing_at (vacant path) key value = before path ++ (key, value) ∷ after path

  -- The descent ends where the key belongs.
  listing-find_place :
      (key : Text) (value : V) (t : Tree V) (path : List (Frame V))
      → IsSorted (to_list t)
      → listing_at (find_place key t path) key value
        ≡ before path ++ upsert key value (to_list t) ++ after path
  unfolding find_place to_list before after upsert
  listing-find_place key value leaf path s = simp append_assoc
  listing-find_place key value (node c l k v r) path s =
      let (sl, below, above, sr) = IsSorted-split (to_list l) k v (to_list r) s in
      elim (compare_cases key k) [
        | inl e ↦
            rw (e, find_place)
              (listing-find_place key value l (from_left c k v r ∷ path) sl
                ∙ simp (upsert-append_left key value (to_list l) k v (to_list r) e, append_assoc))
        | inr (inl e) ↦
            rw (e, find_place)
              (simp
                (
                  upsert-append_right key value (to_list l) ((k, v) ∷ to_list r)
                      (rw (eq_of_compare key k e) below),
                  append_assoc,
                )
                (rw (e, upsert) (rw (eq_of_compare key k e))))
        | inr (inr e) ↦
            rw (e, find_place)
              (listing-find_place key value r (from_right c k v l ∷ path) sr
                ∙ simp
                    (
                      upsert-append_right key value (to_list l) ((k, v) ∷ to_list r)
                          (Below-trans (to_list l) k key below (lt_of_gt key k e)),
                      append_assoc,
                    )
                    (rw (e, upsert) refl))
      ]

  to_list-set_at :
      (count : ℕ) (key : Text) (value : V) (p : Place V)
      → to_list (set_at count key value p).root ≡ listing_at p key value
  unfolding set_at to_list
  to_list-set_at count key value (occupied c l k v r path) =
      unfold to_list in to_list-plug (node c l k value r) path
  to_list-set_at count key value (vacant path) =
      to_list-fix_insert (node red leaf key value leaf) path
      ∙ (to_list-plug (node red leaf key value leaf) path ∙ simp append_assoc)

  to_list-set_from :
      (t : Tree V) (count : ℕ) (key : Text) (value : V)
      → IsSorted (to_list t)
      → to_list (set_from t count key value).root ≡ upsert key value (to_list t)
  unfolding to_list upsert before after
  to_list-set_from leaf count key value s = refl
  to_list-set_from (node c l k v r) count key value s =
      to_list-set_at count key value (find_place key (node c l k v r) [])
      ∙ (listing-find_place key value (node c l k v r) [] s ∙ simp append-nil)

  pub to_list-set :
      (m : SortedMap V) (key : Text) (value : V)
      → IsSorted (to_list m.root)
      → to_list (set m key value).root ≡ upsert key value (to_list m.root)
  unfolding set
  to_list-set m key value s = to_list-set_from m.root m.count key value s
