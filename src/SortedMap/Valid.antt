-- ===== src/SortedMap/Valid.antt =====
-- src/storage/memtable/SortedMap.ts: the invariant of a `SortedMap`, and `set`.
use lsm_kv_store.Base.{
  ℕ, suc, ◌+◌, ◌≡◌, refl, true, false, List, [], ◌∷◌, arith, length, length-append, inl, inr, some,
  if◌then◌else◌,
}
use lsm_kv_store.Text.{Text, compare_cases, eq_text}
use lsm_kv_store.Assoc.{IsSorted, upsert, upsert-IsSorted, find, find-upsert}
use lsm_kv_store.SortedMap.{
  Color, red, black, Tree, leaf, node, Frame, from_left, from_right, is_red, plug, empty, paint,
  SortedMap, Place, occupied, vacant, find_place, set_at, set_from, set, get, entries, fix_insert,
}
use lsm_kv_store.SortedMap.Listing.{to_list, before, after, to_list-plug, to_list-fix_insert}
use lsm_kv_store.SortedMap.Lookup.{entries-eq-to_list, to_list-set, find_node-eq-find}
use lsm_kv_store.SortedMap.Balance.{
  black_height, IsRedBlack, IsRedBlackAround, top_is_black, plug-IsRedBlack, fix_insert-IsRedBlack,
  Joins,
}

module _ {ℓ} {V : Type ℓ} where
  -- Keys ascend, the colours balance the tree under a black root, and the count is exact.
  pub record IsValid (m : SortedMap V) : Type 0 where
    pub sorted : IsSorted (entries m)
    pub balanced : IsRedBlack m.root
    pub black_root : is_red m.root ≡ false
    pub counted : m.count ≡ length (entries m)

  pub empty-IsValid : IsValid empty
  unfolding entries
  empty-IsValid = record { sorted = tt; balanced = tt; black_root = refl; counted = refl }

  -- What the descent keeps: the path is the surrounding of a valid tree.
  record IsPlace (t : Tree V) (path : List (Frame V)) : Type 0 where
    below : IsRedBlack t
    around : IsRedBlackAround path (black_height t)
    under_black : is_red t ≡ true → top_is_black path ≡ true

  abbrev IsPlaced : Place V → Type 0
  IsPlaced (occupied c l k v r path) = IsPlace (node c l k v r) path
  IsPlaced (vacant path) = IsRedBlackAround path 0

  go_left-IsPlace :
      (c : Color) (l : Tree V) (k : Text) (v : V) (r : Tree V) (path : List (Frame V))
      → IsPlace (node c l k v r) path
      → IsPlace l (from_left c k v r ∷ path)
  go_left-IsPlace red l k v r path h = ground arith
  go_left-IsPlace black l k v r path h = ground arith

  go_right-IsPlace :
      (c : Color) (l : Tree V) (k : Text) (v : V) (r : Tree V) (path : List (Frame V))
      → IsPlace (node c l k v r) path
      → IsPlace r (from_right c k v l ∷ path)
  go_right-IsPlace red l k v r path h = ground arith
  go_right-IsPlace black l k v r path h = ground arith

  find_place-IsPlaced :
      (key : Text) (t : Tree V) (path : List (Frame V))
      → IsPlace t path
      → IsPlaced (find_place key t path)
  unfolding find_place
  find_place-IsPlaced key leaf path h = h.around
  find_place-IsPlaced key (node c l k v r) path h = elim (compare_cases key k) [
    | inl e ↦
        rw (e, find_place)
          (find_place-IsPlaced key l (from_left c k v r ∷ path) (go_left-IsPlace c l k v r path h))
    | inr (inl e) ↦ rw (e, find_place) h
    | inr (inr e) ↦
        rw (e, find_place)
          (find_place-IsPlaced key r (from_right c k v l ∷ path)
            (go_right-IsPlace c l k v r path h))
  ]

  Joins-of_under_black :
      (t : Tree V) (path : List (Frame V))
      → (is_red t ≡ true → top_is_black path ≡ true)
      → Joins t path
  Joins-of_under_black t [] h = tt
  Joins-of_under_black t (f ∷ path) h = λ e. ground (arith, h e)

  is_red-plug :
      (t : Tree V) (path : List (Frame V)) (h : ℕ)
      → IsRedBlackAround path h
      → (is_red t ≡ true → top_is_black path ≡ true)
      → is_red (plug t path) ≡ false
  unfolding plug
  is_red-plug t [] h a u = ground arith
  is_red-plug t (from_left red k v r ∷ path) h a u =
      is_red-plug (node red t k v r) path h a.3 (λ _. a.2.1)
  is_red-plug t (from_left black k v r ∷ path) h a u =
      is_red-plug (node black t k v r) path (suc h) a.3 (λ e. cc)
  is_red-plug t (from_right red k v r ∷ path) h a u =
      is_red-plug (node red r k v t) path h a.3 (λ _. a.2.1)
  is_red-plug t (from_right black k v r ∷ path) h a u =
      is_red-plug (node black r k v t) path (suc h) a.3 (λ e. cc)

  is_red-paint : (t : Tree V) → is_red (paint black t) ≡ false
  is_red-paint leaf = refl
  is_red-paint (node c l k v r) = refl

  is_red-fix_insert : (t : Tree V) (path : List (Frame V)) → is_red (fix_insert t path) ≡ false
  unfolding fix_insert
  is_red-fix_insert t path = is_red-paint _

  set_at-balanced :
      (count : ℕ) (key : Text) (value : V) (p : Place V)
      → IsPlaced p
      → IsRedBlack (set_at count key value p).root
        × (is_red (set_at count key value p).root ≡ false)
  unfolding set_at
  set_at-balanced count key value (occupied red l k v r path) h = (
    plug-IsRedBlack (node red l k value r) path h.below h.around
        (Joins-of_under_black (node red l k value r) path h.under_black),
    is_red-plug (node red l k value r) path (black_height l) h.around h.under_black,
  )
  set_at-balanced count key value (occupied black l k v r path) h = (
    plug-IsRedBlack (node black l k value r) path h.below h.around
        (Joins-of_under_black (node black l k value r) path h.under_black),
    is_red-plug (node black l k value r) path (suc (black_height l)) h.around h.under_black,
  )
  set_at-balanced count key value (vacant path) h = (
    fix_insert-IsRedBlack (node red leaf key value leaf) path
        (record { is_red_here = refl; below = (tt, tt, refl, (refl, refl)); around = h }),
    is_red-fix_insert _ path,
  )

  set_from-balanced :
      (t : Tree V) (count : ℕ) (key : Text) (value : V)
      → IsRedBlack t
      → is_red t ≡ false
      → IsRedBlack (set_from t count key value).root
        × (is_red (set_from t count key value).root ≡ false)
  set_from-balanced leaf count key value b e = ((tt, tt, refl, tt), refl)
  set_from-balanced (node c l k v r) count key value b e = set_at-balanced count key value _ (
      find_place-IsPlaced key (node c l k v r) []
        (record { below = b; around = tt; under_black = λ f. ground arith }))

  -- The tree that a place was found in.
  abbrev place_tree : Place V → Tree V
  place_tree (occupied c l k v r path) = plug (node c l k v r) path
  place_tree (vacant path) = plug leaf path

  place_tree-find_place :
      (key : Text) (t : Tree V) (path : List (Frame V))
      → place_tree (find_place key t path) ≡ plug t path
  unfolding find_place plug
  place_tree-find_place key leaf path = refl
  place_tree-find_place key (node c l k v r) path = elim (compare_cases key k) [
    | inl e ↦ rw (e, find_place) (place_tree-find_place key l (from_left c k v r ∷ path))
    | inr (inl e) ↦ rw (e, find_place)
    | inr (inr e) ↦ rw (e, find_place) (place_tree-find_place key r (from_right c k v l ∷ path))
  ]

  length-plug :
      (t : Tree V) (path : List (Frame V))
      → length (to_list (plug t path))
        ≡ length (before path) + length (to_list t) + length (after path)
  length-plug t path = rw to_list-plug (simp length-append)

  set_at-counted :
      (count : ℕ) (key : Text) (value : V) (p : Place V)
      → count ≡ length (to_list (place_tree p))
      → (set_at count key value p).count ≡ length (to_list (set_at count key value p).root)
  unfolding set_at
  set_at-counted count key value (occupied c l k v r path) h =
      let old = length-plug (node c l k v r) path in
      let new = length-plug (node c l k value r) path in
      let same : length (to_list (node c l k v r)) ≡ length (to_list (node c l k value r)) =
        unfold to_list in simp length-append in
      omega arith
  set_at-counted count key value (vacant path) h =
      let one = node red leaf key value leaf in
      rw to_list-fix_insert
        (unfold to_list in omega (arith, length-plug one path, length-plug leaf path))

  set_from-counted :
      (t : Tree V) (count : ℕ) (key : Text) (value : V)
      → count ≡ length (to_list t)
      → (set_from t count key value).count ≡ length (to_list (set_from t count key value).root)
  set_from-counted leaf count key value h = unfold to_list in omega arith
  set_from-counted (node c l k v r) count key value h =
      set_at-counted count key value (find_place key (node c l k v r) [])
        (rw place_tree-find_place (unfold plug in h))

  -- On a valid map, the in-order entries after a set are the ordered insertion of the key into the
  -- entries before it.
  pub entries-set :
      (m : SortedMap V) (key : Text) (value : V)
      → IsValid m
      → entries (set m key value) ≡ upsert key value (entries m)
  entries-set m key value h =
      simp entries-eq-to_list (to_list-set m key value (rw entries-eq-to_list at h.sorted))

  -- Setting a key in a valid map gives a valid map: keys ascend, the tree is red-black with a
  -- black root, and the count is the number of entries.
  pub set-IsValid :
      (m : SortedMap V) (key : Text) (value : V) → IsValid m → IsValid (set m key value)
  set-IsValid m key value h =
      let coloured = set_from-balanced m.root m.count key value h.balanced h.black_root in
      record {
        sorted = rw (entries-set m key value h) (upsert-IsSorted key value (entries m) h.sorted);
        balanced = unfold set in coloured.0;
        black_root = unfold set in coloured.1;
        counted = rw entries-eq-to_list (
            unfold set in
            set_from-counted m.root m.count key value (rw entries-eq-to_list at h.counted));
      }

  -- `get` reads the listing.
  pub get-eq-find : (m : SortedMap V) (key : Text) → IsValid m → get m key ≡ find key (entries m)
  unfolding get
  get-eq-find m key h =
      rw entries-eq-to_list (find_node-eq-find m.root key (rw entries-eq-to_list at h.sorted))

  -- On a valid map, after a set the key reads the new value and every other key reads what it read
  -- before.
  pub get-set :
      (m : SortedMap V) (key : Text) (value : V) (other : Text)
      → IsValid m
      → get (set m key value) other ≡ (if eq_text other key then some value else get m other)
  get-set m key value other h =
      simp
        (
          get-eq-find m other h,
          get-eq-find (set m key value) other (set-IsValid m key value h),
          entries-set m key value h,
        )
        (find-upsert key other value (entries m))
