-- ===== src/SortedMap/Height.antt =====
-- src/storage/memtable/SortedMap.ts: what the source's "O(log n)" stands for, the height of the tree.
use Prim.Native.Nat.{max}
use native.Mathlib.Nat.{pow-suc}
use lsm_kv_store.Base.{
  ℕ, suc, ◌+◌, ◌*◌, ◌^◌, ◌≤◌, ◌≡◌, arith, List, [], ◌∷◌, length, length-append, if◌then◌else◌,
}
use lsm_kv_store.Text.{Text}
use lsm_kv_store.SortedMap.{set, red, black, Tree, leaf, node, SortedMap, is_red}
use lsm_kv_store.SortedMap.Listing.{to_list}
use lsm_kv_store.SortedMap.Lookup.{entries-eq-to_list}
use lsm_kv_store.SortedMap.Balance.{IsRedBlack, black_height}
use lsm_kv_store.SortedMap.Valid.{IsValid, set-IsValid}

module _ {ℓ} {V : Type ℓ} where
  abbrev pub height : Tree V → ℕ
  height leaf = 0
  height (node c l k v r) = suc (max (height l) (height r))

  height-le-black_height :
      (t : Tree V) → IsRedBlack t → height t ≤ 2 * black_height t + (if is_red t then 1 else 0)
  height-le-black_height leaf b = omega arith
  height-le-black_height (node red l k v r) b =
      ground (arith, height-le-black_height l b.0, height-le-black_height r b.1)
  height-le-black_height (node black l k v r) b =
      ground (arith, height-le-black_height l b.0, height-le-black_height r b.1)

  pow-black_height-le-length :
      (t : Tree V) → IsRedBlack t → 2 ^ black_height t ≤ length (to_list t) + 1
  unfolding to_list
  pow-black_height-le-length leaf b = omega arith
  pow-black_height-le-length (node red l k v r) b =
      rw length-append (omega (arith, pow-black_height-le-length l b.0))
  pow-black_height-le-length (node black l k v r) b =
      let right : 2 ^ black_height l ≤ length (to_list r) + 1 =
        rw b.2 (pow-black_height-le-length r b.1) in
      rw length-append (rw pow-suc (omega (arith, pow-black_height-le-length l b.0)))

  pub height-le-log :
      (m : SortedMap V) → IsValid m → (b : ℕ) × (height m.root ≤ 2 * b) × (2 ^ b ≤ m.count + 1)
  height-le-log m h =
      let size : length (to_list m.root) ≡ m.count = rw (h.counted, entries-eq-to_list) in
      (
        black_height m.root,
        ground (arith, height-le-black_height m.root h.balanced, h.black_root),
        omega (arith, pow-black_height-le-length m.root h.balanced),
      )

  -- The calls of `set` in order.
  abbrev pub set_all : SortedMap V → List (Text × V) → SortedMap V
  set_all m [] = m
  set_all m ((k, v) ∷ pairs) = set_all (set m k v) pairs

  set_all-IsValid :
      (m : SortedMap V) (pairs : List (Text × V)) → IsValid m → IsValid (set_all m pairs)
  set_all-IsValid m [] h = h
  set_all-IsValid m ((k, v) ∷ pairs) h = set_all-IsValid (set m k v) pairs (set-IsValid m k v h)

  -- From a valid map, after any sequence of calls of set, the height of the tree is at most twice
  -- some b with 2 ^ b at most the count plus one.
  pub height-set_all :
      (m : SortedMap V) (pairs : List (Text × V))
      → IsValid m
      → (b : ℕ) × (height (set_all m pairs).root ≤ 2 * b) × (2 ^ b ≤ (set_all m pairs).count + 1)
  height-set_all m pairs h = height-le-log (set_all m pairs) (set_all-IsValid m pairs h)
