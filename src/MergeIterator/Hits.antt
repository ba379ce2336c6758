-- ===== src/MergeIterator/Hits.antt =====
-- The entry of a key in the first source that has it, before and after a key has been dropped.
use lsm_kv_store.Base.{
  ℕ, zero, suc, ◌+◌, ◌≡◌, refl, Bool, true, false, Option, none, some, List, [], ◌∷◌, arith, All,
  ◌<◌, ◌≤◌, if◌then◌else◌, ◌&&◌, not,
}
use lsm_kv_store.Text.{Text, ◌≺◌, lt_of_gt, eq_of_compare, compare_keys_refl, eq_text}
use lsm_kv_store.Assoc.{Above, find, find-Above, Above-trans}
use lsm_kv_store.MemTable.{MemTableEntry}
use lsm_kv_store.SsTable.{Run}
use lsm_kv_store.MergeIterator.{total}
use lsm_kv_store.MergeIterator.Cursors.{Cursor, heads, head_at}
use lsm_kv_store.MergeIterator.Duplicates.{dropped, AllSorted, HasLeast}

-- The entry of a key in the first source that has one.
unfoldable pub hit : Text → List Run → Option MemTableEntry
unfolding find
hit k [] = none
hit k (run ∷ runs) = elim (find k run) [ some e ↦ some e | none ↦ hit k runs ]

-- What the iterator yields for an entry.
abbrev pub visible : Bool → Option MemTableEntry → Option Text
visible include_tombstones none = none
visible include_tombstones (some e) =
    if e.deleted && not include_tombstones then none else some e.value

unfoldable pub runs : List Cursor → List Run
runs [] = []
runs (c ∷ cs) = c.1 ∷ runs cs

abbrev pub AllUp : List Cursor → Type 0
AllUp cs = All (λ c. c.0 ≡ true) cs

abbrev pub AllAbove : Text → List Cursor → Type 0
AllAbove k cs = All (λ c. Above k c.1) cs

pub dropped-AllUp : (k : Text) (cs : List Cursor) → AllUp cs → AllUp (dropped k cs)
unfolding dropped
dropped-AllUp k [] u = tt
dropped-AllUp k ((true, []) ∷ cs) u = (refl, dropped-AllUp k cs u.1)
dropped-AllUp k ((true, e ∷ run) ∷ cs) u = (refl, dropped-AllUp k cs u.1)
dropped-AllUp k ((false, run) ∷ cs) u = (u.0, dropped-AllUp k cs u.1)

pub dropped-AllSorted : (k : Text) (cs : List Cursor) → AllSorted cs → AllSorted (dropped k cs)
unfolding dropped
dropped-AllSorted k [] s = tt
dropped-AllSorted k ((true, []) ∷ cs) s = (tt, dropped-AllSorted k cs s.1)
dropped-AllSorted k ((true, e ∷ run) ∷ cs) s = (ground arith, dropped-AllSorted k cs s.1)
dropped-AllSorted k ((false, run) ∷ cs) s = (s.0, dropped-AllSorted k cs s.1)

pub dropped-AllAbove : (j k : Text) (cs : List Cursor) → AllAbove j cs → AllAbove j (dropped k cs)
unfolding dropped
dropped-AllAbove j k [] a = tt
dropped-AllAbove j k ((true, []) ∷ cs) a = (tt, dropped-AllAbove j k cs a.1)
dropped-AllAbove j k ((true, e ∷ run) ∷ cs) a = (ground arith, dropped-AllAbove j k cs a.1)
dropped-AllAbove j k ((false, run) ∷ cs) a = (a.0, dropped-AllAbove j k cs a.1)

-- What is left comes after the key.
pub AllAbove-dropped :
    (k : Text) (cs : List Cursor)
    → AllUp cs
    → AllSorted cs
    → HasLeast k cs
    → AllAbove k (dropped k cs)
unfolding dropped
AllAbove-dropped k [] u s l = tt
AllAbove-dropped k ((true, []) ∷ cs) u s l = (tt, AllAbove-dropped k cs u.1 s.1 l.1)
AllAbove-dropped k ((true, e ∷ run) ∷ cs) u s l = (
  ground (arith, eq_of_compare e.0 k, lt_of_gt e.0 k, Above-trans k e.0 run),
  AllAbove-dropped k cs u.1 s.1 l.1,
)
AllAbove-dropped k ((false, run) ∷ cs) u s l = cc

pub hit-dropped :
    (j k : Text) (cs : List Cursor)
    → eq_text j k ≡ false
    → hit j (runs (dropped k cs)) ≡ hit j (runs cs)
unfolding dropped runs hit
hit-dropped j k [] d = refl
hit-dropped j k ((true, []) ∷ cs) d = hit-dropped j k cs d
hit-dropped j k ((true, e ∷ run) ∷ cs) d = ground (arith, hit-dropped j k cs d, eq_of_compare e.0 k)
hit-dropped j k ((false, run) ∷ cs) d = ground (arith, hit-dropped j k cs d)

pub hit-AllAbove : (k : Text) (cs : List Cursor) → AllAbove k cs → hit k (runs cs) ≡ none
unfolding runs hit
hit-AllAbove k [] a = refl
hit-AllAbove k (c ∷ cs) a = rw (hit, find-Above k c.1 a.0) (hit-AllAbove k cs a.1)

-- The winner is the entry of the first source that has its key.
pub hit_winner :
    (k : Text) (v : MemTableEntry) (i : ℕ) (cs : List Cursor)
    → AllUp cs
    → AllSorted cs
    → head_at i cs ≡ some (k, v)
    → ((i' : ℕ) (e : Text × MemTableEntry) → i' < i → head_at i' cs ≡ some e → k ≺ e.0)
    → hit k (runs cs) ≡ some v
unfolding runs hit head_at
hit_winner k v i [] u s h l = cc
hit_winner k v zero ((true, []) ∷ cs) u s h l = cc
hit_winner k v zero ((true, e ∷ run) ∷ cs) u s h l = ground (arith, compare_keys_refl k)
hit_winner k v (suc i) ((true, []) ∷ cs) u s h l =
    hit_winner k v i cs u.1 s.1 h (λ i' e p. l (suc i') e (omega arith))
hit_winner k v (suc i) ((true, e ∷ run) ∷ cs) u s h l =
    let first = l 0 e (omega arith) refl in
    rw (hit, find-Above k (e ∷ run) (first, Above-trans k e.0 run first s.0.0))
      (hit_winner k v i cs u.1 s.1 h (λ i' e p. l (suc i') e (omega arith)))
hit_winner k v i ((false, run) ∷ cs) u s h l = cc

pub head_above :
    (j : Text) (i : ℕ) (cs : List Cursor) (e : Text × MemTableEntry)
    → AllAbove j cs
    → head_at i cs ≡ some e
    → j ≺ e.0
unfolding head_at
head_above j i [] e a h = cc
head_above j zero ((true, []) ∷ cs) e a h = cc
head_above j zero ((true, f ∷ run) ∷ cs) e a h = ground arith
head_above j zero ((false, run) ∷ cs) e a h = cc
head_above j (suc i) (c ∷ cs) e a h = head_above j i cs e a.1 h

-- No source has an entry left.
pub ended-AllAbove :
    (j : Text) (i : ℕ) (cs : List Cursor) → AllUp cs → heads i cs ≡ [] → AllAbove j cs
unfolding heads
ended-AllAbove j i [] u h = tt
ended-AllAbove j i ((true, []) ∷ cs) u h = (tt, ended-AllAbove j (i + 1) cs u.1 h)
ended-AllAbove j i ((true, e ∷ run) ∷ cs) u h = cc
ended-AllAbove j i ((false, run) ∷ cs) u h = cc

-- Dropping a key that is there leaves fewer entries.
pub total-dropped_le : (k : Text) (cs : List Cursor) → total (runs (dropped k cs)) ≤ total (runs cs)
unfolding total runs dropped
total-dropped_le k [] = omega arith
total-dropped_le k ((true, []) ∷ cs) = ground (arith, total-dropped_le k cs)
total-dropped_le k ((true, e ∷ run) ∷ cs) = ground (arith, total-dropped_le k cs)
total-dropped_le k ((false, run) ∷ cs) = ground (arith, total-dropped_le k cs)

pub total-dropped_lt :
    (k : Text) (i : ℕ) (cs : List Cursor) (v : MemTableEntry)
    → head_at i cs ≡ some (k, v)
    → total (runs (dropped k cs)) < total (runs cs)
unfolding total runs dropped head_at
total-dropped_lt k i [] v h = cc
total-dropped_lt k zero ((true, []) ∷ cs) v h = cc
total-dropped_lt k zero ((true, e ∷ run) ∷ cs) v h =
    ground (arith, total-dropped_le k cs, compare_keys_refl k)
total-dropped_lt k zero ((false, run) ∷ cs) v h = cc
total-dropped_lt k (suc i) ((true, []) ∷ cs) v h = ground (arith, total-dropped_lt k i cs v h)
total-dropped_lt k (suc i) ((true, e ∷ run) ∷ cs) v h = ground (arith, total-dropped_lt k i cs v h)
total-dropped_lt k (suc i) ((false, run) ∷ cs) v h = ground (arith, total-dropped_lt k i cs v h)
