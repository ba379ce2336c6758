-- ===== src/MergeIterator/Cursors.antt =====
-- The sources of a merge with their place: a cursor holds the entries that a source has not
-- yielded, and whether the first of them stands in the heap.
use mathlib.Core.List.{Perm, Mem, mem-cons, not-mem-nil}
use mathlib.Core.List.Perm
use mathlib.Core.Logic.Or
use native.Mathlib.Bridge.{le_prop}
use lsm_kv_store.Base.{
  ◌-◌, ℕ, zero, suc, ◌+◌, ◌≡◌, refl, ap, Bool, true, false, Option, none, some, List, [], ◌∷◌,
  arith, ◌≤◌,
}
use lsm_kv_store.Text.{Text}
use lsm_kv_store.MemTable.{MemTableEntry}
use lsm_kv_store.SsTable.{Run}
use lsm_kv_store.MergeIterator.{HeapEntry, next_of}

abbrev pub Cursor : Type 0
Cursor = Bool × Run

abbrev pub entry_of : ℕ → Text × MemTableEntry → HeapEntry
entry_of i e = record { key = e.0; entry = e.1; source_index = i }

-- The entries that stand in the heap, the sources numbered from `i`.
unfoldable pub heads : ℕ → List Cursor → List HeapEntry
heads i [] = []
heads i ((true, []) ∷ cs) = heads (i + 1) cs
heads i ((true, e ∷ run) ∷ cs) = entry_of i e ∷ heads (i + 1) cs
heads i ((false, run) ∷ cs) = heads (i + 1) cs

-- What the sources have yet to give.
unfoldable pub rests : List Cursor → List Run
rests [] = []
rests ((true, []) ∷ cs) = [] ∷ rests cs
rests ((true, e ∷ run) ∷ cs) = run ∷ rests cs
rests ((false, run) ∷ cs) = run ∷ rests cs

-- The entry of a source that stands in the heap.
unfoldable pub head_at : ℕ → List Cursor → Option (Text × MemTableEntry)
head_at i [] = none
head_at zero ((true, []) ∷ cs) = none
head_at zero ((true, e ∷ run) ∷ cs) = some e
head_at zero ((false, run) ∷ cs) = none
head_at (suc i) (c ∷ cs) = head_at i cs

-- The source has its turn: its first entry is to go into the heap.
unfoldable pub is_due : ℕ → List Cursor → Bool
is_due i [] = false
is_due zero ((true, run) ∷ cs) = false
is_due zero ((false, run) ∷ cs) = true
is_due (suc i) (c ∷ cs) = is_due i cs

unfoldable pub raise : ℕ → List Cursor → List Cursor
raise i [] = []
raise zero ((u, run) ∷ cs) = (true, run) ∷ cs
raise (suc i) (c ∷ cs) = c ∷ raise i cs

-- The first entry of a source has left the heap.
unfoldable pub lower : ℕ → List Cursor → List Cursor
lower i [] = []
lower zero ((u, []) ∷ cs) = (u, []) ∷ cs
lower zero ((u, e ∷ run) ∷ cs) = (false, run) ∷ cs
lower (suc i) (c ∷ cs) = c ∷ lower i cs

pub next_of-rests :
    (i : ℕ) (cs : List Cursor)
    → is_due i cs ≡ true
    → next_of (rests cs) i ≡ (head_at i (raise i cs), rests (raise i cs))
unfolding next_of rests raise head_at is_due
next_of-rests i [] h = cc
next_of-rests zero ((true, run) ∷ cs) h = cc
next_of-rests zero ((false, []) ∷ cs) h = refl
next_of-rests zero ((false, e ∷ run) ∷ cs) h = refl
next_of-rests (suc i) ((true, []) ∷ cs) h = rw (next_of-rests i cs h)
next_of-rests (suc i) ((true, e ∷ run) ∷ cs) h = rw (next_of-rests i cs h)
next_of-rests (suc i) ((false, run) ∷ cs) h = rw (next_of-rests i cs h)

pub rests-lower :
    (i : ℕ) (cs : List Cursor) {e : Text × MemTableEntry}
    → head_at i cs ≡ some e
    → rests (lower i cs) ≡ rests cs
unfolding rests lower head_at
rests-lower i [] h = cc
rests-lower zero ((true, []) ∷ cs) h = cc
rests-lower zero ((true, e ∷ run) ∷ cs) h = refl
rests-lower zero ((false, run) ∷ cs) h = cc
rests-lower (suc i) ((true, []) ∷ cs) h = ap (◌∷◌ []) (rests-lower i cs h)
rests-lower (suc i) ((true, e ∷ run) ∷ cs) h = ap (◌∷◌ run) (rests-lower i cs h)
rests-lower (suc i) ((false, run) ∷ cs) h = ap (◌∷◌ run) (rests-lower i cs h)

renumber : (i j : ℕ) (e : Text × MemTableEntry) → entry_of (i + (j + 1)) e ≡ entry_of (suc i + j) e
renumber i j e = ap (λ n. entry_of n e) (omega arith)

-- Without the first entry of a source, the heap holds the others.
pub heads-lower :
    (i j : ℕ) (cs : List Cursor) (e : Text × MemTableEntry)
    → head_at i cs ≡ some e
    → Perm (heads j cs) (entry_of (i + j) e ∷ heads j (lower i cs))
unfolding heads lower head_at
heads-lower i j [] e h = cc
heads-lower zero j ((true, []) ∷ cs) e h = cc
heads-lower zero j ((true, f ∷ run) ∷ cs) e h =
    let same : entry_of j f ≡ entry_of (0 + j) e = ground (arith) in rw same Perm.rfl
heads-lower zero j ((false, run) ∷ cs) e h = cc
heads-lower (suc i) j ((true, []) ∷ cs) e h = rw (← renumber i j e) (heads-lower i (j + 1) cs e h)
heads-lower (suc i) j ((true, f ∷ run) ∷ cs) e h =
    let deeper = rw (renumber i j e) at (heads-lower i (j + 1) cs e h) in
    Perm.trans (Perm.cons (entry_of j f) deeper)
      (Perm.swap (entry_of (suc i + j) e) (entry_of j f) (heads (j + 1) (lower i cs)))
heads-lower (suc i) j ((false, run) ∷ cs) e h = rw (← renumber i j e) (heads-lower i (j + 1) cs e h)

-- A source that has its turn adds its first entry.
pub heads-raise :
    (i j : ℕ) (cs : List Cursor) (e : Text × MemTableEntry)
    → is_due i cs ≡ true
    → head_at i (raise i cs) ≡ some e
    → Perm (entry_of (i + j) e ∷ heads j cs) (heads j (raise i cs))
unfolding heads raise head_at is_due
heads-raise i j [] e d h = cc
heads-raise zero j ((true, run) ∷ cs) e d h = cc
heads-raise zero j ((false, []) ∷ cs) e d h = cc
heads-raise zero j ((false, f ∷ run) ∷ cs) e d h =
    let same : entry_of (0 + j) e ≡ entry_of j f = ground (arith) in rw same Perm.rfl
heads-raise (suc i) j ((true, []) ∷ cs) e d h =
    rw (← renumber i j e) (heads-raise i (j + 1) cs e d h)
heads-raise (suc i) j ((true, f ∷ run) ∷ cs) e d h =
    let deeper = rw (renumber i j e) at (heads-raise i (j + 1) cs e d h) in
    Perm.trans (Perm.swap (entry_of j f) (entry_of (suc i + j) e) (heads (j + 1) cs))
      (Perm.cons (entry_of j f) deeper)
heads-raise (suc i) j ((false, run) ∷ cs) e d h =
    rw (← renumber i j e) (heads-raise i (j + 1) cs e d h)

-- A source that is at its end adds none.
pub heads-raise_end :
    (i j : ℕ) (cs : List Cursor)
    → is_due i cs ≡ true
    → head_at i (raise i cs) ≡ none
    → heads j (raise i cs) ≡ heads j cs
unfolding heads raise head_at is_due
heads-raise_end i j [] d h = cc
heads-raise_end zero j ((true, run) ∷ cs) d h = cc
heads-raise_end zero j ((false, []) ∷ cs) d h = refl
heads-raise_end zero j ((false, f ∷ run) ∷ cs) d h = cc
heads-raise_end (suc i) j ((true, []) ∷ cs) d h = heads-raise_end i (j + 1) cs d h
heads-raise_end (suc i) j ((true, f ∷ run) ∷ cs) d h =
    ap (◌∷◌ (entry_of j f)) (heads-raise_end i (j + 1) cs d h)
heads-raise_end (suc i) j ((false, run) ∷ cs) d h = heads-raise_end i (j + 1) cs d h

-- Each entry of the heap is the first one of the source that it names.
abbrev pub IsHeadFrom : ℕ → List Cursor → HeapEntry → Type 0
IsHeadFrom j cs x = (j ≤ x.source_index) × (head_at (x.source_index - j) cs ≡ some (x.key, x.entry))

pub later_IsHead :
    (j : ℕ) (c : Cursor) (cs : List Cursor) (x : HeapEntry)
    → IsHeadFrom (j + 1) cs x
    → IsHeadFrom j (c ∷ cs) x
unfolding head_at
later_IsHead j c cs x h =
    let next : x.source_index - j ≡ suc (x.source_index - (j + 1)) = omega (arith, h.0) in
    (omega (arith, h.0), rw next h.1)

pub Mem-heads : (j : ℕ) (cs : List Cursor) (x : HeapEntry) → Mem x (heads j cs) → IsHeadFrom j cs x
unfolding heads head_at
Mem-heads j [] x m = absurd (not-mem-nil m)
Mem-heads j ((true, []) ∷ cs) x m = later_IsHead j (true, []) cs x (Mem-heads (j + 1) cs x m)
Mem-heads j ((true, e ∷ run) ∷ cs) x m =
    Or.elim (hlevel (le_prop)) (mem-cons.0 m)
      (λ q. let first : j - j ≡ 0 = omega arith in rw q (omega arith, rw first refl))
      (λ m'. later_IsHead j (true, e ∷ run) cs x (Mem-heads (j + 1) cs x m'))
Mem-heads j ((false, run) ∷ cs) x m = later_IsHead j (false, run) cs x (Mem-heads (j + 1) cs x m)
