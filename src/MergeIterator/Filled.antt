-- ===== src/MergeIterator/Filled.antt =====
-- `advanceSource` and `extractMin` keep the heap filled: it holds the first entry of every source
-- that has been moved on, in heap order.
use mathlib.Core.List.{Perm, Mem, mem-cons_self, mem-cons}
use mathlib.Core.Logic.Or
use mathlib.Core.List.Perm
use lsm_kv_store.Base.{
  ◌-◌, ℕ, ◌+◌, ◌≡◌, sym, ap, ◌∙◌, true, false, Option, none, some, List, [], ◌∷◌, arith,
  Option-cases, inl, inr,
}
use lsm_kv_store.Text.{Text, gt_of_lt, lt_of_gt, eq_of_compare, ≺-trans, compare_keys_refl}
use lsm_kv_store.MemTable.{MemTableEntry}
use lsm_kv_store.MinHeap
use lsm_kv_store.MinHeap.Order.{IsRanking, IsHeap, irreflexive}
use lsm_kv_store.MinHeap.Least.{Extracted, insert-Sifted, extract_min-Extracted}
use lsm_kv_store.MergeIterator.{HeapEntry, MergeIterator, compare_heap_entries, advance_source}
use lsm_kv_store.MergeIterator.Cursors.{
  Cursor, entry_of, heads, rests, head_at, is_due, raise, lower, next_of-rests, rests-lower,
  heads-lower, heads-raise, heads-raise_end, Mem-heads,
}

compare_heap_entries_asym :
    (x y : HeapEntry) → compare_heap_entries x y ≡ true → compare_heap_entries y x ≡ false
unfolding compare_heap_entries
compare_heap_entries_asym x y h =
    ground (arith, gt_of_lt x.key y.key, eq_of_compare x.key y.key, compare_keys_refl x.key)

compare_heap_entries_trans :
    (x y z : HeapEntry)
    → compare_heap_entries y x ≡ false
    → compare_heap_entries z y ≡ false
    → compare_heap_entries z x ≡ false
unfolding compare_heap_entries
compare_heap_entries_trans x y z h k = ground (
  arith,
  lt_of_gt y.key x.key,
  eq_of_compare y.key x.key,
  lt_of_gt z.key y.key,
  eq_of_compare z.key y.key,
  ≺-trans x.key y.key z.key,
  gt_of_lt x.key z.key,
  compare_keys_refl x.key,
)

-- Keys and then indexes rank the entries of the heap.
pub compare_heap_entries-IsRanking : IsRanking compare_heap_entries
compare_heap_entries-IsRanking = record {
  asym = compare_heap_entries_asym;
  trans = compare_heap_entries_trans;
}

-- What is read out of range of the array; the heap does not read there.
abbrev no_entry : HeapEntry
no_entry = record {
  key = [];
  entry = record { value = []; timestamp = 0; deleted = false };
  source_index = 0;
}

pub record IsFilled (m : MergeIterator) (cs : List Cursor) : Type 0 where
  pub sources : m.sources ≡ rests cs
  pub ordered : IsHeap compare_heap_entries no_entry m.heap
  pub holds : Perm m.heap (heads 0 cs)

pub advance_source-IsFilled :
    (m : MergeIterator) (cs : List Cursor) (i : ℕ)
    → IsFilled m cs
    → is_due i cs ≡ true
    → IsFilled (advance_source m i) (raise i cs)
unfolding advance_source
advance_source-IsFilled m cs i f due =
    let next = rw (← f.sources) at (next_of-rests i cs due) in
    rw (advance_source, next)
      (elim (Option-cases (head_at i (raise i cs))) [
        | inl at_end ↦ rw at_end (record {
          sources = ap (λ p. p.1) next;
          ordered = f.ordered;
          holds = rw (heads-raise_end i 0 cs due at_end) f.holds;
        })
        | inr (e, more) ↦ rw more (
            let x = entry_of i e in
            let grown =
              insert-Sifted compare_heap_entries no_entry compare_heap_entries-IsRanking m.heap x
                f.ordered in
            let numbered : i + 0 ≡ i = omega arith in
            let added = rw numbered at (heads-raise i 0 cs e due more) in
            record {
              sources = ap (λ p. p.1) next;
              ordered = grown.0;
              holds = Perm.trans grown.1 (Perm.trans (Perm.cons x f.holds) added);
            })
      ])

-- What `extractMin` makes of a filled heap: the first entry of its source, that no other in the
-- heap comes before.
abbrev pub IsTaken : MergeIterator → List Cursor → Option HeapEntry × List HeapEntry → Type 0
IsTaken m cs o = elim o.0 [
  | none ↦ heads 0 cs ≡ []
  | some x ↦
      (head_at x.source_index cs ≡ some (x.key, x.entry))
      × IsFilled (record m { heap = o.1 }) (lower x.source_index cs)
      × ((i : ℕ) (e : Text × MemTableEntry)
          → head_at i cs ≡ some e
          → compare_heap_entries (entry_of i e) x ≡ false)
]

least_of_all :
    (x : HeapEntry) (h : List HeapEntry)
    → ((y : HeapEntry) → Mem y h → compare_heap_entries y x ≡ false)
    → (y : HeapEntry) → Mem y (x ∷ h)
    → compare_heap_entries y x ≡ false
least_of_all x h least y m =
    Or.elim (hlevel) (mem-cons.0 m) (λ e. rw e (irreflexive compare_heap_entries-IsRanking x))
      (least y)

Extracted-IsTaken :
    (m : MergeIterator) (cs : List Cursor)
    → IsFilled m cs
    → (o : Option HeapEntry × List HeapEntry)
    → Extracted compare_heap_entries no_entry compare_heap_entries-IsRanking m.heap o
    → IsTaken m cs o
Extracted-IsTaken m cs f (none, h) (e, e') = Perm.eq-nil (Perm.symm (rw e at f.holds))
Extracted-IsTaken m cs f (some x, h) (v, p, least) =
    let all : Perm (x ∷ h) (heads 0 cs) = Perm.trans (Perm.symm p) f.holds in
    let place = Mem-heads 0 cs x ((Perm.mem_iff all).0 mem-cons_self) in
    let at_head : head_at x.source_index cs ≡ some (x.key, x.entry) =
      rw (← (let z : x.source_index - 0 ≡ x.source_index = omega arith in z)) place.1 in
    let parted =
      rw (let z : x.source_index + 0 ≡ x.source_index = omega arith in z) at
        (heads-lower x.source_index 0 cs (x.key, x.entry) at_head) in
    (
      at_head,
      record {
        sources = f.sources ∙ sym (rests-lower x.source_index cs at_head);
        ordered = v;
        holds = Perm.cons_inv (Perm.trans all parted);
      },
      λ i e q.
          let other = rw (let z : i + 0 ≡ i = omega arith in z) at (heads-lower i 0 cs e q) in
          least_of_all x h least (entry_of i e)
            ((Perm.mem_iff (Perm.trans all other)).1 mem-cons_self),
    )

pub extract_min-IsTaken :
    (m : MergeIterator) (cs : List Cursor)
    → IsFilled m cs
    → IsTaken m cs (MinHeap.extract_min compare_heap_entries m.heap)
extract_min-IsTaken m cs f =
    Extracted-IsTaken m cs f (MinHeap.extract_min compare_heap_entries m.heap) (
      extract_min-Extracted compare_heap_entries no_entry compare_heap_entries-IsRanking m.heap
        f.ordered)
