-- ===== src/Store/Range.antt =====
-- `readKeyRange` of src/storage/LSMStore.ts answers every key of the range as `get` does.
use lsm_kv_store.Base.{
  ℕ, ◌≡◌, refl, sym, ap, ◌∙◌, true, false, ◌||◌, Option, none, some, List, [], ◌∷◌, ◌++◌,
  if◌then◌else◌, arith, All, inl, inr, Bool-cases,
}
use lsm_kv_store.Text.{Text, lt_text, gt_text}
use lsm_kv_store.Assoc.{find, IsSorted, find-within, within-IsSorted}
use lsm_kv_store.SsTable.{Run, TableService}
use lsm_kv_store.MemTable
use lsm_kv_store.MemTable.{MemTable, MemTableEntry}
use lsm_kv_store.MemTable.Entries.{
  HasValidMap, get_entry-eq-find, get_range-eq-within, get_all_sorted-IsSorted,
}
use lsm_kv_store.MergeIterator
use lsm_kv_store.MergeIterator.Hits.{hit, visible}
use lsm_kv_store.MergeIterator.Merged.{iterate-eq-hit}
use lsm_kv_store.Store.{LsmStore, SsTableState, ok, live, first_hit, immutable_entry, get}
use lsm_kv_store.Store.View.{view, view_tables, get-eq-live-view}
use lsm_kv_store.Store.Reading.{
  non_empty, immutable_range, table_ranges, range_sources, read_key_range,
}
use lsm_kv_store.Store.Bounds.{
  first_pairs, first_pairs-nil, limited-eq-first_pairs, in_bounds, find-nil, before_start,
  after_end, no_key_past,
}

module _ (service : TableService) where
  open service use {contents, iterate, iterate-eq-within}

  -- A table is sorted, and its keys lie between the first and the last key of its metadata.
  pub record IsListed (t : SsTableState service) : Type 0 where
    pub sorted : IsSorted (contents t.reader)
    pub bounded :
        (key : Text)
        → in_bounds t.metadata.first_key t.metadata.last_key key ≡ false
        → find key (contents t.reader) ≡ none

  abbrev pub HasValidImmutable : Option MemTable → Type 0
  HasValidImmutable none = Unit
  HasValidImmutable (some t) = HasValidMap t

  pub record IsScannable (s : LsmStore service) : Type 0 where
    pub active_valid : HasValidMap s.active
    pub immutable_valid : HasValidImmutable s.immutable
    pub listed : All IsListed s.sstables

  hit-non_empty :
      (key : Text) (run : Run) (rest : List Run)
      → hit key (non_empty run ++ rest) ≡ first_hit service (find key run) (hit key rest)
  unfolding hit find
  hit-non_empty key [] rest = refl
  hit-non_empty key (e ∷ run) rest = ground arith

  find-get_range :
      (t : MemTable) (start end key : Text)
      → HasValidMap t
      → find key (MemTable.get_range t start end)
        ≡ (if in_bounds start end key then MemTable.get_entry t key else none)
  find-get_range t start end key h =
      rw (get_range-eq-within t start end h, get_entry-eq-find t key h)
        (find-within start end key (MemTable.get_all_sorted t))

  find-immutable_range :
      (o : Option MemTable) (start end key : Text)
      → HasValidImmutable o
      → find key (immutable_range o start end)
        ≡ (if in_bounds start end key then immutable_entry service o key else none)
  unfolding find
  find-immutable_range none start end key h = ground arith
  find-immutable_range (some t) start end key h = find-get_range t start end key h

  -- A table is passed over only where the range does not meet it.
  out_of_table :
      (first last start end key : Text)
      → (lt_text last start || gt_text first end) ≡ true
      → in_bounds start end key ≡ true
      → in_bounds first last key ≡ false
  out_of_table first last start end key h k = elim (Bool-cases (lt_text last start)) [
    | inl low ↦ ground (arith, before_start last start key)
    | inr not_low ↦ ground (arith, after_end first end key)
  ]

  -- One table adds what it has in the range.
  hit-table :
      (t : SsTableState service) (start end key : Text) (rest : List Run)
      → IsListed t
      → hit key (
          if lt_text t.metadata.last_key start || gt_text t.metadata.first_key end
          then rest
          else iterate t.reader start end ∷ rest)
        ≡ first_hit service
            (if in_bounds start end key then find key (contents t.reader) else none)
            (hit key rest)
  unfolding hit
  hit-table t start end key rest l =
      let skipped = lt_text t.metadata.last_key start || gt_text t.metadata.first_key end in
      elim (Bool-cases skipped) [
        | inl out ↦ elim (Bool-cases (in_bounds start end key)) [
          | inl inside ↦
              let absent =
                l.bounded key (
                  out_of_table t.metadata.first_key t.metadata.last_key start end key out inside) in
              rw (out, inside, absent) refl
          | inr outside ↦ rw (out, outside) refl
        ]
        | inr met ↦
            rw (met, iterate-eq-within t.reader start end l.sorted)
              (rw (hit, find-within start end key (contents t.reader)) (ground arith))
      ]

  hit-table_ranges :
      (ts : List (SsTableState service)) (start end key : Text)
      → All IsListed ts
      → hit key (table_ranges service ts start end)
        ≡ (if in_bounds start end key then view_tables service ts key else none)
  unfolding table_ranges view_tables hit
  hit-table_ranges [] start end key l = ground arith
  hit-table_ranges (t ∷ ts) start end key l =
      hit-table t start end key (table_ranges service ts start end) l.0
      ∙ ground (arith, hit-table_ranges ts start end key l.1)

  -- The sources of a range together have what the store has under the keys inside.
  hit-range_sources :
      (s : LsmStore service) (start end key : Text)
      → IsScannable s
      → hit key (range_sources service s start end)
        ≡ (if in_bounds start end key then view service s key else none)
  hit-range_sources s start end key v =
      let tables = table_ranges service s.sstables start end in
      let frozen = immutable_range s.immutable start end in
      let active =
        hit-non_empty key (MemTable.get_range s.active start end) (non_empty frozen ++ tables) in
      let immutable = hit-non_empty key frozen tables in
      active
      ∙ ground (
        arith,
        immutable,
        find-get_range s.active start end key v.active_valid,
        find-immutable_range s.immutable start end key v.immutable_valid,
        hit-table_ranges s.sstables start end key v.listed,
      )

  non_empty-IsSorted :
      (run : Run) (rest : List Run)
      → IsSorted run
      → All IsSorted rest
      → All IsSorted (non_empty run ++ rest)
  non_empty-IsSorted [] rest s r = r
  non_empty-IsSorted (e ∷ run) rest s r = (s, r)

  get_range-IsSorted :
      (t : MemTable) (start end : Text) → HasValidMap t → IsSorted (MemTable.get_range t start end)
  get_range-IsSorted t start end h =
      rw (get_range-eq-within t start end h)
        (within-IsSorted start end (MemTable.get_all_sorted t) (get_all_sorted-IsSorted t h))

  immutable_range-IsSorted :
      (o : Option MemTable) (start end : Text)
      → HasValidImmutable o
      → IsSorted (immutable_range o start end)
  immutable_range-IsSorted none start end h = tt
  immutable_range-IsSorted (some t) start end h = get_range-IsSorted t start end h

  table_ranges-IsSorted :
      (ts : List (SsTableState service)) (start end : Text)
      → All IsListed ts
      → All IsSorted (table_ranges service ts start end)
  unfolding table_ranges
  table_ranges-IsSorted [] start end l = tt
  table_ranges-IsSorted (t ∷ ts) start end l =
      let rest = table_ranges-IsSorted ts start end l.1 in
      let sorted : IsSorted (iterate t.reader start end) =
        rw (iterate-eq-within t.reader start end l.0.sorted)
          (within-IsSorted start end (contents t.reader) l.0.sorted) in
      elim (Bool-cases (lt_text t.metadata.last_key start || gt_text t.metadata.first_key end)) [
        | inl out ↦ rw out rest
        | inr met ↦ rw met (sorted, rest)
      ]

  range_sources-IsSorted :
      (s : LsmStore service) (start end : Text)
      → IsScannable s
      → All IsSorted (range_sources service s start end)
  range_sources-IsSorted s start end v =
      non_empty-IsSorted (MemTable.get_range s.active start end)
        (non_empty (immutable_range s.immutable start end)
          ++ table_ranges service s.sstables start end)
        (get_range-IsSorted s.active start end v.active_valid)
        (non_empty-IsSorted (immutable_range s.immutable start end)
          (table_ranges service s.sstables start end)
          (immutable_range-IsSorted s.immutable start end v.immutable_valid)
          (table_ranges-IsSorted s.sstables start end v.listed))

  -- The values that a store has under the keys of a range.
  abbrev live_between : LsmStore service → Text → Text → Text → Option Text
  live_between s start end key = if in_bounds start end key then live (view service s key) else none

  merged-eq-live :
      (s : LsmStore service) (start end key : Text)
      → IsScannable s
      → find key (MergeIterator.iterate false (range_sources service s start end))
        ≡ live_between s start end key
  merged-eq-live s start end key v =
      let merged =
        iterate-eq-hit false (range_sources service s start end)
          (range_sources-IsSorted s start end v) in
      merged.1 key ∙ ap (visible false) (hit-range_sources s start end key v) ∙ ground (arith)

  -- A range query on an initialized store, whose memtables have valid maps and whose tables are
  -- sorted and lie within the keys of their metadata, answers the first pairs (all, or the limit,
  -- and one where the limit is 0) of a list that is sorted by key without repeats, and that has
  -- under each key from the start to the end key what get answers for it, and no other key.
  pub read_key_range-eq-get :
      (s : LsmStore service) (start end : Text) (limit : Option ℕ)
      → s.initialized ≡ true
      → IsScannable s
      → (pairs : List (Text × Text)) × (read_key_range service s start end limit
          ≡ ok (first_pairs limit pairs))
        × IsSorted pairs
        × ((key : Text)
            → (in_bounds start end key ≡ true → get service s key ≡ ok (find key pairs))
              × (in_bounds start end key ≡ false → find key pairs ≡ none))
  unfolding read_key_range
  read_key_range-eq-get s start end limit h v = elim (Bool-cases (gt_text start end)) [
    | inl past ↦ (
      [],
      rw (h, past) (ap ok (sym (first_pairs-nil limit))),
      tt,
      λ key. (λ b. absurd (cc (b, no_key_past start end key past)), λ b. find-nil key),
    )
    | inr proper ↦
        let merged = MergeIterator.iterate false (range_sources service s start end) in
        let holds =
          iterate-eq-hit false (range_sources service s start end)
            (range_sources-IsSorted s start end v) in
        (
          merged,
          rw (h, proper) (ap ok (limited-eq-first_pairs limit merged)),
          holds.0,
          λ key.
              let same = merged-eq-live s start end key v in
              (
                λ b. get-eq-live-view service s key h ∙ ap ok (sym (same ∙ rw b refl)),
                λ b. same ∙ rw b refl,
              ),
        )
  ]
