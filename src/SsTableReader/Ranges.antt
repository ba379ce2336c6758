-- ===== src/SsTableReader/Ranges.antt =====
-- src/storage/sstable/SSTableReader.ts: `iterate` over a range of keys.
use lsm_kv_store.Base.{
  Option, ℕ, ◌+◌, ◌≡◌, sym, subst, ap, ◌∙◌, some, List, ◌∷◌, ◌++◌, All, All-append_right, length,
  length-append, arith, append_assoc, Bool-cases, inl, inr,
}
use lsm_kv_store.Text.{Text, lt_of_gt}
use lsm_kv_store.Codec.{TextCodec}
use lsm_kv_store.Assoc.{within, IsSorted, find, Above-trans}
use lsm_kv_store.MemTable.{MemTableEntry}
use lsm_kv_store.SsTable.{Run}
use lsm_kv_store.SsTableSerializer.{IndexEntry}
use lsm_kv_store.SsTableSerializer.RoundTrip.{IsExactEntry}
use lsm_kv_store.BloomFilter.{BloomFilter}
use lsm_kv_store.SsTableWriter.{write_entries}
use lsm_kv_store.SsTableReader.{or_key, iterate, collect, gt_text, lt_text, find_start_offset, get}
use lsm_kv_store.SsTableReader.Entries.{IsReadable}
use lsm_kv_store.SsTableReader.Scan.{run_bytes, written}
use lsm_kv_store.SsTableReader.Lookup.{
  kept_open, opened, opened-eq-kept_open, Start, run_bytes-split, length-run_bytes, later-IsSorted,
  all-Below, find_start_offset-Start, last_key_of, get-eq-find,
}
use lsm_kv_store.SsTableReader.Within.{
  lt_text-lt, gt_text-gt, within_skip, within-Above, within-Below,
}
use lsm_kv_store.SsTableReader.Collect.{collect_at, collect-run}

module _ ⦃codec : TextCodec⦄ (alloc : ℕ → List ℕ) where
  collect-Start :
      (start end : Text) (run : Run) (region rest : List ℕ) (offset : ℕ)
      → IsSorted run
      → All IsExactEntry run
      → All IsReadable run
      → run_bytes run ≡ some region
      → Start start run offset
      → collect alloc
          (length (region ++ rest) + 1)
          (region ++ rest)
          start
          end
          offset
          (length region)
        ≡ some (within start end run)
  collect-Start start end run region rest offset s x r w
        (before, after, bytes, split, wrote, here, lower) =
      let (b2, later, shape) =
        run_bytes-split before after bytes region wrote (ap run_bytes (sym split) ∙ w) in
      let xa =
        All-append_right IsExactEntry before after (subst (λ z. All IsExactEntry z) split x) in
      let ra = All-append_right IsReadable before after (subst (λ z. All IsReadable z) split r) in
      let sa = later-IsSorted before after (subst (λ z. IsSorted z) split s) in
      let fuel = length (region ++ rest) + 1 in
      collect_at alloc fuel start end (region ++ rest) (bytes ++ (b2 ++ rest)) offset (length bytes)
        (length region) (length bytes + length b2)
        (ap (λ z. z ++ rest) shape ∙ append_assoc bytes b2 rest) here
        (ap length shape ∙ length-append bytes b2)
      ∙ collect-run alloc fuel start end bytes b2 rest after
          (omega (
            arith,
            length-run_bytes after b2 xa later,
            ap length shape,
            length-append bytes b2,
            length-append region rest,
          ))
          sa xa ra later
      ∙ ap some (sym (ap (within start end) split ∙ within_skip start end before after lower))

  pub iterate-within :
      (interval : ℕ) (o1 o2 : Option Text) (k : Text) (e : MemTableEntry) (run : Run)
      (region rest : List ℕ) (index : List IndexEntry) (filter : Option BloomFilter)
      → IsSorted ((k, e) ∷ run)
      → All IsExactEntry ((k, e) ∷ run)
      → All IsReadable ((k, e) ∷ run)
      → write_entries interval 0 0 ((k, e) ∷ run) ≡ some (region, index)
      → iterate alloc (kept_open k run region rest index filter) o1 o2
        ≡ some (within (or_key o1 k) (or_key o2 (last_key_of k run)) ((k, e) ∷ run))
  unfolding iterate
  iterate-within interval o1 o2 k e run region rest index filter s x r w =
      let whole = (k, e) ∷ run in
      let start = or_key o1 k in
      let end = or_key o2 (last_key_of k run) in
      let last = last_key_of k run in
      elim (Bool-cases (gt_text start last)) [
        | inl past ↦
            let below =
              all-Below k start e run s (lt_of_gt start last (gt_text-gt start last past)) in
            rw past (ap some (sym (within-Below start end whole below)))
        | inr not_past ↦ elim (Bool-cases (lt_text end k)) [
          | inl early ↦
              let first = lt_text-lt end k early in
              rw (not_past, early)
                (ap some
                  (sym (within-Above start end whole (first, Above-trans end k run first s.0))))
          | inr not_early ↦
              let (bytes, places) = written interval 0 0 whole region index w in
              let good = find_start_offset-Start interval start whole region index s w in
              rw (not_past, not_early)
                (collect-Start start end whole region rest (find_start_offset start index 0) s x r
                  bytes good)
        ]
      ]

  -- In a table file that the writer wrote from a non-empty run sorted by key, with whatever
  -- sampling of the index, a lookup succeeds and answers what the run has for the key, and iterate
  -- succeeds and gives the entries of the run with keys from the start key to the end key, which
  -- are the first and the last key of the run where they are left out; this where the time stamps
  -- are below 2 ^ 53, the texts survive the encoding, the first byte of every key is from 1 to
  -- 126, and no value has 2 ^ 24 bytes or more.
  pub get-iterate :
      (interval : ℕ) (key : Text) (o1 o2 : Option Text) (k : Text) (e : MemTableEntry) (run : Run)
      (region rest : List ℕ) (index : List IndexEntry) (filter : Option BloomFilter)
      → IsSorted ((k, e) ∷ run)
      → All IsExactEntry ((k, e) ∷ run)
      → All IsReadable ((k, e) ∷ run)
      → write_entries interval 0 0 ((k, e) ∷ run) ≡ some (region, index)
      → (get alloc (opened k run region rest index filter) key ≡ some (find key ((k, e) ∷ run)))
        × (iterate alloc (opened k run region rest index filter) o1 o2
            ≡ some (within (or_key o1 k) (or_key o2 (last_key_of k run)) ((k, e) ∷ run)))
  get-iterate interval key o1 o2 k e run region rest index filter s x r w =
      let same = opened-eq-kept_open k e run region rest index filter x in
      (
        ap (λ o. get alloc o key) same
            ∙ get-eq-find alloc interval key k e run region rest index filter s x r w,
        ap (λ o. iterate alloc o o1 o2) same
            ∙ iterate-within interval o1 o2 k e run region rest index filter s x r w,
      )
