-- ===== src/SsTableReader/Lookup.antt =====
-- src/storage/sstable/SSTableReader.ts: a lookup in the file that the writer wrote.
use lsm_kv_store.Base.{
  Option, ℕ, ◌+◌, ◌≤◌, ◌≡◌, refl, sym, subst, ap, ◌∙◌, true, false, none, some, List, [], ◌∷◌, ◌++◌,
  All, All-imp, All-append_right, length, length-append, arith, append_assoc, Bool-cases, inl, inr,
}
use lsm_kv_store.Text.{Text, le_text, ◌≺◌, ≺-trans, lt_of_gt, compare_cases}
use lsm_kv_store.Codec.{TextCodec}
use lsm_kv_store.Assoc.{IsSorted, Below, find, find-Above, find-Below, Above-trans}
use lsm_kv_store.Bytes.Fields.{then_write-some}
use lsm_kv_store.MemTable.{MemTableEntry}
use lsm_kv_store.SsTable.{Run}
use lsm_kv_store.SsTableSerializer.{IndexEntry, serialize_entry}
use lsm_kv_store.SsTableSerializer.RoundTrip.{IsExactEntry}
use lsm_kv_store.BloomFilter.{BloomFilter}
use lsm_kv_store.SsTableWriter.{write_entries}
use lsm_kv_store.SsTableReader.{ReaderState, is_in_range, find_start_offset, scan, get}
use lsm_kv_store.SsTableReader.Entries.{serialize_entry-nonempty, IsReadable}
use lsm_kv_store.SsTableReader.Search.{search-Good, before-Below, find_skip, in_range}
use lsm_kv_store.SsTableReader.Scan.{run_bytes, At, written, scan_at, scan-run}

module _ ⦃codec : TextCodec⦄ where
  -- === the whole lookup ===

  pub run_bytes-split :
      (before after : Run) (b1 region : List ℕ)
      → run_bytes before ≡ some b1
      → run_bytes (before ++ after) ≡ some region
      → (b2 : List ℕ) × (run_bytes after ≡ some b2) × (region ≡ b1 ++ b2)
  run_bytes-split [] after b1 region h w =
      let empty : [] ≡ b1 = cc h in (region, w, subst (λ b. region ≡ b ++ region) empty refl)
  run_bytes-split (e ∷ before) after b1 region h w =
      let (c1, m1, p1, q1, r1) = then_write-some (serialize_entry e) (run_bytes before) b1 h in
      let (c2, m2, p2, q2, r2) =
        then_write-some (serialize_entry e) (run_bytes (before ++ after)) region w in
      let (b2, found, shape) = run_bytes-split before after m1 m2 q1 q2 in
      let same : c2 ≡ c1 = cc (p1, p2) in
      (b2, found, cc (r1, r2, shape, same, append_assoc c1 m1 b2))

  pub length-run_bytes :
      (run : Run) (region : List ℕ)
      → All IsExactEntry run
      → run_bytes run ≡ some region
      → length run ≤ length region
  length-run_bytes [] region x h = omega arith
  length-run_bytes (e ∷ run) region x h =
      let (buffer, more, wrote, later, shape) =
        then_write-some (serialize_entry e) (run_bytes run) region h in
      omega (
        arith,
        serialize_entry-nonempty e buffer x.0 wrote,
        length-run_bytes run more x.1 later,
        ap length shape,
        length-append buffer more,
      )

  pub later-IsSorted : (before after : Run) → IsSorted (before ++ after) → IsSorted after
  later-IsSorted [] after s = s
  later-IsSorted (e ∷ before) after s = later-IsSorted before after s.1

  abbrev pub last_key_of : Text → Run → Text
  last_key_of k [] = k
  last_key_of k ((j, e) ∷ run) = last_key_of j run

  pub all-Below :
      (k key : Text) (e : MemTableEntry) (run : Run)
      → IsSorted ((k, e) ∷ run)
      → last_key_of k run ≺ key
      → Below ((k, e) ∷ run) key
  all-Below k key e [] s h = (h, tt)
  all-Below k key e ((j, d) ∷ run) s h =
      let rest = all-Below j key d run s.1 h in (≺-trans k j key s.0.0 rest.0, rest)

  -- The same with the keys of the footer as they are in the run.
  abbrev pub kept_open :
      Text → Run → List ℕ → List ℕ → List IndexEntry → Option BloomFilter → ReaderState
  kept_open first_key run region rest index filter = record {
    file = region ++ rest;
    data_offset = 0;
    index_offset = length region;
    first_key = first_key;
    last_key = last_key_of first_key run;
    sparse_index = index;
    bloom_filter = filter;
  }

  last-WellFormed :
      (k : Text) (e : MemTableEntry) (run : Run)
      → All IsExactEntry ((k, e) ∷ run)
      → codec.IsWellFormed (last_key_of k run)
  last-WellFormed k e [] x = x.0.0
  last-WellFormed k e ((j, d) ∷ run) x = last-WellFormed j d run x.1

  -- The file that the writer wrote, open: `readFooter` decodes the first and the last key.
  abbrev pub opened :
      Text → Run → List ℕ → List ℕ → List IndexEntry → Option BloomFilter → ReaderState
  opened first_key run region rest index filter =
      record (kept_open first_key run region rest index filter) {
        first_key = codec.decode (codec.encode first_key);
        last_key = codec.decode (codec.encode (last_key_of first_key run));
      }

  pub opened-eq-kept_open :
      (k : Text) (e : MemTableEntry) (run : Run) (region rest : List ℕ) (index : List IndexEntry)
      (filter : Option BloomFilter)
      → All IsExactEntry ((k, e) ∷ run)
      → opened k run region rest index filter ≡ kept_open k run region rest index filter
  opened-eq-kept_open k e run region rest index filter x =
      rw
        (
          codec.decode-encode k x.0.0,
          codec.decode-encode (last_key_of k run) (last-WellFormed k e run x),
        )
        refl

  pub out_of_range :
      (key k : Text) (e : MemTableEntry) (run : Run) (region rest : List ℕ)
      (index : List IndexEntry) (filter : Option BloomFilter)
      → IsSorted ((k, e) ∷ run)
      → is_in_range (kept_open k run region rest index filter) key ≡ false
      → find key ((k, e) ∷ run) ≡ none
  unfolding is_in_range
  out_of_range key k e run region rest index filter s h = elim (compare_cases key k) [
    | inl low ↦ find-Above key ((k, e) ∷ run) (low, Above-trans key k run low s.0)
    | inr not_low ↦ elim (compare_cases key (last_key_of k run)) [
      | inr (inr high) ↦
          find-Below key ((k, e) ∷ run)
            (all-Below k key e run s (lt_of_gt key (last_key_of k run) high))
      | inl below_last ↦
          absurd (cc (in_range key k (last_key_of k run) not_low (inl below_last), h))
      | inr (inl at_last) ↦
          absurd (cc (in_range key k (last_key_of k run) not_low (inr at_last), h))
    ]
  ]

  -- An offset from which a scan finds what the run has.
  abbrev pub Start : Text → Run → ℕ → Type 0
  Start key run offset =
      (before : Run) × (after : Run) × (bytes : List ℕ) × (run ≡ before ++ after)
      × (run_bytes before ≡ some bytes)
      × (offset ≡ length bytes)
      × Below before key

  At-Start :
      (key : Text) (run : Run) (i : IndexEntry)
      → IsSorted run
      → At run 0 i
      → le_text i.key key ≡ true
      → Start key run i.offset
  At-Start key run i s (before, after, e, bytes, split, wrote, offset) h = (
    before,
    (i.key, e) ∷ after,
    bytes,
    split,
    wrote,
    offset ∙ omega arith,
    before-Below key before after i.key e (subst (λ z. IsSorted z) split s) h,
  )

  pub find_start_offset-Start :
      (interval : ℕ) (key : Text) (run : Run) (region : List ℕ) (index : List IndexEntry)
      → IsSorted run
      → write_entries interval 0 0 run ≡ some (region, index)
      → Start key run (find_start_offset key index 0)
  unfolding find_start_offset
  find_start_offset-Start interval key run region index s w =
      let (bytes, places) = written interval 0 0 run region index w in
      search-Good (Start key run) (length index + 1) index key 0 (length index) 0
        (All-imp (λ z. At run 0 z) (λ z. le_text z.key key ≡ true → Start key run z.offset)
          (λ z. At-Start key run z s) index places)
        ([], run, [], refl, refl, refl, tt)

  module _ (alloc : ℕ → List ℕ) where
    scan-Start :
        (key : Text) (run : Run) (region rest : List ℕ) (offset : ℕ)
        → IsSorted run
        → All IsExactEntry run
        → All IsReadable run
        → run_bytes run ≡ some region
        → Start key run offset
        → scan alloc (length (region ++ rest) + 1) (region ++ rest) key offset (length region)
          ≡ some (find key run)
    scan-Start key run region rest offset s x r w
          (before, after, bytes, split, wrote, here, lower) =
        let (b2, later, shape) =
          run_bytes-split before after bytes region wrote (ap run_bytes (sym split) ∙ w) in
        let xa =
          All-append_right IsExactEntry before after (subst (λ z. All IsExactEntry z) split x) in
        let ra = All-append_right IsReadable before after (subst (λ z. All IsReadable z) split r) in
        let sa = later-IsSorted before after (subst (λ z. IsSorted z) split s) in
        let fuel = length (region ++ rest) + 1 in
        scan_at alloc fuel key (region ++ rest) (bytes ++ (b2 ++ rest)) offset (length bytes)
          (length region) (length bytes + length b2)
          (ap (λ z. z ++ rest) shape ∙ append_assoc bytes b2 rest) here
          (ap length shape ∙ length-append bytes b2)
        ∙ scan-run alloc fuel key bytes b2 rest after
            (omega (
              arith,
              length-run_bytes after b2 xa later,
              ap length shape,
              length-append bytes b2,
              length-append region rest,
            ))
            sa xa ra later
        ∙ ap some (sym (ap (find key) split ∙ find_skip key before after lower))

    pub get-eq-find :
        (interval : ℕ) (key k : Text) (e : MemTableEntry) (run : Run) (region rest : List ℕ)
        (index : List IndexEntry) (filter : Option BloomFilter)
        → IsSorted ((k, e) ∷ run)
        → All IsExactEntry ((k, e) ∷ run)
        → All IsReadable ((k, e) ∷ run)
        → write_entries interval 0 0 ((k, e) ∷ run) ≡ some (region, index)
        → get alloc (kept_open k run region rest index filter) key ≡ some (find key ((k, e) ∷ run))
    unfolding get
    get-eq-find interval key k e run region rest index filter s x r w =
        let whole = (k, e) ∷ run in
        let (bytes, places) = written interval 0 0 whole region index w in
        let start = find_start_offset key index 0 in
        let good = find_start_offset-Start interval key whole region index s w in
        elim (Bool-cases (is_in_range (kept_open k run region rest index filter) key)) [
          | inl inside ↦ rw inside (scan-Start key whole region rest start s x r bytes good)
          | inr outside ↦
              rw outside
                (ap some (sym (out_of_range key k e run region rest index filter s outside)))
        ]
