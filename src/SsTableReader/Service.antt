-- ===== src/SsTableReader/Service.antt =====
-- src/storage/sstable/SSTableWriter.ts and SSTableReader.ts as the tables of a store: a table file is
-- what the writer writes for a run, and the reader works on its bytes. The store's interface to tables
-- is filled with these, and the runs that it calls storable are those that the reader reads back.
-- `well_formed` says which texts are known to survive the encoding, `num_bits` and `num_hashes` are the size of
-- the filter for so many entries, and `rest` is what stands behind the index offset of a file.
use lsm_kv_store.Base.{
  All-imp, ℕ, ◌^◌, ◌<◌, ◌≤◌, ◌≡◌, refl, sym, ap, ◌∙◌, Bool, true, false, Option, none, some, List,
  [], ◌∷◌, All, length, arith, inl, inr, ltb, Ordering,
}
use lsm_kv_store.Text.{Text, compare_keys, compare_keys_refl, gt_of_lt, lt_text, gt_text, ◌≺◌}
use lsm_kv_store.Codec.{TextCodec}
use lsm_kv_store.Assoc.{IsSorted, Above, find, within}
use lsm_kv_store.Bytes.Fields.{size}
use lsm_kv_store.MemTable.{MemTableEntry}
use lsm_kv_store.SsTable.{Run, TableService}
use lsm_kv_store.SsTableSerializer.{SsTableEntry, IndexEntry}
use lsm_kv_store.SsTableSerializer.RoundTrip.{IsExactEntry}
use lsm_kv_store.BloomFilter.{create}
use lsm_kv_store.BloomFilter.Membership.{create-IsSized}
use lsm_kv_store.SsTableWriter.{write_entries, add_keys}
use lsm_kv_store.SsTableReader
use lsm_kv_store.SsTableReader.{ReaderState}
use lsm_kv_store.SsTableReader.Entries.{IsReadable}
use lsm_kv_store.SsTableReader.Lookup.{opened, last_key_of, opened-eq-kept_open, out_of_range}
use lsm_kv_store.SsTableReader.Filtered.{may_contain-or-absent}
use lsm_kv_store.SsTableReader.Within.{within_inside}
use lsm_kv_store.SsTableReader.Ranges.{get-iterate}

-- === the whole range ===

not_gt : (a b : Text) → a ≺ b → gt_text a b ≡ false
not_gt a b h = rw (gt_text, h) refl

not_gt_self : (a : Text) → gt_text a a ≡ false
not_gt_self a = rw (gt_text, compare_keys_refl a) refl

not_lt_self : (a : Text) → lt_text a a ≡ false
not_lt_self a = rw (lt_text, compare_keys_refl a) refl

not_lt_of : (a b : Text) → a ≺ b → lt_text b a ≡ false
not_lt_of a b h = rw (lt_text, gt_of_lt a b h) refl

within_all :
    (start end : Text) (run : Run)
    → All (λ e. lt_text e.0 start ≡ false) run
    → All (λ e. gt_text e.0 end ≡ false) run
    → within start end run ≡ run
unfolding within
within_all start end [] l g = refl
within_all start end ((k, e) ∷ run) l g =
    within_inside start end k e run l.0 g.0 ∙ ap (◌∷◌ (k, e)) (within_all start end run l.1 g.1)

at_least_first :
    (k : Text) (e : MemTableEntry) (run : Run)
    → Above k run
    → All (λ e. lt_text e.0 k ≡ false) ((k, e) ∷ run)
at_least_first k e run a = (
  not_lt_self k,
  All-imp (λ x. k ≺ x.0) (λ x. lt_text x.0 k ≡ false) (λ x h. not_lt_of k x.0 h) run a,
)

module _ ⦃codec : TextCodec⦄ where
  last-Above :
      (k j : Text) (d : MemTableEntry) (run : Run) → Above k ((j, d) ∷ run) → k ≺ last_key_of j run
  last-Above k j d [] a = a.0
  last-Above k j d ((i, c) ∷ run) a = last-Above k i c run a.1

  at_most_last :
      (k : Text) (e : MemTableEntry) (run : Run)
      → IsSorted ((k, e) ∷ run)
      → All (λ e. gt_text e.0 (last_key_of k run) ≡ false) ((k, e) ∷ run)
  at_most_last k e [] s = (not_gt_self k, tt)
  at_most_last k e ((j, d) ∷ run) s =
      (not_gt k (last_key_of j run) (last-Above k j d run s.0), at_most_last j d run s.1)

  -- From its first to its last key, a sorted run has all its entries.
  within_ends :
      (k : Text) (e : MemTableEntry) (run : Run)
      → IsSorted ((k, e) ∷ run)
      → within k (last_key_of k run) ((k, e) ∷ run) ≡ ((k, e) ∷ run)
  within_ends k e run s =
      within_all k (last_key_of k run) ((k, e) ∷ run) (at_least_first k e run s.0)
        (at_most_last k e run s)

-- === which runs a file keeps ===

abbrev both : {A B : Type 0} → Option A → Option B → Option (A × B)
both (some a) (some b) = some (a, b)
both a b = none

abbrev all_of :
    {A : Type 0} {P : A → Type 0} → ((x : A) → Option (P x)) → (xs : List A) → Option (All P xs)
all_of test [] = some tt
all_of test (x ∷ xs) = both (test x) (all_of test xs)

pub lt_of_ltb : (a b : ℕ) → ltb a b ≡ true → a < b
lt_of_ltb a b h = ground arith

abbrev below_by : (a b : ℕ) (test : Bool) → ltb a b ≡ test → Option (a < b)
below_by a b true h = some (lt_of_ltb a b h)
below_by a b false h = none

abbrev pub below : (a b : ℕ) → Option (a < b)
below a b = below_by a b (ltb a b) refl

abbrev precedes_by : (a b : Text) (o : Ordering) → compare_keys a b ≡ o → Option (a ≺ b)
precedes_by a b Ordering.lt h = some h
precedes_by a b o h = none

abbrev precedes : (a b : Text) → Option (a ≺ b)
precedes a b = precedes_by a b (compare_keys a b) refl

abbrev sorted : (run : Run) → Option (IsSorted run)
sorted [] = some tt
sorted ((k, e) ∷ run) = both (all_of (λ x. precedes k x.0) run) (sorted run)

module _ ⦃codec : TextCodec⦄ (well_formed : (t : Text) → Option (codec.IsWellFormed t)) where
  abbrev exact : (e : SsTableEntry) → Option (IsExactEntry e)
  exact (key, e) =
      elim (both (well_formed key) (both (well_formed e.value) (below e.timestamp (2 ^ 53)))) [
        | none ↦ none
        | some (a, (b, c)) ↦ some (a, b, c)
      ]

  abbrev first_byte :
      (bytes : List ℕ) → Option ((b : ℕ) × (bs : List ℕ) × (bytes ≡ b ∷ bs) × (1 ≤ b) × (b ≤ 126))
  first_byte [] = none
  first_byte (b ∷ bs) = elim (both (below 0 b) (below b 127)) [
    | none ↦ none
    | some (low, high) ↦ some (b, bs, refl, low, omega (arith, high))
  ]

  abbrev readable : (e : SsTableEntry) → Option (IsReadable e)
  readable (key, e) = elim (both (first_byte (codec.encode key)) (below (size e.value) (2 ^ 24))) [
    | none ↦ none
    | some ((b, bs, first, low, high), short) ↦ some (b, bs, first, low, high, short)
  ]

  module _ (interval : ℕ) where
    -- A file that the writer wrote, of a run that is read back.
    pub record Table : Type 0 where
      pub key : Text
      pub entry : MemTableEntry
      pub run : Run
      pub region : List ℕ
      pub index : List IndexEntry
      pub sorted_run : IsSorted ((key, entry) ∷ run)
      pub exact_run : All IsExactEntry ((key, entry) ∷ run)
      pub readable_run : All IsReadable ((key, entry) ∷ run)
      pub wrote : write_entries interval 0 0 ((key, entry) ∷ run) ≡ some (region, index)

    abbrev entries : Option Table → Run
    entries none = []
    entries (some t) = (t.key, t.entry) ∷ t.run

    abbrev is_kept : Option Table → Bool
    is_kept none = false
    is_kept (some t) = true

    abbrev with_bytes :
        (k : Text) (e : MemTableEntry) (run : Run)
        → IsSorted ((k, e) ∷ run)
        → All IsExactEntry ((k, e) ∷ run)
        → All IsReadable ((k, e) ∷ run)
        → (w : Option (List ℕ × List IndexEntry)) → write_entries interval 0 0 ((k, e) ∷ run) ≡ w
        → Option Table
    with_bytes k e run s x r none h = none
    with_bytes k e run s x r (some (region, index)) h = some (record {
      key = k;
      entry = e;
      run = run;
      region = region;
      index = index;
      sorted_run = s;
      exact_run = x;
      readable_run = r;
      wrote = h;
    })

    abbrev Checks : Run → Type 0
    Checks run = IsSorted run × (All IsExactEntry run × All IsReadable run)

    abbrev checked :
        (k : Text) (e : MemTableEntry) (run : Run) → Option (Checks ((k, e) ∷ run)) → Option Table
    checked k e run none = none
    checked k e run (some (s, (x, r))) =
        with_bytes k e run s x r (write_entries interval 0 0 ((k, e) ∷ run)) refl

    abbrev checks : (run : Run) → Option (Checks run)
    checks run = both (sorted run) (both (all_of exact run) (all_of readable run))

    -- The file of the run, or none for a run that is not known to be read back, of which nothing is
    -- said.
    abbrev open_run : Run → Option Table
    open_run [] = none
    open_run ((k, e) ∷ run) = checked k e run (checks ((k, e) ∷ run))

    -- Sorted by key and not empty, with texts that survive the encoding, time stamps below 2 ^ 53,
    -- first bytes of keys from 1 to 126, values below 2 ^ 24 bytes, and keys short enough to write.
    abbrev pub IsStorableRun : Run → Type 0
    IsStorableRun run = is_kept (open_run run) ≡ true

    entries-with_bytes :
        (k : Text) (e : MemTableEntry) (run : Run) (s : IsSorted ((k, e) ∷ run))
        (x : All IsExactEntry ((k, e) ∷ run)) (r : All IsReadable ((k, e) ∷ run))
        (w : Option (List ℕ × List IndexEntry)) (h : write_entries interval 0 0 ((k, e) ∷ run) ≡ w)
        → is_kept (with_bytes k e run s x r w h) ≡ true
        → entries (with_bytes k e run s x r w h) ≡ (k, e) ∷ run
    entries-with_bytes k e run s x r none h kept = absurd (cc kept)
    entries-with_bytes k e run s x r (some (region, index)) h kept = refl

    entries-checked :
        (k : Text) (e : MemTableEntry) (run : Run) (o : Option (Checks ((k, e) ∷ run)))
        → is_kept (checked k e run o) ≡ true
        → entries (checked k e run o) ≡ (k, e) ∷ run
    entries-checked k e run none kept = absurd (cc kept)
    entries-checked k e run (some (s, (x, r))) kept =
        entries-with_bytes k e run s x r (write_entries interval 0 0 ((k, e) ∷ run)) refl kept

    pub entries-open_run : (run : Run) → IsStorableRun run → entries (open_run run) ≡ run
    entries-open_run [] kept = refl
    entries-open_run ((k, e) ∷ run) kept = entries-checked k e run (checks ((k, e) ∷ run)) kept

    -- === the reader's operations ===

    module _ (alloc : ℕ → List ℕ) (rest : List ℕ) (num_bits num_hashes : ℕ → ℕ)
        (some_bits : (n : ℕ) → 0 < num_bits n) where
      abbrev state : Table → ReaderState
      state t =
          let whole = (t.key, t.entry) ∷ t.run in
          let filter = create (num_bits (length whole)) (num_hashes (length whole)) in
          opened t.key t.run t.region rest t.index (some (add_keys filter whole))

      abbrev is_in_range : Option Table → Text → Bool
      is_in_range none key = false
      is_in_range (some t) key = SsTableReader.is_in_range (state t) key

      abbrev may_contain : Option Table → Text → Bool
      may_contain none key = false
      may_contain (some t) key = SsTableReader.may_contain (state t) key

      abbrev found : {A : Type 0} → Option (Option A) → Option A
      found none = none
      found (some o) = o

      abbrev listed : {A : Type 0} → Option (List A) → List A
      listed none = []
      listed (some xs) = xs

      -- A lookup that throws would be none here; by get-iterate none does.
      abbrev get : Option Table → Text → Option MemTableEntry
      get none key = none
      get (some t) key = found (SsTableReader.get alloc (state t) key)

      abbrev iterate : Option Table → Option Text → Option Text → Run
      iterate none start end = []
      iterate (some t) start end = listed (SsTableReader.iterate alloc (state t) start end)

      find-nil : (key : Text) → find {V = MemTableEntry} key [] ≡ none
      unfolding find
      find-nil key = refl

      within-nil : (start end : Text) → within {V = MemTableEntry} start end [] ≡ []
      unfolding within
      within-nil start end = refl

      pub get-eq-run : (o : Option Table) (key : Text) → get o key ≡ find key (entries o)
      get-eq-run none key = sym (find-nil key)
      get-eq-run (some t) key = ap found (
          (get-iterate alloc interval key none none t.key t.entry t.run t.region rest t.index _
            t.sorted_run t.exact_run t.readable_run t.wrote).0)

      pub iterate-eq-range :
          (o : Option Table) (start end : Text)
          → iterate o (some start) (some end) ≡ within start end (entries o)
      iterate-eq-range none start end = sym (within-nil start end)
      iterate-eq-range (some t) start end = ap listed (
          (get-iterate alloc interval start (some start) (some end) t.key t.entry t.run t.region
            rest t.index _ t.sorted_run t.exact_run t.readable_run t.wrote).1)

      pub iterate-eq-run : (o : Option Table) → iterate o none none ≡ entries o
      iterate-eq-run none = refl
      iterate-eq-run (some t) =
          ap listed (
            (get-iterate alloc interval t.key none none t.key t.entry t.run t.region rest t.index _
              t.sorted_run t.exact_run t.readable_run t.wrote).1)
          ∙ within_ends t.key t.entry t.run t.sorted_run

      pub outside-run :
          (o : Option Table) (key : Text) → is_in_range o key ≡ false → find key (entries o) ≡ none
      outside-run none key h = find-nil key
      outside-run (some t) key h =
          let same = opened-eq-kept_open t.key t.entry t.run t.region rest t.index _ t.exact_run in
          out_of_range key t.key t.entry t.run t.region rest t.index _ t.sorted_run
            (sym (ap (λ o. SsTableReader.is_in_range o key) same) ∙ h)

      pub denied-run :
          (o : Option Table) (key : Text) → may_contain o key ≡ false → find key (entries o) ≡ none
      denied-run none key h = find-nil key
      denied-run (some t) key h =
          let whole = (t.key, t.entry) ∷ t.run in
          let n = length whole in
          let filter = create (num_bits n) (num_hashes n) in
          elim (may_contain-or-absent key t.key t.entry t.run t.region rest t.index filter
            t.sorted_run t.exact_run (create-IsSized (num_bits n) (num_hashes n) (some_bits n))) [
              | inl passed ↦ absurd (cc (passed, h))
              | inr absent ↦ absent
            ]

      -- The table files of the repository, as the store uses them.
      abbrev pub file_tables : TableService
      file_tables = record {
        Reader = Option Table;
        open_file = λ n run. open_run run;
        is_in_range = is_in_range;
        may_contain = may_contain;
        get = get;
        iterate = λ r start end. iterate r (some start) (some end);
        iterate_all = λ r. iterate r none none;
        contents = entries;
        IsStorable = IsStorableRun;
        contents-open_file = λ n run s kept. entries-open_run run kept;
        get-eq-find = get-eq-run;
        out_of_range = outside-run;
        filtered_out = denied-run;
        iterate-eq-within = λ r start end s. iterate-eq-range r start end;
        iterate_all-eq = λ r s. iterate-eq-run r;
      }
