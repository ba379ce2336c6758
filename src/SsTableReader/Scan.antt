-- ===== src/SsTableReader/Scan.antt =====
-- src/storage/sstable/SSTableReader.ts: the loop of `get` over a region that the writer wrote.
use lsm_kv_store.Base.{
  ℕ, zero, suc, ◌+◌, ◌<◌, ◌≤◌, ◌≡◌, refl, sym, subst, ap, ◌∙◌, Bool, true, false, Option, none,
  some, List, [], ◌∷◌, ◌++◌, All, All-imp, length, length-append, ltb, arith, append_assoc,
  if◌then◌else◌, Option-cases, inl, inr,
}
use lsm_kv_store.Text.{Text, gt_text, eq_text, gt_of_lt, lt_of_gt, compare_cases}
use lsm_kv_store.Codec.{TextCodec}
use lsm_kv_store.Assoc.{IsSorted, find, find-Above, Above-trans}
use lsm_kv_store.Bytes.{◌then_write◌}
use lsm_kv_store.Bytes.Fields.{then_write-some}
use lsm_kv_store.MemTable.{MemTableEntry}
use lsm_kv_store.SsTable.{Run}
use lsm_kv_store.SsTableSerializer.{SsTableEntry, IndexEntry, serialize_entry}
use lsm_kv_store.SsTableSerializer.RoundTrip.{IsExactEntry}
use lsm_kv_store.SsTableWriter.{write_entries, is_indexed}
use lsm_kv_store.SsTableReader.{read_entry_at, scan}
use lsm_kv_store.SsTableReader.Entries.{
  serialize_entry-nonempty, IsReadable, read_entry_at-serialized,
}
use lsm_kv_store.SsTableReader.Search.{
  find_here, find_on, eq_text-lt, eq_text-eq, eq_text-gt, gt_text-lt, gt_text-gt,
}

module _ ⦃codec : TextCodec⦄ where
  -- The bytes of a run.
  abbrev pub run_bytes : Run → Option (List ℕ)
  run_bytes [] = some []
  run_bytes (e ∷ run) = serialize_entry e then_write run_bytes run

  -- Where an offset, counted from the start of the data, splits a run.
  abbrev pub At : Run → ℕ → IndexEntry → Type 0
  At run base i =
      (before : Run) × (after : Run) × (e : MemTableEntry) × (bytes : List ℕ) × (run
        ≡ before ++ ((i.key, e) ∷ after))
      × (run_bytes before ≡ some bytes)
      × (i.offset ≡ base + length bytes)

  At-cons :
      (e : SsTableEntry) (buffer : List ℕ) (run : Run) (base : ℕ) (i : IndexEntry)
      → serialize_entry e ≡ some buffer
      → At run (base + length buffer) i
      → At (e ∷ run) base i
  At-cons e buffer run base i h (before, after, d, bytes, split, wrote, offset) = (
    e ∷ before,
    after,
    d,
    buffer ++ bytes,
    ap (◌∷◌ e) split,
    rw (h, wrote) refl,
    omega (arith, offset, length-append buffer bytes),
  )

  indexed :
      (P : IndexEntry → Type 0) (b : Bool) (front region : List ℕ) (a : IndexEntry)
      (more index : List IndexEntry)
      → ◌≡◌ {A = Option (List ℕ × List IndexEntry)}
          (some (front, if b then a ∷ more else more))
          (some (region, index))
      → P a
      → All P more
      → (front ≡ region) × All P index
  indexed P true front region a more index h p ps =
      let same : a ∷ more ≡ index = cc h in (cc h, subst (λ l. All P l) same (p, ps))
  indexed P false front region a more index h p ps =
      let same : more ≡ index = cc h in (cc h, subst (λ l. All P l) same ps)

  pub written :
      (interval i base : ℕ) (run : Run) (region : List ℕ) (index : List IndexEntry)
      → write_entries interval i base run ≡ some (region, index)
      → (run_bytes run ≡ some region) × All (λ z. At run base z) index
  unfolding write_entries
  written interval i base [] region index h =
      let none_left : [] ≡ index = cc h in
      (cc h, subst (λ l. All (λ z. At [] base z) l) none_left tt)
  written interval i base (e ∷ run) region index h = elim (Option-cases (serialize_entry e)) [
    | inl nothing ↦ absurd (cc (rw nothing at h))
    | inr (buffer, wrote) ↦
        elim (Option-cases (write_entries interval (i + 1) (base + length buffer) run)) [
          | inl nothing ↦ absurd (cc (rw (wrote, nothing) at h))
          | inr ((more, index1), later) ↦
              let (bytes, places) =
                written interval (i + 1) (base + length buffer) run more index1 later in
              let head : IndexEntry = record { key = e.0; offset = base } in
              let (front, all) =
                indexed (λ z. At (e ∷ run) base z) (is_indexed interval i) (buffer ++ more) region
                  head index1 index (rw (wrote, later) at h)
                  ([], run, e.1, [], refl, refl, omega arith)
                  (All-imp (λ z. At run (base + length buffer) z) (λ z. At (e ∷ run) base z)
                    (λ z. At-cons e buffer run base z wrote) index1 places) in
              (rw (wrote, bytes) (ap some front), all)
        ]
  ]

  module _ (alloc : ℕ → List ℕ) where
    scan_end :
        (fuel : ℕ) (file : List ℕ) (key : Text) (offset end : ℕ)
        → ltb offset end ≡ false
        → scan alloc (suc fuel) file key offset end ≡ some none
    unfolding scan
    scan_end fuel file key offset end h = rw (scan, h) refl

    scan_hit :
        (fuel : ℕ) (file : List ℕ) (key : Text) (offset end n : ℕ) (e : SsTableEntry)
        → ltb offset end ≡ true
        → read_entry_at alloc file offset ≡ some (e, n)
        → eq_text e.0 key ≡ true
        → scan alloc (suc fuel) file key offset end ≡ some (some e.1)
    unfolding scan
    scan_hit fuel file key offset end n e h r k = rw (scan, h, r, k) refl

    scan_past :
        (fuel : ℕ) (file : List ℕ) (key : Text) (offset end n : ℕ) (e : SsTableEntry)
        → ltb offset end ≡ true
        → read_entry_at alloc file offset ≡ some (e, n)
        → eq_text e.0 key ≡ false
        → gt_text e.0 key ≡ true
        → scan alloc (suc fuel) file key offset end ≡ some none
    unfolding scan
    scan_past fuel file key offset end n e h r k g = rw (scan, h, r, k, g) refl

    scan_on :
        (fuel : ℕ) (file : List ℕ) (key : Text) (offset end n : ℕ) (e : SsTableEntry)
        → ltb offset end ≡ true
        → read_entry_at alloc file offset ≡ some (e, n)
        → eq_text e.0 key ≡ false
        → gt_text e.0 key ≡ false
        → scan alloc (suc fuel) file key offset end ≡ scan alloc fuel file key (offset + n) end
    unfolding scan
    scan_on fuel file key offset end n e h r k g = rw (scan, h, r, k, g) refl

    pub scan_at :
        (fuel : ℕ) (key : Text) (file file1 : List ℕ) (o o1 end end1 : ℕ)
        → file ≡ file1
        → o ≡ o1
        → end ≡ end1
        → scan alloc fuel file key o end ≡ scan alloc fuel file1 key o1 end1
    scan_at fuel key file file1 o o1 end end1 p q r =
        ap (λ z. scan alloc fuel z key o end) p
        ∙ ap (λ z. scan alloc fuel file1 key z end) q
        ∙ ap (λ z. scan alloc fuel file1 key o1 z) r

    pub scan-run :
        (fuel : ℕ) (key : Text) (before region rest : List ℕ) (run : Run)
        → length run < fuel
        → IsSorted run
        → All IsExactEntry run
        → All IsReadable run
        → run_bytes run ≡ some region
        → scan alloc fuel
            (before ++ (region ++ rest))
            key
            (length before)
            (length before + length region)
          ≡ some (find key run)
    unfolding find
    scan-run zero key before region rest run f s x r h = absurd (omega arith)
    scan-run (suc fuel) key before region rest [] f s x r h =
        let empty : [] ≡ region = cc h in
        scan_end fuel (before ++ (region ++ rest)) key (length before)
          (length before + length region) (ground (arith, ap length empty))
    scan-run (suc fuel) key before region rest ((k, e) ∷ run) f s x r h =
        let (buffer, more, wrote, later, shape) =
          then_write-some (serialize_entry (k, e)) (run_bytes run) region h in
        let file = before ++ (region ++ rest) in
        let whole : file ≡ before ++ (buffer ++ (more ++ rest)) =
          ap (λ z. before ++ (z ++ rest)) shape
          ∙ ap (λ z. before ++ z) (append_assoc buffer more rest) in
        let read : read_entry_at alloc file (length before) ≡ some ((k, e), length buffer) =
          ap (λ z. read_entry_at alloc z (length before)) whole
          ∙ read_entry_at-serialized alloc (k, e) before buffer (more ++ rest) x.0 r.0 wrote in
        let long : 1 ≤ length buffer = serialize_entry-nonempty (k, e) buffer x.0 wrote in
        let inside : ltb (length before) (length before + length region) ≡ true =
          ground (arith, ap length shape, length-append buffer more) in
        elim (compare_cases k key) [
          | inl below ↦
              scan_on fuel file key (length before) (length before + length region) (length buffer)
                (k, e) inside read (eq_text-lt k key below) (gt_text-lt k key below)
              ∙ scan_at fuel key file ((before ++ buffer) ++ (more ++ rest))
                  (length before + length buffer) (length (before ++ buffer))
                  (length before + length region) (length (before ++ buffer) + length more)
                  (whole ∙ sym (append_assoc before buffer (more ++ rest)))
                  (sym (length-append before buffer))
                  (omega (
                    arith,
                    ap length shape,
                    length-append buffer more,
                    length-append before buffer,
                  ))
              ∙ scan-run fuel key (before ++ buffer) more rest run (omega arith) s.1 x.1 r.1 later
              ∙ ap some (sym (find_on k key e run (eq_text-gt key k (gt_of_lt k key below))))
          | inr (inl same) ↦
              scan_hit fuel file key (length before) (length before + length region) (length buffer)
                (k, e) inside read (eq_text-eq k key same)
              ∙ ap some (sym (find_here k key e run same))
          | inr (inr above) ↦
              scan_past fuel file key (length before) (length before + length region)
                (length buffer) (k, e) inside read (eq_text-gt k key above) (gt_text-gt k key above)
              ∙ ap some (
                  sym (
                    find_on k key e run (eq_text-lt key k (lt_of_gt k key above))
                    ∙ find-Above key run (Above-trans key k run (lt_of_gt k key above) s.0)))
        ]
