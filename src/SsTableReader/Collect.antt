-- ===== src/SsTableReader/Collect.antt =====
-- src/storage/sstable/SSTableReader.ts: the loop of `iterate` over a region that the writer wrote.
use lsm_kv_store.Base.{
  zero, suc, ltb, suc, ◌<◌, ℕ, ◌+◌, ◌≤◌, ◌≡◌, refl, sym, ap, ◌∙◌, true, false, some, List, [], ◌∷◌,
  ◌++◌, All, length, length-append, arith, append_assoc, Bool-cases, inl, inr,
}
use lsm_kv_store.Text.{Text, ◌≺◌, lt_of_gt}
use lsm_kv_store.Codec.{TextCodec}
use lsm_kv_store.Assoc.{within, IsSorted, Above-trans}
use lsm_kv_store.Bytes.Fields.{then_write-some}
use lsm_kv_store.SsTable.{Run}
use lsm_kv_store.SsTableSerializer.{serialize_entry}
use lsm_kv_store.SsTableSerializer.RoundTrip.{IsExactEntry}
use lsm_kv_store.SsTableReader.{read_entry_at, SsTableEntry, collect, gt_text, lt_text}
use lsm_kv_store.SsTableReader.Entries.{
  read_entry_at-serialized, serialize_entry-nonempty, IsReadable,
}
use lsm_kv_store.SsTableReader.Scan.{run_bytes}
use lsm_kv_store.SsTableReader.Within.{
  lt_text-lt, gt_text-gt, within_low, within_inside, within-Above,
}

module _ ⦃codec : TextCodec⦄ (alloc : ℕ → List ℕ) where
  -- The rounds of the loop.
  collect_end :
      (fuel : ℕ) (file : List ℕ) (start end : Text) (offset last : ℕ)
      → ltb offset last ≡ false
      → collect alloc (suc fuel) file start end offset last ≡ some []
  unfolding collect
  collect_end fuel file start end offset last h = rw (collect, h) refl

  collect_low :
      (fuel : ℕ) (file : List ℕ) (start end : Text) (offset last n : ℕ) (e : SsTableEntry)
      → ltb offset last ≡ true
      → read_entry_at alloc file offset ≡ some (e, n)
      → lt_text e.0 start ≡ true
      → collect alloc (suc fuel) file start end offset last
        ≡ collect alloc fuel file start end (offset + n) last
  unfolding collect
  collect_low fuel file start end offset last n e h r l = rw (collect, h, r, l) refl

  collect_high :
      (fuel : ℕ) (file : List ℕ) (start end : Text) (offset last n : ℕ) (e : SsTableEntry)
      → ltb offset last ≡ true
      → read_entry_at alloc file offset ≡ some (e, n)
      → lt_text e.0 start ≡ false
      → gt_text e.0 end ≡ true
      → collect alloc (suc fuel) file start end offset last ≡ some []
  unfolding collect
  collect_high fuel file start end offset last n e h r l g = rw (collect, h, r, l, g) refl

  collect_in :
      (fuel : ℕ) (file : List ℕ) (start end : Text) (offset last n : ℕ) (e : SsTableEntry)
      (more : Run)
      → ltb offset last ≡ true
      → read_entry_at alloc file offset ≡ some (e, n)
      → lt_text e.0 start ≡ false
      → gt_text e.0 end ≡ false
      → collect alloc fuel file start end (offset + n) last ≡ some more
      → collect alloc (suc fuel) file start end offset last ≡ some (e ∷ more)
  unfolding collect
  collect_in fuel file start end offset last n e more h r l g m = rw (collect, h, r, l, g, m) refl

  pub collect_at :
      (fuel : ℕ) (start end : Text) (file file1 : List ℕ) (o o1 last last1 : ℕ)
      → file ≡ file1
      → o ≡ o1
      → last ≡ last1
      → collect alloc fuel file start end o last ≡ collect alloc fuel file1 start end o1 last1
  collect_at fuel start end file file1 o o1 last last1 p q r =
      ap (λ z. collect alloc fuel z start end o last) p
      ∙ ap (λ z. collect alloc fuel file1 start end z last) q
      ∙ ap (λ z. collect alloc fuel file1 start end o1 z) r

  pub collect-run :
      (fuel : ℕ) (start end : Text) (before region rest : List ℕ) (run : Run)
      → length run < fuel
      → IsSorted run
      → All IsExactEntry run
      → All IsReadable run
      → run_bytes run ≡ some region
      → collect alloc fuel
          (before ++ (region ++ rest))
          start
          end
          (length before)
          (length before + length region)
        ≡ some (within start end run)
  collect-run zero start end before region rest run f s x r h = absurd (omega arith)
  collect-run (suc fuel) start end before region rest [] f s x r h =
      let empty : [] ≡ region = cc h in
      collect_end fuel (before ++ (region ++ rest)) start end (length before)
        (length before + length region) (ground (arith, ap length empty))
      ∙ ap some (sym (within-Above start end [] tt))
  collect-run (suc fuel) start end before region rest ((k, e) ∷ run) f s x r h =
      let (buffer, more, wrote, later, shape) =
        then_write-some (serialize_entry (k, e)) (run_bytes run) region h in
      let file = before ++ (region ++ rest) in
      let last = length before + length region in
      let whole : file ≡ before ++ (buffer ++ (more ++ rest)) =
        ap (λ z. before ++ (z ++ rest)) shape
        ∙ ap (λ z. before ++ z) (append_assoc buffer more rest) in
      let read : read_entry_at alloc file (length before) ≡ some ((k, e), length buffer) =
        ap (λ z. read_entry_at alloc z (length before)) whole
        ∙ read_entry_at-serialized alloc (k, e) before buffer (more ++ rest) x.0 r.0 wrote in
      let long : 1 ≤ length buffer = serialize_entry-nonempty (k, e) buffer x.0 wrote in
      let inside : ltb (length before) last ≡ true =
        ground (arith, ap length shape, length-append buffer more) in
      let next : collect alloc fuel file start end (length before + length buffer) last
          ≡ some (within start end run) =
        collect_at fuel start end file ((before ++ buffer) ++ (more ++ rest))
          (length before + length buffer) (length (before ++ buffer)) last
          (length (before ++ buffer) + length more)
          (whole ∙ sym (append_assoc before buffer (more ++ rest)))
          (sym (length-append before buffer))
          (omega (arith, ap length shape, length-append buffer more, length-append before buffer))
        ∙ collect-run fuel start end (before ++ buffer) more rest run (omega arith) s.1 x.1 r.1
            later in
      elim (Bool-cases (lt_text k start)) [
        | inl low ↦
            collect_low fuel file start end (length before) last (length buffer) (k, e) inside read
              low
            ∙ next
            ∙ ap some (sym (within_low start end k e run (lt_text-lt k start low)))
        | inr not_low ↦ elim (Bool-cases (gt_text k end)) [
          | inl high ↦
              let after : end ≺ k = lt_of_gt k end (gt_text-gt k end high) in
              collect_high fuel file start end (length before) last (length buffer) (k, e) inside
                read not_low high
              ∙ ap some (
                  sym (
                    within-Above start end ((k, e) ∷ run) (after, Above-trans end k run after s.0)))
          | inr not_high ↦
              collect_in fuel file start end (length before) last (length buffer) (k, e)
                (within start end run) inside read not_low not_high next
              ∙ ap some (sym (within_inside start end k e run not_low not_high))
        ]
      ]
