-- ===== src/Wal/Records/Torn.antt =====
-- src/storage/wal/WAL.ts, `readLogFile`: a file of whole records, with the last one cut off anywhere.
use lsm_kv_store.Base.{
  ℕ, zero, suc, ◌+◌, ◌^◌, ◌<◌, ◌≤◌, ◌≡◌, refl, sym, subst, ap, ◌∙◌, true, false, Option, none, some,
  List, [], ◌∷◌, ◌++◌, map, ltb, ltb→lt, length, length-append, arith, append_assoc, append-nil,
  Bool-cases, Option-cases, inl, inr, All,
}
use lsm_kv_store.Codec.{TextCodec}
use lsm_kv_store.Bytes.{write_u64, ◌>>=◌, ◌then_write◌, take, u32_bytes, write_u32, read_u32}
use lsm_kv_store.Bytes.Fields.{then_write-some, length-take, read_u32-u32_bytes}
use lsm_kv_store.Wal.{LogEntry, is_serializable}
use lsm_kv_store.Wal.Records.{
  operation_to_code, serialize_payload, serialize_body, record_of, serialize_entry, read_body,
  read_record, read_sized, read_records, read_log_file, calculate_checksum,
}
use lsm_kv_store.Wal.Records.RoundTrip.{
  framed, read_record-framed, body-Writes, serialize_payload-none,
}
use lsm_kv_store.Payload.Refused.{then_write-none, write_u32-none}
use lsm_kv_store.Payload.Fields.{operation_of, Change, entry_of, IsWellFormed}

module _ ⦃codec : TextCodec⦄ where
  -- An entry by its sequence number, its time stamp and its change.
  abbrev pub Logged : Type 0
  Logged = ℕ × ℕ × Change

  abbrev pub logged_entry : Logged → LogEntry
  logged_entry l = entry_of l.0 l.1 l.2

  -- Both numbers are exact as floats, and the texts survive their encoding.
  abbrev pub IsExact : Logged → Type 0
  IsExact l = (l.0 < 2 ^ 53) × (l.1 < 2 ^ 53) × IsWellFormed l.2

  -- The bytes of a file that the entries were appended to, in order.
  abbrev pub log_bytes : List LogEntry → Option (List ℕ)
  log_bytes [] = some []
  log_bytes (e ∷ es) = serialize_entry e then_write log_bytes es

  write_u32-fits : (n : ℕ) → ltb n (2 ^ 32) ≡ true → write_u32 n ≡ some (u32_bytes n)
  unfolding write_u32
  write_u32-fits n h = rw h refl

  record_of-some :
      (body bytes : List ℕ)
      → record_of body ≡ some bytes
      → (bytes ≡ framed body) × (length body + 4 < 2 ^ 32)
  record_of-some body bytes h = elim (Bool-cases (ltb (length body + 4) (2 ^ 32))) [
    | inl fits ↦ (
      cc (rw (write_u32-fits (length body + 4) fits) at h),
      ltb→lt (length body + 4) (2 ^ 32) fits,
    )
    | inr big ↦ absurd (cc (rw (write_u32-none (length body + 4) big) at h))
  ]

  serialize_entry-some :
      (e : LogEntry) (bytes : List ℕ)
      → serialize_entry e ≡ some bytes
      → (body : List ℕ) × (serialize_body e ≡ some body)
        × (bytes ≡ framed body)
        × (length body + 4 < 2 ^ 32)
  unfolding serialize_entry
  serialize_entry-some e bytes h = elim (Option-cases (serialize_body e)) [
    | inl nothing ↦ absurd (cc (rw nothing at h))
    | inr (body, found) ↦
        let (shape, small) = record_of-some body bytes (rw found at h) in
        (body, found, shape, small)
  ]

  unserializable :
      (l : Logged)
      → is_serializable (logged_entry l) ≡ false
      → serialize_body (logged_entry l) ≡ none
  unfolding serialize_body
  unserializable l unfit =
      let payload = serialize_payload-none l.0 l.1 l.2 unfit in
      then_write-none (write_u64 l.0) _ (
        then_write-none (write_u64 l.1) _ (
          then_write-none (some (operation_to_code (operation_of l.2) ∷ []))
            (serialize_payload (logged_entry l)) payload))

  sized_short :
      (size : ℕ) (rest : List ℕ) → ltb (length rest) size ≡ true → read_sized (size, rest) ≡ none
  sized_short size rest h = rw h refl

  body-some :
      (l : Logged) (body : List ℕ)
      → IsExact l
      → serialize_body (logged_entry l) ≡ some body
      → read_body body ≡ some (logged_entry l)
  body-some l body x h = elim (Bool-cases (is_serializable (logged_entry l))) [
    | inr unfit ↦ absurd (cc (unserializable l unfit, h))
    | inl fits ↦
        let (b, written, reads) = body-Writes l.0 l.1 l.2 x.0 x.1 x.2 fits in
        let same : b ≡ body = cc (written, h) in
        ap read_body (sym same ∙ sym (append-nil b)) ∙ reads []
  ]

  read_record-torn :
      (n : ℕ) (body : List ℕ)
      → length body + 4 < 2 ^ 32
      → n < length (framed body)
      → read_record (take n (framed body)) ≡ none
  unfolding read_record
  read_record-torn zero body small h = unfold read_u32 in refl
  read_record-torn (suc zero) body small h = unfold read_u32 in refl
  read_record-torn (suc (suc zero)) body small h = unfold read_u32 in refl
  read_record-torn (suc (suc (suc zero))) body small h = unfold read_u32 in refl
  read_record-torn (suc (suc (suc (suc m)))) body small h =
      let inner = u32_bytes (calculate_checksum body) ++ body in
      let short : ltb (length (take m inner)) (length body + 4) ≡ true =
        ground (arith, length-take m inner) in
      ap (λ o. o >>= read_sized) (read_u32-u32_bytes (length body + 4) (take m inner) small)
      ∙ sized_short (length body + 4) (take m inner) short

  round_none :
      (fuel : ℕ) (bytes : List ℕ) → read_record bytes ≡ none → read_records (suc fuel) bytes ≡ []
  unfolding read_records
  round_none fuel bytes h = rw (read_records, h) refl

  round_some :
      (fuel : ℕ) (bytes rest : List ℕ) (e : LogEntry)
      → read_record bytes ≡ some (e, rest)
      → read_records (suc fuel) bytes ≡ (e ∷ read_records fuel rest)
  unfolding read_records
  round_some fuel bytes rest e h = rw (read_records, h) refl

  -- With a last record that is cut off, or not there at all, the file reads as the entries before.
  records_torn :
      (fuel : ℕ) (es : List Logged) (bytes tail : List ℕ)
      → length es < fuel
      → All IsExact es
      → log_bytes (map logged_entry es) ≡ some bytes
      → read_record tail ≡ none
      → read_records fuel (bytes ++ tail) ≡ map logged_entry es
  records_torn zero es bytes tail f x h t = absurd (omega arith)
  records_torn (suc fuel) [] bytes tail f x h t =
      let empty : [] ≡ bytes = cc h in
      subst (λ (b : List ℕ). read_records (suc fuel) (b ++ tail) ≡ []) empty
        (round_none fuel tail t)
  records_torn (suc fuel) (l ∷ es) bytes tail f x h t =
      let (r, more, wrote, later, shape) =
        then_write-some (serialize_entry (logged_entry l)) (log_bytes (map logged_entry es)) bytes
          h in
      let (body, found, frame, small) = serialize_entry-some (logged_entry l) r wrote in
      let whole : framed body ++ more ≡ bytes = sym (shape ∙ ap (λ b. b ++ more) frame) in
      let first : read_record ((framed body ++ more) ++ tail)
          ≡ some (logged_entry l, more ++ tail) =
        ap read_record (append_assoc (framed body) more tail)
        ∙ read_record-framed body (more ++ tail) (logged_entry l) small
            (body-some l body x.0 found) in
      subst (λ (b : List ℕ). read_records (suc fuel) (b ++ tail) ≡ map logged_entry (l ∷ es)) whole
        (round_some fuel ((framed body ++ more) ++ tail) (more ++ tail) (logged_entry l) first
          ∙ ap (◌∷◌ (logged_entry l)) (records_torn fuel es more tail (omega arith) x.1 later t))

  length-log_bytes :
      (es : List Logged) (bytes : List ℕ)
      → log_bytes (map logged_entry es) ≡ some bytes
      → length es ≤ length bytes
  length-log_bytes [] bytes h = omega arith
  length-log_bytes (l ∷ es) bytes h =
      let (r, more, wrote, later, shape) =
        then_write-some (serialize_entry (logged_entry l)) (log_bytes (map logged_entry es)) bytes
          h in
      let (body, found, frame, small) = serialize_entry-some (logged_entry l) r wrote in
      let long : 1 ≤ length r = rw frame (omega arith) in
      omega (arith, length-log_bytes es more later, ap length shape, length-append r more)

  -- A log file of serialized entries whose last record is cut off anywhere reads back as the
  -- entries before it, where the numbers of the entries are below 2 ^ 53 and their texts survive
  -- the encoding.
  pub read_log_file-torn :
      (es : List Logged) (last : Logged) (bytes last_bytes : List ℕ) (n : ℕ)
      → All IsExact es
      → log_bytes (map logged_entry es) ≡ some bytes
      → serialize_entry (logged_entry last) ≡ some last_bytes
      → n < length last_bytes
      → read_log_file (bytes ++ take n last_bytes) ≡ map logged_entry es
  unfolding read_log_file
  read_log_file-torn es last bytes last_bytes n x h r cut =
      let (body, found, frame, small) = serialize_entry-some (logged_entry last) last_bytes r in
      let torn : read_record (take n last_bytes) ≡ none =
        ap (λ b. read_record (take n b)) frame ∙ read_record-torn n body small (rw frame at cut) in
      records_torn (length (bytes ++ take n last_bytes) + 1) es bytes (take n last_bytes)
        (omega (arith, length-log_bytes es bytes h, length-append bytes (take n last_bytes))) x h
        torn

  -- The same without a cut record.
  pub read_log_file-whole :
      (es : List Logged) (bytes : List ℕ)
      → All IsExact es
      → log_bytes (map logged_entry es) ≡ some bytes
      → read_log_file bytes ≡ map logged_entry es
  unfolding read_log_file read_record read_u32
  read_log_file-whole es bytes x h =
      ap (λ b. read_records (length bytes + 1) b) (sym (append-nil bytes))
      ∙ records_torn (length bytes + 1) es bytes [] (omega (arith, length-log_bytes es bytes h)) x h
          refl
