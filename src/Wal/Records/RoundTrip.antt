-- ===== src/Wal/Records/RoundTrip.antt =====
-- src/storage/wal/WAL.ts: a record that was written is read back.
use lsm_kv_store.Base.{
  ℕ, ◌+◌, ◌^◌, ◌<◌, ◌≡◌, refl, sym, ap, ◌∙◌, Bool, true, false, ◌&&◌, Option, none, some, List, [],
  ◌∷◌, ◌++◌, ltb, ==_iff, length, length-append, arith, Bool-cases, inl, inr,
}
use lsm_kv_store.Text.{Text}
use lsm_kv_store.Codec.{TextCodec}
use lsm_kv_store.Bytes.{
  ◌>>=◌, ◌then_write◌, take, drop, u32_bytes, u64_bytes, write_u32, write_u64, write_text_16,
  write_text_32, read_u8,
}
use lsm_kv_store.Bytes.Fields.{take-append, drop-append, read_u32-u32_bytes, read_u64-u64_bytes}
use lsm_kv_store.Wal.{LogEntry, fits_16, fits_32, fits_pairs, same_length, is_serializable}
use lsm_kv_store.Wal.Records.{
  calculate_checksum, put_payload, batch_payload, serialize_payload, serialize_body, read_body,
  deserialize_entry, validate_checksum, read_record, read_sized, stored_is,
}
use lsm_kv_store.Payload.{write_pairs, deserialize_payload, operation_to_code}
use lsm_kv_store.Payload.Fields.{
  Change, put, delete, batch, keys_of, values_of, operation_of, payload_of, entry_of, IsWellFormed,
  Writes, write_put-Writes, write_delete-Writes, write_batch-Writes,
  code_to_operation-operation_to_code,
}
use lsm_kv_store.Payload.Refused.{
  then_write-none, write_text_16-none, write_text_32-none, write_pairs-none, length-keys_of,
  length-values_of, write_u32-none,
}

module _ ⦃codec : TextCodec⦄ where
  -- === when a payload is written ===

  put_payload-none :
      (k v : Text)
      → is_serializable (entry_of 0 0 (put k v)) ≡ false
      → put_payload (some k) (some v) ≡ none
  unfolding is_serializable
  put_payload-none [] v h = refl
  put_payload-none (u ∷ k) [] h = refl
  put_payload-none (u ∷ k) (w ∷ v) h = elim (Bool-cases (fits_16 (u ∷ k))) [
    | inr no_key ↦ rw (write_text_16-none (u ∷ k) no_key) refl
    | inl key ↦
        let no_value : fits_32 (w ∷ v) ≡ false = ground arith in
        then_write-none (write_text_16 (u ∷ k)) (write_text_32 (w ∷ v))
          (write_text_32-none (w ∷ v) no_value)
  ]

  same_length-eq :
      (pairs : List (Text × Text))
      → same_length (some (keys_of pairs)) (some (values_of pairs))
        ≡ (ltb (length pairs) (2 ^ 32) && fits_pairs (keys_of pairs) (values_of pairs))
  same_length-eq pairs = rw (length-keys_of pairs, length-values_of pairs) (ground arith)

  batch_payload-eq :
      (pairs : List (Text × Text))
      → batch_payload (some (keys_of pairs)) (some (values_of pairs))
        ≡ (write_u32 (length pairs) then_write write_pairs (keys_of pairs) (values_of pairs))
  batch_payload-eq pairs = rw (length-keys_of pairs, length-values_of pairs) (ground arith)

  and_false : (a b : Bool) → (a && b) ≡ false → b ≡ true → a ≡ false
  and_false a b h e = ground arith

  pub serialize_payload-none :
      (s t : ℕ) (c : Change)
      → is_serializable (entry_of s t c) ≡ false
      → serialize_payload (entry_of s t c) ≡ none
  unfolding serialize_payload is_serializable
  serialize_payload-none s t (put k v) h = put_payload-none k v h
  serialize_payload-none s t (delete []) h = refl
  serialize_payload-none s t (delete (u ∷ k)) h = write_text_16-none (u ∷ k) h
  serialize_payload-none s t (batch pairs) h =
      batch_payload-eq pairs ∙ elim (Bool-cases (fits_pairs (keys_of pairs) (values_of pairs))) [
        | inr unfit ↦
            then_write-none (write_u32 (length pairs)) _
              (write_pairs-none (keys_of pairs) (values_of pairs) unfit)
        | inl fit ↦
            let many =
              and_false (ltb (length pairs) (2 ^ 32)) _ (sym (same_length-eq pairs) ∙ h) fit in
            rw (write_u32-none (length pairs) many) refl
      ]

  payload-Writes :
      (s t : ℕ) (c : Change)
      → IsWellFormed c
      → is_serializable (entry_of s t c) ≡ true
      → Writes
          (serialize_payload (entry_of s t c))
          (deserialize_payload (operation_of c))
          (payload_of c)
  unfolding serialize_payload is_serializable deserialize_payload
  payload-Writes s t (put [] v) w h = absurd (cc h)
  payload-Writes s t (put (u ∷ k) []) w h = absurd (cc h)
  payload-Writes s t (put (u ∷ k) (x ∷ v)) w h =
      write_put-Writes (u ∷ k) (x ∷ v) w.0 w.1 (ground arith) (ground arith)
  payload-Writes s t (delete []) w h = absurd (cc h)
  payload-Writes s t (delete (u ∷ k)) w h = write_delete-Writes (u ∷ k) w (ground arith)
  payload-Writes s t (batch pairs) w h =
      let both : (ltb (length pairs) (2 ^ 32) && fits_pairs (keys_of pairs) (values_of pairs))
          ≡ true =
        sym (same_length-eq pairs) ∙ h in
      let (bytes, written, reads) = write_batch-Writes pairs w (ground arith) (ground arith) in
      (bytes, batch_payload-eq pairs ∙ written, reads)

  pub write_u64-fits : (n : ℕ) → n < 2 ^ 53 → write_u64 n ≡ some (u64_bytes n)
  unfolding write_u64
  write_u64-fits n h = let fits : ltb n (2 ^ 64) ≡ true = ground arith in rw fits refl

  pub read_u8-cons : (b : ℕ) (bs : List ℕ) → read_u8 (b ∷ bs) ≡ some (b, bs)
  unfolding read_u8
  read_u8-cons b bs = refl

  -- An entry reads back when its payload does.
  pub entry-Writes :
      (s t : ℕ) (c : Change) (payload : Option (List ℕ))
      → s < 2 ^ 53
      → t < 2 ^ 53
      → Writes payload (deserialize_payload (operation_of c)) (payload_of c)
      → Writes
          (write_u64 s
            then_write write_u64 t
            then_write some (operation_to_code (operation_of c) ∷ [])
            then_write payload)
          (λ bs. read_body bs)
          (entry_of s t c)
  entry-Writes s t c payload hs ht (bytes, written, reads) =
      let code = operation_to_code (operation_of c) in
      (
        u64_bytes s ++ (u64_bytes t ++ (code ∷ bytes)),
        rw (write_u64-fits s hs, write_u64-fits t ht, written) refl,
        λ rest.
            rw
              (
                read_u64-u64_bytes s (u64_bytes t ++ (code ∷ (bytes ++ rest))) hs,
                read_u64-u64_bytes t (code ∷ (bytes ++ rest)) ht,
                read_u8-cons code (bytes ++ rest),
                code_to_operation-operation_to_code (operation_of c),
                reads rest,
              )
              refl,
      )

  pub body-Writes :
      (s t : ℕ) (c : Change)
      → s < 2 ^ 53
      → t < 2 ^ 53
      → IsWellFormed c
      → is_serializable (entry_of s t c) ≡ true
      → Writes (serialize_body (entry_of s t c)) (λ bs. read_body bs) (entry_of s t c)
  unfolding serialize_body
  body-Writes s t c hs ht w h =
      entry-Writes s t c (serialize_payload (entry_of s t c)) hs ht (payload-Writes s t c w h)

  -- The bytes of a record around its body.
  abbrev pub framed : List ℕ → List ℕ
  framed body = u32_bytes (length body + 4) ++ (u32_bytes (calculate_checksum body) ++ body)

  checksum-lt : (bytes : List ℕ) → calculate_checksum bytes < 2 ^ 32
  unfolding calculate_checksum
  checksum-lt bytes = omega arith

  pub validate_checksum-framed :
      (body : List ℕ) → validate_checksum (u32_bytes (calculate_checksum body) ++ body) ≡ true
  unfolding validate_checksum
  validate_checksum-framed body =
      let checksum = calculate_checksum body in
      ap (λ o. stored_is o checksum) (read_u32-u32_bytes checksum body (checksum-lt body))
      ∙ (==_iff checksum checksum).1 refl

  sized_lem :
      (size : ℕ) (inner rest tail : List ℕ) (e : LogEntry)
      → ltb (length rest) size ≡ false
      → take size rest ≡ inner
      → drop size rest ≡ tail
      → deserialize_entry inner ≡ some e
      → validate_checksum inner ≡ true
      → read_sized (size, rest) ≡ some (e, tail)
  sized_lem size inner rest tail e long taken dropped parsed valid =
      rw (long, taken, dropped, parsed, valid) refl

  -- A record in front is read, and the bytes after it are left.
  pub read_record-framed :
      (body tail : List ℕ) (e : LogEntry)
      → length body + 4 < 2 ^ 32
      → read_body body ≡ some e
      → read_record (framed body ++ tail) ≡ some (e, tail)
  unfolding read_record
  read_record-framed body tail e small reads =
      let size = length body + 4 in
      let inner = u32_bytes (calculate_checksum body) ++ body in
      let long : ltb (length (inner ++ tail)) size ≡ false =
        ground (arith, length-append body tail) in
      let same : size ≡ length inner = omega arith in
      let taken : take size (inner ++ tail) ≡ inner =
        ap (λ n. take n (inner ++ tail)) same ∙ take-append inner tail in
      let dropped : drop size (inner ++ tail) ≡ tail =
        ap (λ n. drop n (inner ++ tail)) same ∙ drop-append inner tail in
      let parsed : deserialize_entry inner ≡ some e = (unfold deserialize_entry in reads) in
      ap (λ o. o >>= read_sized) (read_u32-u32_bytes size (inner ++ tail) small)
      ∙ sized_lem size inner (inner ++ tail) tail e long taken dropped parsed
          (validate_checksum-framed body)
