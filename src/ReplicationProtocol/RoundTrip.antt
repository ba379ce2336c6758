-- ===== src/ReplicationProtocol/RoundTrip.antt =====
-- A frame that was sent is parsed, whatever comes after it; a part of one is not.
use lsm_kv_store.Base.{
  ℕ, ◌+◌, ◌-◌, ◌^◌, ◌<◌, ◌≡◌, refl, sym, ap, ◌∙◌, Bool, true, false, ◌&&◌, Option, none, some, List,
  [], ◌∷◌, ◌++◌, ltb, length, arith, append-nil, Bool-cases, Option-cases, inl, inr,
}
use lsm_kv_store.Codec.{TextCodec}
use lsm_kv_store.Bytes.{
  u32_bytes, u64_bytes, take, write_u32, write_u64, write_text_16, write_text_32,
}
use lsm_kv_store.Bytes.Fields.{take-append, read_u64-u64_bytes}
use lsm_kv_store.Wal.{fits_16, fits_32, fits_pairs}
use lsm_kv_store.Payload.{deserialize_payload, write_pairs, operation_to_code}
use lsm_kv_store.Payload.Fields.{
  Change, put, delete, batch, keys_of, values_of, entry_of, operation_of, payload_of, IsWellFormed,
  Writes, write_put-Writes, write_delete-Writes, write_batch-Writes,
}
use lsm_kv_store.Payload.Refused.{
  then_write-none, write_text_16-none, write_text_32-none, write_pairs-none, length-keys_of,
  write_u32-none,
}
use lsm_kv_store.Wal.Records.RoundTrip.{entry-Writes, write_u64-fits, read_u8-cons}
use lsm_kv_store.Wal.Records.Torn.{Logged, logged_entry, IsExact}
use lsm_kv_store.Frames.{incomplete, parsed}
use lsm_kv_store.Frames.Whole.{frame_bytes, frame-some, parse_frame-whole, parse_frame-cut}
use lsm_kv_store.ReplicationProtocol.{
  ReplicationMessage, replicate, replicate_ack, serialize_payload, serialize_log_entry,
  deserialize_log_entry, serialize_replicate, serialize_ack, parse_replicate, parse_ack,
  parse_message, read_fields, opcode_ack, opcode_replicate,
}

module _ ⦃codec : TextCodec⦄ where
  -- === what a payload takes ===

  abbrev fits : Change → Bool
  fits (put k v) = fits_16 k && fits_32 v
  fits (delete k) = fits_16 k
  fits (batch pairs) = ltb (length pairs) (2 ^ 32) && fits_pairs (keys_of pairs) (values_of pairs)

  payload-none : (s t : ℕ) (c : Change) → fits c ≡ false → serialize_payload (entry_of s t c) ≡ none
  unfolding serialize_payload
  payload-none s t (put k v) h = elim (Bool-cases (fits_16 k)) [
    | inr long ↦ rw (write_text_16-none k long) refl
    | inl short ↦
        then_write-none (write_text_16 k) (write_text_32 v) (write_text_32-none v (ground arith))
  ]
  payload-none s t (delete k) h = write_text_16-none k h
  payload-none s t (batch pairs) h =
      elim (Bool-cases (fits_pairs (keys_of pairs) (values_of pairs))) [
        | inr long ↦
            then_write-none (write_u32 (length (keys_of pairs)))
              (write_pairs (keys_of pairs) (values_of pairs))
              (write_pairs-none (keys_of pairs) (values_of pairs) long)
        | inl short ↦
            let many : ltb (length (keys_of pairs)) (2 ^ 32) ≡ false =
              rw (length-keys_of pairs) (ground arith) in
            rw (write_u32-none (length (keys_of pairs)) many) refl
      ]

  payload-Writes :
      (s t : ℕ) (c : Change)
      → IsWellFormed c
      → fits c ≡ true
      → Writes
          (serialize_payload (entry_of s t c))
          (deserialize_payload (operation_of c))
          (payload_of c)
  unfolding serialize_payload deserialize_payload
  payload-Writes s t (put k v) w h = write_put-Writes k v w.0 w.1 (ground arith) (ground arith)
  payload-Writes s t (delete k) w h = write_delete-Writes k w h
  payload-Writes s t (batch pairs) w h =
      let (bytes, written, reads) = write_batch-Writes pairs w (ground arith) (ground arith) in
      (bytes, rw (length-keys_of pairs) written, reads)

  log_entry-none : (l : Logged) → fits l.2 ≡ false → serialize_log_entry (logged_entry l) ≡ none
  unfolding serialize_log_entry
  log_entry-none l h = then_write-none (write_u64 l.0) _ (
      then_write-none (write_u64 l.1) _ (
        then_write-none (some (operation_to_code (operation_of l.2) ∷ []))
          (serialize_payload (logged_entry l)) (payload-none l.0 l.1 l.2 h)))

  log_entry-some :
      (l : Logged) (bytes : List ℕ)
      → IsExact l
      → serialize_log_entry (logged_entry l) ≡ some bytes
      → deserialize_log_entry bytes ≡ some (logged_entry l)
  unfolding serialize_log_entry deserialize_log_entry
  log_entry-some l bytes x h = elim (Bool-cases (fits l.2)) [
    | inr unfit ↦ absurd (cc (log_entry-none l unfit, h))
    | inl fit ↦
        let (b, written, reads) =
          entry-Writes l.0 l.1 l.2 (serialize_payload (logged_entry l)) x.0 x.1
            (payload-Writes l.0 l.1 l.2 x.2 fit) in
        let same : b ≡ bytes = cc (written, h) in
        ap deserialize_log_entry (sym same ∙ sym (append-nil b)) ∙ reads []
  ]

  replicate-some :
      (l : Logged) (bytes : List ℕ)
      → serialize_replicate (logged_entry l) ≡ some bytes
      → (b : List ℕ) × (serialize_log_entry (logged_entry l) ≡ some b)
        × (bytes ≡ frame_bytes opcode_replicate b)
        × (1 + length b < 2 ^ 32)
  unfolding serialize_replicate
  replicate-some l bytes h = elim (Option-cases (serialize_log_entry (logged_entry l))) [
    | inl nothing ↦ absurd (cc (rw nothing at h))
    | inr (b, found) ↦
        let (shape, small) = frame-some opcode_replicate b bytes (rw found at h) in
        (b, found, shape, small)
  ]

  parse_replicate-whole :
      (l : Logged) (b rest : List ℕ)
      → deserialize_log_entry b ≡ some (logged_entry l)
      → parse_replicate (1 + length b) (b ++ rest) ≡ some (replicate (logged_entry l))
  unfolding parse_replicate
  parse_replicate-whole l b rest h =
      let size : 1 + length b - 1 ≡ length b = omega arith in rw (size, take-append b rest, h) refl

  -- What one end sends: the entry of a change, or a status and a sequence number.
  pub data Sent : Type 0 where
    entry : Logged → Sent
    ack : ℕ → ℕ → Sent

  abbrev pub message_of : Sent → ReplicationMessage
  message_of (entry l) = replicate (logged_entry l)
  message_of (ack status sequence_id) = replicate_ack status sequence_id

  abbrev pub frame_of : Sent → Option (List ℕ)
  frame_of (entry l) = serialize_replicate (logged_entry l)
  frame_of (ack status sequence_id) = serialize_ack status sequence_id

  abbrev pub IsExactMessage : Sent → Type 0
  IsExactMessage (entry l) = IsExact l
  IsExactMessage (ack status sequence_id) = sequence_id < 2 ^ 53

  -- A frame of fields that its switch reads.
  abbrev Framed : Sent → List ℕ → Type 0
  Framed m bytes =
      (opcode : ℕ) × (fields : List ℕ) × (bytes ≡ frame_bytes opcode fields)
      × (1 + length fields < 2 ^ 32)
      × ((rest : List ℕ)
          → read_fields opcode (1 + length fields) (fields ++ rest) ≡ some (message_of m))

  pub serialize_ack-eq :
      (status sequence_id : ℕ)
      → sequence_id < 2 ^ 53
      → serialize_ack status sequence_id
        ≡ some (frame_bytes opcode_ack (status ∷ u64_bytes sequence_id))
  unfolding serialize_ack
  serialize_ack-eq status sequence_id h =
      let head : write_u32 10 ≡ some (u32_bytes 10) = (unfold write_u32 in refl) in
      rw (head, write_u64-fits sequence_id h) refl

  parse_ack-fields :
      (status sequence_id : ℕ) (rest : List ℕ)
      → sequence_id < 2 ^ 53
      → parse_ack (status ∷ (u64_bytes sequence_id ++ rest))
        ≡ some (replicate_ack status sequence_id)
  unfolding parse_ack
  parse_ack-fields status sequence_id rest h =
      rw
        (read_u8-cons status (u64_bytes sequence_id ++ rest), read_u64-u64_bytes sequence_id rest h)
        refl

  frame_of-Framed :
      (m : Sent) (bytes : List ℕ) → IsExactMessage m → frame_of m ≡ some bytes → Framed m bytes
  frame_of-Framed (entry l) bytes x h =
      let (b, written, shape, small) = replicate-some l bytes h in
      (
        opcode_replicate,
        b,
        shape,
        small,
        λ rest. parse_replicate-whole l b rest (log_entry-some l b x written),
      )
  frame_of-Framed (ack status sequence_id) bytes x h = (
    opcode_ack,
    status ∷ u64_bytes sequence_id,
    cc (serialize_ack-eq status sequence_id x, h),
    omega arith,
    λ rest. parse_ack-fields status sequence_id rest x,
  )

  pub parse_message-whole :
      (m : Sent) (bytes rest : List ℕ)
      → IsExactMessage m
      → frame_of m ≡ some bytes
      → parse_message (bytes ++ rest) ≡ parsed (message_of m) (length bytes)
  unfolding parse_message
  parse_message-whole m bytes rest x h =
      let (opcode, fields, shape, small, reads) = frame_of-Framed m bytes x h in
      rw shape (
        parse_frame-whole (λ code size bs. read_fields code size bs) opcode fields rest
          (message_of m) small (reads rest))

  pub parse_message-cut :
      (m : Sent) (bytes : List ℕ) (n : ℕ)
      → IsExactMessage m
      → frame_of m ≡ some bytes
      → n < length bytes
      → parse_message (take n bytes) ≡ incomplete
  unfolding parse_message
  parse_message-cut m bytes n x h cut =
      let (opcode, fields, shape, small, reads) = frame_of-Framed m bytes x h in
      rw shape (
        parse_frame-cut (λ code size bs. read_fields code size bs) n opcode fields small
          (rw shape at cut))

  -- A frame of replication that serializes is parsed to its message and its length, whatever
  -- follows it, and any proper prefix of it is incomplete, where the numbers in it are below 2 ^
  -- 53 and the texts survive the encoding.
  pub parse_message-frame_of :
      (m : Sent) (bytes rest : List ℕ) (n : ℕ)
      → IsExactMessage m
      → frame_of m ≡ some bytes
      → n < length bytes
      → (parse_message (bytes ++ rest) ≡ parsed (message_of m) (length bytes))
        × (parse_message (take n bytes) ≡ incomplete)
  parse_message-frame_of m bytes rest n x h cut =
      (parse_message-whole m bytes rest x h, parse_message-cut m bytes n x h cut)
