-- ===== src/TcpProtocol/RoundTrip.antt =====
-- src/server/TCPProtocol.ts: a frame that was sent is parsed, whatever comes after it.
use lsm_kv_store.Base.{
  ◌≢◌, ℕ, ◌+◌, ◌^◌, ◌<◌, ◌≡◌, refl, ap, ◌∙◌, true, Option, none, some, List, [], ◌∷◌, ◌++◌, ltb,
  ltb→lt, length, arith, append_assoc, Bool-cases, inl, inr,
}
use lsm_kv_store.Text.{Text}
use lsm_kv_store.Codec.{TextCodec}
use lsm_kv_store.Bytes.{
  u32_bytes, read_text_32, ◌>>=◌, ◌then_write◌, take, write_text_16, write_text_32, read_text_16,
  u16_bytes,
}
use lsm_kv_store.Bytes.Fields.{read_text_16-append, read_text_32-append, size, then_write-some}
use lsm_kv_store.Wal.{fits_16, fits_32}
use lsm_kv_store.Wal.Records.RoundTrip.{read_u8-cons}
use lsm_kv_store.Payload.Fields.{text_16, text_32, write_text_16-fits, write_text_32-fits}
use lsm_kv_store.Payload.Refused.{write_text_16-none, write_text_32-none}
use lsm_kv_store.Frames.{incomplete, parsed}
use lsm_kv_store.Frames.Whole.{frame_bytes, frame-some, parse_frame-whole, parse_frame-cut}
use lsm_kv_store.TcpProtocol.{
  TcpMessage, stream_put, ack, end_stream, error, serialize_stream_put, serialize_ack,
  serialize_end_stream, serialize_error, parse_stream_put, parse_ack, parse_error, read_fields,
  parse_message, frame_with, opcode_stream_put, opcode_ack, opcode_end_stream, opcode_error,
}

module _ ⦃codec : TextCodec⦄ where
  abbrev pub serialize : TcpMessage → Option (List ℕ)
  serialize (stream_put key value) = serialize_stream_put key value
  serialize (ack status message) = serialize_ack status message
  serialize end_stream = serialize_end_stream
  serialize (error message) = serialize_error message

  -- The message of an acknowledgment is not the empty text, which is sent like none.
  abbrev pub IsSound : TcpMessage → Type 0
  IsSound (stream_put key value) = codec.IsWellFormed key × codec.IsWellFormed value
  IsSound (ack status none) = Unit
  IsSound (ack status (some text)) = codec.IsWellFormed text × (text ≢ [])
  IsSound end_stream = Unit
  IsSound (error message) = codec.IsWellFormed message

  pub write_text_16-some :
      (t : Text) (bytes : List ℕ)
      → write_text_16 t ≡ some bytes
      → (bytes ≡ text_16 t) × (size t < 2 ^ 16)
  write_text_16-some t bytes h = elim (Bool-cases (fits_16 t)) [
    | inl fits ↦ (cc (h, write_text_16-fits t fits), ltb→lt (size t) (2 ^ 16) fits)
    | inr long ↦ absurd (cc (h, write_text_16-none t long))
  ]

  pub write_text_32-some :
      (t : Text) (bytes : List ℕ)
      → write_text_32 t ≡ some bytes
      → (bytes ≡ text_32 t) × (size t < 2 ^ 32)
  write_text_32-some t bytes h = elim (Bool-cases (fits_32 t)) [
    | inl fits ↦ (cc (h, write_text_32-fits t fits), ltb→lt (size t) (2 ^ 32) fits)
    | inr long ↦ absurd (cc (h, write_text_32-none t long))
  ]

  pub read_text_16-some :
      (t : Text) (bytes rest : List ℕ)
      → codec.IsWellFormed t
      → write_text_16 t ≡ some bytes
      → read_text_16 (bytes ++ rest) ≡ some (t, rest)
  read_text_16-some t bytes rest w h =
      let (shape, small) = write_text_16-some t bytes h in
      ap (λ z. read_text_16 (z ++ rest)) shape
      ∙ ap read_text_16 (append_assoc (u16_bytes (size t)) (codec.encode t) rest)
      ∙ read_text_16-append t rest w small

  pub read_text_32-some :
      (t : Text) (bytes rest : List ℕ)
      → codec.IsWellFormed t
      → write_text_32 t ≡ some bytes
      → read_text_32 (bytes ++ rest) ≡ some (t, rest)
  read_text_32-some t bytes rest w h =
      let (shape, small) = write_text_32-some t bytes h in
      ap (λ z. read_text_32 (z ++ rest)) shape
      ∙ ap read_text_32 (append_assoc (u32_bytes (size t)) (codec.encode t) rest)
      ∙ read_text_32-append t rest w small

  -- Fields that were framed, and that the switch reads.
  abbrev Framed : TcpMessage → List ℕ → Type 0
  Framed m bytes =
      (opcode : ℕ) × (fields : List ℕ) × (bytes ≡ frame_bytes opcode fields)
      × (1 + length fields < 2 ^ 32)
      × ((rest : List ℕ) → read_fields opcode (1 + length fields) (fields ++ rest) ≡ some m)

  framed_fields :
      (opcode : ℕ) (fields : Option (List ℕ)) (bytes : List ℕ)
      → (fields >>= frame_with opcode) ≡ some bytes
      → (fs : List ℕ) × (fields ≡ some fs)
        × (bytes ≡ frame_bytes opcode fs)
        × (1 + length fs < 2 ^ 32)
  framed_fields opcode none bytes h = absurd (cc h)
  framed_fields opcode (some fs) bytes h =
      let (shape, small) = frame-some opcode fs bytes h in (fs, refl, shape, small)

  parse_stream_put-some :
      (key value : Text) (fs rest : List ℕ)
      → codec.IsWellFormed key
      → codec.IsWellFormed value
      → (write_text_16 key then_write write_text_32 value) ≡ some fs
      → parse_stream_put (fs ++ rest) ≡ some (stream_put key value)
  unfolding parse_stream_put
  parse_stream_put-some key value fs rest wk wv h =
      let (kb, vb, hk, hv, shape) =
        then_write-some (write_text_16 key) (write_text_32 value) fs h in
      let whole : fs ++ rest ≡ kb ++ (vb ++ rest) =
        ap (λ z. z ++ rest) shape ∙ append_assoc kb vb rest in
      rw (whole, read_text_16-some key kb (vb ++ rest) wk hk, read_text_32-some value vb rest wv hv)
        refl

  parse_ack-none :
      (status : ℕ) (rest : List ℕ) → parse_ack 2 (status ∷ rest) ≡ some (ack status none)
  unfolding parse_ack
  parse_ack-none status rest = rw (read_u8-cons status rest) refl

  parse_ack-some :
      (status : ℕ) (text : Text) (fs rest : List ℕ)
      → codec.IsWellFormed text
      → write_text_16 text ≡ some fs
      → parse_ack (2 + length fs) (status ∷ (fs ++ rest)) ≡ some (ack status (some text))
  unfolding parse_ack
  parse_ack-some status text fs rest w h =
      let (shape, small) = write_text_16-some text fs h in
      let long : ltb 2 (2 + length fs) ≡ true = ground (arith, ap length shape) in
      rw (read_u8-cons status (fs ++ rest), long, read_text_16-some text fs rest w h) refl

  parse_error-some :
      (message : Text) (fs rest : List ℕ)
      → codec.IsWellFormed message
      → write_text_16 message ≡ some fs
      → parse_error (fs ++ rest) ≡ some (error message)
  unfolding parse_error
  parse_error-some message fs rest w h = rw (read_text_16-some message fs rest w h) refl

  serialize-Framed :
      (m : TcpMessage) (bytes : List ℕ) → IsSound m → serialize m ≡ some bytes → Framed m bytes
  unfolding serialize_stream_put serialize_ack serialize_end_stream serialize_error
  serialize-Framed (stream_put key value) bytes w h =
      let (fs, found, shape, small) =
        framed_fields opcode_stream_put (write_text_16 key then_write write_text_32 value) bytes
          h in
      (
        opcode_stream_put,
        fs,
        shape,
        small,
        λ rest. parse_stream_put-some key value fs rest w.0 w.1 found,
      )
  serialize-Framed (ack status none) bytes w h =
      let (shape, small) = frame-some opcode_ack (status ∷ []) bytes h in
      (opcode_ack, status ∷ [], shape, small, λ rest. parse_ack-none status rest)
  serialize-Framed (ack status (some [])) bytes w h = absurd (w.1 refl)
  serialize-Framed (ack status (some (u ∷ text))) bytes w h =
      let (fs, found, shape, small) =
        framed_fields opcode_ack (some (status ∷ []) then_write write_text_16 (u ∷ text)) bytes h in
      let (one, ts, first, second, cut) =
        then_write-some (some (status ∷ [])) (write_text_16 (u ∷ text)) fs found in
      let whole : fs ≡ status ∷ ts = cc (first, cut) in
      (
        opcode_ack,
        status ∷ ts,
        shape ∙ ap (λ z. frame_bytes opcode_ack z) whole,
        omega (arith, small, ap length whole),
        λ rest.
            ap (λ n. parse_ack n (status ∷ (ts ++ rest))) (omega arith)
            ∙ parse_ack-some status (u ∷ text) ts rest w.0 second,
      )
  serialize-Framed end_stream bytes w h =
      let (shape, small) = frame-some opcode_end_stream [] bytes h in
      (opcode_end_stream, [], shape, small, λ rest. refl)
  serialize-Framed (error message) bytes w h =
      let (fs, found, shape, small) = framed_fields opcode_error (write_text_16 message) bytes h in
      (opcode_error, fs, shape, small, λ rest. parse_error-some message fs rest w found)

  parse_message-whole :
      (m : TcpMessage) (bytes rest : List ℕ)
      → IsSound m
      → serialize m ≡ some bytes
      → parse_message (bytes ++ rest) ≡ parsed m (length bytes)
  unfolding parse_message
  parse_message-whole m bytes rest w h =
      let (opcode, fields, shape, small, reads) = serialize-Framed m bytes w h in
      rw shape (
        parse_frame-whole (λ code size bs. read_fields code size bs) opcode fields rest m small
          (reads rest))

  parse_message-cut :
      (m : TcpMessage) (bytes : List ℕ) (n : ℕ)
      → IsSound m
      → serialize m ≡ some bytes
      → n < length bytes
      → parse_message (take n bytes) ≡ incomplete
  unfolding parse_message
  parse_message-cut m bytes n w h cut =
      let (opcode, fields, shape, small, reads) = serialize-Framed m bytes w h in
      rw shape (
        parse_frame-cut (λ code size bs. read_fields code size bs) n opcode fields small
          (rw shape at cut))

  -- A frame of the streaming protocol that serializes is parsed to its message and its length,
  -- whatever follows it, and any proper prefix of it is incomplete, where its texts survive the
  -- encoding and the message of an acknowledgment is not the empty text.
  pub parse_message-serialize :
      (m : TcpMessage) (bytes rest : List ℕ) (n : ℕ)
      → IsSound m
      → serialize m ≡ some bytes
      → n < length bytes
      → (parse_message (bytes ++ rest) ≡ parsed m (length bytes))
        × (parse_message (take n bytes) ≡ incomplete)
  parse_message-serialize m bytes rest n w h cut =
      (parse_message-whole m bytes rest w h, parse_message-cut m bytes n w h cut)
