-- ===== src/TcpProtocol.antt =====
-- src/server/TCPProtocol.ts: the frames between a client that streams writes and the server.
pub mod RoundTrip
use lsm_kv_store.Base.{
  ℕ, zero, suc, ◌+◌, Bool, true, false, Option, none, some, List, [], ◌∷◌, ◌++◌, length, ltb, ◌==◌,
  if◌then◌else◌,
}
use lsm_kv_store.Text.{Text}
use lsm_kv_store.Codec.{TextCodec}
use lsm_kv_store.Bytes.{
  ◌>>=◌, ◌then_write◌, write_text_16, write_text_32, read_u8, read_text_16, read_text_32,
}
use lsm_kv_store.Frames.{Parsed, frame, parse_frame}

-- `Opcode`
abbrev pub opcode_stream_put : ℕ
opcode_stream_put = 1

abbrev pub opcode_ack : ℕ
opcode_ack = 2

abbrev pub opcode_end_stream : ℕ
opcode_end_stream = 3

abbrev pub opcode_error : ℕ
opcode_error = 4

-- The status of an acknowledgment that came in is a byte, cast without a check.
pub data TcpMessage : Type 0 where
  stream_put : Text → Text → TcpMessage
  ack : ℕ → Option Text → TcpMessage
  end_stream : TcpMessage
  error : Text → TcpMessage

module _ ⦃codec : TextCodec⦄ where
  abbrev pub frame_with : ℕ → List ℕ → Option (List ℕ)
  frame_with opcode fields = frame opcode fields

  unfoldable pub serialize_stream_put : Text → Text → Option (List ℕ)
  serialize_stream_put key value =
      (write_text_16 key then_write write_text_32 value) >>= frame_with opcode_stream_put

  -- `if (message)`: an empty message is left out like a missing one.
  abbrev pub ack_message : Option Text → Option (List ℕ)
  ack_message none = some []
  ack_message (some []) = some []
  ack_message (some (u ∷ text)) = write_text_16 (u ∷ text)

  unfoldable pub serialize_ack : ℕ → Option Text → Option (List ℕ)
  serialize_ack status message =
      (some (status ∷ []) then_write ack_message message) >>= frame_with opcode_ack

  unfoldable pub serialize_end_stream : Option (List ℕ)
  serialize_end_stream = frame opcode_end_stream []

  unfoldable pub serialize_error : Text → Option (List ℕ)
  serialize_error message = write_text_16 message >>= frame_with opcode_error

  -- The readers go by the lengths in the buffer, and not by the size of the frame.
  unfoldable pub parse_stream_put : List ℕ → Option TcpMessage
  parse_stream_put bytes = do
    (key, bs1) ← read_text_16 bytes
    (value, bs2) ← read_text_32 bs1
    some (stream_put key value)

  -- Only a frame of more than two bytes has a message.
  abbrev pub with_message : ℕ → ℕ × List ℕ → Option TcpMessage
  with_message size (status, bytes) =
      if ltb 2 size
      then (read_text_16 bytes >>= λ t. some (ack status (some t.0)))
      else some (ack status none)

  unfoldable pub parse_ack : ℕ → List ℕ → Option TcpMessage
  parse_ack size bytes = read_u8 bytes >>= with_message size

  unfoldable pub parse_error : List ℕ → Option TcpMessage
  parse_error bytes = do (message, bs1) ← read_text_16 bytes; some (error message)

  -- The switch of `parseMessage`.
  abbrev pub read_fields : ℕ → ℕ → List ℕ → Option TcpMessage
  read_fields opcode size bytes =
      if opcode == opcode_stream_put
      then parse_stream_put bytes
      else if opcode == opcode_ack
      then parse_ack size bytes
      else if opcode == opcode_end_stream
      then some end_stream
      else if opcode == opcode_error
      then parse_error bytes
      else none

  unfoldable pub parse_message : List ℕ → Parsed TcpMessage
  parse_message buffer = parse_frame read_fields buffer
