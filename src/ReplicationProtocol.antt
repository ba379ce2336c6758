-- ===== src/ReplicationProtocol.antt =====
-- src/replication/ReplicationProtocol.ts: the frames between a primary and its backup.
pub mod RoundTrip
pub mod Stream
use lsm_kv_store.Base.{
  ◌==◌, if◌then◌else◌, ℕ, zero, suc, ◌+◌, ◌-◌, ◌≡◌, Bool, Option, none, some, List, [], ◌∷◌, ◌++◌,
  length,
}
use lsm_kv_store.Text.{Text}
use lsm_kv_store.Codec.{TextCodec}
use lsm_kv_store.Bytes.{
  ◌>>=◌, ◌then_write◌, take, write_u32, write_u64, write_text_16, write_text_32, read_u8, read_u64,
}
use lsm_kv_store.Wal.{LogEntry, LogOperationType}
use lsm_kv_store.Payload
use lsm_kv_store.Payload.{Payload, write_pairs, operation_to_code, code_to_operation, entry_with}
use lsm_kv_store.Frames.{Parsed, frame, parse_frame}

-- `ReplicationOpcode`
abbrev pub opcode_replicate : ℕ
opcode_replicate = 0x10

abbrev pub opcode_ack : ℕ
opcode_ack = 0x11

-- `ReplicationAckStatus`; a status that came in is a byte, cast without a check.
abbrev pub status_ok : ℕ
status_ok = 0

abbrev pub status_error : ℕ
status_error = 1

pub data ReplicationMessage : Type 0 where
  replicate : LogEntry → ReplicationMessage
  replicate_ack : ℕ → ℕ → ReplicationMessage

-- `text ?? ''`
abbrev pub or_empty : Option Text → Text
or_empty none = []
or_empty (some t) = t

-- `texts ?? []`
abbrev pub or_none : Option (List Text) → List Text
or_none none = []
or_none (some ts) = ts

-- The payload has ten bytes, whatever the sequence number.
unfoldable pub serialize_ack : ℕ → ℕ → Option (List ℕ)
serialize_ack status sequence_id =
    write_u32 10 then_write some (opcode_ack ∷ status ∷ []) then_write write_u64 sequence_id

unfoldable pub parse_ack : List ℕ → Option ReplicationMessage
parse_ack bytes = do
  (status, bs1) ← read_u8 bytes
  (sequence_id, bs2) ← read_u64 bs1
  some (replicate_ack status sequence_id)

module _ ⦃codec : TextCodec⦄ where
  -- Unlike the log, it takes empty and missing fields, and values without a key are left out.
  unfoldable pub serialize_payload : LogEntry → Option (List ℕ)
  serialize_payload e = elim e.operation [
    | LogOperationType.put ↦
        write_text_16 (or_empty e.key) then_write write_text_32 (or_empty e.value)
    | LogOperationType.delete ↦ write_text_16 (or_empty e.key)
    | LogOperationType.batch_put ↦
        write_u32 (length (or_none e.keys))
        then_write write_pairs (or_none e.keys) (or_none e.values)
  ]

  unfoldable pub serialize_log_entry : LogEntry → Option (List ℕ)
  serialize_log_entry e =
      write_u64 e.sequence_id
      then_write write_u64 e.timestamp
      then_write some (operation_to_code e.operation ∷ [])
      then_write serialize_payload e

  -- `deserializePayload` has the code of the one in src/storage/wal/WAL.ts.
  abbrev pub deserialize_payload : LogOperationType → List ℕ → Option Payload
  deserialize_payload operation bytes = Payload.deserialize_payload operation bytes

  unfoldable pub deserialize_log_entry : List ℕ → Option LogEntry
  deserialize_log_entry bs = do
    (sequence_id, bs1) ← read_u64 bs
    (timestamp, bs2) ← read_u64 bs1
    (code, payload) ← read_u8 bs2
    operation ← code_to_operation code
    fields ← deserialize_payload operation payload
    some (entry_with sequence_id timestamp operation fields)

  abbrev pub replicate_frame : List ℕ → Option (List ℕ)
  replicate_frame entry_buffer = frame opcode_replicate entry_buffer

  unfoldable pub serialize_replicate : LogEntry → Option (List ℕ)
  serialize_replicate e = serialize_log_entry e >>= replicate_frame

  -- `subarray(5, 4 + length)` holds the entry.
  unfoldable pub parse_replicate : ℕ → List ℕ → Option ReplicationMessage
  parse_replicate size bytes = do
    entry ← deserialize_log_entry (take (size - 1) bytes)
    some (replicate entry)

  abbrev pub read_fields : ℕ → ℕ → List ℕ → Option ReplicationMessage
  read_fields opcode size bytes =
      if opcode == opcode_replicate
      then parse_replicate size bytes
      else if opcode == opcode_ack
      then parse_ack bytes
      else none

  unfoldable pub parse_message : List ℕ → Parsed ReplicationMessage
  parse_message buffer = parse_frame read_fields buffer
