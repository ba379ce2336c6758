-- ===== src/Wal/Records.antt =====
-- src/storage/wal/WAL.ts: the records of a log file. A record is the size of what follows it, the
-- CRC-32 of the entry, and the entry.
pub mod RoundTrip
pub mod Torn
pub mod Written
use Prim.Native.Nat.{bit_xor}
use lsm_kv_store.Base.{
  ℕ, zero, suc, ◌+◌, ◌-◌, ◌/◌, ◌%◌, ◌^◌, Bool, true, false, Option, none, some, List, [], ◌∷◌, ◌++◌,
  length, ltb, ◌==◌, if◌then◌else◌,
}
use lsm_kv_store.Text.{Text}
use lsm_kv_store.Codec.{TextCodec}
use lsm_kv_store.Bytes.{
  ◌>>=◌, ◌then_write◌, take, drop, u32_bytes, write_u32, write_u64, write_text_16, write_text_32,
  read_u8, read_u32, read_u64,
}
use lsm_kv_store.Wal.{LogEntry, LogOperationType}
use lsm_kv_store.Payload.{
  write_pairs, deserialize_payload, entry_with, operation_to_code, code_to_operation,
}

-- One of the eight rounds for a byte.
unfoldable pub crc_round : ℕ → ℕ
crc_round crc = if crc % 2 == 1 then bit_xor (crc / 2) 0xEDB88320 else crc / 2

unfoldable pub crc_byte : ℕ → ℕ → ℕ
unfolding crc_round
crc_byte crc byte =
    let a = bit_xor crc byte in
    crc_round (crc_round (crc_round (crc_round (crc_round (crc_round (crc_round (crc_round a)))))))

unfoldable pub crc_from : ℕ → List ℕ → ℕ
unfolding crc_byte
crc_from crc [] = crc
crc_from crc (b ∷ bs) = crc_from (crc_byte crc b) bs

-- `~crc >>> 0`
unfoldable pub calculate_checksum : List ℕ → ℕ
unfolding crc_from
calculate_checksum bytes = 2 ^ 32 - 1 - crc_from 0xFFFFFFFF bytes

module _ ⦃codec : TextCodec⦄ where
  -- A field that is missing or empty makes a put or a delete throw.
  abbrev pub put_payload : Option Text → Option Text → Option (List ℕ)
  put_payload (some (u ∷ key)) (some (v ∷ value)) =
      write_text_16 (u ∷ key) then_write write_text_32 (v ∷ value)
  put_payload key value = none

  abbrev pub delete_payload : Option Text → Option (List ℕ)
  delete_payload (some (u ∷ key)) = write_text_16 (u ∷ key)
  delete_payload key = none

  abbrev pub batch_payload : Option (List Text) → Option (List Text) → Option (List ℕ)
  batch_payload (some ks) (some vs) =
      if length ks == length vs then write_u32 (length ks) then_write write_pairs ks vs else none
  batch_payload ks vs = none

  unfoldable pub serialize_payload : LogEntry → Option (List ℕ)
  serialize_payload e = elim e.operation [
    | LogOperationType.put ↦ put_payload e.key e.value
    | LogOperationType.delete ↦ delete_payload e.key
    | LogOperationType.batch_put ↦ batch_payload e.keys e.values
  ]

  -- What the checksum is taken of.
  unfoldable pub serialize_body : LogEntry → Option (List ℕ)
  serialize_body e =
      write_u64 e.sequence_id
      then_write write_u64 e.timestamp
      then_write some (operation_to_code e.operation ∷ [])
      then_write serialize_payload e

  abbrev pub record_of : List ℕ → Option (List ℕ)
  record_of body =
      write_u32 (length body + 4) then_write some (u32_bytes (calculate_checksum body) ++ body)

  unfoldable pub serialize_entry : LogEntry → Option (List ℕ)
  serialize_entry e = serialize_body e >>= record_of

  abbrev pub read_body : List ℕ → Option LogEntry
  read_body bs = do
    (sequence_id, bs1) ← read_u64 bs
    (timestamp, bs2) ← read_u64 bs1
    (code, payload) ← read_u8 bs2
    operation ← code_to_operation code
    fields ← deserialize_payload operation payload
    some (entry_with sequence_id timestamp operation fields)

  -- The checksum comes first; `deserializeEntry` goes over it without a look.
  unfoldable pub deserialize_entry : List ℕ → Option LogEntry
  deserialize_entry buffer = read_body (drop 4 buffer)

  abbrev pub stored_is : Option (ℕ × List ℕ) → ℕ → Bool
  stored_is none checksum = false
  stored_is (some (stored, bs)) checksum = stored == checksum

  unfoldable pub validate_checksum : List ℕ → Bool
  validate_checksum buffer = stored_is (read_u32 buffer) (calculate_checksum (drop 4 buffer))

  -- One round of the loop in `readLogFile`: the entry and the bytes after it, or none where the
  -- loop ends, at a record that is cut off, does not parse or has a wrong checksum.
  abbrev pub checked : List ℕ → List ℕ → LogEntry → Option (LogEntry × List ℕ)
  checked buffer after e = if validate_checksum buffer then some (e, after) else none

  abbrev pub read_sized : ℕ × List ℕ → Option (LogEntry × List ℕ)
  read_sized (size, rest) =
      if ltb (length rest) size
      then none
      else (deserialize_entry (take size rest) >>= checked (take size rest) (drop size rest))

  unfoldable pub read_record : List ℕ → Option (LogEntry × List ℕ)
  read_record bytes = read_u32 bytes >>= read_sized

  -- A round takes four bytes at least, so the length of the file is enough fuel.
  unfoldable pub read_records : ℕ → List ℕ → List LogEntry
  read_records zero bytes = []
  read_records (suc fuel) bytes = elim (read_record bytes) [
    | none ↦ []
    | some (e, rest) ↦ e ∷ read_records fuel rest
  ]

  unfoldable pub read_log_file : List ℕ → List LogEntry
  read_log_file bytes = read_records (length bytes + 1) bytes
