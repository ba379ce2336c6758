-- ===== src/Payload.antt =====
-- The fields of a log entry as bytes, which the records of the log (src/storage/wal/WAL.ts) and the
-- frames of replication (src/replication/ReplicationProtocol.ts) share.
pub mod Fields
pub mod Refused
use lsm_kv_store.Base.{
  ℕ, zero, suc, ◌+◌, Bool, true, false, Option, none, some, List, [], ◌∷◌, ◌++◌, length, ◌==◌,
  if◌then◌else◌,
}
use lsm_kv_store.Text.{Text}
use lsm_kv_store.Codec.{TextCodec}
use lsm_kv_store.Bytes.{
  ◌>>=◌, ◌then_write◌, write_u32, write_text_16, write_text_32, read_u32, read_text_16,
  read_text_32,
}
use lsm_kv_store.Wal.{LogEntry, LogOperationType}

-- `Partial<LogEntry>`: the fields that an operation has.
pub record Payload : Type 0 where
  pub key : Option Text
  pub value : Option Text
  pub keys : Option (List Text)
  pub values : Option (List Text)

unfoldable pub operation_to_code : LogOperationType → ℕ
operation_to_code LogOperationType.put = 1
operation_to_code LogOperationType.delete = 2
operation_to_code LogOperationType.batch_put = 3

unfoldable pub code_to_operation : ℕ → Option LogOperationType
code_to_operation code =
    if code == 1
    then some LogOperationType.put
    else if code == 2
    then some LogOperationType.delete
    else if code == 3
    then some LogOperationType.batch_put
    else none

module _ ⦃codec : TextCodec⦄ where
  -- The loop over the key buffers. A key with no value at its index makes the loop throw.
  unfoldable pub write_pairs : List Text → List Text → Option (List ℕ)
  write_pairs [] vs = some []
  write_pairs (k ∷ ks) [] = none
  write_pairs (k ∷ ks) (v ∷ vs) =
      write_text_16 k then_write write_text_32 v then_write write_pairs ks vs

  -- The loop over the pairs with `n` of them to go.
  unfoldable pub read_pairs : ℕ → List ℕ → Option (List Text × List Text)
  read_pairs zero bs = some ([], [])
  read_pairs (suc n) bs = do
    (k, bs1) ← read_text_16 bs
    (v, bs2) ← read_text_32 bs1
    (ks, vs) ← read_pairs n bs2
    some (k ∷ ks, v ∷ vs)

  abbrev pub read_put : List ℕ → Option Payload
  read_put bs = do
    (k, bs1) ← read_text_16 bs
    (v, bs2) ← read_text_32 bs1
    some (record { key = some k; value = some v; keys = none; values = none })

  abbrev pub read_delete : List ℕ → Option Payload
  read_delete bs = do
    (k, bs1) ← read_text_16 bs
    some (record { key = some k; value = none; keys = none; values = none })

  abbrev pub batch_with : List Text × List Text → Option Payload
  batch_with (ks, vs) = some (record { key = none; value = none; keys = some ks; values = some vs })

  abbrev pub read_counted : ℕ × List ℕ → Option Payload
  read_counted (n, bs) = read_pairs n bs >>= batch_with

  abbrev pub read_batch : List ℕ → Option Payload
  read_batch bs = read_u32 bs >>= read_counted

  unfoldable pub deserialize_payload : LogOperationType → List ℕ → Option Payload
  deserialize_payload LogOperationType.put bs = read_put bs
  deserialize_payload LogOperationType.delete bs = read_delete bs
  deserialize_payload LogOperationType.batch_put bs = read_batch bs

-- `{ sequenceId, timestamp, operation, ...payload }`
abbrev pub entry_with : ℕ → ℕ → LogOperationType → Payload → LogEntry
entry_with sequence_id timestamp operation p = record {
  sequence_id = sequence_id;
  timestamp = timestamp;
  operation = operation;
  key = p.key;
  value = p.value;
  keys = p.keys;
  values = p.values;
}
