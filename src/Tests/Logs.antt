-- ===== src/Tests/Logs.antt =====
-- The manifest and the log on concrete data.
use lsm_kv_store.Base.{
  ℕ, ◌≡◌, ◌≢◌, refl, true, none, some, List, [], ◌∷◌, ◌++◌, arith, ◌↔◌, if◌then◌else◌, ◌+◌,
}
use lsm_kv_store.SsTable.{SsTableMetadata}
use lsm_kv_store.Manifest.{ManifestState, empty_manifest_state, add_sstable}
use lsm_kv_store.Manifest.Numbers.{IsFresh, AllAtMost, add_sstable-IsFresh}
use lsm_kv_store.Wal
use lsm_kv_store.Wal.{Wal, LogEntry, LogOperationType, sync_every_write, group_commit_100ms}
use lsm_kv_store.Wal.Appending.{writable, all_writable, checkpoint_lem}
use lsm_kv_store.Bytes.{write_u32, write_u64, write_text_16, write_text_32}
use lsm_kv_store.Payload.{operation_to_code}
use lsm_kv_store.Payload.Fields.{put}
use lsm_kv_store.Wal.Records.{
  serialize_entry, serialize_body, serialize_payload, calculate_checksum, read_log_file,
}
use lsm_kv_store.Wal.Records.Torn.{Logged, IsExact, log_bytes}
use lsm_kv_store.Wal.Records.Written.{IsOnDisk, read_log_file-append, read_log_file-flush_batch}
use lsm_kv_store.Tests.Samples.{ascii, apple, berry}

abbrev table : ℕ → SsTableMetadata
table n = record { file_number = n; entry_count = 1; first_key = apple; last_key = apple }

-- The list holds tables 7 and 3.
abbrev listed : ManifestState
listed = add_sstable (add_sstable empty_manifest_state (table 3)) (table 7)

-- A table with a lower number than a live one lowers the next number below it.
next_falls : (add_sstable listed (table 4)).next_file_number ≡ 5
unfolding add_sstable
next_falls = refl

add_sstable-IsFresh_example : IsFresh (add_sstable listed (table 8)) ↔ AllAtMost listed.sstables 8
add_sstable-IsFresh_example = add_sstable-IsFresh listed (table 8)

abbrev entry_of : LogEntry
entry_of = record {
  sequence_id = 0;
  timestamp = 0;
  operation = LogOperationType.put;
  key = some apple;
  value = some berry;
  keys = none;
  values = none;
}

-- A put of the empty value, which the log cannot hold.
abbrev empty_value : LogEntry
empty_value = record entry_of { value = some [] }

abbrev log : Wal
log = record {
  sync_policy = sync_every_write;
  is_open = true;
  sequence_id = 5;
  log_file = 1;
  older = [];
  current = entry_of ∷ [];
  pending_writes = [];
  notified = [];
}

abbrev batched : Wal
batched = record log {
  sync_policy = group_commit_100ms;
  pending_writes = entry_of ∷ empty_value ∷ entry_of ∷ [];
}

abbrev pending_one : Wal
pending_one = record log { sync_policy = group_commit_100ms; pending_writes = entry_of ∷ [] }

abbrev bytes_of : List LogEntry → List ℕ
bytes_of es = elim (log_bytes es) [ none ↦ [] | some bytes ↦ bytes ]

-- The entry in the file, the one that is numbered behind it, and the one that is pending.
abbrev stored_one : Logged
stored_one = (0, 0, put apple berry)

abbrev numbered_one : Logged
numbered_one = (5, 9, put apple berry)

stored_one-IsExact : IsExact stored_one
stored_one-IsExact =
    (omega arith, omega arith, ((omega arith, (omega arith, tt)), (omega arith, tt)))

numbered_one-IsExact : IsExact numbered_one
numbered_one-IsExact =
    (omega arith, omega arith, ((omega arith, (omega arith, tt)), (omega arith, tt)))

stored-IsOnDisk : IsOnDisk (entry_of ∷ []) (stored_one ∷ []) (bytes_of (entry_of ∷ []))
unfolding serialize_entry serialize_body serialize_payload write_u32 write_u64 write_text_16
    write_text_32 operation_to_code calculate_checksum Wal.is_serializable
stored-IsOnDisk = record { listed = refl; exact = (stored_one-IsExact, tt); written = refl }

appended-IsOnDisk :
    IsOnDisk
      (if Wal.is_serializable (Wal.numbered log entry_of 9)
        then Wal.numbered log entry_of 9 ∷ []
        else [])
      (numbered_one ∷ [])
      (bytes_of (Wal.numbered log entry_of 9 ∷ []))
unfolding serialize_entry serialize_body serialize_payload write_u32 write_u64 write_text_16
    write_text_32 operation_to_code calculate_checksum Wal.is_serializable
appended-IsOnDisk = record { listed = refl; exact = (numbered_one-IsExact, tt); written = refl }

read_log_file-append_example :
    let (w, done) = Wal.append log entry_of 9 in
    let added = if done then Wal.numbered log entry_of 9 ∷ [] else [] in
    let bytes = bytes_of (entry_of ∷ []) in
    let more = bytes_of (Wal.numbered log entry_of 9 ∷ []) in
    (done ≡ Wal.is_serializable (Wal.numbered log entry_of 9))
    × (log_bytes w.current ≡ some (bytes ++ more))
    × (read_log_file (bytes ++ more) ≡ read_log_file bytes ++ added)
    × (w.notified ≡ log.notified ++ added)
    × (w.sequence_id ≡ log.sequence_id + 1)
read_log_file-append_example =
    read_log_file-append log entry_of 9 (stored_one ∷ []) (numbered_one ∷ [])
      (bytes_of (entry_of ∷ [])) (bytes_of (Wal.numbered log entry_of 9 ∷ [])) refl refl
      stored-IsOnDisk appended-IsOnDisk

-- The second pending entry cannot be serialized.
pending-IsOnDisk :
    IsOnDisk (writable batched.pending_writes) (stored_one ∷ []) (bytes_of (entry_of ∷ []))
unfolding serialize_entry serialize_body serialize_payload write_u32 write_u64 write_text_16
    write_text_32 operation_to_code calculate_checksum Wal.is_serializable
pending-IsOnDisk = record { listed = refl; exact = (stored_one-IsExact, tt); written = refl }

read_log_file-flush_batch_example :
    let (w, done) = Wal.flush_batch batched in
    let bytes = bytes_of (entry_of ∷ []) in
    (done ≡ all_writable batched.pending_writes)
    × (log_bytes w.current ≡ some (bytes ++ bytes))
    × (read_log_file (bytes ++ bytes) ≡ read_log_file bytes ++ writable batched.pending_writes)
    × (w.notified ≡ batched.notified ++ (if done then batched.pending_writes else []))
    × (w.pending_writes ≡ [])
read_log_file-flush_batch_example =
    read_log_file-flush_batch batched (stored_one ∷ []) (stored_one ∷ []) (bytes_of (entry_of ∷ []))
      (bytes_of (entry_of ∷ [])) refl stored-IsOnDisk pending-IsOnDisk

pending_one-all_writable : all_writable pending_one.pending_writes ≡ true
unfolding Wal.is_serializable
pending_one-all_writable = refl

moved_on : 2 ≢ pending_one.log_file
moved_on = λ e. omega (arith, e)

checkpoint_lem_example :
    let (w, done) = Wal.checkpoint pending_one 2 in
    (done ≡ true)
    × (Wal.replay w ≡ [])
    × (w.notified ≡ pending_one.notified ++ pending_one.pending_writes)
checkpoint_lem_example = checkpoint_lem pending_one 2 refl pending_one-all_writable moved_on
