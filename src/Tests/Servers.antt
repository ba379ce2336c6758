-- ===== src/Tests/Servers.antt =====
-- The backup's server on concrete bytes.
use lsm_kv_store.Base.{
  ap, ℕ, ◌≡◌, refl, Bool, true, false, none, some, List, [], ◌∷◌, ◌++◌, arith, ltb, if◌then◌else◌,
}
use lsm_kv_store.Bytes.{take, drop, write_u32, write_u64, write_text_16, write_text_32}
use lsm_kv_store.Wal.{LogEntry}
use lsm_kv_store.Payload.{operation_to_code}
use lsm_kv_store.Frames.{thrown}
use lsm_kv_store.Frames.Whole.{parse_frame-unread}
use lsm_kv_store.ReplicationProtocol
use lsm_kv_store.ReplicationProtocol.{
  read_fields, serialize_replicate, serialize_log_entry, parse_message, serialize_ack,
}
use lsm_kv_store.ReplicationProtocol.RoundTrip.{entry}
use lsm_kv_store.ReplicationServer.{ReplicationServer, on_data, handle_replicate}
use lsm_kv_store.ReplicationServer.Chunks.{handle_all, receive, receive-joined}
use lsm_kv_store.ReplicationServer.Repeats.{on_data-repeats}
use lsm_kv_store.ReplicationServer.Acks.{Account, handle_all-Account}
use lsm_kv_store.Tests.Samples.{ascii}
use lsm_kv_store.Tests.Frames.{first, second, first-IsExact, second-IsExact, first_frame}

-- A store that keeps the sequence numbers, and fails on those from 8 on.
abbrev keep : List ℕ → LogEntry → List ℕ × Bool
keep store e = if ltb e.sequence_id 8 then (store ++ (e.sequence_id ∷ []), true) else (store, false)

abbrev listening : ReplicationServer (List ℕ)
listening = record {
  has_server = true;
  primary_socket = some 1;
  last_applied_sequence = none;
  metrics = record {
    entries_replicated = 0;
    bytes_replicated = 0;
    failed_attempts = 0;
    last_success_time = none;
    last_failure_time = none;
  };
  buffer = [];
  store = [];
  sent = [];
}

receive-joined_example :
    receive keep listening (take 3 first_frame ∷ drop 3 first_frame ∷ []) 5
    ≡ handle_all keep listening (entry first ∷ []) 5
unfolding serialize_replicate serialize_log_entry ReplicationProtocol.serialize_payload write_u32
    write_u64 write_text_16 write_text_32 operation_to_code
receive-joined_example =
    receive-joined keep listening (entry first ∷ []) (take 3 first_frame ∷ drop 3 first_frame ∷ [])
      5 (first-IsExact, tt) refl refl

-- A frame with an opcode that is none.
abbrev bad_frame : List ℕ
bad_frame = 0 ∷ 0 ∷ 0 ∷ 1 ∷ 9 ∷ []

bad_frame-thrown : (rest : List ℕ) → parse_message (bad_frame ++ rest) ≡ thrown
unfolding parse_message
bad_frame-thrown rest =
    parse_frame-unread (λ opcode size bytes. read_fields opcode size bytes) 9 [] rest (omega arith)
      refl

on_data-repeats_example :
    on_data keep (on_data keep listening (first_frame ++ bad_frame) 5) (0 ∷ []) 5
    ≡ record (handle_all keep
        (handle_all keep listening (entry first ∷ []) 5)
        (entry first ∷ [])
        5) { buffer = first_frame ++ (bad_frame ++ (0 ∷ [])) }
unfolding serialize_replicate serialize_log_entry ReplicationProtocol.serialize_payload write_u32
    write_u64 write_text_16 write_text_32 operation_to_code
on_data-repeats_example =
    on_data-repeats keep listening (entry first ∷ []) first_frame bad_frame (0 ∷ []) 5
      (first-IsExact, tt) refl refl bad_frame-thrown

-- The same entry was applied twice.
applied_twice :
    (on_data keep (on_data keep listening (first_frame ++ bad_frame) 5) (0 ∷ []) 5).store
    ≡ (7 ∷ 7 ∷ [])
unfolding handle_replicate serialize_ack write_u32 write_u64
applied_twice = ap (λ s. s.store) on_data-repeats_example

handle_all-Account_example :
    Account keep listening
      (handle_all keep listening (entry first ∷ entry second ∷ []) 5)
      (first ∷ second ∷ [])
handle_all-Account_example =
    handle_all-Account keep listening (first ∷ second ∷ []) 5 (first-IsExact, (second-IsExact, tt))
