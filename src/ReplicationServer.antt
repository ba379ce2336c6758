-- ===== src/ReplicationServer.antt =====
-- src/replication/ReplicationServer.ts: the backup's end of replication. The socket hands over
-- chunks of the primary's bytes, and what the server writes to it is collected. `entryHandler`, which
-- applies an entry to the backup's store, is a parameter: from a state of the store it gives the
-- next state and whether the call resolved. `Date.now()` is an argument, one for a whole chunk. The
-- handler of a chunk pauses the socket, so no other chunk comes while it waits.
pub mod Chunks
pub mod Repeats
pub mod Acks
use lsm_kv_store.Base.{
  ℕ, zero, suc, ◌+◌, ◌-◌, Bool, true, false, Option, none, some, List, [], ◌∷◌, ◌++◌, length,
  if◌then◌else◌,
}
use lsm_kv_store.Codec.{TextCodec}
use lsm_kv_store.Bytes.{drop}
use lsm_kv_store.Wal.{LogEntry}
use lsm_kv_store.Frames.{Parsed, incomplete, thrown, parsed}
use lsm_kv_store.Replication.{ReplicationMetrics}
use lsm_kv_store.ReplicationProtocol.{
  ReplicationMessage, replicate, replicate_ack, serialize_ack, parse_message, status_ok,
  status_error,
}

-- `primary_socket` is the number of the connection, `buffer` is the one of that connection, `store`
-- the state that `entryHandler` works on, and `sent` what was written to the socket.
-- `last_applied_sequence` is none where the source has -1.
pub record ReplicationServer (S : Type 0) : Type 0 where
  pub has_server : Bool
  pub primary_socket : Option ℕ
  pub last_applied_sequence : Option ℕ
  pub metrics : ReplicationMetrics
  pub buffer : List ℕ
  pub store : S
  pub sent : List ℕ

pub record ReplicationState : Type 0 where
  pub connected : Bool
  pub last_replicated_sequence : Option ℕ
  pub pending_entries : ℕ
  pub lag_ms : ℕ

unfoldable pub update_metrics_success : ReplicationMetrics → ℕ → ReplicationMetrics
update_metrics_success m now = record m {
  entries_replicated = m.entries_replicated + 1;
  last_success_time = some now;
}

unfoldable pub update_metrics_failure : ReplicationMetrics → ℕ → ReplicationMetrics
update_metrics_failure m now = record m {
  failed_attempts = m.failed_attempts + 1;
  last_failure_time = some now;
}

abbrev pub is_some {ℓ} : {A : Type ℓ} → Option A → Bool
is_some none = false
is_some (some a) = true

-- The clock does not run backwards.
abbrev pub lag_since : Option ℕ → ℕ → ℕ
lag_since none now = 0
lag_since (some time) now = now - time

unfoldable pub calculate_lag : ReplicationMetrics → ℕ → ℕ
calculate_lag m now = lag_since m.last_success_time now

module _ {S : Type 0} where
  unfoldable pub get_state : ReplicationServer S → ℕ → ReplicationState
  unfolding calculate_lag
  get_state s now = record {
    connected = is_some s.primary_socket;
    last_replicated_sequence = s.last_applied_sequence;
    pending_entries = 0;
    lag_ms = calculate_lag s.metrics now;
  }

  -- None where it throws.
  unfoldable pub start : ReplicationServer S → Option (ReplicationServer S)
  start s = if s.has_server then none else some (record s { has_server = true })

  unfoldable pub stop : ReplicationServer S → ReplicationServer S
  stop s = if s.has_server then record s { primary_socket = none; has_server = false } else s

  -- A second connection is turned away.
  abbrev pub connected : ReplicationServer S → ℕ → Option ℕ → ReplicationServer S
  connected s socket none = record s { primary_socket = some socket; buffer = [] }
  connected s socket (some primary) = s

  unfoldable pub handle_connection : ReplicationServer S → ℕ → ReplicationServer S
  handle_connection s socket = connected s socket s.primary_socket

  -- The 'close' and 'error' events.
  unfoldable pub on_close : ReplicationServer S → ReplicationServer S
  on_close s = record s { primary_socket = none }

  -- `socket.write` of an acknowledgment; with `none` its serialization has thrown.
  abbrev pub written : ReplicationServer S → Option (List ℕ) → ReplicationServer S × Bool
  written s none = (s, false)
  written s (some bytes) = (record s { sent = s.sent ++ bytes }, true)

  -- Where the loop has thrown, the buffer stays as it was with the chunk.
  abbrev pub with_remaining : List ℕ → ReplicationServer S × Option (List ℕ) → ReplicationServer S
  with_remaining buffer (s, none) = record s { buffer = buffer }
  with_remaining buffer (s, some remaining) = record s { buffer = remaining }

module _ {S : Type 0} (entry_handler : S → LogEntry → S × Bool) where
  -- The `catch` of `handleReplicate`.
  abbrev pub refuse : ReplicationServer S → LogEntry → ℕ → ReplicationServer S × Bool
  refuse s e now =
      written (record s { metrics = update_metrics_failure s.metrics now })
        (serialize_ack status_error e.sequence_id)

  -- After the handler: the acknowledgment is written inside the `try`.
  abbrev pub answer :
      ReplicationServer S → LogEntry → ℕ → Option (List ℕ) → ReplicationServer S × Bool
  answer s e now none = refuse s e now
  answer s e now (some bytes) = (record s { sent = s.sent ++ bytes }, true)

  abbrev pub accept : ReplicationServer S → LogEntry → ℕ → ReplicationServer S × Bool
  accept s e now =
      answer
        (record s {
          last_applied_sequence = some e.sequence_id;
          metrics = update_metrics_success s.metrics now;
        })
        e now (serialize_ack status_ok e.sequence_id)

  abbrev pub handled : ReplicationServer S → LogEntry → ℕ → S × Bool → ReplicationServer S × Bool
  handled s e now (store, resolved) =
      let applied = record s { store = store } in
      if resolved then accept applied e now else refuse applied e now

  -- The new state, and whether it resolved.
  unfoldable pub handle_replicate : ReplicationServer S → LogEntry → ℕ → ReplicationServer S × Bool
  handle_replicate s e now = handled s e now (entry_handler s.store e)

  -- One message of the loop: an acknowledgment is passed over.
  abbrev pub handle_message :
      ReplicationServer S → ReplicationMessage → ℕ → ReplicationServer S × Bool
  handle_message s (replicate e) now = handle_replicate s e now
  handle_message s (replicate_ack status sequence_id) now = (s, true)

  module _ ⦃codec : TextCodec⦄ where
    -- The loop of `processBuffer` from the current offset on, with what is left, or none where it
    -- throws. A frame takes four bytes at least, so the length of the buffer is enough fuel.
    unfoldable pub process_from :
        ℕ → ReplicationServer S → List ℕ → ℕ → ReplicationServer S × Option (List ℕ)
    process_from zero s bytes now = (s, some bytes)
    process_from (suc fuel) s [] now = (s, some [])
    process_from (suc fuel) s (b ∷ bytes) now = elim (parse_message (b ∷ bytes)) [
      | incomplete ↦ (s, some (b ∷ bytes))
      | thrown ↦ (s, none)
      | parsed message consumed ↦
          let (next, resolved) = handle_message s message now in
          elim resolved [
            | true ↦ process_from fuel next (drop consumed (b ∷ bytes)) now
            | false ↦ (next, none)
          ]
    ]

    unfoldable pub process_buffer :
        ReplicationServer S → List ℕ → ℕ → ReplicationServer S × Option (List ℕ)
    process_buffer s bytes now = process_from (length bytes + 1) s bytes now

    -- The 'data' event.
    unfoldable pub on_data : ReplicationServer S → List ℕ → ℕ → ReplicationServer S
    on_data s chunk now =
        with_remaining (s.buffer ++ chunk) (process_buffer s (s.buffer ++ chunk) now)
