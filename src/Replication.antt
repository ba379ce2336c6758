-- ===== src/Replication.antt =====
-- src/replication/ReplicationManager.ts: the primary's end of replication, as a state with one
-- function per call and per socket event. The socket is only there or not; the frames that come in
-- are taken as the acknowledgments that they hold, and the size of a frame that goes out is a
-- parameter. `Date.now()` is an argument.
pub mod Accounting
pub mod Confirming
pub mod Reconnect
use lsm_kv_store.Base.{
  ℕ, suc, ◌+◌, ◌-◌, Bool, true, false, not, ◌||◌, ◌&&◌, Option, none, some, List, [], ◌∷◌, ◌++◌,
  length, if◌then◌else◌,
}
use lsm_kv_store.Wal.{LogEntry}

pub record ReplicationMetrics : Type 0 where
  pub entries_replicated : ℕ
  pub bytes_replicated : ℕ
  pub failed_attempts : ℕ
  pub last_success_time : Option ℕ
  pub last_failure_time : Option ℕ

-- `last_replicated_sequence` is none where the source has -1. `from_timer` says whether the `connect`
-- that is waiting was called by the reconnect timer, whose `catch` tries again.
pub record ReplicationManager : Type 0 where
  pub has_socket : Bool
  pub connected : Bool
  pub connecting : Bool
  pub from_timer : Bool
  pub pending_acks : List LogEntry
  pub last_replicated_sequence : Option ℕ
  pub reconnect_timer : Bool
  pub metrics : ReplicationMetrics

abbrev pub new_manager : ReplicationManager
new_manager = record {
  has_socket = false;
  connected = false;
  connecting = false;
  from_timer = false;
  pending_acks = [];
  last_replicated_sequence = none;
  reconnect_timer = false;
  metrics = record {
    entries_replicated = 0;
    bytes_replicated = 0;
    failed_attempts = 0;
    last_success_time = none;
    last_failure_time = none;
  };
}

-- `status === ReplicationAckStatus.OK`, or any other status.
pub data AckStatus : Type 0 where
  accepted refused : AckStatus

unfoldable pub update_metrics_success : ReplicationMetrics → ℕ → ℕ → ReplicationMetrics
update_metrics_success m bytes now = record m {
  entries_replicated = m.entries_replicated + 1;
  bytes_replicated = m.bytes_replicated + bytes;
  last_success_time = some now;
}

unfoldable pub update_metrics_failure : ReplicationMetrics → ℕ → ReplicationMetrics
update_metrics_failure m now = record m {
  failed_attempts = m.failed_attempts + 1;
  last_failure_time = some now;
}

-- The loop of `rejectAllPending`, each `reject` of which counts a failure.
unfoldable pub reject_each : ReplicationMetrics → List LogEntry → ℕ → ReplicationMetrics
unfolding update_metrics_failure
reject_each m [] now = m
reject_each m (e ∷ pending) now = reject_each (update_metrics_failure m now) pending now

unfoldable pub reject_all_pending : ReplicationManager → ℕ → ReplicationManager
unfolding reject_each
reject_all_pending s now = record s {
  metrics = reject_each s.metrics s.pending_acks now;
  pending_acks = [];
}

unfoldable pub schedule_reconnect : ReplicationManager → ReplicationManager
schedule_reconnect s =
    if s.reconnect_timer || s.connecting then s else record s { reconnect_timer = true }

unfoldable pub handle_connection_error : ReplicationManager → ℕ → ReplicationManager
unfolding update_metrics_failure reject_all_pending schedule_reconnect
handle_connection_error s now = schedule_reconnect (
    reject_all_pending
      (record s { metrics = update_metrics_failure s.metrics now; connected = false }) now)

unfoldable pub handle_connection_close : ReplicationManager → ℕ → ReplicationManager
unfolding reject_all_pending schedule_reconnect
handle_connection_close s now =
    if s.connected
    then schedule_reconnect (reject_all_pending (record s { connected = false }) now)
    else s

-- A `connect` up to its await, called from outside or by the timer.
unfoldable pub connect : ReplicationManager → Bool → ReplicationManager
connect s by_timer =
    if s.connected || s.connecting
    then s
    else record s { connecting = true; has_socket = true; from_timer = by_timer }

-- The 'connect' event, and the end of the `connect` that waits for it.
unfoldable pub on_connect : ReplicationManager → ReplicationManager
on_connect s = record s { connected = true; connecting = false }

-- A rejected `connect`: its `finally`, and the timer's `catch`.
unfoldable pub connect_rejected : ReplicationManager → ReplicationManager
unfolding schedule_reconnect
connect_rejected s =
    if s.from_timer
    then schedule_reconnect (record s { connecting = false })
    else record s { connecting = false }

-- The 'error' and 'timeout' events. A `connect` that is waiting is rejected.
unfoldable pub on_error : ReplicationManager → ℕ → ReplicationManager
unfolding handle_connection_error connect_rejected
on_error s now =
    let failed = handle_connection_error s now in
    if s.connecting then connect_rejected failed else failed

-- The reconnect timer runs out.
unfoldable pub on_timer : ReplicationManager → ReplicationManager
unfolding connect
on_timer s = connect (record s { reconnect_timer = false }) true

-- `disconnect` up to the callback of `end`, and that callback.
unfoldable pub disconnect : ReplicationManager → ℕ → ReplicationManager
unfolding reject_all_pending
disconnect s now = reject_all_pending (record s { reconnect_timer = false }) now

unfoldable pub on_end : ReplicationManager → ReplicationManager
on_end s = record s { has_socket = false; connected = false }

-- An entry comes from the log, which has serialized it, so `serializeReplicate` does not throw.
unfoldable pub replicate : ReplicationManager → LogEntry → ReplicationManager
unfolding schedule_reconnect
replicate s entry =
    if not s.connected || not s.has_socket
    then schedule_reconnect s
    else record s { pending_acks = s.pending_acks ++ entry ∷ [] }

-- An acknowledgment settles the entry that has waited longest, whatever number it carries.
module _ (message_length : LogEntry → ℕ) where
  abbrev pub settle : ReplicationManager → List LogEntry → AckStatus → ℕ → ReplicationManager
  settle s [] status now = s
  settle s (e ∷ pending) accepted now = record s {
    pending_acks = pending;
    last_replicated_sequence = some e.sequence_id;
    metrics = update_metrics_success s.metrics (message_length e) now;
  }
  settle s (e ∷ pending) refused now = record s {
    pending_acks = pending;
    metrics = update_metrics_failure s.metrics now;
  }

  unfoldable pub handle_ack : ReplicationManager → AckStatus → ℕ → ReplicationManager
  unfolding update_metrics_success update_metrics_failure
  handle_ack s status now = settle s s.pending_acks status now

  -- The loop of `handleData`, over the acknowledgments in the data.
  unfoldable pub handle_data : ReplicationManager → List AckStatus → ℕ → ReplicationManager
  unfolding handle_ack
  handle_data s [] now = s
  handle_data s (status ∷ acks) now = handle_data (handle_ack s status now) acks now
