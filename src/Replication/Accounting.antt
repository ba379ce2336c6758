-- ===== src/Replication/Accounting.antt =====
-- src/replication/ReplicationManager.ts: what becomes of the entries that the primary sends.
use lsm_kv_store.Base.{
  ℕ, ◌+◌, ◌≡◌, refl, ◌∙◌, Bool, true, false, ◌&&◌, List, [], ◌∷◌, length, length-append, arith,
  if◌then◌else◌,
}
use lsm_kv_store.Wal.{LogEntry}
use lsm_kv_store.Replication
use lsm_kv_store.Replication.{
  ReplicationMetrics, ReplicationManager, AckStatus, accepted, refused, reject_each,
  reject_all_pending, schedule_reconnect, handle_connection_error, handle_connection_close, connect,
  on_connect, connect_rejected, on_error, on_timer, disconnect, on_end, replicate, handle_ack,
  handle_data, settle,
}

pub data Event : Type 0 where
  call_connect connect_event timer_event end_event : Event
  error_event close_event call_disconnect : ℕ → Event
  ack_event : List AckStatus → ℕ → Event
  call_replicate : LogEntry → Event

-- The entries that were sent are confirmed, failed, or waiting; a connection error counts as a
-- failure of its own.
abbrev pub tally : ReplicationManager → ℕ
tally s = s.metrics.entries_replicated + s.metrics.failed_attempts + length s.pending_acks

abbrev pub done : ReplicationMetrics → ℕ
done m = m.entries_replicated + m.failed_attempts

done-reject_each :
    (m : ReplicationMetrics) (pending : List LogEntry) (now : ℕ)
    → done (reject_each m pending now) ≡ done m + length pending
unfolding reject_each Replication.update_metrics_failure
done-reject_each m [] now = omega arith
done-reject_each m (e ∷ pending) now =
    omega (arith, done-reject_each (Replication.update_metrics_failure m now) pending now)

tally-reject_all_pending :
    (s : ReplicationManager) (now : ℕ) → tally (reject_all_pending s now) ≡ tally s
unfolding reject_all_pending
tally-reject_all_pending s now = omega (arith, done-reject_each s.metrics s.pending_acks now)

tally-schedule_reconnect : (s : ReplicationManager) → tally (schedule_reconnect s) ≡ tally s
unfolding schedule_reconnect
tally-schedule_reconnect s = ground arith

tally-connect_rejected : (s : ReplicationManager) → tally (connect_rejected s) ≡ tally s
unfolding connect_rejected
tally-connect_rejected s =
    ground (arith, tally-schedule_reconnect (record s { connecting = false }))

tally-handle_connection_error :
    (s : ReplicationManager) (now : ℕ) → tally (handle_connection_error s now) ≡ tally s + 1
unfolding handle_connection_error
tally-handle_connection_error s now =
    let counted = record s {
      metrics = Replication.update_metrics_failure s.metrics now;
      connected = false;
    } in
    tally-schedule_reconnect (reject_all_pending counted now)
    ∙ tally-reject_all_pending counted now
    ∙ (unfold Replication.update_metrics_failure in omega arith)

tally-on_error : (s : ReplicationManager) (now : ℕ) → tally (on_error s now) ≡ tally s + 1
unfolding on_error
tally-on_error s now = ground (
  arith,
  tally-connect_rejected (handle_connection_error s now),
  tally-handle_connection_error s now,
)

tally-handle_connection_close :
    (s : ReplicationManager) (now : ℕ) → tally (handle_connection_close s now) ≡ tally s
unfolding handle_connection_close
tally-handle_connection_close s now = ground (
  arith,
  tally-schedule_reconnect (reject_all_pending (record s { connected = false }) now),
  tally-reject_all_pending (record s { connected = false }) now,
)

tally-connect : (s : ReplicationManager) (b : Bool) → tally (connect s b) ≡ tally s
unfolding connect
tally-connect s b = ground arith

module _ (message_length : LogEntry → ℕ) where
  tally-settle :
      (s : ReplicationManager) (pending : List LogEntry) (status : AckStatus) (now : ℕ)
      → s.pending_acks ≡ pending
      → tally (settle message_length s pending status now) ≡ tally s
  unfolding Replication.update_metrics_success Replication.update_metrics_failure
  tally-settle s [] status now e = refl
  tally-settle s (p ∷ pending) accepted now e = rw e (omega arith)
  tally-settle s (p ∷ pending) refused now e = rw e (omega arith)

  tally-handle_data :
      (s : ReplicationManager) (acks : List AckStatus) (now : ℕ)
      → tally (handle_data message_length s acks now) ≡ tally s
  unfolding handle_data handle_ack
  tally-handle_data s [] now = refl
  tally-handle_data s (status ∷ acks) now =
      tally-handle_data (handle_ack message_length s status now) acks now
      ∙ tally-settle s s.pending_acks status now refl

  unfoldable pub step : ReplicationManager → Event → ReplicationManager
  step s call_connect = connect s false
  step s connect_event = on_connect s
  step s timer_event = on_timer s
  step s end_event = on_end s
  step s (error_event now) = on_error s now
  step s (close_event now) = handle_connection_close s now
  step s (call_disconnect now) = disconnect s now
  step s (ack_event acks now) = handle_data message_length s acks now
  step s (call_replicate e) = replicate s e

  -- What an event adds to the tally: an entry that is sent, or a connection error.
  abbrev pub charge : ReplicationManager → Event → ℕ
  charge s (error_event now) = 1
  charge s (call_replicate e) = if s.connected && s.has_socket then 1 else 0
  charge s event = 0

  tally-replicate :
      (s : ReplicationManager) (e : LogEntry)
      → tally (replicate s e) ≡ tally s + charge s (call_replicate e)
  unfolding replicate
  tally-replicate s e =
      ground (arith, tally-schedule_reconnect s, length-append s.pending_acks (e ∷ []))

  tally-step :
      (s : ReplicationManager) (event : Event) → tally (step s event) ≡ tally s + charge s event
  unfolding step
  tally-step s call_connect = omega (arith, tally-connect s false)
  tally-step s connect_event = unfold on_connect in omega arith
  tally-step s timer_event =
      unfold on_timer in omega (arith, tally-connect (record s { reconnect_timer = false }) true)
  tally-step s end_event = unfold on_end in omega arith
  tally-step s (error_event now) = tally-on_error s now
  tally-step s (close_event now) = omega (arith, tally-handle_connection_close s now)
  tally-step s (call_disconnect now) =
      unfold disconnect in
      omega (arith, tally-reject_all_pending (record s { reconnect_timer = false }) now)
  tally-step s (ack_event acks now) = omega (arith, tally-handle_data s acks now)
  tally-step s (call_replicate e) = tally-replicate s e

  unfoldable pub run : ReplicationManager → List Event → ReplicationManager
  run s [] = s
  run s (event ∷ events) = run (step s event) events

  unfoldable pub charges : ReplicationManager → List Event → ℕ
  charges s [] = 0
  charges s (event ∷ events) = charge s event + charges (step s event) events

  -- Over any sequence of calls and socket events, the confirmed entries, the failed attempts and
  -- the entries that wait for an acknowledgment grow together by exactly one for each entry that
  -- is sent and one for each connection error or timeout.
  pub tally-run :
      (s : ReplicationManager) (events : List Event)
      → tally (run s events) ≡ tally s + charges s events
  unfolding run charges
  tally-run s [] = omega arith
  tally-run s (event ∷ events) = omega (arith, tally-run (step s event) events, tally-step s event)
