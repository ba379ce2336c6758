-- ===== src/Tests/Links.antt =====
-- The primary's end of replication on a short session.
use lsm_kv_store.Base.{ℕ, ◌≡◌, ◌+◌, refl, true, false, none, some, List, [], ◌∷◌}
use lsm_kv_store.Wal.{LogEntry, LogOperationType}
use lsm_kv_store.Replication
use lsm_kv_store.Replication.{
  ReplicationManager, new_manager, accepted, refused, on_error, handle_data,
}
use lsm_kv_store.Replication.Accounting.{
  Event, connect_event, timer_event, error_event, ack_event, call_replicate, run, step, tally,
  charges, tally-run,
}
use lsm_kv_store.Replication.Confirming.{Confirms, all_accepted, handle_data-all_accepted}
use lsm_kv_store.Replication.Reconnect.{on_error-reconnect}
use lsm_kv_store.Tests.Samples.{apple, berry}

abbrev sent_entry : ℕ → LogEntry
sent_entry n = record {
  sequence_id = n;
  timestamp = 0;
  operation = LogOperationType.put;
  key = some apple;
  value = some berry;
  keys = none;
  values = none;
}

abbrev frame_length : LogEntry → ℕ
frame_length e = 32

abbrev online : ReplicationManager
online = record new_manager {
  has_socket = true;
  connected = true;
  pending_acks = sent_entry 4 ∷ sent_entry 5 ∷ sent_entry 6 ∷ [];
}

-- An entry offered before the connection is there is not sent, then or later.
abbrev session : List Event
session =
    call_replicate (sent_entry 0)
    ∷ timer_event
    ∷ connect_event
    ∷ call_replicate (sent_entry 1)
    ∷ call_replicate (sent_entry 2)
    ∷ ack_event (accepted ∷ []) 7
    ∷ error_event 8
    ∷ []

tally-session : tally (run frame_length new_manager session) ≡ 3
unfolding run step Replication.replicate Replication.on_timer Replication.on_connect
    Replication.handle_data Replication.on_error Replication.update_metrics_success
tally-session = refl

tally-run_example :
    tally (run frame_length new_manager session)
    ≡ tally new_manager + charges frame_length new_manager session
tally-run_example = tally-run frame_length new_manager session

abbrev two_sent : List LogEntry
two_sent = sent_entry 4 ∷ sent_entry 5 ∷ []

handle_data-all_accepted_example :
    Confirms frame_length online two_sent
      (sent_entry 6 ∷ [])
      (handle_data frame_length online (all_accepted frame_length two_sent) 9)
handle_data-all_accepted_example =
    handle_data-all_accepted frame_length online two_sent (sent_entry 6 ∷ []) 9 refl

on_error-reconnect_example :
    ((on_error online 9).connected ≡ false)
    × ((on_error online 9).pending_acks ≡ [])
    × ((on_error online 9).reconnect_timer ≡ true)
on_error-reconnect_example = on_error-reconnect online 9 refl
