-- ===== src/Replication/Confirming.antt =====
-- src/replication/ReplicationManager.ts: positive acknowledgments and the entries that wait.
use lsm_kv_store.Base.{
  ℕ, ◌+◌, ◌≡◌, refl, sym, subst, ◌∙◌, ap, Option, some, List, [], ◌∷◌, ◌++◌, length, arith,
}
use lsm_kv_store.Wal.{LogEntry}
use lsm_kv_store.Replication
use lsm_kv_store.Replication.{
  ReplicationMetrics, ReplicationManager, AckStatus, accepted, refused, reject_each,
  reject_all_pending, schedule_reconnect, handle_connection_error, handle_connection_close, connect,
  on_connect, connect_rejected, on_error, on_timer, disconnect, on_end, replicate, handle_ack,
  handle_data, settle,
}

module _ (message_length : LogEntry → ℕ) where
  -- The sequence number of the last entry of a list, or an earlier one.
  abbrev pub last_sequence : Option ℕ → List LogEntry → Option ℕ
  last_sequence n [] = n
  last_sequence n (e ∷ entries) = last_sequence (some e.sequence_id) entries

  abbrev pub all_accepted : List LogEntry → List AckStatus
  all_accepted [] = []
  all_accepted (e ∷ entries) = accepted ∷ all_accepted entries

  -- `s'` follows `s` where the entries `sent` are confirmed and `waiting` are left.
  abbrev pub Confirms :
      ReplicationManager → List LogEntry → List LogEntry → ReplicationManager → Type 0
  Confirms s sent waiting s' =
      (s'.pending_acks ≡ waiting)
      × (s'.last_replicated_sequence ≡ last_sequence s.last_replicated_sequence sent)
      × (s'.metrics.entries_replicated ≡ s.metrics.entries_replicated + length sent)
      × (s'.metrics.failed_attempts ≡ s.metrics.failed_attempts)

  -- As many positive acknowledgments as the first so many waiting entries confirm those entries in
  -- the order they were sent: the others stay waiting, the last replicated sequence is that of the
  -- last of them, the count of confirmed entries grows by their number, and no failure is counted.
  pub handle_data-all_accepted :
      (s : ReplicationManager) (sent waiting : List LogEntry) (now : ℕ)
      → s.pending_acks ≡ sent ++ waiting
      → Confirms s sent waiting (handle_data message_length s (all_accepted sent) now)
  unfolding handle_data handle_ack Replication.update_metrics_success
  handle_data-all_accepted s [] waiting now e = (e, refl, omega arith, refl)
  handle_data-all_accepted s (p ∷ sent) waiting now e =
      let s' = settle message_length s (p ∷ (sent ++ waiting)) accepted now in
      let first : handle_ack message_length s accepted now ≡ s' =
        ap (λ l. settle message_length s l accepted now) e in
      let (rest, last, confirmed, failed) = handle_data-all_accepted s' sent waiting now refl in
      subst
        (λ x. Confirms s (p ∷ sent) waiting (handle_data message_length x (all_accepted sent) now))
        (sym first) (rest, last, confirmed ∙ omega arith, failed)
