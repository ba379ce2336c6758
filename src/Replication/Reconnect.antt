-- ===== src/Replication/Reconnect.antt =====
-- src/replication/ReplicationManager.ts: what a connection error leaves behind.
use lsm_kv_store.Base.{
  ℕ, ◌≡◌, refl, ◌∙◌, ap, Bool, true, false, not, ◌||◌, ◌&&◌, [], arith, if◌then◌else◌, Bool-cases,
  inl, inr,
}
use lsm_kv_store.Replication
use lsm_kv_store.Replication.{
  ReplicationMetrics, ReplicationManager, AckStatus, accepted, refused, reject_each,
  reject_all_pending, schedule_reconnect, handle_connection_error, handle_connection_close, connect,
  on_connect, connect_rejected, on_error, on_timer, disconnect, on_end, replicate, handle_ack,
  handle_data, settle,
}

if-true : {A : Type 0} (b : Bool) (x y : A) → b ≡ true → (if b then x else y) ≡ x
if-true b x y h = rw h refl

if-false : {A : Type 0} (b : Bool) (x y : A) → b ≡ false → (if b then x else y) ≡ y
if-false b x y h = rw h refl

schedule_reconnect-eq :
    (s : ReplicationManager)
    → schedule_reconnect s ≡ record s { reconnect_timer = s.reconnect_timer || not s.connecting }
unfolding schedule_reconnect
schedule_reconnect-eq s = elim (Bool-cases s.reconnect_timer) [
  | inl h ↦
      rw
        (if-true (s.reconnect_timer || s.connecting) s (record s { reconnect_timer = true })
          (ground arith))
        (ap (λ (b : Bool). record s { reconnect_timer = b }) (h ∙ ground arith))
  | inr h ↦ elim (Bool-cases s.connecting) [
    | inl k ↦
        rw
          (if-true (s.reconnect_timer || s.connecting) s (record s { reconnect_timer = true })
            (ground arith))
          (ap (λ (b : Bool). record s { reconnect_timer = b }) (ground arith))
    | inr k ↦
        rw
          (if-false (s.reconnect_timer || s.connecting) s (record s { reconnect_timer = true })
            (ground arith))
          (ap (λ (b : Bool). record s { reconnect_timer = b }) (ground arith))
  ]
]

handle_connection_error-eq :
    (s : ReplicationManager) (now : ℕ)
    → handle_connection_error s now ≡ record s {
      connected = false;
      pending_acks = [];
      metrics = reject_each (Replication.update_metrics_failure s.metrics now) s.pending_acks now;
      reconnect_timer = s.reconnect_timer || not s.connecting;
    }
unfolding handle_connection_error reject_all_pending
handle_connection_error-eq s now = schedule_reconnect-eq _

connect_rejected-eq :
    (s : ReplicationManager)
    → s.from_timer ≡ true
    → connect_rejected s
      ≡ record s { connecting = false; reconnect_timer = s.reconnect_timer || true }
unfolding connect_rejected
connect_rejected-eq s t =
    if-true s.from_timer _ _ t ∙ schedule_reconnect-eq (record s { connecting = false })

on_error-waiting :
    (s : ReplicationManager) (now : ℕ)
    → s.connecting ≡ true
    → on_error s now ≡ connect_rejected (handle_connection_error s now)
unfolding on_error
on_error-waiting s now k = if-true s.connecting _ _ k

on_error-idle :
    (s : ReplicationManager) (now : ℕ)
    → s.connecting ≡ false
    → on_error s now ≡ handle_connection_error s now
unfolding on_error
on_error-idle s now k = if-false s.connecting _ _ k

-- After a connection error, unless a connect was waiting that the timer did not call, the manager
-- is not connected, nothing waits for an acknowledgment, and the reconnect timer runs.
pub on_error-reconnect :
    (s : ReplicationManager) (now : ℕ)
    → (s.connecting && not s.from_timer) ≡ false
    → ((on_error s now).connected ≡ false)
      × ((on_error s now).pending_acks ≡ [])
      × ((on_error s now).reconnect_timer ≡ true)
on_error-reconnect s now h = elim (Bool-cases s.connecting) [
  | inl k ↦
      let t : s.from_timer ≡ true = ground arith in
      let e =
        on_error-waiting s now k
        ∙ ap connect_rejected (handle_connection_error-eq s now)
        ∙ connect_rejected-eq _ t in
      (
        ap (λ x. x.connected) e,
        ap (λ x. x.pending_acks) e,
        ap (λ x. x.reconnect_timer) e ∙ ground arith,
      )
  | inr k ↦
      let e = on_error-idle s now k ∙ handle_connection_error-eq s now in
      (
        ap (λ x. x.connected) e,
        ap (λ x. x.pending_acks) e,
        ap (λ x. x.reconnect_timer) e ∙ ground arith,
      )
]
