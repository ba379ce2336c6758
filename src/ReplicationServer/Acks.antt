-- ===== src/ReplicationServer/Acks.antt =====
-- src/replication/ReplicationServer.ts: what the server answers, and what its counters say.
use lsm_kv_store.Base.{
  subst, ◌^◌, map, ◌<◌, ℕ, ◌+◌, ◌≡◌, refl, sym, ◌∙◌, Bool, true, false, Option, some, List, [], ◌∷◌,
  ◌++◌, All, arith, append_assoc, append-nil, Bool-cases, inl, inr, if◌then◌else◌,
}
use lsm_kv_store.Codec.{TextCodec}
use lsm_kv_store.Bytes.{u64_bytes, ◌then_write◌}
use lsm_kv_store.Wal.{LogEntry}
use lsm_kv_store.Wal.Records.Torn.{IsExact, Logged, logged_entry}
use lsm_kv_store.ReplicationProtocol.{opcode_ack, serialize_ack, status_ok, status_error}
use lsm_kv_store.ReplicationProtocol.RoundTrip.{Sent, entry, ack, message_of, serialize_ack-eq}
use lsm_kv_store.ReplicationProtocol.Stream.{stream}
use lsm_kv_store.Frames.Whole.{frame_bytes}
use lsm_kv_store.ReplicationServer.{
  ReplicationServer, handle_replicate, handle_message, update_metrics_success,
  update_metrics_failure,
}
use lsm_kv_store.ReplicationServer.Chunks.{handle_all}

module _ ⦃codec : TextCodec⦄ {S : Type 0} (entry_handler : S → LogEntry → S × Bool) where
  -- The store after the entries, refused ones included.
  abbrev pub applied : S → List Logged → S
  applied store [] = store
  applied store (l ∷ ls) = applied (entry_handler store (logged_entry l)).0 ls

  -- Whether the handler resolved, entry by entry.
  abbrev pub outcomes : S → List Logged → List (ℕ × Bool)
  outcomes store [] = []
  outcomes store (l ∷ ls) =
      let (next, resolved) = entry_handler store (logged_entry l) in
      (l.0, resolved) ∷ outcomes next ls

  abbrev pub answer_to : ℕ × Bool → Sent
  answer_to (sequence_id, resolved) = ack (if resolved then status_ok else status_error) sequence_id

  abbrev pub count : Bool → List (ℕ × Bool) → ℕ
  count b [] = 0
  count true ((n, true) ∷ os) = 1 + count true os
  count true ((n, false) ∷ os) = count true os
  count false ((n, true) ∷ os) = count false os
  count false ((n, false) ∷ os) = 1 + count false os

  -- The sequence number of the last entry that resolved.
  abbrev pub last_resolved : Option ℕ → List (ℕ × Bool) → Option ℕ
  last_resolved before [] = before
  last_resolved before ((n, true) ∷ os) = last_resolved (some n) os
  last_resolved before ((n, false) ∷ os) = last_resolved before os

  abbrev pub Account : ReplicationServer S → ReplicationServer S → List Logged → Type 0
  Account before after ls =
      let os = outcomes before.store ls in
      (bytes : List ℕ) × (after.store ≡ applied before.store ls)
      × (stream (map answer_to os) ≡ some bytes)
      × (after.sent ≡ before.sent ++ bytes)
      × (after.metrics.entries_replicated ≡ before.metrics.entries_replicated + count true os)
      × (after.metrics.failed_attempts ≡ before.metrics.failed_attempts + count false os)
      × (after.last_applied_sequence ≡ last_resolved before.last_applied_sequence os)

  -- One entry that the handler takes, and one that it does not.
  taken :
      (s : ReplicationServer S) (l : Logged) (now : ℕ)
      → l.0 < 2 ^ 53
      → (entry_handler s.store (logged_entry l)).1 ≡ true
      → (handle_message entry_handler s (message_of (entry l)) now).0 ≡ record s {
        store = (entry_handler s.store (logged_entry l)).0;
        last_applied_sequence = some l.0;
        metrics = update_metrics_success s.metrics now;
        sent = s.sent ++ frame_bytes opcode_ack (status_ok ∷ u64_bytes l.0);
      }
  unfolding handle_replicate
  taken s l now x ok = rw (ok, serialize_ack-eq status_ok l.0 x) refl

  not_taken :
      (s : ReplicationServer S) (l : Logged) (now : ℕ)
      → l.0 < 2 ^ 53
      → (entry_handler s.store (logged_entry l)).1 ≡ false
      → (handle_message entry_handler s (message_of (entry l)) now).0 ≡ record s {
        store = (entry_handler s.store (logged_entry l)).0;
        metrics = update_metrics_failure s.metrics now;
        sent = s.sent ++ frame_bytes opcode_ack (status_error ∷ u64_bytes l.0);
      }
  unfolding handle_replicate
  not_taken s l now x bad = rw (bad, serialize_ack-eq status_error l.0 x) refl

  head_written :
      (status n : ℕ) (rest : Option (List ℕ)) (bytes : List ℕ)
      → n < 2 ^ 53
      → rest ≡ some bytes
      → (serialize_ack status n then_write rest)
        ≡ some (frame_bytes opcode_ack (status ∷ u64_bytes n) ++ bytes)
  head_written status n rest bytes x h = rw (serialize_ack-eq status n x, h) refl

  -- After handling entries with numbers below 2 ^ 53 whose texts survive the encoding, the store
  -- is that of the handler over them in order, the socket got one acknowledgment for each, in
  -- order and with its outcome, the two counters grew by the outcomes of either kind, and the last
  -- applied sequence is that of the last entry that resolved.
  pub handle_all-Account :
      (s : ReplicationServer S) (ls : List Logged) (now : ℕ)
      → All IsExact ls
      → Account s (handle_all entry_handler s (map (λ l. entry l) ls) now) ls
  unfolding update_metrics_success update_metrics_failure
  handle_all-Account s [] now x =
      ([], refl, refl, sym (append-nil s.sent), omega arith, omega arith, refl)
  handle_all-Account s (l ∷ ls) now x =
      elim (Bool-cases (entry_handler s.store (logged_entry l)).1) [
        | inl ok ↦
            let more = map (λ m. entry m) ls in
            let frame = frame_bytes opcode_ack (status_ok ∷ u64_bytes l.0) in
            let next = record s {
              store = (entry_handler s.store (logged_entry l)).0;
              last_applied_sequence = some l.0;
              metrics = update_metrics_success s.metrics now;
              sent = s.sent ++ frame;
            } in
            let (bytes, store, answers, sent, good, bad, last) =
              handle_all-Account next ls now x.1 in
            subst (λ z. Account s (handle_all entry_handler z more now) (l ∷ ls))
              (sym (taken s l now x.0.0 ok))
              (rw ok (
                frame ++ bytes,
                store,
                head_written status_ok l.0
                    (stream (map (λ o. answer_to o) (outcomes next.store ls))) bytes x.0.0 answers,
                sent ∙ append_assoc s.sent frame bytes,
                good ∙ omega arith,
                bad,
                last,
              ))
        | inr no_good ↦
            let more = map (λ m. entry m) ls in
            let frame = frame_bytes opcode_ack (status_error ∷ u64_bytes l.0) in
            let next = record s {
              store = (entry_handler s.store (logged_entry l)).0;
              metrics = update_metrics_failure s.metrics now;
              sent = s.sent ++ frame;
            } in
            let (bytes, store, answers, sent, good, bad, last) =
              handle_all-Account next ls now x.1 in
            subst (λ z. Account s (handle_all entry_handler z more now) (l ∷ ls))
              (sym (not_taken s l now x.0.0 no_good))
              (rw no_good (
                frame ++ bytes,
                store,
                head_written status_error l.0
                    (stream (map (λ o. answer_to o) (outcomes next.store ls))) bytes x.0.0 answers,
                sent ∙ append_assoc s.sent frame bytes,
                good,
                bad ∙ omega arith,
                last,
              ))
      ]
