-- ===== src/ReplicationServer/Chunks.antt =====
-- src/replication/ReplicationServer.ts: where TCP cuts the primary's bytes makes no difference.
use lsm_kv_store.Base.{
  ℕ, zero, suc, ◌+◌, ◌<◌, ◌≤◌, ◌≡◌, refl, sym, subst, ap, ◌∙◌, Bool, true, Option, some, List, [],
  ◌∷◌, ◌++◌, All, All-append_left, All-append_right, length, length-append, arith, append_assoc,
  append-nil, Bool-cases, inl, inr,
}
use lsm_kv_store.Codec.{TextCodec}
use lsm_kv_store.Bytes.{drop}
use lsm_kv_store.Bytes.Fields.{drop-append, then_write-some}
use lsm_kv_store.Wal.{LogEntry}
use lsm_kv_store.Wal.Records.Torn.{logged_entry}
use lsm_kv_store.Frames.{incomplete, parsed}
use lsm_kv_store.ReplicationProtocol.{ReplicationMessage, parse_message, status_ok, status_error}
use lsm_kv_store.ReplicationProtocol.RoundTrip.{
  Sent, entry, ack, message_of, frame_of, IsExactMessage, serialize_ack-eq, parse_message-whole,
}
use lsm_kv_store.ReplicationProtocol.Stream.{stream, parse_message-nil, stream-Prefix}
use lsm_kv_store.ReplicationServer.{
  ReplicationServer, handle_replicate, handle_message, process_from, process_buffer, on_data,
  with_remaining,
}

abbrev pub with_buffer : {S : Type 0} → List ℕ → ReplicationServer S → ReplicationServer S
with_buffer b s = record s { buffer = b }

module _ ⦃codec : TextCodec⦄ {S : Type 0} (entry_handler : S → LogEntry → S × Bool) where
  -- The messages handled in order, once each.
  abbrev pub handle_all : ReplicationServer S → List Sent → ℕ → ReplicationServer S
  handle_all s [] now = s
  handle_all s (m ∷ ms) now =
      handle_all (handle_message entry_handler s (message_of m) now).0 ms now

  -- The 'data' events of the chunks.
  abbrev pub receive : ReplicationServer S → List (List ℕ) → ℕ → ReplicationServer S
  receive s [] now = s
  receive s (chunk ∷ chunks) now = receive (on_data entry_handler s chunk now) chunks now

  abbrev pub joined : List (List ℕ) → List ℕ
  joined [] = []
  joined (chunk ∷ chunks) = chunk ++ joined chunks

  -- === every message is answered ===

  handle_message-resolves :
      (s : ReplicationServer S) (m : Sent) (now : ℕ)
      → IsExactMessage m
      → (handle_message entry_handler s (message_of m) now).1 ≡ true
  unfolding handle_replicate
  handle_message-resolves s (entry l) now x =
      elim (Bool-cases (entry_handler s.store (logged_entry l)).1) [
        | inl ok ↦ rw (ok, serialize_ack-eq status_ok l.0 x.0) refl
        | inr no_good ↦ rw (no_good, serialize_ack-eq status_error l.0 x.0) refl
      ]
  handle_message-resolves s (ack status sequence_id) now x = refl

  handle_message-with_buffer :
      (b : List ℕ) (s : ReplicationServer S) (m : Sent) (now : ℕ)
      → IsExactMessage m
      → (handle_message entry_handler (with_buffer b s) (message_of m) now).0
        ≡ with_buffer b (handle_message entry_handler s (message_of m) now).0
  unfolding handle_replicate
  handle_message-with_buffer b s (entry l) now x =
      elim (Bool-cases (entry_handler s.store (logged_entry l)).1) [
        | inl ok ↦ rw (ok, serialize_ack-eq status_ok l.0 x.0) refl
        | inr no_good ↦ rw (no_good, serialize_ack-eq status_error l.0 x.0) refl
      ]
  handle_message-with_buffer b s (ack status sequence_id) now x = refl

  pub handle_all-with_buffer :
      (b : List ℕ) (s : ReplicationServer S) (ms : List Sent) (now : ℕ)
      → All IsExactMessage ms
      → handle_all (with_buffer b s) ms now ≡ with_buffer b (handle_all s ms now)
  handle_all-with_buffer b s [] now x = refl
  handle_all-with_buffer b s (m ∷ ms) now x =
      ap (λ z. handle_all z ms now) (handle_message-with_buffer b s m now x.0)
      ∙ handle_all-with_buffer b (handle_message entry_handler s (message_of m) now).0 ms now x.1

  handle_all-append :
      (s : ReplicationServer S) (done left : List Sent) (now : ℕ)
      → handle_all s (done ++ left) now ≡ handle_all (handle_all s done now) left now
  handle_all-append s [] left now = refl
  handle_all-append s (m ∷ done) left now =
      handle_all-append (handle_message entry_handler s (message_of m) now).0 done left now

  -- === the loop ===

  round_parsed :
      (fuel : ℕ) (s : ReplicationServer S) (bytes : List ℕ) (message : ReplicationMessage)
      (consumed now : ℕ)
      → parse_message bytes ≡ parsed message consumed
      → (handle_message entry_handler s message now).1 ≡ true
      → process_from entry_handler (suc fuel) s bytes now
        ≡ process_from entry_handler fuel
            (handle_message entry_handler s message now).0
            (drop consumed bytes)
            now
  unfolding process_from
  round_parsed fuel s [] message consumed now h r = absurd (cc (h, parse_message-nil))
  round_parsed fuel s (b ∷ bytes) message consumed now h r = rw (process_from, h, r) refl

  round_incomplete :
      (fuel : ℕ) (s : ReplicationServer S) (bytes : List ℕ) (now : ℕ)
      → parse_message bytes ≡ incomplete
      → process_from entry_handler (suc fuel) s bytes now ≡ (s, some bytes)
  unfolding process_from
  round_incomplete fuel s [] now h = refl
  round_incomplete fuel s (b ∷ bytes) now h = rw (process_from, h) refl

  -- How the loop ends, on what comes after the whole frames.
  abbrev pub Ends : List ℕ → Option (List ℕ) → ℕ → Type 0
  Ends tail left now =
      (fuel : ℕ) (s : ReplicationServer S)
      → process_from entry_handler (suc fuel) s tail now ≡ (s, left)

  process_from-frames :
      (fuel : ℕ) (s : ReplicationServer S) (ms : List Sent) (bytes tail : List ℕ)
      (left : Option (List ℕ)) (now : ℕ)
      → length ms < fuel
      → All IsExactMessage ms
      → stream ms ≡ some bytes
      → Ends tail left now
      → process_from entry_handler fuel s (bytes ++ tail) now ≡ (handle_all s ms now, left)
  process_from-frames zero s ms bytes tail left now f x h t = absurd (omega arith)
  process_from-frames (suc fuel) s [] bytes tail left now f x h t =
      let empty : [] ≡ bytes = cc h in
      subst (λ (b : List ℕ). process_from entry_handler (suc fuel) s (b ++ tail) now ≡ (s, left))
        empty (t fuel s)
  process_from-frames (suc fuel) s (m ∷ ms) bytes tail left now f x h t =
      let (b, more, wrote, later, shape) = then_write-some (frame_of m) (stream ms) bytes h in
      let whole : bytes ++ tail ≡ b ++ (more ++ tail) =
        ap (λ z. z ++ tail) shape ∙ append_assoc b more tail in
      let next = (handle_message entry_handler s (message_of m) now).0 in
      ap (λ z. process_from entry_handler (suc fuel) s z now) whole
      ∙ round_parsed fuel s (b ++ (more ++ tail)) (message_of m) (length b) now
          (parse_message-whole m b (more ++ tail) x.0 wrote) (handle_message-resolves s m now x.0)
      ∙ ap (λ z. process_from entry_handler fuel next z now) (drop-append b (more ++ tail))
      ∙ process_from-frames fuel next ms more tail left now (omega arith) x.1 later t

  nonempty :
      (m : Sent) (bytes : List ℕ) → IsExactMessage m → frame_of m ≡ some bytes → 1 ≤ length bytes
  nonempty m [] x h = absurd (cc (parse_message-nil, parse_message-whole m [] [] x h))
  nonempty m (b ∷ bytes) x h = omega arith

  length-stream :
      (ms : List Sent) (bytes : List ℕ)
      → All IsExactMessage ms
      → stream ms ≡ some bytes
      → length ms ≤ length bytes
  length-stream [] bytes x h = omega arith
  length-stream (m ∷ ms) bytes x h =
      let (b, more, wrote, later, shape) = then_write-some (frame_of m) (stream ms) bytes h in
      omega (
        arith,
        nonempty m b x.0 wrote,
        length-stream ms more x.1 later,
        ap length shape,
        length-append b more,
      )

  pub on_data-frames :
      (s : ReplicationServer S) (chunk : List ℕ) (ms : List Sent) (bytes tail : List ℕ)
      (left : Option (List ℕ)) (now : ℕ)
      → All IsExactMessage ms
      → stream ms ≡ some bytes
      → Ends tail left now
      → s.buffer ++ chunk ≡ bytes ++ tail
      → on_data entry_handler s chunk now
        ≡ with_remaining (bytes ++ tail) (handle_all s ms now, left)
  unfolding on_data process_buffer
  on_data-frames s chunk ms bytes tail left now x h t shape =
      ap (λ z. with_remaining z (process_buffer entry_handler s z now)) shape
      ∙ ap (λ z. with_remaining (bytes ++ tail) z)
          (process_from-frames (length (bytes ++ tail) + 1) s ms bytes tail left now
            (omega (arith, length-stream ms bytes x h, length-append bytes tail)) x h t)

  receive-stream :
      (s : ReplicationServer S) (ms : List Sent) (chunks : List (List ℕ)) (now : ℕ)
      → All IsExactMessage ms
      → stream ms ≡ some (s.buffer ++ joined chunks)
      → parse_message s.buffer ≡ incomplete
      → receive s chunks now ≡ with_buffer [] (handle_all s ms now)
  receive-stream s [] [] now x h t = ap (λ z. with_buffer z s) (sym (append-nil s.buffer) ∙ cc h)
  receive-stream s (m ∷ ms) [] now x h t =
      let (b, more, wrote, later, shape) =
        then_write-some (frame_of m) (stream ms) (s.buffer ++ []) h in
      let whole = parse_message-whole m b more x.0 wrote in
      absurd (cc (ap parse_message (sym (append-nil s.buffer) ∙ shape), whole, t))
  receive-stream s ms (chunk ∷ chunks) now x h t =
      let (done, left, head, tail, split, heads, shape, tails, cut) =
        stream-Prefix ms (s.buffer ++ chunk) (joined chunks) x
          (h ∙ ap some (sym (append_assoc s.buffer chunk (joined chunks)))) in
      let all = subst (λ z. All IsExactMessage z) split x in
      let after = handle_all s done now in
      ap (λ z. receive z chunks now)
        (on_data-frames s chunk done head tail (some tail) now
          (All-append_left IsExactMessage done left all) heads
          (λ fuel z. round_incomplete fuel z tail now cut) shape)
      ∙ receive-stream (with_buffer tail after) left chunks now
          (All-append_right IsExactMessage done left all) tails cut
      ∙ ap (with_buffer []) (
          handle_all-with_buffer tail after left now
            (All-append_right IsExactMessage done left all))
      ∙ ap (with_buffer []) (sym (handle_all-append s done left now))
      ∙ ap (λ z. with_buffer [] (handle_all s z now)) (sym split)

  -- From an empty buffer, however the frames of messages that can be sent are cut into chunks, the
  -- server ends as after handling each message once, in order, where the numbers in them are below
  -- 2 ^ 53 and the texts survive the encoding.
  pub receive-joined :
      (s : ReplicationServer S) (ms : List Sent) (chunks : List (List ℕ)) (now : ℕ)
      → All IsExactMessage ms
      → s.buffer ≡ []
      → stream ms ≡ some (joined chunks)
      → receive s chunks now ≡ handle_all s ms now
  receive-joined s ms chunks now x empty h =
      let at_start : stream ms ≡ some (s.buffer ++ joined chunks) = rw empty h in
      receive-stream s ms chunks now x at_start (ap parse_message empty ∙ parse_message-nil)
      ∙ sym (handle_all-with_buffer [] s ms now x)
      ∙ ap (λ z. handle_all (with_buffer z s) ms now) (sym empty)
