-- ===== src/ReplicationServer/Repeats.antt =====
-- src/replication/ReplicationServer.ts: a frame that does not parse keeps those before it in the buffer.
use lsm_kv_store.Base.{
  ℕ, suc, ◌≡◌, refl, sym, ap, ◌∙◌, Bool, none, some, List, [], ◌∷◌, ◌++◌, All, append_assoc,
  append-nil,
}
use lsm_kv_store.Codec.{TextCodec}
use lsm_kv_store.Wal.{LogEntry}
use lsm_kv_store.Frames.{thrown}
use lsm_kv_store.ReplicationProtocol.{parse_message}
use lsm_kv_store.ReplicationProtocol.RoundTrip.{Sent, IsExactMessage}
use lsm_kv_store.ReplicationProtocol.Stream.{stream, parse_message-nil}
use lsm_kv_store.ReplicationServer.{ReplicationServer, process_from, on_data}
use lsm_kv_store.ReplicationServer.Chunks.{
  handle_all, with_buffer, handle_all-with_buffer, on_data-frames,
}

module _ ⦃codec : TextCodec⦄ {S : Type 0} (entry_handler : S → LogEntry → S × Bool) where
  round_thrown :
      (fuel : ℕ) (s : ReplicationServer S) (bytes : List ℕ) (now : ℕ)
      → parse_message bytes ≡ thrown
      → process_from entry_handler (suc fuel) s bytes now ≡ (s, none)
  unfolding process_from
  round_thrown fuel s [] now h = absurd (cc (h, parse_message-nil))
  round_thrown fuel s (b ∷ bytes) now h = rw (process_from, h) refl

  on_data-bad :
      (s : ReplicationServer S) (chunk : List ℕ) (ms : List Sent) (bytes bad : List ℕ) (now : ℕ)
      → All IsExactMessage ms
      → stream ms ≡ some bytes
      → parse_message bad ≡ thrown
      → s.buffer ++ chunk ≡ bytes ++ bad
      → on_data entry_handler s chunk now
        ≡ with_buffer (bytes ++ bad) (handle_all entry_handler s ms now)
  on_data-bad s chunk ms bytes bad now x h t shape =
      on_data-frames entry_handler s chunk ms bytes bad none now x h
        (λ fuel z. round_thrown fuel z bad now t) shape

  -- From an empty buffer, where a chunk is frames of messages and then bytes on which parsing
  -- throws whatever follows them, the chunk stays in the buffer, and the next chunk makes the
  -- server handle all its messages a second time.
  pub on_data-repeats :
      (s : ReplicationServer S) (ms : List Sent) (bytes bad chunk : List ℕ) (now : ℕ)
      → All IsExactMessage ms
      → stream ms ≡ some bytes
      → s.buffer ≡ []
      → ((rest : List ℕ) → parse_message (bad ++ rest) ≡ thrown)
      → on_data entry_handler (on_data entry_handler s (bytes ++ bad) now) chunk now
        ≡ with_buffer
            (bytes ++ (bad ++ chunk))
            (handle_all entry_handler (handle_all entry_handler s ms now) ms now)
  on_data-repeats s ms bytes bad chunk now x h empty t =
      let once = handle_all entry_handler s ms now in
      let first : on_data entry_handler s (bytes ++ bad) now ≡ with_buffer (bytes ++ bad) once =
        on_data-bad s (bytes ++ bad) ms bytes bad now x h
          (ap parse_message (sym (append-nil bad)) ∙ t []) (rw empty refl) in
      ap (λ z. on_data entry_handler z chunk now) first
      ∙ on_data-bad (with_buffer (bytes ++ bad) once) chunk ms bytes (bad ++ chunk) now x h
          (t chunk) (append_assoc bytes bad chunk)
      ∙ ap (with_buffer (bytes ++ (bad ++ chunk)))
          (handle_all-with_buffer entry_handler (bytes ++ bad) once ms now x)
