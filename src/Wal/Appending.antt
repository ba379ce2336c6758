-- ===== src/Wal/Appending.antt =====
-- src/storage/wal/WAL.ts: what the log holds after appending, flushing and checkpointing.
use lsm_kv_store.Base.{
  ℕ, ◌+◌, ◌≡◌, ◌≢◌, refl, ◌∙◌, Bool, true, false, ◌&&◌, List, [], ◌∷◌, ◌++◌, append_assoc,
  append-nil, arith, if◌then◌else◌, Bool-cases, inl, inr,
}
use lsm_kv_store.Codec.{TextCodec}
use lsm_kv_store.Wal.{
  LogEntry, Wal, sync_every_write, is_serializable, write_batch, flush_of, flush_batch, numbered,
  append_sync, append, checkpoint, replay,
}

module _ ⦃codec : TextCodec⦄ where
  -- The entries before the first one that cannot be serialized.
  abbrev pub writable : List LogEntry → List LogEntry
  writable [] = []
  writable (e ∷ es) = if is_serializable e then e ∷ writable es else []

  abbrev pub all_writable : List LogEntry → Bool
  all_writable [] = true
  all_writable (e ∷ es) = is_serializable e && all_writable es

  pub append_sync-eq :
      (w : Wal) (e : LogEntry)
      → w.is_open ≡ true
      → append_sync w e ≡ (
          if is_serializable e
          then (record w { current = w.current ++ e ∷ []; notified = w.notified ++ e ∷ [] }, true)
          else (w, false))
  unfolding append_sync
  append_sync-eq w e o = ground arith

  pub append-eq :
      (w : Wal) (e : LogEntry) (now : ℕ)
      → w.sync_policy ≡ sync_every_write
      → append w e now
        ≡ append_sync (record w { sequence_id = w.sequence_id + 1 }) (numbered w e now)
  unfolding append
  append-eq w e now p = ground arith

  -- With SYNC_EVERY_WRITE and an open file, an append resolves exactly when the entry can be
  -- serialized; then its numbered entry is at the end of the log and the listener was told, else
  -- the log and the listener are as before; a number is used up either way.
  pub append_lem :
      (w : Wal) (e : LogEntry) (now : ℕ)
      → w.sync_policy ≡ sync_every_write
      → w.is_open ≡ true
      → let (w', done) = append w e now in
        let added = if done then numbered w e now ∷ [] else [] in
        (done ≡ is_serializable (numbered w e now))
        × (replay w' ≡ replay w ++ added)
        × (w'.notified ≡ w.notified ++ added)
        × (w'.sequence_id ≡ w.sequence_id + 1)
  unfolding replay
  append_lem w e now p o =
      rw
        (
          append-eq w e now p,
          append_sync-eq (record w { sequence_id = w.sequence_id + 1 }) (numbered w e now) o,
        )
        (elim (Bool-cases (is_serializable (numbered w e now))) [
          | inl h ↦ rw h (refl, simp append_assoc, refl, refl)
          | inr h ↦ rw h (refl, simp append-nil, simp append-nil, refl)
        ])

  pub write_batch-eq :
      (w : Wal) (batch : List LogEntry)
      → w.is_open ≡ true
      → write_batch w batch
        ≡ (record w { current = w.current ++ writable batch }, all_writable batch)
  unfolding write_batch
  write_batch-eq w [] o = simp append-nil
  write_batch-eq w (e ∷ batch) o = elim (Bool-cases (is_serializable e)) [
    | inl h ↦ ground (
      arith,
      write_batch-eq (record w { current = w.current ++ e ∷ [] }) batch o,
      append_assoc w.current (e ∷ []) (writable batch),
    )
    | inr h ↦ ground (arith, append-nil w.current)
  ]

  flush_of_lem :
      (w : Wal) (batch : List LogEntry)
      → w.is_open ≡ true
      → w.pending_writes ≡ batch
      → let (w', done) = flush_of w batch in
        (done ≡ all_writable batch)
        × (replay w' ≡ replay w ++ writable batch)
        × (w'.notified ≡ w.notified ++ (if done then batch else []))
        × (w'.pending_writes ≡ [])
        × (w'.log_file ≡ w.log_file)
  unfolding replay
  flush_of_lem w [] o p = (refl, simp append-nil, simp append-nil, p, refl)
  flush_of_lem w (e ∷ batch) o p =
      rw (write_batch-eq (record w { pending_writes = [] }) (e ∷ batch) o)
        (elim (Bool-cases (all_writable (e ∷ batch))) [
          | inl h ↦ rw h (simp o (refl, simp append_assoc, refl, refl, refl))
          | inr h ↦ rw h (refl, simp append_assoc, simp append-nil, refl, refl)
        ])

  -- With an open file, a flush writes the pending entries up to the first that cannot be
  -- serialized; it resolves all and tells the listener of each, in order, if there is none, else
  -- it rejects all and tells it of none; nothing stays pending and the file stays the same.
  pub flush_batch_lem :
      (w : Wal)
      → w.is_open ≡ true
      → let (w', done) = flush_batch w in
        (done ≡ all_writable w.pending_writes)
        × (replay w' ≡ replay w ++ writable w.pending_writes)
        × (w'.notified ≡ w.notified ++ (if done then w.pending_writes else []))
        × (w'.pending_writes ≡ [])
        × (w'.log_file ≡ w.log_file)
  unfolding flush_batch
  flush_batch_lem w o = flush_of_lem w w.pending_writes o refl

  -- With an open file, pending entries that can all be serialized and a clock that has moved on, a
  -- checkpoint succeeds, hands the pending entries to the listener, and leaves a log that replays
  -- to nothing.
  pub checkpoint_lem :
      (w : Wal) (now : ℕ)
      → w.is_open ≡ true
      → all_writable w.pending_writes ≡ true
      → now ≢ w.log_file
      → let (w', done) = checkpoint w now in
        (done ≡ true) × (replay w' ≡ []) × (w'.notified ≡ w.notified ++ w.pending_writes)
  unfolding checkpoint replay
  checkpoint_lem w now o a moved =
      let (done, _, told, _, same) = flush_batch_lem w o in
      let ok : (flush_batch w).1 ≡ true = done ∙ a in
      rw ok (refl, rw same (ground arith), rw ok at told)
