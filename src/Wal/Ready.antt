-- ===== src/Wal/Ready.antt =====
-- src/storage/wal/WAL.ts: a log that is open, under `SYNC_EVERY_WRITE`, with nothing pending.
use lsm_kv_store.Base.{ℕ, ◌+◌, ◌≡◌, refl, true, [], Bool-cases, inl, inr, ap}
use lsm_kv_store.Codec.{TextCodec}
use lsm_kv_store.Wal.{
  LogEntry, Wal, sync_every_write, is_serializable, numbered, append, flush_of, flush_batch,
  checkpoint,
}
use lsm_kv_store.Wal.Appending.{append-eq, append_sync-eq}

pub record IsReady (w : Wal) : Type 0 where
  pub synced : w.sync_policy ≡ sync_every_write
  pub opened : w.is_open ≡ true
  pub nothing_pending : w.pending_writes ≡ []

module _ ⦃codec : TextCodec⦄ where
  pub append-IsReady : (w : Wal) (e : LogEntry) (now : ℕ) → IsReady w → IsReady (append w e now).0
  append-IsReady w e now h =
      let w' = record w { sequence_id = w.sequence_id + 1 } in
      rw (append-eq w e now h.synced, append_sync-eq w' (numbered w e now) h.opened)
        (elim (Bool-cases (is_serializable (numbered w e now))) [
          | inl k ↦
              rw k (record {
                synced = h.synced;
                opened = h.opened;
                nothing_pending = h.nothing_pending;
              })
          | inr k ↦
              rw k (record {
                synced = h.synced;
                opened = h.opened;
                nothing_pending = h.nothing_pending;
              })
        ])

  pub append-done :
      (w : Wal) (e : LogEntry) (now : ℕ)
      → IsReady w
      → (append w e now).1 ≡ is_serializable (numbered w e now)
  append-done w e now h =
      let w' = record w { sequence_id = w.sequence_id + 1 } in
      rw (append-eq w e now h.synced, append_sync-eq w' (numbered w e now) h.opened)
        (elim (Bool-cases (is_serializable (numbered w e now))) [ inl k ↦ rw k | inr k ↦ rw k ])

  flush_batch-ready : (w : Wal) → IsReady w → flush_batch w ≡ (w, true)
  unfolding flush_batch
  flush_batch-ready w h = ap (flush_of w) h.nothing_pending

  -- A checkpoint of a ready log succeeds.
  pub checkpoint-IsReady :
      (w : Wal) (now : ℕ) → IsReady w → ((checkpoint w now).1 ≡ true) × IsReady (checkpoint w now).0
  unfolding checkpoint
  checkpoint-IsReady w now h =
      rw (flush_batch-ready w h)
        (refl, record { synced = h.synced; opened = refl; nothing_pending = h.nothing_pending })
