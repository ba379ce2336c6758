-- ===== src/Store/Serving.antt =====
-- src/storage/LSMStore.ts: a store in service, under writes and the steps of a flush.
use lsm_kv_store.Base.{ℕ, ◌≡◌, refl, true, List, [], ◌∷◌, subst, sym, ◌∙◌}
use lsm_kv_store.Text.{Text}
use lsm_kv_store.Codec.{TextCodec}
use lsm_kv_store.SsTable.{TableService}
use lsm_kv_store.Wal.Ready.{IsReady, append-IsReady, checkpoint-IsReady}
use lsm_kv_store.Store.{
  LsmStore, flush_step, put, delete, batch_put, put_entry, delete_entry, batch_entry,
}
use lsm_kv_store.Store.View.{IsCoherent}
use lsm_kv_store.Store.Flushing.{OpensStorable, flush_step-IsCoherent, flush_step-kept}
use lsm_kv_store.Store.Writing.{put_lem, delete_lem, batch_put_lem}

module _ (service : TableService) ⦃codec : TextCodec⦄ where
  -- A store in service: coherent, initialized, with a log that takes writes.
  pub record IsServing (s : LsmStore service) : Type 0 where
    pub coherent : IsCoherent service s
    pub started : s.initialized ≡ true
    pub ready : IsReady s.wal

  pub put-IsServing :
      (s : LsmStore service) (key value : Text) (logged now : ℕ)
      → IsServing s
      → IsServing (put service s key value logged now).1
  put-IsServing s key value logged now h =
      let done = put_lem service s key value logged now h.coherent h.started in
      record {
        coherent = done.coherent;
        started = done.flag_kept ∙ h.started;
        ready = rw done.log_kept (append-IsReady s.wal (put_entry key value) logged h.ready);
      }

  pub delete-IsServing :
      (s : LsmStore service) (key : Text) (logged now : ℕ)
      → IsServing s
      → IsServing (delete service s key logged now).1
  delete-IsServing s key logged now h =
      let done = delete_lem service s key logged now h.coherent h.started in
      record {
        coherent = done.coherent;
        started = done.flag_kept ∙ h.started;
        ready = rw done.log_kept (append-IsReady s.wal (delete_entry key) logged h.ready);
      }

  pub flush_step-IsServing :
      (s : LsmStore service) (now : ℕ)
      → IsServing s
      → OpensStorable service s.stage
      → IsServing (flush_step service s now)
  flush_step-IsServing s now h k =
      let (done, _) = checkpoint-IsReady s.wal now h.ready in
      let (ready, flag_kept) = flush_step-kept service s now h.ready in
      record {
        coherent = flush_step-IsCoherent service s now h.coherent k done;
        started = flag_kept ∙ h.started;
        ready = ready;
      }

  pub batch_put-empty :
      (s : LsmStore service) (logged : ℕ) (clock : ℕ → ℕ)
      → s.initialized ≡ true
      → (batch_put service s [] logged clock).1 ≡ s
  unfolding batch_put
  batch_put-empty s logged clock h = rw h refl

  pub batch_put-IsServing :
      (s : LsmStore service) (pairs : List (Text × Text)) (logged : ℕ) (clock : ℕ → ℕ)
      → IsServing s
      → IsServing (batch_put service s pairs logged clock).1
  batch_put-IsServing s [] logged clock h =
      subst IsServing (sym (batch_put-empty s logged clock h.started)) h
  batch_put-IsServing s (p ∷ pairs) logged clock h =
      let done =
        batch_put_lem service s (p ∷ pairs) logged clock h.coherent h.started
          (λ e. absurd (cc e)) in
      record {
        coherent = done.coherent;
        started = done.flag_kept ∙ h.started;
        ready = rw done.log_kept (append-IsReady s.wal (batch_entry (p ∷ pairs)) logged h.ready);
      }
