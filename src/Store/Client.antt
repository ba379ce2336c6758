-- ===== src/Store/Client.antt =====
-- src/storage/LSMStore.ts: what a client sees over a sequence of writes and flush steps.
use lsm_kv_store.Base.{
  ℕ, ◌≡◌, refl, Bool, true, false, Option, none, some, List, [], ◌∷◌, if◌then◌else◌, Bool-cases,
  inl, inr, length, sym, ap, ◌∙◌, fun_ext,
}
use lsm_kv_store.Text.{Text, eq_text}
use lsm_kv_store.Codec.{TextCodec}
use lsm_kv_store.SsTable.{TableService}
use lsm_kv_store.MemTable.{MemTableEntry}
use lsm_kv_store.MemTable.Entries.{stamped}
use lsm_kv_store.Wal
use lsm_kv_store.Wal.{Wal, is_serializable}
use lsm_kv_store.Wal.Ready.{append-done}
use lsm_kv_store.Store.{
  LsmStore, ok, first_hit, flush_step, put, delete, batch_put, put_entry, delete_entry, batch_entry,
  get, live,
}
use lsm_kv_store.Store.View.{view, get-eq-live-view}
use lsm_kv_store.Store.Flushing.{OpensStorable, flush_step-view}
use lsm_kv_store.Store.Serving.{
  IsServing, put-IsServing, delete-IsServing, flush_step-IsServing, batch_put-empty,
  batch_put-IsServing,
}
use lsm_kv_store.Store.Writing.{put_lem, delete_lem, batch_put_lem, latest, first_hit_assoc}

-- The events that the store goes through: calls of clients, and awaits of a running flush.
pub data Event : Type 0 where
  write_put : Text → Text → ℕ → ℕ → Event
  write_delete : Text → ℕ → ℕ → Event
  write_batch : List (Text × Text) → ℕ → (ℕ → ℕ) → Event
  flush_await : ℕ → Event

module _ (service : TableService) ⦃codec : TextCodec⦄ where
  unfoldable pub run : LsmStore service → List Event → LsmStore service
  run s [] = s
  run s (write_put key value logged now ∷ events) =
      run (put service s key value logged now).1 events
  run s (write_delete key logged now ∷ events) = run (delete service s key logged now).1 events
  run s (write_batch pairs logged clock ∷ events) =
      run (batch_put service s pairs logged clock).1 events
  run s (flush_await now ∷ events) = run (flush_step service s now) events

  -- Every run that a flush opens on the way is one that a table file keeps.
  unfoldable pub FlushesStorable : LsmStore service → List Event → Type 0
  FlushesStorable s [] = Unit
  FlushesStorable s (write_put key value logged now ∷ events) =
      FlushesStorable (put service s key value logged now).1 events
  FlushesStorable s (write_delete key logged now ∷ events) =
      FlushesStorable (delete service s key logged now).1 events
  FlushesStorable s (write_batch pairs logged clock ∷ events) =
      FlushesStorable (batch_put service s pairs logged clock).1 events
  FlushesStorable s (flush_await now ∷ events) =
      OpensStorable service s.stage × FlushesStorable (flush_step service s now) events

  -- The same writes on a map from keys to values: flushes do not show, and a write that the log
  -- refuses changes nothing.
  abbrev pub update : (Text → Option Text) → Bool → Text → Option Text → Text → Option Text
  update m false key v other = m other
  update m true key v other = if eq_text other key then v else m other

  -- The pairs of a batch, put in order.
  abbrev pub put_pairs : (Text → Option Text) → List (Text × Text) → Text → Option Text
  put_pairs m [] = m
  put_pairs m ((k, v) ∷ pairs) = put_pairs (update m true k (some v)) pairs

  unfoldable pub run_map : (Text → Option Text) → List Event → Text → Option Text
  run_map m [] = m
  run_map m (write_put key value logged now ∷ events) =
      run_map (update m (is_serializable (put_entry key value)) key (some value)) events
  run_map m (write_delete key logged now ∷ events) =
      run_map (update m (is_serializable (delete_entry key)) key none) events
  run_map m (write_batch pairs logged clock ∷ events) =
      run_map (if is_serializable (batch_entry pairs) then put_pairs m pairs else m) events
  run_map m (flush_await now ∷ events) = run_map m events

  abbrev pub values : LsmStore service → Text → Option Text
  values s key = live (view service s key)

  -- The client's view of a write, from its effect on the entries.
  values-write :
      (s : LsmStore service) (old new : Option MemTableEntry) (key other : Text) (done : Bool)
      (e : MemTableEntry)
      → new
        ≡ first_hit service (if done then if eq_text other key then some e else none else none) old
      → live old ≡ values s other
      → live new ≡ update (values s) done key (live (some e)) other
  values-write s old new key other false e h k = ap live h ∙ k
  values-write s old new key other true e h k = elim (Bool-cases (eq_text other key)) [
    | inl b ↦ rw b (ap live (rw b at h))
    | inr b ↦ rw b (ap live (rw b at h) ∙ k)
  ]

  put_entry-numbered :
      (w : Wal) (key value : Text) (now : ℕ)
      → is_serializable (Wal.numbered w (put_entry key value) now)
        ≡ is_serializable (put_entry key value)
  unfolding is_serializable
  put_entry-numbered w key value now = refl

  delete_entry-numbered :
      (w : Wal) (key : Text) (now : ℕ)
      → is_serializable (Wal.numbered w (delete_entry key) now) ≡ is_serializable (delete_entry key)
  unfolding is_serializable
  delete_entry-numbered w key now = refl

  values-put :
      (s : LsmStore service) (key value : Text) (logged now : ℕ)
      → IsServing service s
      → values (put service s key value logged now).1
        ≡ update (values s) (is_serializable (put_entry key value)) key (some value)
  values-put s key value logged now h =
      let done =
        append-done s.wal (put_entry key value) logged h.ready
        ∙ put_entry-numbered s.wal key value logged in
      let write = put_lem service s key value logged now h.coherent h.started in
      fun_ext λ other.
        values-write s (view service s other) _ key other _ (stamped value false now)
          (rw done at (write.seen other)) refl

  values-delete :
      (s : LsmStore service) (key : Text) (logged now : ℕ)
      → IsServing service s
      → values (delete service s key logged now).1
        ≡ update (values s) (is_serializable (delete_entry key)) key none
  values-delete s key logged now h =
      let done =
        append-done s.wal (delete_entry key) logged h.ready
        ∙ delete_entry-numbered s.wal key logged in
      let write = delete_lem service s key logged now h.coherent h.started in
      fun_ext λ other.
        values-write s (view service s other) _ key other _ (stamped [] true now)
          (rw done at (write.seen other)) refl

  either_way : {A : Type 0} (b : Bool) (x : A) → (if b then x else x) ≡ x
  either_way true x = refl
  either_way false x = refl

  live-latest :
      (m : Text → Option Text) (pairs : List (Text × Text)) (clock : ℕ → ℕ) (key : Text)
      (old : Option MemTableEntry)
      → live old ≡ m key
      → live (first_hit service (latest service pairs clock key) old) ≡ put_pairs m pairs key
  live-latest m [] clock key old e = e
  live-latest m ((k, v) ∷ pairs) clock key old e = elim (Bool-cases (eq_text key k)) [
    | inl b ↦
        rw
          (
            b,
            ← first_hit_assoc service (latest service pairs clock key)
                (some (stamped v false (clock (length pairs)))) old,
          )
          (live-latest (update m true k (some v)) pairs clock key
            (some (stamped v false (clock (length pairs)))) (rw b refl))
    | inr b ↦
        rw (b, ← first_hit_assoc service (latest service pairs clock key) none old)
          (live-latest (update m true k (some v)) pairs clock key old (rw b e))
  ]

  batch_entry-numbered :
      (w : Wal) (pairs : List (Text × Text)) (now : ℕ)
      → is_serializable (Wal.numbered w (batch_entry pairs) now)
        ≡ is_serializable (batch_entry pairs)
  unfolding is_serializable
  batch_entry-numbered w pairs now = refl

  values-batch_put :
      (s : LsmStore service) (pairs : List (Text × Text)) (logged : ℕ) (clock : ℕ → ℕ)
      → IsServing service s
      → values (batch_put service s pairs logged clock).1
        ≡ (if is_serializable (batch_entry pairs) then put_pairs (values s) pairs else values s)
  values-batch_put s [] logged clock h =
      ap values (batch_put-empty service s logged clock h.started) ∙ sym (either_way _ (values s))
  values-batch_put s (p ∷ pairs) logged clock h =
      let done =
        append-done s.wal (batch_entry (p ∷ pairs)) logged h.ready
        ∙ batch_entry-numbered s.wal (p ∷ pairs) logged in
      let write =
        batch_put_lem service s (p ∷ pairs) logged clock h.coherent h.started
          (λ e. absurd (cc e)) in
      elim (Bool-cases (is_serializable (batch_entry (p ∷ pairs)))) [
        | inl b ↦ rw b (
            fun_ext λ key.
              ap live (rw (done ∙ b) at (write.seen key))
              ∙ live-latest (values s) (p ∷ pairs) clock key (view service s key) refl)
        | inr b ↦ rw b (fun_ext λ key. ap live (rw (done ∙ b) at (write.seen key)))
      ]

  values-flush_step :
      (s : LsmStore service) (now : ℕ)
      → IsServing service s
      → OpensStorable service s.stage
      → values (flush_step service s now) ≡ values s
  values-flush_step s now h k =
      fun_ext λ key. ap live (flush_step-view service s now key h.coherent k)

  pub run_lem :
      (s : LsmStore service) (events : List Event)
      → IsServing service s
      → FlushesStorable s events
      → IsServing service (run s events) × (values (run s events) ≡ run_map (values s) events)
  unfolding run run_map FlushesStorable
  run_lem s [] h f = (h, refl)
  run_lem s (write_put key value logged now ∷ events) h f =
      rw (values-put s key value logged now h) at (
        run_lem (put service s key value logged now).1 events
          (put-IsServing service s key value logged now h) f)
  run_lem s (write_delete key logged now ∷ events) h f = rw (values-delete s key logged now h) at (
      run_lem (delete service s key logged now).1 events
        (delete-IsServing service s key logged now h) f)
  run_lem s (write_batch pairs logged clock ∷ events) h f =
      rw (values-batch_put s pairs logged clock h) at (
        run_lem (batch_put service s pairs logged clock).1 events
          (batch_put-IsServing service s pairs logged clock h) f)
  run_lem s (flush_await now ∷ events) h f =
      rw (values-flush_step s now h f.0) at
        (run_lem (flush_step service s now) events (flush_step-IsServing service s now h f.0) f.1)

  -- From a store in service, after any sequence of puts, deletes, batches and flush steps in any
  -- order, get of every key answers what the same writes on a map give, where a write that the log
  -- cannot take changes nothing; this where every run that a flush opens on the way is storable.
  pub get-run :
      (s : LsmStore service) (events : List Event) (key : Text)
      → IsServing service s
      → FlushesStorable s events
      → get service (run s events) key ≡ ok (run_map (values s) events key)
  get-run s events key h f =
      let (serving, same) = run_lem s events h f in
      get-eq-live-view service (run s events) key serving.started
      ∙ ap (λ (m : Text → Option Text). ok (m key)) same
