-- ===== src/Store/Durability.antt =====
-- src/storage/LSMStore.ts: what a crash and a restart leave of the writes before them.
use lsm_kv_store.Base.{
  ℕ, ◌≡◌, refl, ◌∙◌, true, false, Option, none, some, List, [], ◌∷◌, ◌++◌, append-nil, ap, sym,
  Bool-cases, inl, inr, subst,
}
use lsm_kv_store.Text.{Text}
use lsm_kv_store.Codec.{TextCodec}
use lsm_kv_store.SsTable.{TableService}
use lsm_kv_store.MemTable
use lsm_kv_store.MemTable.{MemTable, MemTableEntry, new_table}
use lsm_kv_store.MemTable.Entries.{HasValidMap, new_table-HasValidMap, get_entry-new_table}
use lsm_kv_store.Wal
use lsm_kv_store.Wal.{Wal, LogEntry, sync_every_write, is_serializable}
use lsm_kv_store.Wal.Appending.{append_lem}
use lsm_kv_store.Store.{
  LsmStore, first_hit, immutable_entry, get, maybe_flush, put, delete, put_entry, delete_entry,
}
use lsm_kv_store.Store.Loading.{apply_log, initialize}
use lsm_kv_store.Store.View.{IsCoherent}
use lsm_kv_store.Store.Swapping.{
  held_over, maybe_flush-kept, maybe_flush-held, tables_of-maybe_flush,
}
use lsm_kv_store.Store.Client.{
  Event, write_put, write_delete, write_batch, flush_await, run, run_lem, FlushesStorable,
}
use lsm_kv_store.Store.Serving.{IsServing, put-IsServing, delete-IsServing}
use lsm_kv_store.Store.Writing.{finish, guarded, committed, commit-IsCoherent}
use lsm_kv_store.Store.Replay.{
  shown, over, write_of, last_write, last_write-append, over_assoc, apply_put-Replays,
  apply_delete-Replays, Replays, over-none, apply_log_lem,
}
use lsm_kv_store.Store.Recovery.{AreStored, IsDurable, get-initialize}

module _ (service : TableService) ⦃codec : TextCodec⦄ where
  shown_hit :
      (a b : Option MemTableEntry) → shown (first_hit service a b) ≡ over (shown a) (shown b)
  shown_hit none b = refl
  shown_hit (some e) b = refl

  -- A write over what the active memtable shows is a write over what both memtables show.
  shown-write :
      (a b rest : Option MemTableEntry) (write : Option (Option Text))
      → shown b ≡ over write (shown a)
      → over write (shown (first_hit service a rest)) ≡ shown (first_hit service b rest)
  shown-write a b rest write h =
      rw (shown_hit a rest, shown_hit b rest, h) (over_assoc write (shown a) (shown rest))

  -- A logged write keeps the store durable, also where it starts a flush.
  commit-IsDurable :
      (s : LsmStore service) (w : Wal) (t : MemTable) (e : LogEntry)
      → IsCoherent service s
      → IsDurable service s
      → Wal.replay w ≡ Wal.replay s.wal ++ e ∷ []
      → Replays service s.active t (write_of e)
      → IsDurable service (maybe_flush service (committed service s w t))
  commit-IsDurable s w t e c h logged (valid, writes) = record {
    logged = λ key.
        ap (λ (x : Wal). last_write (Wal.replay x) key)
          (maybe_flush-kept service (committed service s w t)).0
        ∙ ap (λ (l : List LogEntry). last_write l key) logged
        ∙ last_write-append (Wal.replay s.wal) e key
        ∙ ap (over (write_of e key)) (h.logged key)
        ∙ shown-write (MemTable.get_entry s.active key) (MemTable.get_entry t key)
            (first_hit service (immutable_entry service s.immutable key) none) (write_of e key)
            (writes key)
        ∙ sym (
            ap shown (
              maybe_flush-held service (committed service s w t) key none
                (commit-IsCoherent service s w t c valid)));
    stored =
        subst (AreStored service) (sym (tables_of-maybe_flush service (committed service s w t)))
          h.stored;
  }

  finish-IsDurable :
      {A : Type 0} (s : LsmStore service) (a : A) (e : LogEntry) (logged : ℕ) (t : MemTable)
      → IsServing service s
      → IsDurable service s
      → (is_serializable (Wal.numbered s.wal e logged) ≡ true
          → Replays service s.active t (write_of (Wal.numbered s.wal e logged)))
      → IsDurable service (finish service s a (Wal.append s.wal e logged) t).1
  finish-IsDurable s a e logged t c h writes =
      let (taken, kept, _, _) = append_lem s.wal e logged c.ready.synced c.ready.opened in
      elim (Bool-cases (Wal.append s.wal e logged).1) [
        | inl done ↦ rw done (
            commit-IsDurable s (Wal.append s.wal e logged).0 t (Wal.numbered s.wal e logged)
              c.coherent h (rw done at kept) (writes (sym taken ∙ done)))
        | inr done ↦ rw done (record {
          logged = λ key.
              ap (λ (l : List LogEntry). last_write l key)
                ((rw done at kept) ∙ append-nil (Wal.replay s.wal))
              ∙ h.logged key;
          stored = h.stored;
        })
      ]

  -- Entries with an empty key are not taken by the log.
  put-Replays :
      (s : LsmStore service) (key value : Text) (logged now : ℕ)
      → HasValidMap s.active
      → is_serializable (Wal.numbered s.wal (put_entry key value) logged) ≡ true
      → Replays service s.active
          (MemTable.put s.active key value false now)
          (write_of (Wal.numbered s.wal (put_entry key value) logged))
  unfolding is_serializable
  put-Replays s [] value logged now v taken = absurd (cc taken)
  put-Replays s (u ∷ key) value logged now v taken =
      apply_put-Replays service s.active (some (u ∷ key)) (some value) now v

  delete-Replays :
      (s : LsmStore service) (key : Text) (logged now : ℕ)
      → HasValidMap s.active
      → is_serializable (Wal.numbered s.wal (delete_entry key) logged) ≡ true
      → Replays service s.active
          (MemTable.delete s.active key now)
          (write_of (Wal.numbered s.wal (delete_entry key) logged))
  unfolding is_serializable
  delete-Replays s [] logged now v taken = absurd (cc taken)
  delete-Replays s (u ∷ key) logged now v taken =
      apply_delete-Replays service s.active (some (u ∷ key)) now v

  put-IsDurable :
      (s : LsmStore service) (key value : Text) (logged now : ℕ)
      → IsServing service s
      → IsDurable service s
      → IsDurable service (put service s key value logged now).1
  unfolding put
  put-IsDurable s key value logged now c h =
      let t = MemTable.put s.active key value false now in
      let out = finish service s tt (Wal.append s.wal (put_entry key value) logged) t in
      subst (λ x. IsDurable service x.1) (sym (guarded service s.initialized _ out c.started))
        (finish-IsDurable s tt (put_entry key value) logged t c h
          (put-Replays s key value logged now c.coherent.active_valid))

  delete-IsDurable :
      (s : LsmStore service) (key : Text) (logged now : ℕ)
      → IsServing service s
      → IsDurable service s
      → IsDurable service (delete service s key logged now).1
  unfolding delete
  delete-IsDurable s key logged now c h =
      let t = MemTable.delete s.active key now in
      let out = finish service s tt (Wal.append s.wal (delete_entry key) logged) t in
      subst (λ x. IsDurable service x.1) (sym (guarded service s.initialized _ out c.started))
        (finish-IsDurable s tt (delete_entry key) logged t c h
          (delete-Replays s key logged now c.coherent.active_valid))

  -- Events that are writes.
  abbrev pub AreWrites : List Event → Type 0
  AreWrites [] = Unit
  AreWrites (write_put key value logged now ∷ events) = AreWrites events
  AreWrites (write_delete key logged now ∷ events) = AreWrites events
  AreWrites (write_batch pairs logged clock ∷ events) = ⊥
  AreWrites (flush_await now ∷ events) = ⊥

  writes-FlushesStorable :
      (s : LsmStore service) (events : List Event)
      → AreWrites events
      → FlushesStorable service s events
  unfolding FlushesStorable
  writes-FlushesStorable s [] w = tt
  writes-FlushesStorable s (write_put key value logged now ∷ events) w =
      writes-FlushesStorable (put service s key value logged now).1 events w
  writes-FlushesStorable s (write_delete key logged now ∷ events) w =
      writes-FlushesStorable (delete service s key logged now).1 events w
  writes-FlushesStorable s (write_batch pairs logged clock ∷ events) w = absurd w
  writes-FlushesStorable s (flush_await now ∷ events) w = absurd w

  run-IsDurable :
      (s : LsmStore service) (events : List Event)
      → IsServing service s
      → IsDurable service s
      → AreWrites events
      → IsDurable service (run service s events)
  unfolding run
  run-IsDurable s [] c h w = h
  run-IsDurable s (write_put key value logged now ∷ events) c h w =
      run-IsDurable (put service s key value logged now).1 events
        (put-IsServing service s key value logged now c) (put-IsDurable s key value logged now c h)
        w
  run-IsDurable s (write_delete key logged now ∷ events) c h w =
      run-IsDurable (delete service s key logged now).1 events
        (delete-IsServing service s key logged now c) (delete-IsDurable s key logged now c h) w
  run-IsDurable s (write_batch pairs logged clock ∷ events) c h w = absurd w
  run-IsDurable s (flush_await now ∷ events) c h w = absurd w

  -- From a store in service whose memtables are in its log and whose tables are on disk, after any
  -- sequence of puts and deletes, with the flushes they start still waiting at their first await,
  -- a crash and a restart that finds the entries of the log unchanged answer get of every key as
  -- before the crash.
  pub get-initialize-run :
      (s : LsmStore service) (events : List Event) (clock : ℕ → ℕ) (key : Text)
      → IsServing service s
      → IsDurable service s
      → AreWrites events
      → get service (initialize service (run service s events) clock) key
        ≡ get service (run service s events) key
  get-initialize-run s events clock key c h w =
      get-initialize service (run service s events) clock key (run-IsDurable s events c h w)
        (run_lem service s events c (writes-FlushesStorable s events w)).0.started

  -- Where the log runs under SYNC_EVERY_WRITE, a restart on whatever was left gives a store in
  -- service, whose memtables show for each key exactly its last write in the log.
  pub initialize-IsServing :
      (s : LsmStore service) (clock : ℕ → ℕ)
      → s.wal.sync_policy ≡ sync_every_write
      → IsServing service (initialize service s clock)
        × ((key : Text)
            → last_write (Wal.replay (initialize service s clock).wal) key
              ≡ shown (held_over service (initialize service s clock) key none))
  unfolding initialize Wal.reopen Wal.replay
  initialize-IsServing s clock p =
      let (valid, replayed) =
        apply_log_lem service (new_table s.mem_table_size_limit) (Wal.replay s.wal) clock
          (new_table-HasValidMap s.mem_table_size_limit) in
      let found = λ (key : Text).
        MemTable.get_entry
          (apply_log service (new_table s.mem_table_size_limit) (Wal.replay s.wal) clock) key in
      (
        record {
          coherent = record { active_valid = valid; at_stage = (refl, refl) };
          started = refl;
          ready = record { synced = p; opened = refl; nothing_pending = refl };
        },
        λ key. sym (
            shown_hit (found key) none
            ∙ sym (over-none (shown (found key)))
            ∙ replayed key
            ∙ ap (λ (o : Option MemTableEntry). over (last_write (Wal.replay s.wal) key) (shown o))
                (get_entry-new_table s.mem_table_size_limit key)
            ∙ sym (over-none (last_write (Wal.replay s.wal) key))),
      )
