-- ===== src/Store/Tabled.antt =====
-- src/storage/LSMStore.ts: writes and flushes keep every table of the store sorted and within the keys
-- of its metadata.
use lsm_kv_store.Base.{ℕ, ◌≡◌, refl, false, List, [], ◌∷◌, Bool-cases, inl, inr, All, ◌==◌, length}
use lsm_kv_store.Text.{Text}
use lsm_kv_store.Codec.{TextCodec}
use lsm_kv_store.Assoc.{IsSorted}
use lsm_kv_store.SsTable.{Run, TableService}
use lsm_kv_store.MemTable
use lsm_kv_store.MemTable.{MemTable, MemTableEntry}
use lsm_kv_store.MemTable.Entries.{
  HasValidMap, get_all_sorted-IsSorted, put-HasValidMap, delete-HasValidMap,
}
use lsm_kv_store.Wal
use lsm_kv_store.Store.{
  FlushStage, idle, building, recording, opening, truncating, finishing, LsmStore, start_flush,
  trigger_flush, maybe_flush, fail_flush, flush_from, flush_step, put, delete, batch_put, put_all,
  put_entry, delete_entry, batch_entry, metadata_of,
}
use lsm_kv_store.Store.Serving.{
  IsServing, put-IsServing, delete-IsServing, batch_put-IsServing, flush_step-IsServing,
}
use lsm_kv_store.Store.Client.{
  Event, write_put, write_delete, write_batch, flush_await, run, FlushesStorable,
}
use lsm_kv_store.Store.Flushing.{OpensStorable}
use lsm_kv_store.Store.Range.{IsListed}
use lsm_kv_store.Store.Listed.{metadata_of-IsListed}

module _ (service : TableService) where
  open service use {contents, open_file, contents-open_file}

  -- What a flush that has its run says of the table to come.
  abbrev StageTabled : FlushStage → Type 0
  StageTabled idle = Unit
  StageTabled (building n run) = IsSorted run
  StageTabled (recording m run) = IsSorted run × (n : ℕ) × (m ≡ metadata_of n run)
  StageTabled (opening m run) = IsSorted run × (n : ℕ) × (m ≡ metadata_of n run)
  StageTabled truncating = Unit
  StageTabled finishing = Unit

  pub record IsTabled (s : LsmStore service) : Type 0 where
    pub listed : All (IsListed service) s.sstables
    pub staged : StageTabled s.stage

  start_flush-IsTabled :
      (s : LsmStore service) (run : Run)
      → IsTabled s
      → IsSorted run
      → IsTabled (start_flush service s run)
  start_flush-IsTabled s [] h r = record { listed = h.listed; staged = h.staged }
  start_flush-IsTabled s (e ∷ run) h r = record { listed = h.listed; staged = r }

  maybe_flush-IsTabled :
      (s : LsmStore service) → HasValidMap s.active → IsTabled s → IsTabled (maybe_flush service s)
  unfolding maybe_flush trigger_flush
  maybe_flush-IsTabled s v h = elim (Bool-cases (MemTable.is_full s.active)) [
    | inr room ↦ rw room (record { listed = h.listed; staged = h.staged })
    | inl full ↦ elim (Bool-cases s.flushing) [
      | inl busy ↦ rw (full, busy) (record { listed = h.listed; staged = h.staged })
      | inr free ↦
          rw (full, free)
            (start_flush-IsTabled _ (MemTable.get_all_sorted s.active)
              (record { listed = h.listed; staged = h.staged })
              (get_all_sorted-IsSorted s.active v))
    ]
  ]

  module _ ⦃codec : TextCodec⦄ where
    flush_from-IsTabled :
        (s : LsmStore service) (now : ℕ) (stage : FlushStage)
        → IsTabled s
        → StageTabled stage
        → OpensStorable service stage
        → IsTabled (flush_from service s now stage)
    unfolding fail_flush
    flush_from-IsTabled s now idle h t k = h
    flush_from-IsTabled s now (building n run) h t k = record {
      listed = h.listed;
      staged = (t, n, refl);
    }
    flush_from-IsTabled s now (recording m run) h t k = record { listed = h.listed; staged = t }
    flush_from-IsTabled s now (opening m run) h (r, n, e) k = record {
      listed = (
        metadata_of-IsListed service _ n run e (contents-open_file m.file_number run r k) r,
        h.listed,
      );
      staged = tt;
    }
    flush_from-IsTabled s now truncating h t k = elim (Bool-cases (Wal.checkpoint s.wal now).1) [
      | inl done ↦ rw done (record { listed = h.listed; staged = tt })
      | inr failed ↦ rw failed (record { listed = h.listed; staged = tt })
    ]
    flush_from-IsTabled s now finishing h t k = record { listed = h.listed; staged = tt }

    put-IsTabled :
        (s : LsmStore service) (key value : Text) (logged now : ℕ)
        → HasValidMap s.active
        → IsTabled s
        → IsTabled (put service s key value logged now).1
    unfolding put
    put-IsTabled s key value logged now v h = elim (Bool-cases s.initialized) [
      | inr closed ↦ rw closed (record { listed = h.listed; staged = h.staged })
      | inl started ↦ elim (Bool-cases (Wal.append s.wal (put_entry key value) logged).1) [
        | inr refused ↦ rw (started, refused) (record { listed = h.listed; staged = h.staged })
        | inl done ↦
            rw (started, done)
              (maybe_flush-IsTabled _ (put-HasValidMap s.active key value false now v)
                (record { listed = h.listed; staged = h.staged }))
      ]
    ]

    delete-IsTabled :
        (s : LsmStore service) (key : Text) (logged now : ℕ)
        → HasValidMap s.active
        → IsTabled s
        → IsTabled (delete service s key logged now).1
    unfolding delete
    delete-IsTabled s key logged now v h = elim (Bool-cases s.initialized) [
      | inr closed ↦ rw closed (record { listed = h.listed; staged = h.staged })
      | inl started ↦ elim (Bool-cases (Wal.append s.wal (delete_entry key) logged).1) [
        | inr refused ↦ rw (started, refused) (record { listed = h.listed; staged = h.staged })
        | inl done ↦
            rw (started, done)
              (maybe_flush-IsTabled _ (delete-HasValidMap s.active key now v)
                (record { listed = h.listed; staged = h.staged }))
      ]
    ]

    put_all-HasValidMap :
        (t : MemTable) (pairs : List (Text × Text)) (clock : ℕ → ℕ)
        → HasValidMap t
        → HasValidMap (put_all service t pairs clock)
    unfolding put_all
    put_all-HasValidMap t [] clock v = v
    put_all-HasValidMap t ((k, w) ∷ pairs) clock v =
        put_all-HasValidMap (MemTable.put t k w false (clock (length pairs))) pairs clock
          (put-HasValidMap t k w false (clock (length pairs)) v)

    batch_put-IsTabled :
        (s : LsmStore service) (pairs : List (Text × Text)) (logged : ℕ) (clock : ℕ → ℕ)
        → HasValidMap s.active
        → IsTabled s
        → IsTabled (batch_put service s pairs logged clock).1
    unfolding batch_put
    batch_put-IsTabled s pairs logged clock v h = elim (Bool-cases s.initialized) [
      | inr closed ↦ rw closed (record { listed = h.listed; staged = h.staged })
      | inl started ↦ elim (Bool-cases (length pairs == 0)) [
        | inl empty ↦ rw (started, empty) (record { listed = h.listed; staged = h.staged })
        | inr some_pairs ↦ elim (Bool-cases (Wal.append s.wal (batch_entry pairs) logged).1) [
          | inr refused ↦
              rw (started, some_pairs, refused) (record { listed = h.listed; staged = h.staged })
          | inl done ↦
              rw (started, some_pairs, done)
                (maybe_flush-IsTabled _ (put_all-HasValidMap s.active pairs clock v)
                  (record { listed = h.listed; staged = h.staged }))
        ]
      ]
    ]

    pub run-IsTabled :
        (s : LsmStore service) (events : List Event)
        → IsServing service s
        → IsTabled s
        → FlushesStorable service s events
        → IsTabled (run service s events)
    unfolding run flush_step FlushesStorable
    run-IsTabled s [] v h f = h
    run-IsTabled s (write_put key value logged now ∷ events) v h f =
        run-IsTabled (put service s key value logged now).1 events
          (put-IsServing service s key value logged now v)
          (put-IsTabled s key value logged now v.coherent.active_valid h) f
    run-IsTabled s (write_delete key logged now ∷ events) v h f =
        run-IsTabled (delete service s key logged now).1 events
          (delete-IsServing service s key logged now v)
          (delete-IsTabled s key logged now v.coherent.active_valid h) f
    run-IsTabled s (write_batch pairs logged clock ∷ events) v h f =
        run-IsTabled (batch_put service s pairs logged clock).1 events
          (batch_put-IsServing service s pairs logged clock v)
          (batch_put-IsTabled s pairs logged clock v.coherent.active_valid h) f
    run-IsTabled s (flush_await now ∷ events) v h f =
        run-IsTabled (flush_step service s now) events (flush_step-IsServing service s now v f.0)
          (flush_from-IsTabled s now s.stage h h.staged f.0) f.1
