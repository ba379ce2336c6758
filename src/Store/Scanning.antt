-- ===== src/Store/Scanning.antt =====
-- `readKeyRange` of src/storage/LSMStore.ts after any session of writes and flushes.
use lsm_kv_store.Base.{ℕ, ◌≡◌, Option, none, List, if◌then◌else◌, Bool-cases, inl, inr}
use lsm_kv_store.Text.{Text}
use lsm_kv_store.Codec.{TextCodec}
use lsm_kv_store.Assoc.{IsSorted, find}
use lsm_kv_store.SsTable.{TableService}
use lsm_kv_store.Store.{
  FlushStage, idle, building, recording, opening, truncating, finishing, LsmStore, ok,
}
use lsm_kv_store.Store.View.{IsAt}
use lsm_kv_store.Store.Serving.{IsServing}
use lsm_kv_store.Store.Client.{Event, run, run_lem, run_map, values, get-run, FlushesStorable}
use lsm_kv_store.Store.Reading.{read_key_range}
use lsm_kv_store.Store.Bounds.{in_bounds, first_pairs}
use lsm_kv_store.Store.Range.{HasValidImmutable, IsScannable, read_key_range-eq-get}
use lsm_kv_store.Store.Tabled.{IsTabled, run-IsTabled}

module _ (service : TableService) where
  coherent-HasValidImmutable :
      (s : LsmStore service) (stage : FlushStage)
      → IsAt service stage s
      → HasValidImmutable service s.immutable
  coherent-HasValidImmutable s idle h = rw h.1 tt
  coherent-HasValidImmutable s (building n run) h = rw h.held h.valid
  coherent-HasValidImmutable s (recording m run) h = rw h.held h.valid
  coherent-HasValidImmutable s (opening m run) h = rw h.held h.valid
  coherent-HasValidImmutable s truncating h = rw h.held h.valid
  coherent-HasValidImmutable s finishing h = rw h.held h.valid

  pub serving-IsScannable :
      (s : LsmStore service) ⦃codec : TextCodec⦄
      → IsServing service s
      → IsTabled service s
      → IsScannable service s
  serving-IsScannable s v h = record {
    active_valid = v.coherent.active_valid;
    immutable_valid = coherent-HasValidImmutable s s.stage v.coherent.at_stage;
    listed = h.listed;
  }

  module _ ⦃codec : TextCodec⦄ where
    -- From a store in service whose tables are sorted and lie within the keys of their metadata,
    -- after any sequence of puts, deletes, batches and flush steps, a range query answers the
    -- first pairs (all, or as many as the limit, and one where that is 0) of a list sorted by key
    -- without repeats that has, under the keys from the start to the end key, what the same writes
    -- on a map give, and no other keys; this where every run that a flush opens on the way is
    -- storable.
    pub read_key_range-run :
        (s : LsmStore service) (events : List Event) (start end : Text) (limit : Option ℕ)
        → IsServing service s
        → IsTabled service s
        → FlushesStorable service s events
        → (pairs : List (Text × Text)) × (read_key_range service
              (run service s events)
              start
              end
              limit
            ≡ ok (first_pairs limit pairs))
          × IsSorted pairs
          × ((key : Text)
              → find key pairs ≡ (
                  if in_bounds start end key
                  then run_map service (values service s) events key
                  else none))
    read_key_range-run s events start end limit v h f =
        let (serving, _) = run_lem service s events v f in
        let scannable =
          serving-IsScannable (run service s events) serving
            (run-IsTabled service s events v h f) in
        let (pairs, answered, sorted, holds) =
          read_key_range-eq-get service (run service s events) start end limit serving.started
            scannable in
        (
          pairs,
          answered,
          sorted,
          λ key. elim (Bool-cases (in_bounds start end key)) [
            | inl inside ↦
                let same = get-run service s events key v f in
                rw inside (cc (same, (holds key).0 inside))
            | inr outside ↦ rw outside ((holds key).1 outside)
          ],
        )
