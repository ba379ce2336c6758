-- ===== src/Store/Replay.antt =====
-- src/storage/LSMStore.ts, `applyLogEntry`: the memtable that a log replays to, read off the log.
use lsm_kv_store.Base.{
  ℕ, ◌≡◌, refl, ◌∙◌, Bool, true, false, Option, none, some, List, [], ◌∷◌, ◌++◌, ap, sym,
  if◌then◌else◌, length,
}
use lsm_kv_store.Text.{Text, eq_text}
use lsm_kv_store.Codec.{TextCodec}
use lsm_kv_store.SsTable.{TableService}
use lsm_kv_store.MemTable
use lsm_kv_store.MemTable.{MemTable, MemTableEntry, new_table}
use lsm_kv_store.MemTable.Entries.{
  HasValidMap, stamped, put-HasValidMap, delete-HasValidMap, get_entry-put, get_entry-delete,
}
use lsm_kv_store.Wal.{LogEntry, LogOperationType}
use lsm_kv_store.Store.{live}
use lsm_kv_store.Store.Loading.{
  apply_put, apply_delete, apply_pairs, apply_batch, apply_log_entry, apply_log,
}

-- What an entry shows, without its time stamp: nothing, a tombstone, or a value.
abbrev pub shown : Option MemTableEntry → Option (Option Text)
shown none = none
shown (some e) = some (live (some e))

-- A later write over an earlier one.
abbrev pub over : Option (Option Text) → Option (Option Text) → Option (Option Text)
over (some x) old = some x
over none old = old

-- The write that a log entry makes to a key. Empty keys are passed over.
abbrev pub put_of : Option Text → Option Text → Text → Option (Option Text)
put_of (some (u ∷ k)) (some v) key = if eq_text key (u ∷ k) then some (some v) else none
put_of k v key = none

abbrev pub delete_of : Option Text → Text → Option (Option Text)
delete_of (some (u ∷ k)) key = if eq_text key (u ∷ k) then some none else none
delete_of k key = none

abbrev pub pairs_of : List Text → List Text → Text → Option (Option Text)
pairs_of [] vs key = none
pairs_of (k ∷ ks) [] key = none
pairs_of (k ∷ ks) (v ∷ vs) key = over (pairs_of ks vs key) (put_of (some k) (some v) key)

abbrev pub batch_of : Option (List Text) → Option (List Text) → Text → Option (Option Text)
batch_of (some ks) (some vs) key = pairs_of ks vs key
batch_of ks vs key = none

abbrev pub write_of : LogEntry → Text → Option (Option Text)
write_of e key = elim e.operation [
  | LogOperationType.put ↦ put_of e.key e.value key
  | LogOperationType.delete ↦ delete_of e.key key
  | LogOperationType.batch_put ↦ batch_of e.keys e.values key
]

abbrev pub last_write : List LogEntry → Text → Option (Option Text)
last_write [] key = none
last_write (e ∷ log) key = over (last_write log key) (write_of e key)

pub over_assoc : (a b c : Option (Option Text)) → over a (over b c) ≡ over (over a b) c
over_assoc none b c = refl
over_assoc (some x) b c = refl

pub over-none : (o : Option (Option Text)) → o ≡ over o none
over-none none = refl
over-none (some x) = refl

pub last_write-append :
    (log : List LogEntry) (e : LogEntry) (key : Text)
    → last_write (log ++ e ∷ []) key ≡ over (write_of e key) (last_write log key)
last_write-append [] e key = over-none (write_of e key)
last_write-append (f ∷ log) e key =
    ap (λ (o : Option (Option Text)). over o (write_of f key)) (last_write-append log e key)
    ∙ sym (over_assoc (write_of e key) (last_write log key) (write_of f key))

shown-if :
    (b : Bool) (e : MemTableEntry) (old : Option MemTableEntry)
    → shown (if b then some e else old)
      ≡ over (if b then some (live (some e)) else none) (shown old)
shown-if true e old = refl
shown-if false e old = refl

module _ (service : TableService) ⦃codec : TextCodec⦄ where
  -- One replayed entry keeps the table valid and makes its write.
  abbrev pub Replays : MemTable → MemTable → (Text → Option (Option Text)) → Type 0
  Replays t t' write =
      HasValidMap t'
      × ((key : Text)
          → shown (MemTable.get_entry t' key) ≡ over (write key) (shown (MemTable.get_entry t key)))

  pub apply_put-Replays :
      (t : MemTable) (k v : Option Text) (now : ℕ)
      → HasValidMap t
      → Replays t (apply_put service t k v now) (put_of k v)
  apply_put-Replays t none v now h = (h, λ key. refl)
  apply_put-Replays t (some []) v now h = (h, λ key. refl)
  apply_put-Replays t (some (u ∷ k)) none now h = (h, λ key. refl)
  apply_put-Replays t (some (u ∷ k)) (some v) now h = (
    put-HasValidMap t (u ∷ k) v false now h,
    λ key.
        ap shown (get_entry-put t (u ∷ k) v false now key h)
        ∙ shown-if (eq_text key (u ∷ k)) (stamped v false now) (MemTable.get_entry t key),
  )

  pub apply_delete-Replays :
      (t : MemTable) (k : Option Text) (now : ℕ)
      → HasValidMap t
      → Replays t (apply_delete service t k now) (delete_of k)
  apply_delete-Replays t none now h = (h, λ key. refl)
  apply_delete-Replays t (some []) now h = (h, λ key. refl)
  apply_delete-Replays t (some (u ∷ k)) now h = (
    delete-HasValidMap t (u ∷ k) now h,
    λ key.
        ap shown (get_entry-delete t (u ∷ k) now key h)
        ∙ shown-if (eq_text key (u ∷ k)) (stamped [] true now) (MemTable.get_entry t key),
  )

  apply_pairs-Replays :
      (t : MemTable) (ks vs : List Text) (now : ℕ)
      → HasValidMap t
      → Replays t (apply_pairs service t ks vs now) (pairs_of ks vs)
  apply_pairs-Replays t [] vs now h = (h, λ key. refl)
  apply_pairs-Replays t (k ∷ ks) [] now h = (h, λ key. refl)
  apply_pairs-Replays t (k ∷ ks) (v ∷ vs) now h =
      let (valid, first) = apply_put-Replays t (some k) (some v) now h in
      let (valid', rest) =
        apply_pairs-Replays (apply_put service t (some k) (some v) now) ks vs now valid in
      (
        valid',
        λ key.
            rest key
            ∙ ap (over (pairs_of ks vs key)) (first key)
            ∙ over_assoc (pairs_of ks vs key) (put_of (some k) (some v) key)
                (shown (MemTable.get_entry t key)),
      )

  apply_batch-Replays :
      (t : MemTable) (ks vs : Option (List Text)) (now : ℕ)
      → HasValidMap t
      → Replays t (apply_batch service t ks vs now) (batch_of ks vs)
  apply_batch-Replays t (some ks) (some vs) now h = apply_pairs-Replays t ks vs now h
  apply_batch-Replays t (some ks) none now h = (h, λ key. refl)
  apply_batch-Replays t none vs now h = (h, λ key. refl)

  by_operation :
      (t : MemTable) (op : LogOperationType) (e : LogEntry) (now : ℕ)
      → HasValidMap t
      → Replays t
          (elim op as (λ x. MemTable) [
            | LogOperationType.put ↦ apply_put service t e.key e.value now
            | LogOperationType.delete ↦ apply_delete service t e.key now
            | LogOperationType.batch_put ↦ apply_batch service t e.keys e.values now
          ])
          (λ key. elim op as (λ x. Option (Option Text)) [
            | LogOperationType.put ↦ put_of e.key e.value key
            | LogOperationType.delete ↦ delete_of e.key key
            | LogOperationType.batch_put ↦ batch_of e.keys e.values key
          ])
  by_operation t LogOperationType.put e now h = apply_put-Replays t e.key e.value now h
  by_operation t LogOperationType.delete e now h = apply_delete-Replays t e.key now h
  by_operation t LogOperationType.batch_put e now h = apply_batch-Replays t e.keys e.values now h

  pub apply_log_entry-Replays :
      (t : MemTable) (e : LogEntry) (now : ℕ)
      → HasValidMap t
      → HasValidMap (apply_log_entry service t e now)
        × ((key : Text)
            → shown (MemTable.get_entry (apply_log_entry service t e now) key)
              ≡ over (write_of e key) (shown (MemTable.get_entry t key)))
  unfolding apply_log_entry
  apply_log_entry-Replays t e now h = by_operation t e.operation e now h

  -- Replaying a log into a valid memtable leaves a valid one in which every key shows its last
  -- write in the log, or what it showed before if the log does not write it.
  pub apply_log_lem :
      (t : MemTable) (log : List LogEntry) (clock : ℕ → ℕ)
      → HasValidMap t
      → HasValidMap (apply_log service t log clock)
        × ((key : Text)
            → shown (MemTable.get_entry (apply_log service t log clock) key)
              ≡ over (last_write log key) (shown (MemTable.get_entry t key)))
  unfolding apply_log
  apply_log_lem t [] clock h = (h, λ key. refl)
  apply_log_lem t (e ∷ log) clock h =
      let now = clock (length log) in
      let (valid, first) = apply_log_entry-Replays t e now h in
      let (valid', rest) = apply_log_lem (apply_log_entry service t e now) log clock valid in
      (
        valid',
        λ key.
            rest key
            ∙ ap (over (last_write log key)) (first key)
            ∙ over_assoc (last_write log key) (write_of e key) (shown (MemTable.get_entry t key)),
      )
