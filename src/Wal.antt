-- ===== src/Wal.antt =====
-- src/storage/wal/LogEntry.ts and WAL.ts: the write-ahead log as a state. `older` and `current` list the
-- entries whose records were written, to all other files and to the current one. Wal/Records has the bytes
-- of a file and the reader, Wal/Records/Written what the two have to do with each other, and
-- Store/Crashes the restart from the bytes; a record that was cut off in front of others is not modelled.
-- Each function is one run of a method under the write lock. `Date.now()` is an argument.
pub mod Appending
pub mod Ready
pub mod Records
use lsm_kv_store.Base.{
  ℕ, ◌+◌, ◌-◌, ◌^◌, Bool, true, false, not, ◌||◌, ◌&&◌, Option, none, some, List, [], ◌∷◌, ◌++◌,
  length, leb, ltb, ◌==◌, if◌then◌else◌,
}
use lsm_kv_store.Text.{Text}
use lsm_kv_store.Codec.{TextCodec}

pub data LogOperationType : Type 0 where
  put delete batch_put : LogOperationType

pub record LogEntry : Type 0 where
  pub sequence_id : ℕ
  pub timestamp : ℕ
  pub operation : LogOperationType
  pub key : Option Text
  pub value : Option Text
  pub keys : Option (List Text)
  pub values : Option (List Text)

pub data SyncPolicy : Type 0 where
  sync_every_write group_commit_100ms periodic_10ms : SyncPolicy

-- `fileHandle !== null` is `is_open`; `notified` lists the calls of `onEntryAppended`.
pub record Wal : Type 0 where
  pub sync_policy : SyncPolicy
  pub is_open : Bool
  pub sequence_id : ℕ
  pub log_file : ℕ
  pub older : List LogEntry
  pub current : List LogEntry
  pub pending_writes : List LogEntry
  pub notified : List LogEntry

-- `!text` for a text that may be undefined: undefined and empty alike.
abbrev pub is_falsy : Option Text → Bool
is_falsy none = true
is_falsy (some []) = true
is_falsy (some (u ∷ us)) = false

module _ ⦃codec : TextCodec⦄ where
  -- `writeUInt16BE` and `writeUInt32BE` of a byte length throw out of their range.
  abbrev pub fits_16 : Text → Bool
  fits_16 t = ltb (length (codec.encode t)) (2 ^ 16)

  abbrev pub fits_32 : Text → Bool
  fits_32 t = ltb (length (codec.encode t)) (2 ^ 32)

  abbrev pub fits_key : Option Text → Bool
  fits_key none = false
  fits_key (some t) = fits_16 t

  abbrev pub fits_value : Option Text → Bool
  fits_value none = false
  fits_value (some t) = fits_32 t

  -- The pairs that the loop over the key buffers writes.
  abbrev pub fits_pairs : List Text → List Text → Bool
  fits_pairs [] vs = true
  fits_pairs (k ∷ ks) [] = false
  fits_pairs (k ∷ ks) (v ∷ vs) = fits_16 k && fits_32 v && fits_pairs ks vs

  abbrev pub same_length : Option (List Text) → Option (List Text) → Bool
  same_length (some ks) (some vs) =
      length ks == length vs && ltb (length ks) (2 ^ 32) && fits_pairs ks vs
  same_length ks vs = false

  -- `serializePayload` returns a buffer and does not throw.
  unfoldable pub is_serializable : LogEntry → Bool
  is_serializable e = elim e.operation [
    | put ↦ not (is_falsy e.key || is_falsy e.value) && fits_key e.key && fits_value e.value
    | delete ↦ not (is_falsy e.key) && fits_key e.key
    | batch_put ↦ same_length e.keys e.values
  ]

  -- `writeEntry`: the record of the entry reaches the file, or an error is thrown before it does.
  abbrev pub write_entry : Wal → LogEntry → Wal × Bool
  write_entry w e =
      if w.is_open && is_serializable e
      then (record w { current = w.current ++ e ∷ [] }, true)
      else (w, false)

  -- The `for` over the batch in `flushBatchUnlocked`, up to the first error.
  unfoldable pub write_batch : Wal → List LogEntry → Wal × Bool
  write_batch w [] = (w, true)
  write_batch w (e ∷ batch) =
      let (w', written) = write_entry w e in
      let rest = write_batch w' batch in if written then rest else (w', false)

  -- The state, and whether the batch was resolved (all its promises) or rejected (all of them).
  abbrev pub flush_of : Wal → List LogEntry → Wal × Bool
  flush_of w [] = (w, true)
  flush_of w (e ∷ batch) =
      let (w', written) = write_batch (record w { pending_writes = [] }) (e ∷ batch) in
      if written && w'.is_open
      then (record w' { notified = w'.notified ++ e ∷ batch }, true)
      else (w', false)

  unfoldable pub flush_batch : Wal → Wal × Bool
  unfolding write_batch
  flush_batch w = flush_of w w.pending_writes

  -- `append` numbers the entry first, whether or not it can be written.
  abbrev pub numbered : Wal → LogEntry → ℕ → LogEntry
  numbered w e now = record e { sequence_id = w.sequence_id; timestamp = now }

  unfoldable pub append_sync : Wal → LogEntry → Wal × Bool
  append_sync w e =
      let (w', written) = write_entry w e in
      if written then (record w' { notified = w'.notified ++ e ∷ [] }, true) else (w', false)

  unfoldable pub append_pending : Wal → LogEntry → Wal × Bool
  unfolding flush_batch
  append_pending w e =
      let w' = record w { pending_writes = w.pending_writes ++ e ∷ [] } in
      if leb 100 (length w'.pending_writes) then flush_batch w' else (w', true)

  -- The Boolean is false when the caller's promise is rejected at once.
  unfoldable pub append : Wal → LogEntry → ℕ → Wal × Bool
  unfolding append_sync append_pending
  append w e now =
      let entry = numbered w e now in
      let w' = record w { sequence_id = w.sequence_id + 1 } in
      elim w.sync_policy [ sync_every_write ↦ append_sync w' entry | _ ↦ append_pending w' entry ]

  -- Flush what is pending, switch to the file named by the clock, and delete all other files. A
  -- failed flush leaves the files as they are. A clock that has not moved names the same file.
  unfoldable pub checkpoint : Wal → ℕ → Wal × Bool
  checkpoint w now =
      let (w', flushed) = flush_batch w in
      if flushed
      then (
        record w' {
          is_open = true;
          log_file = now;
          older = [];
          current = if now == w'.log_file then w'.current else [];
        },
        true,
      )
      else (w', false)

-- The entries of all files, which are what `replay` gives where the files hold whole records of texts
-- that survive the encoding.
unfoldable pub replay : Wal → List LogEntry
replay w = w.older ++ w.current

-- `entries[entries.length - 1].sequenceId + 1` of the current file, or 0.
abbrev pub next_sequence : List LogEntry → ℕ
next_sequence [] = 0
next_sequence (e ∷ []) = e.sequence_id + 1
next_sequence (e ∷ f ∷ es) = next_sequence (f ∷ es)

-- `open` after a restart, on files of whole records: what was pending is gone.
unfoldable pub reopen : Wal → Wal
reopen w = record w { is_open = true; sequence_id = next_sequence w.current; pending_writes = [] }
