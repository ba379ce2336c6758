-- ===== src/Wal/Records/Written.antt =====
-- src/storage/wal/WAL.ts: what appending and flushing write to the bytes of the current file, and what
-- `readLogFile` reads from them. The file holds the records of the entries in `current`, and no torn
-- record in front of the new ones.
use lsm_kv_store.Base.{
  ℕ, ◌+◌, ◌≡◌, refl, ap, sym, ◌∙◌, true, some, List, [], ◌∷◌, ◌++◌, map, All, All-append,
  append_assoc, append-nil, if◌then◌else◌, Bool-cases, inl, inr,
}
use lsm_kv_store.Codec.{TextCodec}
use lsm_kv_store.Bytes.Fields.{then_write-some}
use lsm_kv_store.Wal.{
  Wal, LogEntry, sync_every_write, is_serializable, flush_of, flush_batch, numbered, append,
}
use lsm_kv_store.Wal.Appending.{
  append-eq, append_sync-eq, writable, all_writable, write_batch-eq, append_lem, flush_batch_lem,
}
use lsm_kv_store.Wal.Records.{serialize_entry, read_log_file}
use lsm_kv_store.Wal.Records.Torn.{Logged, logged_entry, IsExact, log_bytes, read_log_file-whole}

module _ ⦃codec : TextCodec⦄ where
  -- The current file holds the records of the entries, which read back.
  pub record IsOnDisk (entries : List LogEntry) (es : List Logged) (bytes : List ℕ) : Type 0 where
    pub listed : entries ≡ map logged_entry es
    pub exact : All IsExact es
    pub written : log_bytes entries ≡ some bytes

  log_bytes-append :
      (xs ys : List LogEntry) (bytes more : List ℕ)
      → log_bytes xs ≡ some bytes
      → log_bytes ys ≡ some more
      → log_bytes (xs ++ ys) ≡ some (bytes ++ more)
  log_bytes-append [] ys bytes more h k =
      let empty : [] ≡ bytes = cc h in k ∙ ap (λ b. some (b ++ more)) empty
  log_bytes-append (x ∷ xs) ys bytes more h k =
      let (r, rest, wrote, later, shape) =
        then_write-some (serialize_entry x) (log_bytes xs) bytes h in
      rw (wrote, log_bytes-append xs ys rest more later k)
        (ap some (sym (append_assoc r rest more)) ∙ ap (λ b. some (b ++ more)) (sym shape))

  map-append :
      (xs ys : List Logged)
      → map logged_entry (xs ++ ys) ≡ map logged_entry xs ++ map logged_entry ys
  map-append [] ys = refl
  map-append (x ∷ xs) ys = ap (◌∷◌ (logged_entry x)) (map-append xs ys)

  -- More records behind those of a file read back behind its entries.
  pub IsOnDisk-append :
      (xs ys : List LogEntry) (es fs : List Logged) (bytes more : List ℕ)
      → IsOnDisk xs es bytes
      → IsOnDisk ys fs more
      → IsOnDisk (xs ++ ys) (es ++ fs) (bytes ++ more)
  IsOnDisk-append xs ys es fs bytes more a b = record {
    listed =
        ap (λ l. l ++ ys) a.listed
        ∙ ap (λ l. map logged_entry es ++ l) b.listed
        ∙ sym (map-append es fs);
    exact = All-append IsExact es fs a.exact b.exact;
    written = log_bytes-append xs ys bytes more a.written b.written;
  }

  pub read_log_file-IsOnDisk :
      (entries : List LogEntry) (es : List Logged) (bytes : List ℕ)
      → IsOnDisk entries es bytes
      → read_log_file bytes ≡ entries
  read_log_file-IsOnDisk entries es bytes d =
      read_log_file-whole es bytes d.exact (sym (ap log_bytes d.listed) ∙ d.written) ∙ sym d.listed

  current-append :
      (w : Wal) (e : LogEntry) (now : ℕ)
      → w.sync_policy ≡ sync_every_write
      → w.is_open ≡ true
      → let (w', done) = append w e now in
        w'.current ≡ w.current ++ (if done then numbered w e now ∷ [] else [])
  current-append w e now p o =
      rw
        (
          append-eq w e now p,
          append_sync-eq (record w { sequence_id = w.sequence_id + 1 }) (numbered w e now) o,
        )
        (elim (Bool-cases (is_serializable (numbered w e now))) [
          | inl h ↦ rw h refl
          | inr h ↦ rw h (simp append-nil)
        ])

  current-flush_of :
      (w : Wal) (batch : List LogEntry)
      → w.is_open ≡ true
      → (flush_of w batch).0.current ≡ w.current ++ writable batch
  current-flush_of w [] o = simp append-nil
  current-flush_of w (e ∷ batch) o =
      rw (write_batch-eq (record w { pending_writes = [] }) (e ∷ batch) o)
        (elim (Bool-cases (all_writable (e ∷ batch))) [
          | inl h ↦ rw h (simp o refl)
          | inr h ↦ rw h refl
        ])

  current-flush_batch :
      (w : Wal)
      → w.is_open ≡ true
      → (flush_batch w).0.current ≡ w.current ++ writable w.pending_writes
  unfolding flush_batch
  current-flush_batch w o = current-flush_of w w.pending_writes o

  -- With SYNC_EVERY_WRITE and an open file of whole records that read back, an append resolves
  -- exactly when the entry can be serialized; the file then holds, behind its bytes, the record of
  -- the numbered entry if the append resolved and nothing else, and reads back as its entries
  -- before and that one; the listener was told of it if it resolved, and a number is used up
  -- either way; this where numbers and time stamps are below 2 ^ 53, the texts survive the
  -- encoding and the record is below 2 ^ 32 bytes.
  pub read_log_file-append :
      (w : Wal) (e : LogEntry) (now : ℕ) (es fs : List Logged) (bytes more : List ℕ)
      → w.sync_policy ≡ sync_every_write
      → w.is_open ≡ true
      → IsOnDisk w.current es bytes
      → IsOnDisk (if is_serializable (numbered w e now) then numbered w e now ∷ [] else []) fs more
      → let (w', done) = append w e now in
        let added = if done then numbered w e now ∷ [] else [] in
        (done ≡ is_serializable (numbered w e now))
        × (log_bytes w'.current ≡ some (bytes ++ more))
        × (read_log_file (bytes ++ more) ≡ read_log_file bytes ++ added)
        × (w'.notified ≡ w.notified ++ added)
        × (w'.sequence_id ≡ w.sequence_id + 1)
  read_log_file-append w e now es fs bytes more p o a b =
      let (done, _, told, next) = append_lem w e now p o in
      let taken = if is_serializable (numbered w e now) then numbered w e now ∷ [] else [] in
      let added = ap (λ t. if t then numbered w e now ∷ [] else []) done in
      let d = IsOnDisk-append w.current taken es fs bytes more a b in
      let file = current-append w e now p o ∙ ap (λ l. w.current ++ l) added in
      (
        done,
        ap log_bytes file ∙ d.written,
        read_log_file-IsOnDisk (w.current ++ taken) (es ++ fs) (bytes ++ more) d
            ∙ sym (ap (λ l. l ++ taken) (read_log_file-IsOnDisk w.current es bytes a))
            ∙ sym (ap (λ l. read_log_file bytes ++ l) added),
        told,
        next,
      )

  -- With an open file of whole records that read back, a flush of the batch resolves all pending
  -- entries exactly if all can be serialized, and rejects all if not; the file then holds, behind
  -- its bytes, the records of the pending entries up to the first that cannot be serialized, and
  -- reads back as its entries before and those; the listener is told of each, in order, if all
  -- could be, else of none; and nothing stays pending; this where numbers and time stamps are
  -- below 2 ^ 53, the texts survive the encoding and each record is below 2 ^ 32 bytes.
  pub read_log_file-flush_batch :
      (w : Wal) (es fs : List Logged) (bytes more : List ℕ)
      → w.is_open ≡ true
      → IsOnDisk w.current es bytes
      → IsOnDisk (writable w.pending_writes) fs more
      → let (w', done) = flush_batch w in
        (done ≡ all_writable w.pending_writes)
        × (log_bytes w'.current ≡ some (bytes ++ more))
        × (read_log_file (bytes ++ more) ≡ read_log_file bytes ++ writable w.pending_writes)
        × (w'.notified ≡ w.notified ++ (if done then w.pending_writes else []))
        × (w'.pending_writes ≡ [])
  read_log_file-flush_batch w es fs bytes more o a b =
      let (done, _, told, none_left, _) = flush_batch_lem w o in
      let d = IsOnDisk-append w.current (writable w.pending_writes) es fs bytes more a b in
      (
        done,
        ap log_bytes (current-flush_batch w o) ∙ d.written,
        read_log_file-IsOnDisk (w.current ++ writable w.pending_writes) (es ++ fs) (bytes ++ more) d
            ∙ sym (
                ap (λ l. l ++ writable w.pending_writes)
                  (read_log_file-IsOnDisk w.current es bytes a)),
        told,
        none_left,
      )
