-- ===== src/Store/Writing.antt =====
-- src/storage/LSMStore.ts: what `put`, `delete` and `batchPut` do to what the store holds.
use lsm_kv_store.Base.{
  ℕ, ◌≡◌, refl, Bool, not, true, false, Option, none, some, ◌==◌, List, [], ◌∷◌, arith,
  if◌then◌else◌, sym, ap, ◌∙◌, subst, ◌≢◌, length,
}
use lsm_kv_store.Text.{Text, eq_text}
use lsm_kv_store.Codec.{TextCodec}
use lsm_kv_store.SsTable.{TableService}
use lsm_kv_store.MemTable
use lsm_kv_store.MemTable.{MemTable, MemTableEntry}
use lsm_kv_store.MemTable.Entries.{
  HasValidMap, stamped, put-HasValidMap, delete-HasValidMap, get_entry-put, get_entry-delete,
}
use lsm_kv_store.Wal
use lsm_kv_store.Wal.{Wal}
use lsm_kv_store.Store.{
  LsmStore, Result, ok, err, log_rejected, first_hit, maybe_flush, put, delete, batch_put, put_all,
  put_entry, delete_entry, batch_entry,
}
use lsm_kv_store.Store.View.{view, IsCoherent}
use lsm_kv_store.Store.Flushing.{IsAt-kept}
use lsm_kv_store.Store.Swapping.{maybe_flush_lem, maybe_flush-kept}

module _ (service : TableService) ⦃codec : TextCodec⦄ where
  -- The store with another log and active memtable, before the check for a full memtable.
  abbrev pub committed : LsmStore service → Wal → MemTable → LsmStore service
  committed s w t = record s { wal = w; active = t }

  commit_view :
      (s : LsmStore service) (w : Wal) (t : MemTable) (key : Text) (fresh : Option MemTableEntry)
      → MemTable.get_entry t key ≡ first_hit service fresh (MemTable.get_entry s.active key)
      → view service (committed s w t) key ≡ first_hit service fresh (view service s key)
  commit_view s w t key none e = rw e
  commit_view s w t key (some x) e = rw e

  pub commit-IsCoherent :
      (s : LsmStore service) (w : Wal) (t : MemTable)
      → IsCoherent service s
      → HasValidMap t
      → IsCoherent service (committed s w t)
  commit-IsCoherent s w t h v = record {
    active_valid = v;
    at_stage = IsAt-kept service s.stage s (committed s w t) refl refl refl h.at_stage;
  }

  -- A write that was logged, with the check for a full memtable that follows it.
  commit_lem :
      (s : LsmStore service) (w : Wal) (t : MemTable) (fresh : Text → Option MemTableEntry)
      → IsCoherent service s
      → HasValidMap t
      → ((key : Text)
          → MemTable.get_entry t key
            ≡ first_hit service (fresh key) (MemTable.get_entry s.active key))
      → ((key : Text)
          → view service (maybe_flush service (committed s w t)) key
            ≡ first_hit service (fresh key) (view service s key))
        × IsCoherent service (maybe_flush service (committed s w t))
  commit_lem s w t fresh h v e =
      let (same, coherent) =
        maybe_flush_lem service (committed s w t) (commit-IsCoherent s w t h v) in
      ((λ key. same key ∙ commit_view s w t key (fresh key) (e key)), coherent)

  rejected_lem :
      (s : LsmStore service) (w : Wal)
      → IsCoherent service s
      → IsCoherent service (record s { wal = w })
  rejected_lem s w h = commit-IsCoherent s w s.active h h.active_valid

  abbrev pub one_entry : Text → MemTableEntry → Text → Option MemTableEntry
  one_entry key e other = if eq_text other key then some e else none

  one_entry_hit :
      (b : Bool) (e : MemTableEntry) (old : Option MemTableEntry)
      → (if b then some e else old) ≡ first_hit service (if b then some e else none) old
  one_entry_hit true e old = refl
  one_entry_hit false e old = refl

  -- What a write with result `a` that puts the entries `fresh` over the store returns and leaves,
  -- where `done` says whether the log took its entry: the result and the fresh entries, or an error
  -- and nothing new. The log is the one that the append left.
  pub record Writes {A : Type 0} (s : LsmStore service) (a : A) (logged : Wal × Bool)
      (fresh : Text → Option MemTableEntry) (out : Result A × LsmStore service) : Type 0 where
    pub answered : out.0 ≡ (if logged.1 then ok a else err log_rejected)
    pub seen :
        (key : Text)
        → view service out.1 key
          ≡ first_hit service (if logged.1 then fresh key else none) (view service s key)
    pub coherent : IsCoherent service out.1
    pub log_kept : out.1.wal ≡ logged.0
    pub flag_kept : out.1.initialized ≡ s.initialized

  -- The tail that every write shares.
  abbrev pub finish :
      {A : Type 0} → LsmStore service → A → Wal × Bool → MemTable → Result A × LsmStore service
  finish s a (w, done) t =
      if done
      then (ok a, maybe_flush service (committed s w t))
      else (err log_rejected, record s { wal = w })

  finish-Writes :
      {A : Type 0} (s : LsmStore service) (a : A) (w : Wal) (done : Bool) (t : MemTable)
      (fresh : Text → Option MemTableEntry)
      → IsCoherent service s
      → HasValidMap t
      → ((key : Text)
          → MemTable.get_entry t key
            ≡ first_hit service (fresh key) (MemTable.get_entry s.active key))
      → Writes s a (w, done) fresh (finish s a (w, done) t)
  finish-Writes s a w true t fresh h v e =
      let (same, coherent) = commit_lem s w t fresh h v e in
      let (log_kept, flag_kept) = maybe_flush-kept service (committed s w t) in
      record {
        answered = refl;
        seen = same;
        coherent = coherent;
        log_kept = log_kept;
        flag_kept = flag_kept;
      }
  finish-Writes s a w false t fresh h v e = record {
    answered = refl;
    seen = λ key. refl;
    coherent = rejected_lem s w h;
    log_kept = refl;
    flag_kept = refl;
  }

  -- The guard of an initialized store.
  pub guarded :
      {A : Type 0} (b : Bool) (x y : Result A × LsmStore service)
      → b ≡ true
      → (if not b then x else y) ≡ y
  guarded b x y e = rw e

  skipped :
      {A : Type 0} (b : Bool) (x y : Result A × LsmStore service)
      → b ≡ false
      → (if b then x else y) ≡ y
  skipped b x y e = rw e

  -- On a coherent, initialized store, put succeeds exactly when the log takes its entry; then its
  -- key has the new entry and every other key what it had, else every key has what it had; the
  -- store stays coherent, its log is the one the append left, and it stays initialized.
  pub put_lem :
      (s : LsmStore service) (key value : Text) (logged now : ℕ)
      → IsCoherent service s
      → s.initialized ≡ true
      → Writes s tt
          (Wal.append s.wal (put_entry key value) logged)
          (one_entry key (stamped value false now))
          (put service s key value logged now)
  unfolding put
  put_lem s key value logged now h i =
      let (w, done) = Wal.append s.wal (put_entry key value) logged in
      let t = MemTable.put s.active key value false now in
      let fresh = one_entry key (stamped value false now) in
      subst (Writes s tt (w, done) fresh)
        (sym (guarded s.initialized _ (finish s tt (w, done) t) i))
        (finish-Writes s tt w done t fresh h
          (put-HasValidMap s.active key value false now h.active_valid)
          (λ other.
            get_entry-put s.active key value false now other h.active_valid
            ∙ one_entry_hit (eq_text other key) (stamped value false now)
                (MemTable.get_entry s.active other)))

  -- On a coherent, initialized store, delete succeeds exactly when the log takes its entry; then
  -- its key has the new tombstone and every other key what it had, else every key has what it had;
  -- the store stays coherent, its log is the one the append left, and it stays initialized.
  pub delete_lem :
      (s : LsmStore service) (key : Text) (logged now : ℕ)
      → IsCoherent service s
      → s.initialized ≡ true
      → Writes s tt
          (Wal.append s.wal (delete_entry key) logged)
          (one_entry key (stamped [] true now))
          (delete service s key logged now)
  unfolding delete
  delete_lem s key logged now h i =
      let (w, done) = Wal.append s.wal (delete_entry key) logged in
      let t = MemTable.delete s.active key now in
      let fresh = one_entry key (stamped [] true now) in
      subst (Writes s tt (w, done) fresh)
        (sym (guarded s.initialized _ (finish s tt (w, done) t) i))
        (finish-Writes s tt w done t fresh h (delete-HasValidMap s.active key now h.active_valid)
          (λ other.
            get_entry-delete s.active key now other h.active_valid
            ∙ one_entry_hit (eq_text other key) (stamped [] true now)
                (MemTable.get_entry s.active other)))

  -- The entry that a batch leaves under a key: its last pair for the key.
  abbrev pub latest : List (Text × Text) → (ℕ → ℕ) → Text → Option MemTableEntry
  latest [] clock key = none
  latest ((k, v) ∷ pairs) clock key =
      first_hit service (latest pairs clock key)
        (if eq_text key k then some (stamped v false (clock (length pairs))) else none)

  pub first_hit_assoc :
      (a b c : Option MemTableEntry)
      → first_hit service a (first_hit service b c) ≡ first_hit service (first_hit service a b) c
  first_hit_assoc none b c = refl
  first_hit_assoc (some e) b c = refl

  put_all_lem :
      (t : MemTable) (pairs : List (Text × Text)) (clock : ℕ → ℕ)
      → HasValidMap t
      → HasValidMap (put_all service t pairs clock)
        × ((key : Text)
            → MemTable.get_entry (put_all service t pairs clock) key
              ≡ first_hit service (latest pairs clock key) (MemTable.get_entry t key))
  unfolding put_all
  put_all_lem t [] clock h = (h, λ key. refl)
  put_all_lem t ((k, v) ∷ pairs) clock h =
      let now = clock (length pairs) in
      let (valid, found) =
        put_all_lem (MemTable.put t k v false now) pairs clock
          (put-HasValidMap t k v false now h) in
      (
        valid,
        λ key.
            found key
            ∙ ap (first_hit service (latest pairs clock key)) (
                get_entry-put t k v false now key h
                ∙ one_entry_hit (eq_text key k) (stamped v false now) (MemTable.get_entry t key))
            ∙ first_hit_assoc (latest pairs clock key) _ (MemTable.get_entry t key),
      )

  batch_put-initialized :
      (s : LsmStore service) (p : Text × Text) (pairs : List (Text × Text)) (logged : ℕ)
      (clock : ℕ → ℕ)
      → s.initialized ≡ true
      → batch_put service s (p ∷ pairs) logged clock
        ≡ finish s
            (length (p ∷ pairs))
            (Wal.append s.wal (batch_entry (p ∷ pairs)) logged)
            (put_all service s.active (p ∷ pairs) clock)
  unfolding batch_put
  batch_put-initialized s p pairs logged clock i =
      guarded s.initialized _ _ i ∙ skipped (length (p ∷ pairs) == 0) _ _ (ground arith)

  -- On a coherent, initialized store, batchPut of a non-empty batch succeeds exactly when the log
  -- takes its entry; then each key of the batch has its last pair and every other key what it had,
  -- else every key has what it had; the store stays coherent, its log is the one the append left,
  -- and it stays initialized.
  pub batch_put_lem :
      (s : LsmStore service) (pairs : List (Text × Text)) (logged : ℕ) (clock : ℕ → ℕ)
      → IsCoherent service s
      → s.initialized ≡ true
      → pairs ≢ []
      → Writes s
          (length pairs)
          (Wal.append s.wal (batch_entry pairs) logged)
          (latest pairs clock)
          (batch_put service s pairs logged clock)
  batch_put_lem s [] logged clock h i n = absurd (n refl)
  batch_put_lem s (p ∷ pairs) logged clock h i n =
      let (w, done) = Wal.append s.wal (batch_entry (p ∷ pairs)) logged in
      let t = put_all service s.active (p ∷ pairs) clock in
      let fresh = latest (p ∷ pairs) clock in
      let a : ℕ = length (p ∷ pairs) in
      let (valid, found) = put_all_lem s.active (p ∷ pairs) clock h.active_valid in
      subst (Writes s a (w, done) fresh) (sym (batch_put-initialized s p pairs logged clock i))
        (finish-Writes s a w done t fresh h valid found)
