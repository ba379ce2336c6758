-- ===== src/Store/Crashes.antt =====
-- src/storage/LSMStore.ts, `initialize` after a crash: the log is read back from the bytes of its files,
-- of which the last may end in a record that is cut off.
use lsm_kv_store.Base.{ℕ, ◌<◌, ◌≡◌, refl, ap, sym, ◌∙◌, some, List, ◌++◌, length}
use lsm_kv_store.Text.{Text}
use lsm_kv_store.Codec.{TextCodec}
use lsm_kv_store.SsTable.{TableService}
use lsm_kv_store.Bytes.{take}
use lsm_kv_store.Wal.Records.{serialize_entry, read_log_file}
use lsm_kv_store.Wal.Records.Torn.{Logged, logged_entry, log_bytes, read_log_file-torn}
use lsm_kv_store.Wal.Records.Written.{IsOnDisk, read_log_file-IsOnDisk}
use lsm_kv_store.Store.{LsmStore, get}
use lsm_kv_store.Store.Loading.{initialize}
use lsm_kv_store.Store.Serving.{IsServing}
use lsm_kv_store.Store.Client.{Event, run}
use lsm_kv_store.Store.Recovery.{IsDurable}
use lsm_kv_store.Store.Durability.{AreWrites, get-initialize-run}

module _ (service : TableService) ⦃codec : TextCodec⦄ where
  -- The store that a restart finds when the log has these bytes, in the files before the last and in
  -- the last.
  abbrev pub crashed : LsmStore service → List ℕ → List ℕ → LsmStore service
  crashed s older current = record s {
    wal = record s.wal { older = read_log_file older; current = read_log_file current };
  }

  crashed-eq :
      (s : LsmStore service) (older current : List ℕ)
      → read_log_file older ≡ s.wal.older
      → read_log_file current ≡ s.wal.current
      → crashed s older current ≡ s
  crashed-eq s older current h k = rw (h, k) refl

  -- From a store in service whose memtables are in its log and whose tables are on disk, after any
  -- sequence of puts and deletes, with the flushes they start still waiting at their first await,
  -- a crash that leaves the log's bytes, with a last record cut off anywhere behind them, and a
  -- restart that reads them answer get of every key as before the crash; this where the log has no
  -- cut record but that one, its numbers and time stamps are below 2 ^ 53, its texts survive the
  -- encoding and its records are below 2 ^ 32 bytes.
  pub get-crashed-run :
      (s : LsmStore service) (events : List Event) (clock : ℕ → ℕ) (key : Text)
      (es fs : List Logged) (last : Logged) (older current last_bytes : List ℕ) (n : ℕ)
      → IsServing service s
      → IsDurable service s
      → AreWrites service events
      → IsOnDisk (run service s events).wal.older es older
      → IsOnDisk (run service s events).wal.current fs current
      → serialize_entry (logged_entry last) ≡ some last_bytes
      → n < length last_bytes
      → get service
          (initialize service
            (crashed (run service s events) older (current ++ take n last_bytes))
            clock)
          key
        ≡ get service (run service s events) key
  get-crashed-run s events clock key es fs last older current last_bytes n c h w a b r cut =
      let torn =
        read_log_file-torn fs last current last_bytes n b.exact
          (sym (ap log_bytes b.listed) ∙ b.written) r cut
        ∙ sym b.listed in
      let same =
        crashed-eq (run service s events) older (current ++ take n last_bytes)
          (read_log_file-IsOnDisk (run service s events).wal.older es older a) torn in
      ap (λ t. get service (initialize service t clock) key) same
      ∙ get-initialize-run service s events clock key c h w
