-- ===== src/Tests/Stores.antt =====
-- The store on concrete data, with table files of ASCII text, or with tables that are their runs.
use lsm_kv_store.Base.{
  ◌+◌, Option, ◌*◌, if◌then◌else◌, some, arith, ◌∙◌, ◌≡◌, ◌≢◌, refl, true, false, none, List, [],
  ◌∷◌,
}
use lsm_kv_store.Text.{compare_keys, Text}
use lsm_kv_store.Assoc.{IsSorted, find, within}
use lsm_kv_store.SsTable.{Run, TableService}
use lsm_kv_store.SsTableWriter.{write_entries}
use lsm_kv_store.SsTableSerializer.{serialize_entry}
use lsm_kv_store.Bytes.{write_u64, write_text_16, write_text_32}
use lsm_kv_store.SsTableReader.Service
use lsm_kv_store.SsTableReader.Service.{file_tables}
use lsm_kv_store.MemTable
use lsm_kv_store.MemTable.{MemTable, MemTableEntry, new_table}
use lsm_kv_store.MemTable.Entries.{HasValidMap, new_table-HasValidMap, put-HasValidMap, stamped}
use lsm_kv_store.SortedMap
use lsm_kv_store.Manifest.{empty_manifest_state}
use lsm_kv_store.Wal
use lsm_kv_store.Wal.{Wal, LogEntry, sync_every_write}
use lsm_kv_store.Store
use lsm_kv_store.Store.Loading
use lsm_kv_store.Store.{
  LsmStore, idle, truncating, ok, first_hit, live, put_entry, delete_entry, batch_entry,
}
use lsm_kv_store.Store.View.{view, IsCoherent}
use lsm_kv_store.Store.Flushing.{OpensStorable, flush_step-view}
use lsm_kv_store.Store.Swapping.{held_over, maybe_flush_lem}
use lsm_kv_store.Store.Writing.{Writes, latest, one_entry, put_lem, delete_lem, batch_put_lem}
use lsm_kv_store.Store.Serving.{IsServing}
use lsm_kv_store.Store.Client.{
  write_batch, Event, write_put, write_delete, flush_await, run, run_map, values, get-run, run_lem,
  FlushesStorable,
}
use lsm_kv_store.Store.Recovery.{IsDurable, get-truncated}
use lsm_kv_store.Store.Durability.{initialize-IsServing}
use lsm_kv_store.Store.Reading.{limited, read_key_range}
use lsm_kv_store.Store.Bounds.{in_bounds, first_pairs}
use lsm_kv_store.Store.Tabled.{IsTabled}
use lsm_kv_store.Store.Scanning.{read_key_range-run}
use lsm_kv_store.Store.View.{view_tables}
use lsm_kv_store.Store.Replay.{shown, over, last_write, apply_log_lem}
use lsm_kv_store.Tests.Samples.{ascii, IsAscii, apple, berry, cherry, date}

pub passes : {A : Type 0} → true ≡ false → A
passes e = absurd (cc e)

-- A reader that keeps the run, with a filter that passes every key.
abbrev pub plain_tables : TableService
plain_tables = record {
  Reader = Run;
  open_file = λ n run. run;
  is_in_range = λ r k. true;
  may_contain = λ r k. true;
  get = λ r k. find k r;
  iterate = λ r start end. within start end r;
  contents = λ r. r;
  contents-open_file = λ n run h k. refl;
  get-eq-find = λ r k. refl;
  out_of_range = λ r k e. passes e;
  filtered_out = λ r k e. passes e;
  iterate-eq-within = λ r start end s. refl;
  iterate_all = λ r. r;
  iterate_all-eq = λ r s. refl;
  IsStorable = λ run. Unit;
}

abbrev ascii_text : (t : Text) → Option (IsAscii t)
ascii_text [] = some tt
ascii_text (u ∷ us) = elim (ascii_text us) [
  | none ↦ none
  | some rest ↦ elim (Service.below u 128) [ none ↦ none | some low ↦ some (low, rest) ]
]

-- The files of the writer with every second key in the index and ten bits of filter for a key.
abbrev pub ascii_tables : TableService
ascii_tables =
    file_tables ascii_text 2 (λ n. []) (9 ∷ []) (λ n. 10 * n + 1) (λ n. 7) (λ n. omega arith)

abbrev pub empty_log : Wal
empty_log = record {
  sync_policy = sync_every_write;
  is_open = true;
  sequence_id = 0;
  log_file = 1;
  older = [];
  current = [];
  pending_writes = [];
  notified = [];
}

-- Every put fills the memtable.
abbrev pub store_on : (service : TableService) → LsmStore service
store_on service = record {
  mem_table_size_limit = 10;
  wal = empty_log;
  manifest = empty_manifest_state;
  files = [];
  active = new_table 10;
  immutable = none;
  sstables = [];
  flushing = false;
  stage = idle;
  initialized = true;
}

abbrev pub small_store : LsmStore ascii_tables
small_store = store_on ascii_tables

small_store-IsCoherent : IsCoherent ascii_tables small_store
small_store-IsCoherent = record { active_valid = new_table-HasValidMap 10; at_stage = (refl, refl) }

pub small_store-IsServing : IsServing ascii_tables small_store
small_store-IsServing = record {
  coherent = small_store-IsCoherent;
  started = refl;
  ready = record { synced = refl; opened = refl; nothing_pending = refl };
}

-- A put that starts a flush; a delete, a put and a batch while it runs; and its five awaits.
abbrev session : List Event
session =
    write_put apple berry 3 4
    ∷ flush_await 5
    ∷ flush_await 6
    ∷ write_delete apple 7 8
    ∷ flush_await 9
    ∷ write_put date cherry 10 11
    ∷ write_batch ((apple, cherry) ∷ (berry, date) ∷ (apple, date) ∷ []) 11 (λ n. n)
    ∷ flush_await 12
    ∷ flush_await 13
    ∷ []

session-FlushesStorable : FlushesStorable ascii_tables small_store session
unfolding Store.put Wal.append Wal.is_serializable MemTable.is_full MemTable.put
    lsm_kv_store.Base.Int.◌+ℤ◌ SortedMap.get Store.trigger_flush MemTable.get_all_sorted
    SortedMap.entries SortedMap.set FlushesStorable Store.flush_step Store.delete MemTable.delete
    write_entries serialize_entry write_u64 write_text_16 write_text_32 compare_keys run
    Store.batch_put SortedMap.plug lsm_kv_store.Base.while SortedMap.fix_insert_round
    lsm_kv_store.Base.Int.◌-ℤ◌ Wal.checkpoint
session-FlushesStorable = (tt, (tt, (refl, (tt, (tt, tt)))))

get-run_example :
    Store.get ascii_tables (run ascii_tables small_store session) apple
    ≡ ok (run_map ascii_tables (values ascii_tables small_store) session apple)
get-run_example =
    get-run ascii_tables small_store session apple small_store-IsServing session-FlushesStorable

small_store-IsTabled : IsTabled ascii_tables small_store
small_store-IsTabled = record { listed = tt; staged = tt }

read_key_range-run_example :
    (pairs : List (Text × Text)) × (read_key_range ascii_tables
        (run ascii_tables small_store session)
        apple
        cherry
        (some 2)
      ≡ ok (first_pairs (some 2) pairs))
    × IsSorted pairs
    × ((key : Text)
        → find key pairs ≡ (
            if in_bounds apple cherry key
            then run_map ascii_tables (values ascii_tables small_store) session key
            else none))
read_key_range-run_example =
    read_key_range-run ascii_tables small_store session apple cherry (some 2) small_store-IsServing
      small_store-IsTabled session-FlushesStorable

-- The loop yields a pair before it looks at the limit.
limit_zero : limited (some 0) 0 ((apple, berry) ∷ (date, cherry) ∷ []) ≡ (apple, berry) ∷ []
unfolding limited
limit_zero = refl

-- The batch came last.
last_one_wins : Store.get ascii_tables (run ascii_tables small_store session) apple ≡ ok (some date)
last_one_wins =
    get-run ascii_tables small_store session apple small_store-IsServing session-FlushesStorable
    ∙ (unfold run_map Wal.is_serializable compare_keys in refl)

put_lem_example :
    Writes ascii_tables small_store tt
      (Wal.append small_store.wal (put_entry apple berry) 3)
      (one_entry ascii_tables apple (stamped berry false 4))
      (Store.put ascii_tables small_store apple berry 3 4)
put_lem_example = put_lem ascii_tables small_store apple berry 3 4 small_store-IsCoherent refl

delete_lem_example :
    Writes ascii_tables small_store tt
      (Wal.append small_store.wal (delete_entry apple) 3)
      (one_entry ascii_tables apple (stamped [] true 4))
      (Store.delete ascii_tables small_store apple 3 4)
delete_lem_example = delete_lem ascii_tables small_store apple 3 4 small_store-IsCoherent refl

abbrev pairs : List (Text × Text)
pairs = (apple, berry) ∷ (date, cherry) ∷ (apple, cherry) ∷ []

pairs-nonempty : pairs ≢ []
pairs-nonempty = λ e. absurd (cc e)

batch_put_lem_example :
    Writes ascii_tables small_store 3
      (Wal.append small_store.wal (batch_entry pairs) 3)
      (latest ascii_tables pairs (λ n. n))
      (Store.batch_put ascii_tables small_store pairs 3 (λ n. n))
batch_put_lem_example =
    batch_put_lem ascii_tables small_store pairs 3 (λ n. n) small_store-IsCoherent refl
      pairs-nonempty

-- A put that starts a flush, and two of its awaits: the next one opens the file.
abbrev first_awaits : List Event
first_awaits = write_put apple berry 3 4 ∷ flush_await 5 ∷ flush_await 6 ∷ []

first_awaits-FlushesStorable : FlushesStorable ascii_tables small_store first_awaits
unfolding Store.put Wal.append Wal.is_serializable MemTable.is_full MemTable.put
    lsm_kv_store.Base.Int.◌+ℤ◌ SortedMap.get Store.trigger_flush MemTable.get_all_sorted
    SortedMap.entries SortedMap.set FlushesStorable Store.flush_step Store.delete MemTable.delete
    write_entries serialize_entry write_u64 write_text_16 write_text_32 compare_keys run
first_awaits-FlushesStorable = (tt, (tt, tt))

abbrev opening_store : LsmStore ascii_tables
opening_store = run ascii_tables small_store first_awaits

opening_store-OpensStorable : OpensStorable ascii_tables opening_store.stage
unfolding Store.put Wal.append Wal.is_serializable MemTable.is_full MemTable.put
    lsm_kv_store.Base.Int.◌+ℤ◌ SortedMap.get Store.trigger_flush MemTable.get_all_sorted
    SortedMap.entries SortedMap.set FlushesStorable Store.flush_step Store.delete MemTable.delete
    write_entries serialize_entry write_u64 write_text_16 write_text_32 compare_keys run
opening_store-OpensStorable = refl

flush_step-view_example :
    view ascii_tables (Store.flush_step ascii_tables opening_store 7) apple
    ≡ view ascii_tables opening_store apple
flush_step-view_example =
    flush_step-view ascii_tables opening_store 7 apple
      (run_lem ascii_tables small_store first_awaits small_store-IsServing
        first_awaits-FlushesStorable).0.coherent
      opening_store-OpensStorable

-- The same store with its one pair still in the active memtable.
abbrev full_store : LsmStore ascii_tables
full_store = record small_store { active = MemTable.put (new_table 10) apple berry false 4 }

full_store-IsCoherent : IsCoherent ascii_tables full_store
full_store-IsCoherent = record {
  active_valid = put-HasValidMap (new_table 10) apple berry false 4 (new_table-HasValidMap 10);
  at_stage = (refl, refl);
}

maybe_flush_lem_example :
    ((key : Text)
      → view ascii_tables (Store.maybe_flush ascii_tables full_store) key
        ≡ view ascii_tables full_store key)
    × IsCoherent ascii_tables (Store.maybe_flush ascii_tables full_store)
maybe_flush_lem_example = maybe_flush_lem ascii_tables full_store full_store-IsCoherent

abbrev logged : List LogEntry
logged = put_entry apple berry ∷ batch_entry pairs ∷ delete_entry apple ∷ []

apply_log_lem_example :
    HasValidMap (Loading.apply_log ascii_tables (new_table 10) logged (λ n. n))
    × ((key : Text)
        → shown
            (MemTable.get_entry (Loading.apply_log ascii_tables (new_table 10) logged (λ n. n)) key)
          ≡ over (last_write logged key) (shown (MemTable.get_entry (new_table 10) key)))
apply_log_lem_example =
    apply_log_lem ascii_tables (new_table 10) logged (λ n. n) (new_table-HasValidMap 10)

pub small_store-IsDurable : IsDurable ascii_tables small_store
unfolding MemTable.get_entry Wal.replay Loading.load_tables view_tables SortedMap.get
small_store-IsDurable = record { logged = λ key. refl; stored = λ key. refl }

-- A pair was put while the flush ran, and is logged; the flush has come to the truncation.
abbrev late_put : LsmStore ascii_tables
late_put = record small_store {
  wal = record empty_log { current = put_entry date cherry ∷ [] };
  active = MemTable.put (new_table 10) date cherry false 4;
  flushing = true;
  stage = truncating;
}

late_moved : 2 ≢ late_put.wal.log_file
late_moved = λ e. omega (arith, e)

get-truncated_example :
    Store.get ascii_tables
      (Loading.initialize ascii_tables (Store.flush_step ascii_tables late_put 2) (λ n. n))
      date
    ≡ ok (
        live (
          Store.search_tables ascii_tables
            (Loading.load_tables ascii_tables late_put.manifest.sstables late_put.files)
            date))
get-truncated_example =
    get-truncated ascii_tables late_put 2 (λ n. n) date
      (record { synced = refl; opened = refl; nothing_pending = refl }) late_moved refl

-- The put was there before the crash, and is not after the restart.
late_put_seen : Store.get ascii_tables late_put date ≡ ok (some cherry)
unfolding Store.get MemTable.get_entry MemTable.put SortedMap.get SortedMap.set compare_keys
late_put_seen = refl

late_put_lost :
    Store.get ascii_tables
      (Loading.initialize ascii_tables (Store.flush_step ascii_tables late_put 2) (λ n. n))
      date
    ≡ ok none
late_put_lost =
    get-truncated ascii_tables late_put 2 (λ n. n) date
      (record { synced = refl; opened = refl; nothing_pending = refl }) late_moved refl
    ∙ (unfold Loading.load_tables Store.search_tables in refl)

initialize-IsServing_example :
    IsServing ascii_tables (Loading.initialize ascii_tables late_put (λ n. n))
    × ((key : Text)
        → last_write (Wal.replay (Loading.initialize ascii_tables late_put (λ n. n)).wal) key
          ≡ shown
              (held_over ascii_tables (Loading.initialize ascii_tables late_put (λ n. n)) key none))
initialize-IsServing_example = initialize-IsServing ascii_tables late_put (λ n. n) refl
