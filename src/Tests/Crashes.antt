-- ===== src/Tests/Crashes.antt =====
-- A crash in the middle of an append.
use lsm_kv_store.Base.{ℕ, ◌≡◌, refl, none, some, List, [], ◌∷◌, ◌++◌, arith, map}
use lsm_kv_store.Text.{compare_keys}
use lsm_kv_store.Bytes.{take, write_u32, write_u64, write_text_16, write_text_32}
use lsm_kv_store.MemTable
use lsm_kv_store.SortedMap
use lsm_kv_store.Wal
use lsm_kv_store.Wal.{LogEntry}
use lsm_kv_store.Payload.{operation_to_code}
use lsm_kv_store.Payload.Fields.{put, delete}
use lsm_kv_store.Wal.Records.{
  serialize_entry, serialize_body, serialize_payload, calculate_checksum,
}
use lsm_kv_store.Wal.Records.Torn.{Logged, logged_entry, log_bytes}
use lsm_kv_store.Wal.Records.Written.{IsOnDisk}
use lsm_kv_store.Store
use lsm_kv_store.Store.Loading
use lsm_kv_store.Store.Client.{Event, write_put, write_delete, run}
use lsm_kv_store.Store.Crashes.{crashed, get-crashed-run}
use lsm_kv_store.Tests.Samples.{ascii, apple, berry, cherry, date}
use lsm_kv_store.Tests.Stores.{
  ascii_tables, small_store, small_store-IsServing, small_store-IsDurable,
}

-- The second put fills the memtable while the flush that the first one started waits.
abbrev writes : List Event
writes = write_put apple berry 3 4 ∷ write_put date cherry 5 6 ∷ write_delete apple 7 8 ∷ []

abbrev entries : List Logged
entries = (0, 3, put apple berry) ∷ (1, 5, put date cherry) ∷ (2, 7, delete apple) ∷ []

abbrev bytes_of : List LogEntry → List ℕ
bytes_of es = elim (log_bytes es) [ none ↦ [] | some bytes ↦ bytes ]

abbrev log_file : List ℕ
log_file = bytes_of (map logged_entry entries)

older-IsOnDisk : IsOnDisk (run ascii_tables small_store writes).wal.older [] []
unfolding serialize_entry serialize_body serialize_payload write_u32 write_u64 write_text_16
    write_text_32 operation_to_code calculate_checksum Wal.is_serializable run Store.put
    Store.delete Wal.append MemTable.is_full MemTable.put lsm_kv_store.Base.Int.◌+ℤ◌ SortedMap.get
    Store.trigger_flush MemTable.get_all_sorted SortedMap.entries SortedMap.set MemTable.delete
    compare_keys
older-IsOnDisk = record { listed = refl; exact = tt; written = refl }

log_file-IsOnDisk : IsOnDisk (run ascii_tables small_store writes).wal.current entries log_file
unfolding serialize_entry serialize_body serialize_payload write_u32 write_u64 write_text_16
    write_text_32 operation_to_code calculate_checksum Wal.is_serializable run Store.put
    Store.delete Wal.append MemTable.is_full MemTable.put lsm_kv_store.Base.Int.◌+ℤ◌ SortedMap.get
    Store.trigger_flush MemTable.get_all_sorted SortedMap.entries SortedMap.set MemTable.delete
    compare_keys
log_file-IsOnDisk = record {
  listed = refl;
  exact = (
    (omega arith, omega arith, ((omega arith, (omega arith, tt)), (omega arith, tt))),
    (
      (omega arith, omega arith, ((omega arith, tt), (omega arith, (omega arith, tt)))),
      ((omega arith, omega arith, (omega arith, (omega arith, tt))), tt),
    ),
  );
  written = refl;
}

-- A put that had come no further than nine bytes of its record.
abbrev cut_off : Logged
cut_off = (3, 9, put cherry date)

abbrev cut_record : List ℕ
cut_record = bytes_of (logged_entry cut_off ∷ [])

get-crashed-run_example :
    Store.get ascii_tables
      (Loading.initialize ascii_tables
        (crashed ascii_tables
          (run ascii_tables small_store writes)
          []
          (log_file ++ take 9 cut_record))
        (λ n. n))
      date
    ≡ Store.get ascii_tables (run ascii_tables small_store writes) date
unfolding serialize_entry serialize_body serialize_payload write_u32 write_u64 write_text_16
    write_text_32 operation_to_code calculate_checksum
get-crashed-run_example =
    get-crashed-run ascii_tables small_store writes (λ n. n) date [] entries cut_off [] log_file
      cut_record 9 small_store-IsServing small_store-IsDurable tt older-IsOnDisk log_file-IsOnDisk
      refl (omega arith)
