-- ===== src/Tests/Files.antt =====
-- Table files on concrete bytes.
use lsm_kv_store.Base.{
  none, ℕ, ◌+◌, ◌≡◌, ◌⊎◌, refl, Bool, true, false, some, List, [], ◌∷◌, ◌++◌, All, arith,
}
use lsm_kv_store.Text.{Text, compare_keys}
use lsm_kv_store.Bytes.{take, write_u64, write_text_16, write_text_32}
use lsm_kv_store.Assoc.{IsSorted, find, within}
use lsm_kv_store.MemTable.{MemTableEntry}
use lsm_kv_store.SsTable.{Run}
use lsm_kv_store.SsTableSerializer.{IndexEntry, serialize_entry}
use lsm_kv_store.SsTableSerializer.RoundTrip.{entry_bytes, IsExactEntry}
use lsm_kv_store.SsTableWriter.{write_entries, add_keys}
use lsm_kv_store.SsTableReader.{iterate, may_contain, header_size, get}
use lsm_kv_store.SsTableReader.Entries.{IsReadable, header_size-entry_bytes}
use lsm_kv_store.SsTableReader.Lookup.{opened}
use lsm_kv_store.SsTableReader.Filtered.{may_contain-or-absent}
use lsm_kv_store.SsTableReader.Ranges.{get-iterate}
use lsm_kv_store.BloomFilter
use lsm_kv_store.BloomFilter.{BloomFilter}
use lsm_kv_store.BloomFilter.Membership.{create-IsSized}
use lsm_kv_store.Tests.Samples.{ascii, apple, berry, cherry}

abbrev stamped : Text → ℕ → Bool → MemTableEntry
stamped value timestamp deleted = record { value = value; timestamp = timestamp; deleted = deleted }

abbrev rows : Run
rows =
    (apple, stamped berry 5 false)
    ∷ (berry, stamped [] 6 true)
    ∷ (cherry, stamped apple 7 false)
    ∷ []

rows-IsSorted : IsSorted rows
unfolding compare_keys
rows-IsSorted = ((refl, (refl, tt)), ((refl, tt), (tt, tt)))

rows-IsExactEntry : All IsExactEntry rows
rows-IsExactEntry = (
  ((omega arith, (omega arith, tt)), (omega arith, tt), omega arith),
  (
    ((omega arith, tt), tt, omega arith),
    (((omega arith, (omega arith, tt)), (omega arith, (omega arith, tt)), omega arith), tt),
  ),
)

rows-IsReadable : All IsReadable rows
rows-IsReadable = (
  (97, 112 ∷ [], refl, omega arith, omega arith, omega arith),
  (
    (98, [], refl, omega arith, omega arith, omega arith),
    ((99, 104 ∷ [], refl, omega arith, omega arith, omega arith), tt),
  ),
)

abbrev row_bytes : List ℕ
row_bytes = 0 ∷ 2 ∷ 97 ∷ 112 ∷ 0 ∷ 0 ∷ 0 ∷ 1 ∷ 98 ∷ 0 ∷ 0 ∷ 0 ∷ 0 ∷ 0 ∷ 0 ∷ 0 ∷ 5 ∷ 0 ∷ []

abbrev region : List ℕ
region =
    row_bytes
    ++ (0 ∷ 1 ∷ 98 ∷ 0 ∷ 0 ∷ 0 ∷ 0 ∷ 0 ∷ 0 ∷ 0 ∷ 0 ∷ 0 ∷ 0 ∷ 0 ∷ 6 ∷ 1 ∷ [])
    ++ (0 ∷ 2 ∷ 99 ∷ 104 ∷ 0 ∷ 0 ∷ 0 ∷ 2 ∷ 97 ∷ 112 ∷ 0 ∷ 0 ∷ 0 ∷ 0 ∷ 0 ∷ 0 ∷ 0 ∷ 7 ∷ 0 ∷ [])

-- Every second entry is in the index.
abbrev index : List IndexEntry
index = record { key = apple; offset = 0 } ∷ record { key = cherry; offset = 34 } ∷ []

abbrev later_rows : Run
later_rows = (berry, stamped [] 6 true) ∷ (cherry, stamped apple 7 false) ∷ []

abbrev filter : BloomFilter
filter = BloomFilter.create 30 7

get-iterate_example :
    (get (λ n. []) (opened apple later_rows region (9 ∷ []) index none) berry
      ≡ some (find berry rows))
    × (iterate (λ n. []) (opened apple later_rows region (9 ∷ []) index none) (some berry) none
        ≡ some (within berry cherry rows))
unfolding write_entries serialize_entry write_u64 write_text_16 write_text_32
get-iterate_example =
    get-iterate (λ n. []) 2 berry (some berry) none apple (stamped berry 5 false) later_rows region
      (9 ∷ []) index none rows-IsSorted rows-IsExactEntry rows-IsReadable refl

may_contain-or-absent_example :
    (may_contain (opened apple later_rows region [] index (some (add_keys filter rows))) cherry
      ≡ true)
    ⊎ (find cherry rows ≡ none)
may_contain-or-absent_example =
    may_contain-or-absent cherry apple (stamped berry 5 false) later_rows region [] index filter
      rows-IsSorted rows-IsExactEntry (create-IsSized 30 7 (omega arith))

-- The key is "key1", and its four bytes stand for the length of a value.
header_size-entry_bytes_example :
    header_size (take 6 (entry_bytes (107 ∷ 101 ∷ 121 ∷ 49 ∷ [], stamped berry 5 false) ++ []))
    ≡ some (2 + 4 + 4 + 1801812273 + 8 + 1)
header_size-entry_bytes_example =
    header_size-entry_bytes (107 ∷ 101 ∷ 121 ∷ 49 ∷ [], stamped berry 5 false) [] [] 107 101 121 49
      refl (omega arith)
