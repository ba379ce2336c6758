-- ===== src/SsTableReader.antt =====
-- src/storage/sstable/SSTableReader.ts: finding an entry in an open file. `handle.read` into a buffer of
-- `allocUnsafe` is read_into: it fills the front of the buffer with what the file has, and the rest of the
-- buffer is what `alloc` says, which is anything. The footer, the index and the
-- filter are loaded already.
pub mod Entries
pub mod Search
pub mod Scan
pub mod Lookup
pub mod Filtered
pub mod Within
pub mod Collect
pub mod Ranges
pub mod Service
use lsm_kv_store.Base.{
  ℕ, zero, suc, ◌+◌, ◌-◌, ◌/◌, ◌^◌, Bool, true, false, not, ◌&&◌, ◌||◌, Option, none, some, List,
  [], ◌∷◌, ◌++◌, length, ltb, if◌then◌else◌,
}
use lsm_kv_store.Text.{Text, le_text, ge_text, gt_text, lt_text, eq_text}
use lsm_kv_store.Codec.{TextCodec}
use lsm_kv_store.Bytes.{◌>>=◌, take, drop, read_u16, read_u32}
use lsm_kv_store.MemTable.{MemTableEntry}
use lsm_kv_store.MinHeap.{item_at}
use lsm_kv_store.BloomFilter
use lsm_kv_store.BloomFilter.{BloomFilter}
use lsm_kv_store.SsTableSerializer.{SsTableEntry, IndexEntry, deserialize_entry}

-- The metadata of an open file that a lookup uses, with its index.
pub record ReaderState : Type 0 where
  pub file : List ℕ
  pub data_offset : ℕ
  pub index_offset : ℕ
  pub first_key : Text
  pub last_key : Text
  pub sparse_index : List IndexEntry
  pub bloom_filter : Option BloomFilter

unfoldable pub is_in_range : ReaderState → Text → Bool
is_in_range s key = ge_text key s.first_key && le_text key s.last_key

unfoldable pub may_contain : ReaderState → Text → Bool
may_contain s key =
    if not (is_in_range s key)
    then false
    else elim s.bloom_filter [ none ↦ true | some filter ↦ BloomFilter.might_contain filter key ]

-- The loop of `findStartOffset`. `end` is `right + 1`, which does not fall below zero. A round leaves at
-- most half of the index, so its length is enough fuel.
unfoldable pub search : ℕ → List IndexEntry → Text → ℕ → ℕ → ℕ → ℕ
search zero index key left end result = result
search (suc fuel) index key left end result =
    let mid = (left + end - 1) / 2 in
    elim (ltb left end) [
      | false ↦ result
      | true ↦ elim (item_at index mid) [
        | none ↦ result
        | some e ↦ elim (le_text e.key key) [
          | true ↦ search fuel index key (mid + 1) end e.offset
          | false ↦ search fuel index key left mid result
        ]
      ]
    ]

unfoldable pub find_start_offset : Text → List IndexEntry → ℕ → ℕ
find_start_offset key index data_offset =
    search (length index + 1) index key 0 (length index) data_offset

-- The size that the header asks for. The four bytes after the key's length are taken for the length
-- of the value, but the key is what stands there.
unfoldable pub header_size : List ℕ → Option ℕ
header_size header = do
  (key_length, bs1) ← read_u16 header
  (value_length, bs2) ← read_u32 bs1
  some (2 + key_length + 4 + value_length + 8 + 1)

-- `startKey ?? metadata.firstKey`
abbrev pub or_key : Option Text → Text → Text
or_key none default = default
or_key (some key) default = key

abbrev pub yielded : SsTableEntry → List SsTableEntry → Option (List SsTableEntry)
yielded e es = some (e ∷ es)

module _ ⦃codec : TextCodec⦄ (alloc : ℕ → List ℕ) where
  abbrev pub read_into : ℕ → ℕ → List ℕ → List ℕ
  read_into size offset file =
      let got = take size (drop offset file) in got ++ drop (length got) (alloc size)

  -- A read of 2 ^ 31 bytes or more is refused by `handle.read`: its length is a 32-bit integer.
  unfoldable pub read_entry_at : List ℕ → ℕ → Option (SsTableEntry × ℕ)
  read_entry_at file offset = do
    size ← header_size (read_into 6 offset file)
    if ltb size (2 ^ 31) then deserialize_entry (read_into size offset file) else none

  -- The loop of `get`; none where it throws. A round takes an entry of the file, so its length is enough
  -- fuel.
  unfoldable pub scan : ℕ → List ℕ → Text → ℕ → ℕ → Option (Option MemTableEntry)
  scan zero file key offset end = some none
  scan (suc fuel) file key offset end = elim (ltb offset end) [
    | false ↦ some none
    | true ↦ elim (read_entry_at file offset) [
      | none ↦ none
      | some (e, bytes_read) ↦ elim (eq_text e.0 key) [
        | true ↦ some (some e.1)
        | false ↦ elim (gt_text e.0 key) [
          | true ↦ some none
          | false ↦ scan fuel file key (offset + bytes_read) end
        ]
      ]
    ]
  ]

  unfoldable pub get : ReaderState → Text → Option (Option MemTableEntry)
  get s key =
      let start = find_start_offset key s.sparse_index s.data_offset in
      if not (is_in_range s key)
      then some none
      else scan (length s.file + 1) s.file key start s.index_offset

  -- The loop of `iterate`; none where it throws.
  unfoldable pub collect : ℕ → List ℕ → Text → Text → ℕ → ℕ → Option (List SsTableEntry)
  collect zero file start_key end_key offset end = some []
  collect (suc fuel) file start_key end_key offset end = elim (ltb offset end) [
    | false ↦ some []
    | true ↦ elim (read_entry_at file offset) [
      | none ↦ none
      | some (e, bytes_read) ↦ elim (lt_text e.0 start_key) [
        | true ↦ collect fuel file start_key end_key (offset + bytes_read) end
        | false ↦ elim (gt_text e.0 end_key) [
          | true ↦ some []
          | false ↦ collect fuel file start_key end_key (offset + bytes_read) end >>= yielded e
        ]
      ]
    ]
  ]

  unfoldable pub iterate : ReaderState → Option Text → Option Text → Option (List SsTableEntry)
  iterate s start_key end_key =
      let from = or_key start_key s.first_key in
      let to = or_key end_key s.last_key in
      let start = find_start_offset from s.sparse_index s.data_offset in
      if gt_text from s.last_key || lt_text to s.first_key
      then some []
      else collect (length s.file + 1) s.file from to start s.index_offset
