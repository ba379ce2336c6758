-- ===== src/SsTableSerializer.antt =====
-- src/storage/sstable/SSTableSerializer.ts: the entries of a table file and of its index as bytes.
-- An entry is its key with the rest of the entry, as the memtable has it.
pub mod RoundTrip
use lsm_kv_store.Base.{
  ℕ, ◌+◌, ◌-◌, Bool, true, false, Option, none, some, List, [], ◌∷◌, ◌++◌, length, ◌==◌,
  if◌then◌else◌,
}
use lsm_kv_store.Text.{Text}
use lsm_kv_store.Codec.{TextCodec}
use lsm_kv_store.Bytes.{
  ◌>>=◌, ◌then_write◌, write_u16, write_u32, write_u64, write_text_16, write_text_32, read_u8,
  read_u64, read_text_16, read_text_32,
}
use lsm_kv_store.MemTable.{MemTableEntry}

pub record IndexEntry : Type 0 where
  pub key : Text
  pub offset : ℕ

-- `SSTABLE_MAGIC` and `SSTABLE_VERSION`
abbrev pub sstable_magic : ℕ
sstable_magic = 0x5353544C

abbrev pub sstable_version : ℕ
sstable_version = 2

abbrev pub SsTableEntry : Type 0
SsTableEntry = Text × MemTableEntry

module _ ⦃codec : TextCodec⦄ where
  unfoldable pub calculate_entry_size : SsTableEntry → ℕ
  calculate_entry_size (key, e) =
      2 + length (codec.encode key) + 4 + length (codec.encode e.value) + 8 + 1

  unfoldable pub serialize_entry : SsTableEntry → Option (List ℕ)
  serialize_entry (key, e) =
      write_text_16 key
      then_write write_text_32 e.value
      then_write write_u64 e.timestamp
      then_write some ((if e.deleted then 1 else 0) ∷ [])

  -- The entry, and how far the reads have come.
  unfoldable pub deserialize_entry : List ℕ → Option (SsTableEntry × ℕ)
  deserialize_entry bytes = do
    (key, bs1) ← read_text_16 bytes
    (value, bs2) ← read_text_32 bs1
    (timestamp, bs3) ← read_u64 bs2
    (flag, bs4) ← read_u8 bs3
    some (
      (key, record { value = value; timestamp = timestamp; deleted = flag == 1 }),
      length bytes - length bs4,
    )

  unfoldable pub serialize_index_entry : IndexEntry → Option (List ℕ)
  serialize_index_entry e = write_text_16 e.key then_write write_u64 e.offset

  unfoldable pub deserialize_index_entry : List ℕ → Option (IndexEntry × ℕ)
  deserialize_index_entry bytes = do
    (key, bs1) ← read_text_16 bytes
    (offset, bs2) ← read_u64 bs1
    some (record { key = key; offset = offset }, length bytes - length bs2)
