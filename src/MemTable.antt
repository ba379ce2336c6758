-- ===== src/MemTable.antt =====
-- src/storage/memtable/MemTable.ts and MemTableEntry.ts: the in-memory table with a byte count.
-- `Date.now()` is the argument `now`. `currentSize` is a signed number: nothing in the code keeps
-- it from falling below zero.
pub mod Entries
pub mod Size
use lsm_kv_store.Base.{
  ℕ, ◌+◌, Bool, true, false, Option, none, some, List, [], ◌∷◌, length, map, if◌then◌else◌,
}
use lsm_kv_store.Base.Int.{ℤ, pos, ◌+ℤ◌, ◌-ℤ◌, leb_ℤ}
use lsm_kv_store.Text.{Text}
use lsm_kv_store.Codec.{TextCodec}
use lsm_kv_store.SortedMap
use lsm_kv_store.SortedMap.{SortedMap}

pub record MemTableEntry : Type 0 where
  pub value : Text
  pub timestamp : ℕ
  pub deleted : Bool

pub record MemTable : Type 0 where
  pub map : SortedMap MemTableEntry
  pub current_size : ℤ
  pub size_limit : ℕ

abbrev pub new_table : ℕ → MemTable
new_table limit = record { map = SortedMap.empty; current_size = pos 0; size_limit = limit }

unfoldable pub get_entry : MemTable → Text → Option MemTableEntry
get_entry t key = SortedMap.get t.map key

unfoldable pub get : MemTable → Text → Option Text
unfolding get_entry
get t key = elim (get_entry t key) [
  | none ↦ none
  | some e ↦ if e.deleted then none else some e.value
]

unfoldable pub get_all_sorted : MemTable → List (Text × MemTableEntry)
get_all_sorted t = SortedMap.entries t.map

unfoldable pub get_range : MemTable → Text → Text → List (Text × MemTableEntry)
get_range t start_key end_key = SortedMap.range t.map start_key end_key

unfoldable pub clear : MemTable → MemTable
clear t = record t { map = SortedMap.empty; current_size = pos 0 }

unfoldable pub is_full : MemTable → Bool
is_full t = leb_ℤ (pos t.size_limit) t.current_size

module _ ⦃codec : TextCodec⦄ where
  -- Key bytes, value bytes, and 8 + 1 + 40 of metadata.
  unfoldable pub calculate_entry_size : Text → MemTableEntry → ℕ
  calculate_entry_size key e =
      length (codec.encode key) + length (codec.encode e.value) + (8 + 1 + 40)

  -- `if (existingEntry) this.currentSize -= …`
  unfoldable pub without_existing : MemTable → Text → ℤ
  unfolding calculate_entry_size get_entry
  without_existing t key = elim (get_entry t key) [
    | none ↦ t.current_size
    | some e ↦ t.current_size -ℤ pos (calculate_entry_size key e)
  ]

  unfoldable pub put : MemTable → Text → Text → Bool → ℕ → MemTable
  unfolding without_existing
  put t key value deleted now =
      let entry : MemTableEntry = record { value = value; timestamp = now; deleted = deleted } in
      record t {
        map = SortedMap.set t.map key entry;
        current_size = without_existing t key +ℤ pos (calculate_entry_size key entry);
      }

  -- The existing entry's size is taken off here, and once more by `put`.
  unfoldable pub delete : MemTable → Text → ℕ → MemTable
  unfolding put
  delete t key now = put (record t { current_size = without_existing t key }) key [] true now
