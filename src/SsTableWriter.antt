-- ===== src/SsTableWriter.antt =====
-- src/storage/sstable/SSTableWriter.ts: the entries are taken in order, and `build` writes them one
-- after another, with an index of every so many. What `build` does with files and their names is left
-- out, and so are the bytes of the filter and the footer, which follow the index.
use lsm_kv_store.Base.{
  ℕ, ◌+◌, ◌%◌, Bool, false, not, ◌&&◌, Option, none, some, List, [], ◌∷◌, ◌++◌, length, ◌==◌,
  if◌then◌else◌,
}
use lsm_kv_store.Text.{Text, le_text}
use lsm_kv_store.Codec.{TextCodec}
use lsm_kv_store.Bytes.{◌>>=◌}
use lsm_kv_store.BloomFilter
use lsm_kv_store.BloomFilter.{BloomFilter}
use lsm_kv_store.SsTableSerializer.{SsTableEntry, IndexEntry, serialize_entry}

pub record SsTableWriter : Type 0 where
  pub entries : List SsTableEntry
  pub last_key : Option Text
  pub built : Bool

abbrev pub new_writer : SsTableWriter
new_writer = record { entries = []; last_key = none; built = false }

-- `this.lastKey !== null && key <= this.lastKey`
abbrev pub out_of_order : Text → Option Text → Bool
out_of_order key none = false
out_of_order key (some last) = le_text key last

-- None where it throws.
unfoldable pub add : SsTableWriter → SsTableEntry → Option SsTableWriter
add w e =
    if w.built
    then none
    else if out_of_order e.0 w.last_key
    then none
    else some (record w { entries = w.entries ++ e ∷ []; last_key = some e.0 })

-- What the loop of `build` adds to the filter.
unfoldable pub add_keys : BloomFilter → List SsTableEntry → BloomFilter
add_keys filter [] = filter
add_keys filter (e ∷ es) = add_keys (BloomFilter.add filter e.0) es

module _ ⦃codec : TextCodec⦄ (sparse_index_interval : ℕ) where
  -- `i % interval === 0`, which an interval of 0 never meets.
  abbrev pub is_indexed : ℕ → Bool
  is_indexed i = not (sparse_index_interval == 0) && i % sparse_index_interval == 0

  abbrev pub with_entry :
      ℕ → ℕ → Text → List ℕ → List ℕ × List IndexEntry → Option (List ℕ × List IndexEntry)
  with_entry i offset key buffer (more, index) = some (
    buffer ++ more,
    (if is_indexed i then record { key = key; offset = offset } ∷ index else index),
  )

  -- The loop over the entries in `build`, from entry `i` at `offset` on: the bytes that it writes and
  -- the index entries that it makes.
  unfoldable pub write_entries : ℕ → ℕ → List SsTableEntry → Option (List ℕ × List IndexEntry)
  write_entries i offset [] = some ([], [])
  write_entries i offset (e ∷ es) = do
    buffer ← serialize_entry e
    written ← write_entries (i + 1) (offset + length buffer) es
    with_entry i offset e.0 buffer written
