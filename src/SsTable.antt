-- ===== src/SsTable.antt =====
-- src/storage/sstable/SSTableTypes.ts and ISSTableReader.ts: what the store asks of a table file.
-- The store works with any table service that meets these laws: a file keeps a run that is storable,
-- and reading, range check and filter agree with what the file keeps. SsTableReader/Service fills the
-- record with the writer and the reader of the repository, and says which runs are storable there.
use lsm_kv_store.Base.{ℕ, ◌≡◌, Bool, false, Option, none, List}
use lsm_kv_store.Text.{Text}
use lsm_kv_store.Assoc.{IsSorted, find, within}
use lsm_kv_store.MemTable.{MemTableEntry}

-- A run of key-sorted entries, as the writer takes them and the reader yields them.
abbrev pub Run : Type 0
Run = List (Text × MemTableEntry)

pub record SsTableMetadata : Type 0 where
  pub file_number : ℕ
  pub entry_count : ℕ
  pub first_key : Text
  pub last_key : Text

pub record TableService : Type 1 where
  pub Reader : Type 0
  -- `SSTableReader.openFile` on a file that a writer built from the run.
  pub open_file : ℕ → Run → Reader
  pub is_in_range : Reader → Text → Bool
  pub may_contain : Reader → Text → Bool
  pub get : Reader → Text → Option MemTableEntry
  -- `iterate(startKey, endKey)`, with both keys given.
  pub iterate : Reader → Text → Text → Run
  -- `iterate()`.
  pub iterate_all : Reader → Run
  -- The entries in the file of the reader.
  pub contents : Reader → Run
  -- The runs that a file keeps.
  pub IsStorable : Run → Type 0
  pub contents-open_file :
      (n : ℕ) (run : Run) → IsSorted run → IsStorable run → contents (open_file n run) ≡ run
  pub get-eq-find : (r : Reader) (k : Text) → get r k ≡ find k (contents r)
  pub out_of_range : (r : Reader) (k : Text) → is_in_range r k ≡ false → find k (contents r) ≡ none
  pub filtered_out : (r : Reader) (k : Text) → may_contain r k ≡ false → find k (contents r) ≡ none
  pub iterate-eq-within :
      (r : Reader) (start end : Text)
      → IsSorted (contents r)
      → iterate r start end ≡ within start end (contents r)
  pub iterate_all-eq : (r : Reader) → IsSorted (contents r) → iterate_all r ≡ contents r
