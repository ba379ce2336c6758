-- ===== src/MemTable/Entries.antt =====
-- src/storage/memtable/MemTable.ts: what a memtable holds after `put` and `delete`.
use lsm_kv_store.Base.{ℕ, ◌≡◌, Bool, true, some, none, refl, [], if◌then◌else◌}
use lsm_kv_store.Text.{Text, eq_text}
use lsm_kv_store.Assoc.{IsSorted, within, find}
use lsm_kv_store.Codec.{TextCodec}
use lsm_kv_store.SortedMap
use lsm_kv_store.SortedMap.Valid.{IsValid, empty-IsValid, set-IsValid, get-set, get-eq-find}
use lsm_kv_store.SortedMap.Range.{range-eq-within}
use lsm_kv_store.MemTable.{
  MemTableEntry, MemTable, new_table, get_entry, get_all_sorted, get_range, put, delete,
}

abbrev pub HasValidMap : MemTable → Type 0
HasValidMap t = IsValid t.map

pub new_table-HasValidMap : (limit : ℕ) → HasValidMap (new_table limit)
new_table-HasValidMap limit = empty-IsValid

pub get_entry-eq-find :
    (t : MemTable) (key : Text) → HasValidMap t → get_entry t key ≡ find key (get_all_sorted t)
unfolding get_entry get_all_sorted
get_entry-eq-find t key h = get-eq-find t.map key h

pub get_range-eq-within :
    (t : MemTable) (a b : Text) → HasValidMap t → get_range t a b ≡ within a b (get_all_sorted t)
unfolding get_range get_all_sorted
get_range-eq-within t a b h = range-eq-within t.map a b h.sorted

pub get_entry-new_table : (limit : ℕ) (key : Text) → get_entry (new_table limit) key ≡ none
unfolding get_entry SortedMap.get
get_entry-new_table limit key = refl

pub get_all_sorted-IsSorted : (t : MemTable) → HasValidMap t → IsSorted (get_all_sorted t)
unfolding get_all_sorted
get_all_sorted-IsSorted t h = h.sorted

abbrev pub stamped : Text → Bool → ℕ → MemTableEntry
stamped value deleted now = record { value = value; timestamp = now; deleted = deleted }

module _ ⦃codec : TextCodec⦄ where
  pub put-HasValidMap :
      (t : MemTable) (key value : Text) (deleted : Bool) (now : ℕ)
      → HasValidMap t
      → HasValidMap (put t key value deleted now)
  unfolding put
  put-HasValidMap t key value deleted now h = set-IsValid t.map key _ h

  pub delete-HasValidMap :
      (t : MemTable) (key : Text) (now : ℕ) → HasValidMap t → HasValidMap (delete t key now)
  unfolding delete
  delete-HasValidMap t key now h = set-IsValid t.map key _ h

  -- On a memtable with a valid map, after put the key has the new stamped entry and every other
  -- key has the entry that it had.
  pub get_entry-put :
      (t : MemTable) (key value : Text) (deleted : Bool) (now : ℕ) (other : Text)
      → HasValidMap t
      → get_entry (put t key value deleted now) other
        ≡ (if eq_text other key then some (stamped value deleted now) else get_entry t other)
  unfolding put get_entry
  get_entry-put t key value deleted now other h = get-set t.map key _ other h

  pub get_entry-delete :
      (t : MemTable) (key : Text) (now : ℕ) (other : Text)
      → HasValidMap t
      → get_entry (delete t key now) other
        ≡ (if eq_text other key then some (stamped [] true now) else get_entry t other)
  unfolding delete get_entry
  get_entry-delete t key now other h = get-set t.map key _ other h
