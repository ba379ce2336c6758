-- ===== src/Tests/Tables.antt =====
-- The memtable on concrete keys.
use lsm_kv_store.Base.{◌≡◌, refl, false}
use lsm_kv_store.Base.Int.{pos, negsuc, ◌-ℤ◌, ◌+ℤ◌}
use lsm_kv_store.Text.{compare_keys}
use lsm_kv_store.MemTable.{MemTable, new_table, get_all_sorted, put, delete}
use lsm_kv_store.MemTable.Entries.{HasValidMap, new_table-HasValidMap, put-HasValidMap}
use lsm_kv_store.MemTable.Size.{
  IsAccounted, exact_size, existing_size, put-IsAccounted, current_size-delete,
}
use lsm_kv_store.SortedMap
use lsm_kv_store.Tests.Samples.{ascii, apple, berry}

abbrev fresh : MemTable
fresh = new_table 1000

fresh-IsAccounted : IsAccounted fresh
unfolding get_all_sorted SortedMap.entries
fresh-IsAccounted = refl

abbrev filled : MemTable
filled = put fresh apple berry false 7

filled-HasValidMap : HasValidMap filled
filled-HasValidMap = put-HasValidMap fresh apple berry false 7 (new_table-HasValidMap 1000)

filled-IsAccounted : IsAccounted filled
filled-IsAccounted =
    put-IsAccounted fresh apple berry false 7 (new_table-HasValidMap 1000) fresh-IsAccounted

put-IsAccounted_example : IsAccounted (put filled berry apple false 8)
put-IsAccounted_example =
    put-IsAccounted filled berry apple false 8 filled-HasValidMap filled-IsAccounted

current_size-delete_example :
    (delete filled apple 8).current_size
    ≡ pos (exact_size (delete filled apple 8)) -ℤ pos (existing_size filled apple)
current_size-delete_example =
    current_size-delete filled apple 8 filled-HasValidMap filled-IsAccounted

-- One put and one delete of the key leave a count of -1 for an entry of 51 bytes.
delete_drift : (delete filled apple 8).current_size ≡ negsuc 0
unfolding delete SortedMap.get SortedMap.set compare_keys ◌+ℤ◌ ◌-ℤ◌
delete_drift = refl
