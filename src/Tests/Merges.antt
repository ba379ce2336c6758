-- ===== src/Tests/Merges.antt =====
-- Merges of short sources, and a heap of three entries.
use lsm_kv_store.Base.{◌≡◌, refl, true, false, List, [], ◌∷◌, arith}
use lsm_kv_store.Text.{Text, compare_keys}
use lsm_kv_store.Assoc.{find, IsSorted}
use lsm_kv_store.MemTable.Entries.{stamped}
use lsm_kv_store.SsTable.{Run}
use lsm_kv_store.MinHeap
use lsm_kv_store.MinHeap.Order.{IsHeap}
use lsm_kv_store.MinHeap.Least.{Extracted, insert-Sifted, extract_min-Extracted}
use lsm_kv_store.MergeIterator.{HeapEntry, compare_heap_entries, iterate}
use lsm_kv_store.MergeIterator.Cursors.{entry_of}
use lsm_kv_store.MergeIterator.Filled.{compare_heap_entries-IsRanking}
use lsm_kv_store.MergeIterator.Hits.{hit, visible}
use lsm_kv_store.MergeIterator.Merged.{iterate-eq-hit}
use lsm_kv_store.Tests.Samples.{apple, berry, cherry, date}

abbrev newer : Run
newer = (apple, stamped berry false 9) ∷ (cherry, stamped [] true 9) ∷ []

abbrev older : Run
older =
    (apple, stamped date false 3)
    ∷ (berry, stamped date false 3)
    ∷ (cherry, stamped date false 3)
    ∷ (date, stamped apple false 3)
    ∷ []

-- The newer entry of each key wins, and a tombstone hides its key.
merged : iterate false (newer ∷ older ∷ []) ≡ (apple, berry) ∷ (berry, date) ∷ (date, apple) ∷ []
unfolding iterate compare_keys
merged = refl

merged_with_tombstones :
    iterate true (newer ∷ older ∷ [])
    ≡ (apple, berry) ∷ (berry, date) ∷ (cherry, []) ∷ (date, apple) ∷ []
unfolding iterate compare_keys
merged_with_tombstones = refl

newer-IsSorted : IsSorted newer
newer-IsSorted = unfold compare_keys in ((refl, tt), (tt, tt))

older-IsSorted : IsSorted older
older-IsSorted =
    unfold compare_keys in
    ((refl, (refl, (refl, tt))), ((refl, (refl, tt)), ((refl, tt), (tt, tt))))

iterate-eq-hit_example :
    IsSorted (iterate false (newer ∷ older ∷ []))
    × ((key : Text)
        → find key (iterate false (newer ∷ older ∷ []))
          ≡ visible false (hit key (newer ∷ older ∷ [])))
iterate-eq-hit_example =
    iterate-eq-hit false (newer ∷ older ∷ []) (newer-IsSorted, (older-IsSorted, tt))

-- A heap of three entries, the last of which has the least key.
abbrev first_entry : HeapEntry
first_entry = entry_of 0 (cherry, stamped berry false 1)

abbrev three_entries : List HeapEntry
three_entries =
    MinHeap.insert compare_heap_entries
      (MinHeap.insert compare_heap_entries (first_entry ∷ [])
        (entry_of 1 (cherry, stamped date false 2)))
      (entry_of 2 (apple, stamped date false 3))

one-IsHeap : IsHeap compare_heap_entries first_entry (first_entry ∷ [])
one-IsHeap c p q = absurd (omega arith)

three-IsHeap : IsHeap compare_heap_entries first_entry three_entries
three-IsHeap =
    let two =
      insert-Sifted compare_heap_entries first_entry compare_heap_entries-IsRanking
        (first_entry ∷ []) (entry_of 1 (cherry, stamped date false 2)) one-IsHeap in
    (insert-Sifted compare_heap_entries first_entry compare_heap_entries-IsRanking
      (MinHeap.insert compare_heap_entries (first_entry ∷ [])
        (entry_of 1 (cherry, stamped date false 2)))
      (entry_of 2 (apple, stamped date false 3)) two.0).0

extract_min-Extracted_example :
    Extracted compare_heap_entries first_entry compare_heap_entries-IsRanking three_entries
      (MinHeap.extract_min compare_heap_entries three_entries)
extract_min-Extracted_example =
    extract_min-Extracted compare_heap_entries first_entry compare_heap_entries-IsRanking
      three_entries three-IsHeap
