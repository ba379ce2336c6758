-- ===== src/Store/Listed.antt =====
-- The metadata that `build` of src/storage/sstable/SSTableWriter.ts returns bounds the keys of its
-- run.
use lsm_kv_store.Base.{
  ℕ, ◌≡◌, refl, false, none, [], ◌∷◌, inl, inr, arith, Ordering, ◌⊎◌, ap, ◌∙◌, sym,
}
use lsm_kv_store.Text.{Text, compare_keys, compare_cases, lt_of_gt, ≺-trans, ◌≺◌}
use lsm_kv_store.Assoc.{IsSorted, Below, find, find-Above, find-Below, Above-trans}
use lsm_kv_store.SsTable.{Run, SsTableMetadata, TableService}
use lsm_kv_store.MemTable.{MemTableEntry}
use lsm_kv_store.Store.{SsTableState, metadata_of, last_key_of}
use lsm_kv_store.Store.Client.{run}
use lsm_kv_store.Store.Bounds.{in_bounds}
use lsm_kv_store.Store.Range.{IsListed}

last-Below :
    (k key : Text) (e : MemTableEntry) (run : Run)
    → IsSorted ((k, e) ∷ run)
    → last_key_of k run ≺ key
    → Below ((k, e) ∷ run) key
last-Below k key e [] s h = (h, tt)
last-Below k key e ((j, d) ∷ run) s h =
    let rest = last-Below j key d run s.1 h in (≺-trans k j key s.0.0 rest.0, rest)

past_last :
    (first last key : Text)
    → (compare_keys key first ≡ Ordering.eq) ⊎ (compare_keys key first ≡ Ordering.gt)
    → in_bounds first last key ≡ false
    → compare_keys key last ≡ Ordering.gt
past_last first last key h out = ground arith

-- A sorted run has no key outside its first and its last one.
find-outside :
    (k : Text) (e : MemTableEntry) (run : Run) (key : Text)
    → IsSorted ((k, e) ∷ run)
    → in_bounds k (last_key_of k run) key ≡ false
    → find key ((k, e) ∷ run) ≡ none
find-outside k e run key s out = elim (compare_cases key k) [
  | inl low ↦ find-Above key ((k, e) ∷ run) (low, Above-trans key k run low s.0)
  | inr not_low ↦
      let high : compare_keys key (last_key_of k run) ≡ Ordering.gt =
        past_last k (last_key_of k run) key not_low out in
      find-Below key ((k, e) ∷ run)
        (last-Below k key e run s (lt_of_gt key (last_key_of k run) high))
]

module _ (service : TableService) where
  open service use {contents, open_file, contents-open_file}

  find-nil : (key : Text) → find {V = MemTableEntry} key [] ≡ none
  unfolding find
  find-nil key = refl

  pub metadata_of-IsListed :
      (t : SsTableState service) (n : ℕ) (run : Run)
      → t.metadata ≡ metadata_of n run
      → contents t.reader ≡ run
      → IsSorted run
      → IsListed service t
  metadata_of-IsListed t n [] m r s = record {
    sorted = rw r tt;
    bounded = λ key out. rw r (find-nil key);
  }
  metadata_of-IsListed t n ((k, e) ∷ rest) m r s = record {
    sorted = rw r s;
    bounded = λ key out. rw r (
        find-outside k e rest key s
          (sym (ap (λ (d : SsTableMetadata). in_bounds d.first_key d.last_key key) m) ∙ out));
  }
