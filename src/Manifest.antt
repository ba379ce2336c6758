-- ===== src/Manifest.antt =====
-- src/storage/manifest/Manifest.ts and ManifestTypes.ts: the list of live tables. `save` writes the
-- state that `applyEdit` computed, by a rename of a synced temporary file; `load` reads it back.
-- `Date.now()` of a fresh manifest is not kept: nothing reads `createdAt`.
pub mod Numbers
use lsm_kv_store.Base.{
  ℕ, suc, ◌+◌, ◌-◌, Bool, true, false, not, ◌||◌, Option, none, some, List, [], ◌∷◌, ◌++◌, length,
  keep, leb, ltb, ◌==◌, if◌then◌else◌,
}
use lsm_kv_store.SsTable.{SsTableMetadata}

pub record ManifestState : Type 0 where
  pub sstables : List SsTableMetadata
  pub next_file_number : ℕ
  pub last_flushed_sequence : ℕ
  pub version : ℕ

-- `Partial<VersionEdit>`, with an absent list as the empty one: the code treats them alike.
pub record VersionEdit : Type 0 where
  pub added_sstables : List SsTableMetadata
  pub removed_file_numbers : List ℕ
  pub next_file_number : Option ℕ
  pub last_flushed_sequence : Option ℕ

abbrev pub empty_manifest_state : ManifestState
empty_manifest_state = record {
  sstables = [];
  next_file_number = 1;
  last_flushed_sequence = 0;
  version = 0;
}

-- `removeSet.has(n)`
abbrev pub contains : List ℕ → ℕ → Bool
contains [] n = false
contains (m ∷ ms) n = m == n || contains ms n

-- `Array.prototype.sort` by `b.fileNumber - a.fileNumber`: stable, highest number first.
unfoldable pub insert_by_number : SsTableMetadata → List SsTableMetadata → List SsTableMetadata
insert_by_number s [] = s ∷ []
insert_by_number s (t ∷ ts) =
    if ltb s.file_number t.file_number then t ∷ insert_by_number s ts else s ∷ t ∷ ts

unfoldable pub sort_by_number : List SsTableMetadata → List SsTableMetadata
unfolding insert_by_number
sort_by_number [] = []
sort_by_number (s ∷ ss) = insert_by_number s (sort_by_number ss)

-- `sstables.reduce((max, s) => Math.max(max, s.fileNumber), start)`
unfoldable pub max_file_number : List SsTableMetadata → ℕ → ℕ
max_file_number [] m = m
max_file_number (s ∷ ss) m = max_file_number ss (if ltb m s.file_number then s.file_number else m)

abbrev pub or_else : Option ℕ → ℕ → ℕ
or_else none n = n
or_else (some m) n = m

-- `nextFileNumber` starts at 1 and is always a successor, so `nextFileNumber - 1` is not negative.
unfoldable pub apply_edit : ManifestState → VersionEdit → ManifestState
unfolding sort_by_number max_file_number
apply_edit s edit =
    let kept = keep (λ t. not (contains edit.removed_file_numbers t.file_number)) s.sstables in
    let sorted = sort_by_number (kept ++ edit.added_sstables) in
    record {
      sstables = sorted;
      next_file_number =
          or_else edit.next_file_number (max_file_number sorted (s.next_file_number - 1) + 1);
      last_flushed_sequence = or_else edit.last_flushed_sequence s.last_flushed_sequence;
      version = s.version + 1;
    }

unfoldable pub add_sstable : ManifestState → SsTableMetadata → ManifestState
unfolding apply_edit
add_sstable s metadata = apply_edit s (record {
  added_sstables = metadata ∷ [];
  removed_file_numbers = [];
  next_file_number = some (metadata.file_number + 1);
  last_flushed_sequence = none;
})

unfoldable pub remove_sstables : ManifestState → List ℕ → ManifestState
unfolding apply_edit
remove_sstables s numbers = apply_edit s (record {
  added_sstables = [];
  removed_file_numbers = numbers;
  next_file_number = none;
  last_flushed_sequence = none;
})
