-- ===== src/CompactionManager/Handing.antt =====
-- `handleCompactionComplete` of src/storage/LSMStore.ts: the store trades the compacted tables for
-- the new one.
use lsm_kv_store.Base.{
  All-imp, All-append, length-append, ◌+◌, ◌<◌, ◌≡◌, refl, sym, ap, ◌∙◌, Bool, true, false, not,
  Option, none, some, List, [], ◌∷◌, ◌++◌, arith, All, length, keep, append-nil,
}
use lsm_kv_store.Text.{Text}
use lsm_kv_store.Assoc.{find, IsSorted}
use lsm_kv_store.SsTable.{Run, TableService}
use lsm_kv_store.MemTable
use lsm_kv_store.MemTable.{MemTableEntry}
use lsm_kv_store.Manifest.{contains}
use lsm_kv_store.Store.{ok, LsmStore, SsTableState, live, first_hit, immutable_entry, get}
use lsm_kv_store.Store.View.{view_tables, get-eq-live-view}
use lsm_kv_store.Store.Loading.{find_file}
use lsm_kv_store.CompactionManager.{
  CompactionResult, insert_state, sort_states, handle_compaction_complete,
}

keep-append {ℓ} :
    {A : Type ℓ} (p : A → Bool) (xs ys : List A) → keep p (xs ++ ys) ≡ keep p xs ++ keep p ys
keep-append p [] ys = refl
keep-append p (x ∷ xs) ys = ground (arith, keep-append p xs ys)

keep_all {ℓ} : {A : Type ℓ} (p : A → Bool) (xs : List A) → All (λ x. p x ≡ true) xs → keep p xs ≡ xs
keep_all p [] h = refl
keep_all p (x ∷ xs) h = rw h.0 (ap (◌∷◌ x) (keep_all p xs h.1))

keep_none {ℓ} :
    {A : Type ℓ} (p : A → Bool) (xs : List A) → All (λ x. p x ≡ false) xs → keep p xs ≡ []
keep_none p [] h = refl
keep_none p (x ∷ xs) h = rw h.0 (keep_none p xs h.1)

module _ (service : TableService) where
  open service use {contents, open_file, IsStorable, contents-open_file}

  -- The numbers of the tables fall strictly.
  abbrev pub IsDescending : List (SsTableState service) → Type 0
  IsDescending [] = Unit
  IsDescending (t ∷ ts) =
      All (λ (u : SsTableState service). u.metadata.file_number < t.metadata.file_number) ts
      × IsDescending ts

  sort_states-IsDescending :
      (ts : List (SsTableState service)) → IsDescending ts → sort_states service ts ≡ ts
  unfolding sort_states insert_state
  sort_states-IsDescending [] h = refl
  sort_states-IsDescending (t ∷ []) h = refl
  sort_states-IsDescending (t ∷ u ∷ ts) h =
      rw (sort_states-IsDescending (u ∷ ts) h.1) (ground (arith))

  live-first_hit :
      (a r r' : Option MemTableEntry)
      → live r ≡ live r'
      → live (first_hit service a r) ≡ live (first_hit service a r')
  live-first_hit none r r' h = h
  live-first_hit (some e) r r' h = refl

  -- Behind the same newer tables, tables with the same live values answer alike.
  live-view_tables :
      (newer xs ys : List (SsTableState service)) (key : Text)
      → live (view_tables service xs key) ≡ live (view_tables service ys key)
      → live (view_tables service (newer ++ xs) key) ≡ live (view_tables service (newer ++ ys) key)
  unfolding view_tables
  live-view_tables [] xs ys key h = h
  live-view_tables (t ∷ newer) xs ys key h =
      live-first_hit (find key (contents t.reader)) (view_tables service (newer ++ xs) key)
        (view_tables service (newer ++ ys) key) (live-view_tables newer xs ys key h)

  -- A table that the compaction leaves alone.
  abbrev stays : CompactionResult → SsTableState service → Bool
  stays result t = not (contains result.compacted_file_numbers t.metadata.file_number)

  -- What the store holds while a compaction hands its result over: tables that are newer than the
  -- compacted ones, and then the compacted ones, for which the new file has the live values.
  pub record IsHandOver (s : LsmStore service) (result : CompactionResult)
      (newer old : List (SsTableState service)) (run : Run) : Type 0 where
    pub split : s.sstables ≡ newer ++ old
    pub spared :
        All
          (λ (t : SsTableState service).
            contains result.compacted_file_numbers t.metadata.file_number ≡ false)
          newer
    pub compacted :
        All
          (λ (t : SsTableState service).
            contains result.compacted_file_numbers t.metadata.file_number ≡ true)
          old
    pub descending : IsDescending newer
    pub above :
        All
          (λ (t : SsTableState service). result.new_sstable.file_number < t.metadata.file_number)
          newer
    pub on_disk : find_file service result.new_sstable.file_number s.files ≡ some run
    pub sorted : IsSorted run
    pub storable : IsStorable run
    pub same : (key : Text) → live (find key run) ≡ live (view_tables service old key)

  last-IsDescending :
      (ts : List (SsTableState service)) (new : SsTableState service)
      → IsDescending ts
      → All (λ (t : SsTableState service). new.metadata.file_number < t.metadata.file_number) ts
      → IsDescending (ts ++ new ∷ [])
  last-IsDescending [] new d a = (tt, tt)
  last-IsDescending (t ∷ ts) new d a = (
    All-append (λ (u : SsTableState service). u.metadata.file_number < t.metadata.file_number) ts
        (new ∷ []) d.0 (a.0, tt),
    last-IsDescending ts new d.1 a.1,
  )

  -- The filter of the loop keeps the newer tables.
  kept-eq-newer :
      (s : LsmStore service) (result : CompactionResult) (newer old : List (SsTableState service))
      (run : Run)
      → IsHandOver s result newer old run
      → keep (stays result) s.sstables ≡ newer
  kept-eq-newer s result newer old run v =
      let fresh = All-imp _ (λ t. stays result t ≡ true) (λ t e. rw e refl) newer v.spared in
      let gone = All-imp _ (λ t. stays result t ≡ false) (λ t e. rw e refl) old v.compacted in
      rw
        (
          v.split,
          keep-append (stays result) newer old,
          keep_all (stays result) newer fresh,
          keep_none (stays result) old gone,
        )
        (append-nil newer)

  new_table-live :
      (new : SsTableState service) (run : Run) (old : List (SsTableState service)) (key : Text)
      → contents new.reader ≡ run
      → live (find key run) ≡ live (view_tables service old key)
      → live (view_tables service (new ∷ []) key) ≡ live (view_tables service old key)
  unfolding view_tables
  new_table-live new run old key e h = rw (e) (ground (arith, h))

  -- Tables with the same live values answer alike behind the memtables.
  pub get-tables :
      (s : LsmStore service) (tables : List (SsTableState service)) (key : Text)
      → s.initialized ≡ true
      → live (view_tables service tables key) ≡ live (view_tables service s.sstables key)
      → get service (record s { sstables = tables }) key ≡ get service s key
  get-tables s tables key h e =
      let old = view_tables service s.sstables key in
      let new = view_tables service tables key in
      let frozen = immutable_entry service s.immutable key in
      let behind = live-first_hit frozen new old e in
      let whole =
        live-first_hit (MemTable.get_entry s.active key) (first_hit service frozen new)
          (first_hit service frozen old) behind in
      get-eq-live-view service (record s { sstables = tables }) key h
      ∙ ap ok whole
      ∙ sym (get-eq-live-view service s key h)

  -- When a compaction hands over a file with a storable run that has the live values of the tables
  -- that it compacted, and the store's other tables are newer and have higher numbers, the store
  -- takes the new table in place of the compacted ones, and get answers every key as before.
  pub get-handle_compaction_complete :
      (s : LsmStore service) (result : CompactionResult) (newer old : List (SsTableState service))
      (run : Run)
      → s.initialized ≡ true
      → IsHandOver s result newer old run
      → (s' : LsmStore service) × (handle_compaction_complete service s result ≡ some s')
        × (length s'.sstables ≡ length newer + 1)
        × ((key : Text) → get service s' key ≡ get service s key)
  unfolding handle_compaction_complete
  get-handle_compaction_complete s result newer old run h v =
      let number = result.new_sstable.file_number in
      let new : SsTableState service = record {
        metadata = result.new_sstable;
        reader = open_file number run;
      } in
      let kept = kept-eq-newer s result newer old run v in
      let sorted =
        sort_states-IsDescending (newer ++ new ∷ [])
          (last-IsDescending newer new v.descending v.above) in
      let s' : LsmStore service = record s { sstables = newer ++ new ∷ [] } in
      (
        s',
        rw (handle_compaction_complete, v.on_disk, kept, sorted) refl,
        length-append newer (new ∷ []),
        λ key.
            let tables = live-view_tables newer (new ∷ []) old key (
              new_table-live new run old key (contents-open_file number run v.sorted v.storable)
                (v.same key)) in
            get-tables s (newer ++ new ∷ []) key h (rw v.split tables),
      )
