-- ===== src/Manifest/Numbers.antt =====
-- src/storage/manifest/Manifest.ts: the order of the table list, and the next file number.
use lsm_kv_store.Base.{
  ℕ, ◌+◌, ◌-◌, ◌≤◌, ◌<◌, ◌≡◌, refl, Bool, false, not, ◌||◌, List, [], ◌∷◌, ◌++◌, keep, ltb, ◌==◌,
  arith, All, All-append, All-imp, Bool-cases, inl, inr, ◌↔◌, ◌&&◌, ap, All-append_left, append-nil,
  ==_iff,
}
use lsm_kv_store.SsTable.{SsTableMetadata}
use lsm_kv_store.Manifest.{
  ManifestState, contains, insert_by_number, sort_by_number, max_file_number, add_sstable,
  remove_sstables,
}

-- Every number of the list is below `n`, or at most `n`.
abbrev pub AllBelow : List SsTableMetadata → ℕ → Type 0
AllBelow ts n = All (λ t. t.file_number < n) ts

abbrev pub AllAtMost : List SsTableMetadata → ℕ → Type 0
AllAtMost ts n = All (λ t. t.file_number ≤ n) ts

-- Newest first: numbers fall.
abbrev pub IsDescending : List SsTableMetadata → Type 0
IsDescending [] = Unit
IsDescending (t ∷ ts) = AllAtMost ts t.file_number × IsDescending ts

-- The list is newest first and the next number is above all of it.
pub record IsFresh (s : ManifestState) : Type 0 where
  pub descending : IsDescending s.sstables
  pub next_is_new : AllBelow s.sstables s.next_file_number

All-insert_by_number :
    (P : SsTableMetadata → Type 0) (s : SsTableMetadata) (ts : List SsTableMetadata)
    → P s
    → All P ts
    → All P (insert_by_number s ts)
unfolding insert_by_number
All-insert_by_number P s [] p h = (p, tt)
All-insert_by_number P s (t ∷ ts) p h = ground (arith, All-insert_by_number P s ts p h.1)

All-sort_by_number :
    (P : SsTableMetadata → Type 0) (ts : List SsTableMetadata)
    → All P ts
    → All P (sort_by_number ts)
unfolding sort_by_number
All-sort_by_number P [] h = tt
All-sort_by_number P (t ∷ ts) h =
    All-insert_by_number P t (sort_by_number ts) h.0 (All-sort_by_number P ts h.1)

insert_by_number-IsDescending :
    (s : SsTableMetadata) (ts : List SsTableMetadata)
    → IsDescending ts
    → IsDescending (insert_by_number s ts)
unfolding insert_by_number
insert_by_number-IsDescending s [] h = (tt, tt)
insert_by_number-IsDescending s (t ∷ ts) h = elim (Bool-cases (ltb s.file_number t.file_number)) [
  | inl e ↦ rw e (
    All-insert_by_number (λ u. u.file_number ≤ t.file_number) s ts (ground arith) h.0,
    insert_by_number-IsDescending s ts h.1,
  )
  | inr e ↦ rw e (
    (
      ground arith,
      All-imp (λ u. u.file_number ≤ t.file_number) (λ u. u.file_number ≤ s.file_number)
          (λ u b. ground arith) ts h.0,
    ),
    h,
  )
]

sort_by_number-IsDescending : (ts : List SsTableMetadata) → IsDescending (sort_by_number ts)
unfolding sort_by_number
sort_by_number-IsDescending [] = tt
sort_by_number-IsDescending (t ∷ ts) =
    insert_by_number-IsDescending t (sort_by_number ts) (sort_by_number-IsDescending ts)

All-keep :
    (P : SsTableMetadata → Type 0) (p : SsTableMetadata → Bool) (ts : List SsTableMetadata)
    → All P ts
    → All P (keep p ts)
All-keep P p [] h = tt
All-keep P p (t ∷ ts) h = elim (Bool-cases (p t)) [
  | inl e ↦ rw e (h.0, All-keep P p ts h.1)
  | inr e ↦ rw e (All-keep P p ts h.1)
]

le-max_file_number : (ts : List SsTableMetadata) (m : ℕ) → m ≤ max_file_number ts m
unfolding max_file_number
le-max_file_number [] m = omega arith
le-max_file_number (t ∷ ts) m =
    ground (arith, le-max_file_number ts t.file_number, le-max_file_number ts m)

AllAtMost-max_file_number :
    (ts : List SsTableMetadata) (m : ℕ) → AllAtMost ts (max_file_number ts m)
unfolding max_file_number
AllAtMost-max_file_number [] m = tt
AllAtMost-max_file_number (t ∷ ts) m = (
  ground (arith, le-max_file_number ts t.file_number, le-max_file_number ts m),
  AllAtMost-max_file_number ts _,
)

All-of_insert_by_number :
    (P : SsTableMetadata → Type 0) (s : SsTableMetadata) (ts : List SsTableMetadata)
    → All P (insert_by_number s ts)
    → P s × All P ts
unfolding insert_by_number
All-of_insert_by_number P s [] h = (h.0, tt)
All-of_insert_by_number P s (t ∷ ts) h = ground (arith, All-of_insert_by_number P s ts)

All-of_sort_by_number :
    (P : SsTableMetadata → Type 0) (ts : List SsTableMetadata)
    → All P (sort_by_number ts)
    → All P ts
unfolding sort_by_number
All-of_sort_by_number P [] h = tt
All-of_sort_by_number P (t ∷ ts) h =
    let (at, rest) = All-of_insert_by_number P t (sort_by_number ts) h in
    (at, All-of_sort_by_number P ts rest)

keep_none_removed :
    (ts : List SsTableMetadata) → keep (λ t. not (contains [] t.file_number)) ts ≡ ts
keep_none_removed [] = refl
keep_none_removed (t ∷ ts) = ap (◌∷◌ t) (keep_none_removed ts)

-- The table list of `add_sstable`, without the filter that removes nothing.
sstables-add_sstable :
    (s : ManifestState) (metadata : SsTableMetadata)
    → (add_sstable s metadata).sstables ≡ sort_by_number (s.sstables ++ metadata ∷ [])
unfolding add_sstable
sstables-add_sstable s metadata = rw keep_none_removed

AllBelow-add_sstable :
    (s : ManifestState) (metadata : SsTableMetadata)
    → AllBelow (add_sstable s metadata).sstables (metadata.file_number + 1)
      ↔ AllAtMost s.sstables metadata.file_number
AllBelow-add_sstable s metadata =
    let Small = λ (t : SsTableMetadata). t.file_number < metadata.file_number + 1 in
    let AtMost = λ (t : SsTableMetadata). t.file_number ≤ metadata.file_number in
    let joined = s.sstables ++ metadata ∷ [] in
    (
      λ h.
          All-imp Small AtMost (λ t b. omega arith) s.sstables
            (All-append_left Small s.sstables (metadata ∷ [])
              (All-of_sort_by_number Small joined (rw sstables-add_sstable at h))),
      λ h. rw sstables-add_sstable (
          All-sort_by_number Small joined (
            All-append Small s.sstables (metadata ∷ [])
              (All-imp AtMost Small (λ t b. omega arith) s.sstables h) (omega arith, tt))),
    )

-- After adding a table the list is newest first and the next number is above all of it, exactly
-- when no live table has a higher number than the new one.
pub add_sstable-IsFresh :
    (s : ManifestState) (metadata : SsTableMetadata)
    → IsFresh (add_sstable s metadata) ↔ AllAtMost s.sstables metadata.file_number
unfolding add_sstable
add_sstable-IsFresh s metadata = (
  λ fresh. (AllBelow-add_sstable s metadata).0 fresh.next_is_new,
  λ h. record {
    descending =
        rw (sstables-add_sstable s metadata)
          (sort_by_number-IsDescending (s.sstables ++ metadata ∷ []));
    next_is_new = (AllBelow-add_sstable s metadata).1 h;
  },
)

-- After removing tables from a manifest with a positive next number, the list is newest first, the
-- next number is above all of it, and that number has not fallen.
pub remove_sstables-IsFresh :
    (s : ManifestState) (numbers : List ℕ)
    → 0 < s.next_file_number
    → IsFresh (remove_sstables s numbers)
      × (s.next_file_number ≤ (remove_sstables s numbers).next_file_number)
unfolding remove_sstables
remove_sstables-IsFresh s numbers h =
    let sorted =
      sort_by_number (keep (λ t. not (contains numbers t.file_number)) s.sstables ++ []) in
    (
      record {
        descending =
            sort_by_number-IsDescending
              (keep (λ t. not (contains numbers t.file_number)) s.sstables ++ []);
        next_is_new =
            All-imp (λ t. t.file_number ≤ max_file_number sorted (s.next_file_number - 1))
              (λ t. t.file_number < max_file_number sorted (s.next_file_number - 1) + 1)
              (λ t b. omega arith) sorted
              (AllAtMost-max_file_number sorted (s.next_file_number - 1));
      },
      omega (arith, le-max_file_number sorted (s.next_file_number - 1)),
    )

-- `removeSet.has` of a list of numbers, over the numbers of the tables.
abbrev pub has_number : List SsTableMetadata → ℕ → Bool
has_number [] n = false
has_number (t ∷ ts) n = t.file_number == n || has_number ts n

has_number-insert_by_number :
    (s : SsTableMetadata) (ts : List SsTableMetadata) (n : ℕ)
    → has_number (insert_by_number s ts) n ≡ (s.file_number == n || has_number ts n)
unfolding insert_by_number
has_number-insert_by_number s [] n = refl
has_number-insert_by_number s (t ∷ ts) n = ground (arith, has_number-insert_by_number s ts n)

has_number-sort_by_number :
    (ts : List SsTableMetadata) (n : ℕ) → has_number (sort_by_number ts) n ≡ has_number ts n
unfolding sort_by_number
has_number-sort_by_number [] n = refl
has_number-sort_by_number (t ∷ ts) n =
    ground
      (arith, has_number-insert_by_number t (sort_by_number ts) n, has_number-sort_by_number ts n)

has_number-append_one :
    (ts : List SsTableMetadata) (m : SsTableMetadata) (n : ℕ)
    → has_number (ts ++ m ∷ []) n ≡ (has_number ts n || m.file_number == n)
has_number-append_one [] m n = ground arith
has_number-append_one (t ∷ ts) m n = ground (arith, has_number-append_one ts m n)

has_number-keep :
    (removed : List ℕ) (ts : List SsTableMetadata) (n : ℕ)
    → has_number (keep (λ t. not (contains removed t.file_number)) ts) n
      ≡ (has_number ts n && not (contains removed n))
has_number-keep removed [] n = refl
has_number-keep removed (t ∷ ts) n = elim (Bool-cases (t.file_number == n)) [
  | inl e ↦ rw ((==_iff t.file_number n).0 e) (ground (arith, has_number-keep removed ts n))
  | inr e ↦ ground (arith, has_number-keep removed ts n)
]

-- The live numbers after an addition are those before it and the new one; after a removal, those
-- before it that are not removed.
pub live_numbers :
    (s : ManifestState) (metadata : SsTableMetadata) (numbers : List ℕ) (n : ℕ)
    → (has_number (add_sstable s metadata).sstables n
        ≡ (has_number s.sstables n || metadata.file_number == n))
      × (has_number (remove_sstables s numbers).sstables n
          ≡ (has_number s.sstables n && not (contains numbers n)))
unfolding add_sstable remove_sstables
live_numbers s metadata numbers n = (
  rw (has_number-sort_by_number, keep_none_removed) (has_number-append_one s.sstables metadata n),
  rw (has_number-sort_by_number, append-nil) (has_number-keep numbers s.sstables n),
)
