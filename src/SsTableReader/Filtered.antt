-- ===== src/SsTableReader/Filtered.antt =====
-- src/storage/sstable/SSTableReader.ts: the filter never denies a key of the run.
use lsm_kv_store.Base.{
  All, Option-cases, ◌⊎◌, map, All, ℕ, ◌≡◌, refl, ap, ◌∙◌, true, none, some, List, [], ◌∷◌, ◌++◌,
  Bool-cases, inl, inr,
}
use lsm_kv_store.Text.{Text, compare_cases, eq_of_compare}
use lsm_kv_store.Codec.{TextCodec}
use lsm_kv_store.Assoc.{IsSorted, find}
use lsm_kv_store.MemTable.{MemTableEntry}
use lsm_kv_store.SsTable.{Run}
use lsm_kv_store.SsTableSerializer.{IndexEntry}
use lsm_kv_store.BloomFilter
use lsm_kv_store.BloomFilter.{BloomFilter, might_contain}
use lsm_kv_store.BloomFilter.Membership.{IsSized, add_all, might_contain-add_all}
use lsm_kv_store.SsTableWriter.{add_keys}
use lsm_kv_store.SsTableSerializer.RoundTrip.{IsExactEntry}
use lsm_kv_store.SsTableReader.{may_contain, is_in_range}
use lsm_kv_store.SsTableReader.Search.{eq_text-lt, eq_text-eq, eq_text-gt}
use lsm_kv_store.SsTableReader.Lookup.{kept_open, opened, opened-eq-kept_open, out_of_range}

module _ ⦃codec : TextCodec⦄ where
  find-split :
      (key : Text) (run : Run) (e : MemTableEntry)
      → find key run ≡ some e
      → (before : Run) × (after : Run) × (run ≡ before ++ ((key, e) ∷ after))
  unfolding find
  find-split key [] e h = absurd (cc h)
  find-split key ((k, d) ∷ run) e h = elim (compare_cases key k) [
    | inl low ↦
        let (before, after, split) = find-split key run e (rw (eq_text-lt key k low) at h) in
        ((k, d) ∷ before, after, ap (◌∷◌ (k, d)) split)
    | inr (inr high) ↦
        let (before, after, split) = find-split key run e (rw (eq_text-gt key k high) at h) in
        ((k, d) ∷ before, after, ap (◌∷◌ (k, d)) split)
    | inr (inl same) ↦
        let found : some d ≡ some e = rw (eq_text-eq key k same) at h in
        let key_same = eq_of_compare key k same in ([], run, cc (key_same, found))
  ]

  add_keys-eq : (f : BloomFilter) (run : Run) → add_keys f run ≡ add_all f (map (λ z. z.0) run)
  unfolding add_keys add_all
  add_keys-eq f [] = refl
  add_keys-eq f (z ∷ run) = add_keys-eq (BloomFilter.add f z.0) run

  add_keys-append :
      (f : BloomFilter) (before after : Run) (key : Text) (e : MemTableEntry)
      → add_keys f (before ++ ((key, e) ∷ after))
        ≡ add_all f (map (λ z. z.0) before ++ (key ∷ map (λ z. z.0) after))
  unfolding add_keys add_all
  add_keys-append f [] after key e = add_keys-eq (BloomFilter.add f key) after
  add_keys-append f (z ∷ before) after key e =
      add_keys-append (BloomFilter.add f z.0) before after key e

  may_contain-kept_open :
      (key k : Text) (e : MemTableEntry) (run : Run) (region rest : List ℕ)
      (index : List IndexEntry) (f : BloomFilter)
      → IsSorted ((k, e) ∷ run)
      → IsSized f
      → (may_contain (kept_open k run region rest index (some (add_keys f ((k, e) ∷ run)))) key
          ≡ true)
        ⊎ (find key ((k, e) ∷ run) ≡ none)
  unfolding may_contain
  may_contain-kept_open key k e run region rest index f s sized =
      let whole = (k, e) ∷ run in
      let filter = add_keys f whole in
      elim (Option-cases (find key whole)) [
        | inl absent ↦ inr absent
        | inr (d, found) ↦
            elim (Bool-cases (is_in_range (kept_open k run region rest index (some filter)) key)) [
              | inr outside ↦
                  inr (out_of_range key k e run region rest index (some filter) s outside)
              | inl inside ↦
                  let (before, after, split) = find-split key whole d found in
                  let claimed : might_contain filter key ≡ true =
                    ap (λ z. might_contain (add_keys f z) key) split
                    ∙ ap (λ z. might_contain z key) (add_keys-append f before after key d)
                    ∙ might_contain-add_all f (map (λ z. z.0) before) key (map (λ z. z.0) after)
                        sized in
                  inl (rw (inside, claimed) refl)
            ]
      ]

  -- On a file whose filter has at least one bit, an array of the size its bits ask for, and was
  -- given all keys of a sorted run, mayContain of a key is true or the run does not have the key;
  -- this where the texts of the run survive the encoding and its time stamps are below 2 ^ 53.
  pub may_contain-or-absent :
      (key k : Text) (e : MemTableEntry) (run : Run) (region rest : List ℕ)
      (index : List IndexEntry) (f : BloomFilter)
      → IsSorted ((k, e) ∷ run)
      → All IsExactEntry ((k, e) ∷ run)
      → IsSized f
      → (may_contain (opened k run region rest index (some (add_keys f ((k, e) ∷ run)))) key ≡ true)
        ⊎ (find key ((k, e) ∷ run) ≡ none)
  may_contain-or-absent key k e run region rest index f s x sized =
      rw (opened-eq-kept_open k e run region rest index (some (add_keys f ((k, e) ∷ run))) x)
        (may_contain-kept_open key k e run region rest index f s sized)
