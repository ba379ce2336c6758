-- ===== src/Store/Swapping.antt =====
-- src/storage/LSMStore.ts, `maybeFlush` and `triggerFlush`: the start of a flush, where the memtables
-- are swapped.
use lsm_kv_store.Base.{
  ℕ, ◌≡◌, refl, Bool, true, false, Option, none, some, List, [], ◌∷◌, if◌then◌else◌, Bool-cases,
  inl, inr, sym, ap, ◌∙◌, subst, not, ◌⊎◌,
}
use lsm_kv_store.Text.{Text}
use lsm_kv_store.Assoc.{find}
use lsm_kv_store.Codec.{TextCodec}
use lsm_kv_store.SsTable.{Run, TableService}
use lsm_kv_store.Manifest.{ManifestState}
use lsm_kv_store.MemTable
use lsm_kv_store.MemTable.{MemTable, MemTableEntry, new_table}
use lsm_kv_store.MemTable.Entries.{HasValidMap, new_table-HasValidMap, get_entry-new_table}
use lsm_kv_store.Store.{
  FlushStage, idle, building, recording, opening, truncating, finishing, SsTableState, LsmStore,
  first_hit, immutable_entry, start_flush, trigger_flush, maybe_flush,
}
use lsm_kv_store.Store.View.{view_tables, view, IsAt, IsCoherent}
use lsm_kv_store.Store.Flushing.{find-immutable}

module _ (service : TableService) ⦃codec : TextCodec⦄ where
  start_flush-IsCoherent :
      (s : LsmStore service) (run : Run) (t : MemTable)
      → s.immutable ≡ some t
      → HasValidMap t
      → HasValidMap s.active
      → s.flushing ≡ true
      → s.stage ≡ idle
      → run ≡ MemTable.get_all_sorted t
      → IsCoherent service (start_flush service s run)
  start_flush-IsCoherent s [] t i v a f e r = record {
    active_valid = a;
    at_stage =
        subst (λ stage. IsAt service stage (record s { immutable = none; flushing = false }))
          (sym e) (refl, refl);
  }
  start_flush-IsCoherent s (x ∷ run) t i v a f e r = record {
    active_valid = a;
    at_stage = record { table = t; held = i; valid = v; run_of = r; busy = f };
  }

  -- What the memtables answer for a key, over an answer for where they have none.
  abbrev pub held_over : LsmStore service → Text → Option MemTableEntry → Option MemTableEntry
  held_over s key rest =
      first_hit service (MemTable.get_entry s.active key)
        (first_hit service (immutable_entry service s.immutable key) rest)

  start_flush-held :
      (s : LsmStore service) (run : Run) (t : MemTable) (key : Text) (rest : Option MemTableEntry)
      → s.immutable ≡ some t
      → HasValidMap t
      → run ≡ MemTable.get_all_sorted t
      → held_over (start_flush service s run) key rest ≡ held_over s key rest
  start_flush-held s [] t key rest i v r =
      let nothing : none ≡ immutable_entry service s.immutable key =
        unfold find in ap (find key) r ∙ find-immutable service s.immutable t key i v in
      ap
        (λ (o : Option MemTableEntry).
          first_hit service (MemTable.get_entry s.active key) (first_hit service o rest))
        nothing
  start_flush-held s (x ∷ run) t key rest i v r = refl

  -- Where nothing is immutable, swapping the memtables leaves every key with the entry it had.
  trigger_flush-held :
      (s : LsmStore service) (key : Text) (rest : Option MemTableEntry)
      → HasValidMap s.active
      → s.immutable ≡ none
      → held_over (trigger_flush service s) key rest ≡ held_over s key rest
  unfolding trigger_flush
  trigger_flush-held s key rest v i =
      start_flush-held _ (MemTable.get_all_sorted s.active) s.active key rest refl v refl
      ∙ rw get_entry-new_table (
          ap
            (λ (o : Option MemTable).
              first_hit service (MemTable.get_entry s.active key)
                (first_hit service (immutable_entry service o key) rest))
            (sym i))

  -- The tables that the store, the manifest and the disk hold.
  abbrev pub tables_of :
      LsmStore service → List (SsTableState service) × ManifestState × List (ℕ × Run)
  tables_of s = (s.sstables, s.manifest, s.files)

  tables_of-start_flush :
      (s : LsmStore service) (run : Run) → tables_of (start_flush service s run) ≡ tables_of s
  tables_of-start_flush s [] = refl
  tables_of-start_flush s (e ∷ run) = refl

  tables_of-trigger_flush :
      (s : LsmStore service) → tables_of (trigger_flush service s) ≡ tables_of s
  unfolding trigger_flush
  tables_of-trigger_flush s = tables_of-start_flush _ (MemTable.get_all_sorted s.active)

  trigger_flush-IsCoherent :
      (s : LsmStore service)
      → HasValidMap s.active
      → s.stage ≡ idle
      → IsCoherent service (trigger_flush service s)
  unfolding trigger_flush
  trigger_flush-IsCoherent s v e =
      start_flush-IsCoherent _ (MemTable.get_all_sorted s.active) s.active refl v
        (new_table-HasValidMap s.mem_table_size_limit) refl e refl

  pub quiet :
      (s : LsmStore service) (stage : FlushStage)
      → IsAt service stage s
      → s.flushing ≡ false
      → (stage ≡ idle) × (s.immutable ≡ none)
  quiet s idle h f = (refl, h.1)
  quiet s (building n run) h f = absurd (cc (h.busy, f))
  quiet s (recording m run) h f = absurd (cc (h.busy, f))
  quiet s (opening m run) h f = absurd (cc (h.busy, f))
  quiet s truncating h f = absurd (cc (h.busy, f))
  quiet s finishing h f = absurd (cc (h.busy, f))

  maybe_flush_cases :
      (s : LsmStore service)
      → (maybe_flush service s ≡ s)
        ⊎ ((s.flushing ≡ false) × (maybe_flush service s ≡ trigger_flush service s))
  unfolding maybe_flush
  maybe_flush_cases s = elim (Bool-cases (MemTable.is_full s.active)) [
    | inr e ↦ inl (rw e)
    | inl e ↦ elim (Bool-cases s.flushing) [
      | inl f ↦ inl (
          ap
            (λ (b : Bool).
              if not (MemTable.is_full s.active)
              then s
              else if b
              then s
              else trigger_flush service s)
            f
          ∙ rw e)
      | inr f ↦ inr (
        f,
        ap
              (λ (b : Bool).
                if not (MemTable.is_full s.active)
                then s
                else if b
                then s
                else trigger_flush service s)
              f
            ∙ rw e,
      )
    ]
  ]

  pub tables_of-maybe_flush :
      (s : LsmStore service) → tables_of (maybe_flush service s) ≡ tables_of s
  tables_of-maybe_flush s = elim (maybe_flush_cases s) [
    | inl e ↦ rw e refl
    | inr (f, e) ↦ rw e (tables_of-trigger_flush s)
  ]

  -- A check for a full memtable leaves the memtables with the same answers.
  pub maybe_flush-held :
      (s : LsmStore service) (key : Text) (rest : Option MemTableEntry)
      → IsCoherent service s
      → held_over (maybe_flush service s) key rest ≡ held_over s key rest
  maybe_flush-held s key rest h = elim (maybe_flush_cases s) [
    | inl e ↦ rw e refl
    | inr (f, e) ↦
        let (_, none_held) = quiet s s.stage h.at_stage f in
        rw e (trigger_flush-held s key rest h.active_valid none_held)
  ]

  maybe_flush-IsCoherent :
      (s : LsmStore service) → IsCoherent service s → IsCoherent service (maybe_flush service s)
  maybe_flush-IsCoherent s h = elim (maybe_flush_cases s) [
    | inl e ↦ rw e h
    | inr (f, e) ↦
        let (at, _) = quiet s s.stage h.at_stage f in
        rw e (trigger_flush-IsCoherent s h.active_valid at)
  ]

  -- On a coherent store, a check for a full memtable, whether or not it starts a flush, leaves
  -- every key with the entry that it had and the store coherent.
  pub maybe_flush_lem :
      (s : LsmStore service)
      → IsCoherent service s
      → ((key : Text) → view service (maybe_flush service s) key ≡ view service s key)
        × IsCoherent service (maybe_flush service s)
  maybe_flush_lem s h = (
    λ key.
        ap
          (λ (ts : List (SsTableState service)).
            held_over (maybe_flush service s) key (view_tables service ts key))
          (ap (λ (x : List (SsTableState service) × ManifestState × List (ℕ × Run)). x.0)
            (tables_of-maybe_flush s))
        ∙ maybe_flush-held s key (view_tables service s.sstables key) h,
    maybe_flush-IsCoherent s h,
  )

  start_flush-kept :
      (s : LsmStore service) (run : Run)
      → ((start_flush service s run).wal ≡ s.wal)
        × ((start_flush service s run).initialized ≡ s.initialized)
  start_flush-kept s [] = (refl, refl)
  start_flush-kept s (e ∷ run) = (refl, refl)

  -- A swap of memtables touches neither the log nor the flag of an initialized store.
  pub maybe_flush-kept :
      (s : LsmStore service)
      → ((maybe_flush service s).wal ≡ s.wal)
        × ((maybe_flush service s).initialized ≡ s.initialized)
  maybe_flush-kept s = elim (maybe_flush_cases s) [
    | inl e ↦ rw e (refl, refl)
    | inr (f, e) ↦
        rw e (unfold trigger_flush in start_flush-kept _ (MemTable.get_all_sorted s.active))
  ]
