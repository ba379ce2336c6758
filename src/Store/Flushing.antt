-- ===== src/Store/Flushing.antt =====
-- src/storage/LSMStore.ts, `doFlush`: the awaits of a flush against what the store holds.
use lsm_kv_store.Base.{
  ℕ, ◌≡◌, refl, true, Option, none, some, List, [], ◌∷◌, Bool-cases, inl, inr, sym, ap, ◌∙◌, subst,
}
use lsm_kv_store.Text.{Text}
use lsm_kv_store.Assoc.{find}
use lsm_kv_store.Codec.{TextCodec}
use lsm_kv_store.SsTable.{Run, TableService}
use lsm_kv_store.MemTable
use lsm_kv_store.MemTable.{MemTable, MemTableEntry, new_table}
use lsm_kv_store.MemTable.Entries.{HasValidMap, get_entry-eq-find, get_all_sorted-IsSorted}
use lsm_kv_store.Wal
use lsm_kv_store.Wal.Ready.{IsReady, checkpoint-IsReady}
use lsm_kv_store.Store.{
  FlushStage, idle, building, recording, opening, truncating, finishing, SsTableState, LsmStore,
  first_hit, immutable_entry, fail_flush, flush_from, flush_step,
}
use lsm_kv_store.Store.View.{view_tables, view, IsNewest, IsWriting, IsWritten, IsAt, IsCoherent}

module _ (service : TableService) ⦃codec : TextCodec⦄ where
  open service use {contents, IsStorable, contents-open_file}

  hit_twice :
      (i rest : Option MemTableEntry)
      → first_hit service i (first_hit service i rest) ≡ first_hit service i rest
  hit_twice none rest = refl
  hit_twice (some e) rest = refl

  view_tables-newest :
      (run : Run) (ts : List (SsTableState service)) (key : Text)
      → IsNewest service run ts
      → first_hit service (find key run) (view_tables service ts key) ≡ view_tables service ts key
  unfolding view_tables
  view_tables-newest run [] key h = absurd h
  view_tables-newest run (t ∷ ts) key h =
      rw h (hit_twice (find key run) (view_tables service ts key))

  pub find-immutable :
      (imm : Option MemTable) (t : MemTable) (key : Text)
      → imm ≡ some t
      → HasValidMap t
      → find key (MemTable.get_all_sorted t) ≡ immutable_entry service imm key
  find-immutable imm t key e h =
      sym (get_entry-eq-find t key h)
      ∙ sym (ap (λ (o : Option MemTable). immutable_entry service o key) e)

  contents-of_flush :
      (n : ℕ) (run : Run) (t : MemTable)
      → HasValidMap t
      → run ≡ MemTable.get_all_sorted t
      → IsStorable run
      → contents (service.open_file n run) ≡ MemTable.get_all_sorted t
  contents-of_flush n run t h e k =
      contents-open_file n run (rw e (get_all_sorted-IsSorted t h)) k ∙ e

  -- The run that the next await opens, if it opens one, is storable.
  abbrev pub OpensStorable : FlushStage → Type 0
  OpensStorable (opening m run) = IsStorable run
  OpensStorable stage = Unit

  flush_from-view :
      (s : LsmStore service) (now : ℕ) (stage : FlushStage) (key : Text)
      → IsAt service stage s
      → OpensStorable stage
      → view service (flush_from service s now stage) key ≡ view service s key
  flush_from-view s now idle key h k = refl
  flush_from-view s now (building n run) key h k = refl
  flush_from-view s now (recording m run) key h k = refl
  flush_from-view s now (opening m run) key h k =
      let hit =
        ap (find key) (contents-of_flush m.file_number run h.table h.valid h.run_of k)
        ∙ find-immutable s.immutable h.table key h.held h.valid in
      unfold view_tables in
      rw hit (
        ap (first_hit service (MemTable.get_entry s.active key)) (
          hit_twice (immutable_entry service s.immutable key) (view_tables service s.sstables key)))
  flush_from-view s now truncating key h k = elim (Bool-cases (Wal.checkpoint s.wal now).1) [
    | inl e ↦ rw e
    | inr e ↦ rw e (unfold fail_flush in refl)
  ]
  flush_from-view s now finishing key h k =
      ap (first_hit service (MemTable.get_entry s.active key)) (
        sym (
          rw (find-immutable s.immutable h.table key h.held h.valid) at
            (view_tables-newest (MemTable.get_all_sorted h.table) s.sstables key h.newest)))

  -- On a coherent store, an await of a flush leaves every key with the entry that it had, also
  -- when the truncation of the log fails; this where the run that the await opens, if it opens
  -- one, is storable.
  pub flush_step-view :
      (s : LsmStore service) (now : ℕ) (key : Text)
      → IsCoherent service s
      → OpensStorable s.stage
      → view service (flush_step service s now) key ≡ view service s key
  unfolding flush_step
  flush_step-view s now key h k = flush_from-view s now s.stage key h.at_stage k

  IsWriting-kept :
      (s t : LsmStore service) (run : Run)
      → t.immutable ≡ s.immutable
      → t.flushing ≡ s.flushing
      → IsWriting service s run
      → IsWriting service t run
  IsWriting-kept s t run i f h = record {
    table = h.table;
    held = i ∙ h.held;
    valid = h.valid;
    run_of = h.run_of;
    busy = f ∙ h.busy;
  }

  IsWritten-kept :
      (s t : LsmStore service)
      → t.immutable ≡ s.immutable
      → t.flushing ≡ s.flushing
      → t.sstables ≡ s.sstables
      → IsWritten service s
      → IsWritten service t
  IsWritten-kept s t i f ts h = record {
    table = h.table;
    held = i ∙ h.held;
    valid = h.valid;
    newest = rw ts h.newest;
    busy = f ∙ h.busy;
  }

  -- The stage speaks of the memtable being written, the flag and the tables only.
  pub IsAt-kept :
      (stage : FlushStage) (s t : LsmStore service)
      → t.immutable ≡ s.immutable
      → t.flushing ≡ s.flushing
      → t.sstables ≡ s.sstables
      → IsAt service stage s
      → IsAt service stage t
  IsAt-kept idle s t i f ts h = (f ∙ h.0, i ∙ h.1)
  IsAt-kept (building n run) s t i f ts h = IsWriting-kept s t run i f h
  IsAt-kept (recording m run) s t i f ts h = IsWriting-kept s t run i f h
  IsAt-kept (opening m run) s t i f ts h = IsWriting-kept s t run i f h
  IsAt-kept truncating s t i f ts h = IsWritten-kept s t i f ts h
  IsAt-kept finishing s t i f ts h = IsWritten-kept s t i f ts h

  flush_from-IsAt :
      (s : LsmStore service) (now : ℕ) (stage : FlushStage)
      → s.stage ≡ stage
      → IsAt service stage s
      → OpensStorable stage
      → (Wal.checkpoint s.wal now).1 ≡ true
      → IsAt service (flush_from service s now stage).stage (flush_from service s now stage)
  flush_from-IsAt s now idle e h k c = subst (λ stage. IsAt service stage s) (sym e) h
  flush_from-IsAt s now (building n run) e h k c = IsWriting-kept s _ run refl refl h
  flush_from-IsAt s now (recording m run) e h k c = IsWriting-kept s _ run refl refl h
  flush_from-IsAt s now (opening m run) e h k c = record {
    table = h.table;
    held = h.held;
    valid = h.valid;
    newest = contents-of_flush m.file_number run h.table h.valid h.run_of k;
    busy = h.busy;
  }
  flush_from-IsAt s now truncating e h k c =
      rw c (record {
        table = h.table;
        held = h.held;
        valid = h.valid;
        newest = h.newest;
        busy = h.busy;
      })
  flush_from-IsAt s now finishing e h k c = (refl, refl)

  active-flush_from :
      (s : LsmStore service) (now : ℕ) (stage : FlushStage)
      → (flush_from service s now stage).active ≡ s.active
  active-flush_from s now truncating = elim (Bool-cases (Wal.checkpoint s.wal now).1) [
    | inl e ↦ rw e
    | inr e ↦ rw e (unfold fail_flush in refl)
  ]
  active-flush_from s now stage = refl

  -- While the truncation of the log succeeds, a flush keeps the store coherent.
  pub flush_step-IsCoherent :
      (s : LsmStore service) (now : ℕ)
      → IsCoherent service s
      → OpensStorable s.stage
      → (Wal.checkpoint s.wal now).1 ≡ true
      → IsCoherent service (flush_step service s now)
  unfolding flush_step
  flush_step-IsCoherent s now h k c = record {
    active_valid = rw active-flush_from h.active_valid;
    at_stage = flush_from-IsAt s now s.stage refl h.at_stage k c;
  }

  flush_from-kept :
      (s : LsmStore service) (now : ℕ) (stage : FlushStage)
      → IsReady s.wal
      → IsReady (flush_from service s now stage).wal
        × ((flush_from service s now stage).initialized ≡ s.initialized)
  flush_from-kept s now truncating h =
      let (done, ready) = checkpoint-IsReady s.wal now h in rw done (ready, refl)
  flush_from-kept s now idle h = (h, refl)
  flush_from-kept s now stage h = (h, refl)

  -- With a log that is ready, every await of a flush leaves it ready.
  pub flush_step-kept :
      (s : LsmStore service) (now : ℕ)
      → IsReady s.wal
      → IsReady (flush_step service s now).wal
        × ((flush_step service s now).initialized ≡ s.initialized)
  unfolding flush_step
  flush_step-kept s now h = flush_from-kept s now s.stage h
