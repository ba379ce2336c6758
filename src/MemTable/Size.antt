-- ===== src/MemTable/Size.antt =====
-- src/storage/memtable/MemTable.ts: the byte count against the bytes of the entries.
use lsm_kv_store.Base.{
  ℕ, ◌+◌, ◌≡◌, refl, Bool, true, Option, none, some, List, [], ◌∷◌, arith, ap, ◌∙◌,
}
use lsm_kv_store.Base.Int.{ℤ, pos, ◌+ℤ◌, ◌-ℤ◌, int_laws}
use lsm_kv_store.Text.{Text, eq_of_compare}
use lsm_kv_store.Assoc.{IsSorted, upsert, find, find-Above, Above-trans}
use lsm_kv_store.Codec.{TextCodec}
use lsm_kv_store.SortedMap.Valid.{entries-set}
use lsm_kv_store.MemTable.{
  MemTableEntry, MemTable, get_entry, get_all_sorted, without_existing, calculate_entry_size, put,
  delete,
}
use lsm_kv_store.MemTable.Entries.{HasValidMap, get_entry-eq-find, stamped}

module _ {ℓ} {V : Type ℓ} (weight : Text → V → ℕ) where
  abbrev pub total : List (Text × V) → ℕ
  total [] = 0
  total ((k, v) ∷ l) = weight k v + total l

  abbrev pub weight_of : Text → Option V → ℕ
  weight_of k none = 0
  weight_of k (some v) = weight k v

  total-upsert :
      (k : Text) (v : V) (l : List (Text × V))
      → IsSorted l
      → total (upsert k v l) + weight_of k (find k l) ≡ total l + weight k v
  unfolding upsert find
  total-upsert k v [] s = omega arith
  total-upsert k v ((j, w) ∷ l) s =
      ground (arith, total-upsert k v l s.1, find-Above k l, Above-trans k j l, eq_of_compare k j)

-- Taking the old weight off once keeps the count exact; taking it off twice leaves it too low.
exact_after_put :
    (c : ℤ) (n old new next : ℕ)
    → c ≡ pos n
    → next + old ≡ n + new
    → c -ℤ pos old +ℤ pos new ≡ pos next
exact_after_put c n old new next e h = rw e (omega int_laws)

low_after_delete :
    (c : ℤ) (n old new next : ℕ)
    → c ≡ pos n
    → next + old ≡ n + new
    → c -ℤ pos old -ℤ pos old +ℤ pos new ≡ pos next -ℤ pos old
low_after_delete c n old new next e h = rw e (omega int_laws)

module _ ⦃codec : TextCodec⦄ where
  -- The bytes that the entries take.
  abbrev pub exact_size : MemTable → ℕ
  exact_size t = total calculate_entry_size (get_all_sorted t)

  abbrev pub existing_size : MemTable → Text → ℕ
  existing_size t key = weight_of calculate_entry_size key (get_entry t key)

  -- The count is exact.
  abbrev pub IsAccounted : MemTable → Type 0
  IsAccounted t = t.current_size ≡ pos (exact_size t)

  without_existing-eq :
      (t : MemTable) (key : Text)
      → without_existing t key ≡ t.current_size -ℤ pos (existing_size t key)
  unfolding without_existing
  without_existing-eq t key = on_entry (get_entry t key)
    where
      on_entry :
          (o : Option MemTableEntry)
          → elim o as (λ x. ℤ) [
            | none ↦ t.current_size
            | some e ↦ t.current_size -ℤ pos (calculate_entry_size key e)
          ]
            ≡ t.current_size -ℤ pos (weight_of calculate_entry_size key o)
      on_entry none = omega int_laws
      on_entry (some e) = refl

  current_size-put :
      (t : MemTable) (key value : Text) (deleted : Bool) (now : ℕ)
      → (put t key value deleted now).current_size
        ≡ t.current_size
          -ℤ pos (existing_size t key)
          +ℤ pos (calculate_entry_size key (stamped value deleted now))
  unfolding put
  current_size-put t key value deleted now =
      ap (λ (c : ℤ). c +ℤ pos (calculate_entry_size key (stamped value deleted now)))
        (without_existing-eq t key)

  exact_size-put :
      (t : MemTable) (key value : Text) (deleted : Bool) (now : ℕ)
      → HasValidMap t
      → exact_size (put t key value deleted now) + existing_size t key
        ≡ exact_size t + calculate_entry_size key (stamped value deleted now)
  exact_size-put t key value deleted now h = rw (get_entry-eq-find t key h) (
      unfold get_all_sorted in
      unfold put in
      rw (entries-set t.map key (stamped value deleted now) h) (
        total-upsert calculate_entry_size key (stamped value deleted now) (get_all_sorted t)
          h.sorted))

  -- On a memtable with a valid map and an exact byte count, put keeps the count equal to the bytes
  -- of the entries.
  pub put-IsAccounted :
      (t : MemTable) (key value : Text) (deleted : Bool) (now : ℕ)
      → HasValidMap t
      → IsAccounted t
      → IsAccounted (put t key value deleted now)
  put-IsAccounted t key value deleted now h a =
      current_size-put t key value deleted now
      ∙ exact_after_put _ _ _ _ _ a (exact_size-put t key value deleted now h)

  exact_size-delete :
      (t : MemTable) (key : Text) (now : ℕ)
      → HasValidMap t
      → exact_size (delete t key now) + existing_size t key
        ≡ exact_size t + calculate_entry_size key (stamped [] true now)
  unfolding delete get_entry get_all_sorted
  exact_size-delete t key now h =
      exact_size-put (record t { current_size = without_existing t key }) key [] true now h

  -- On a memtable with a valid map and an exact byte count, delete leaves a count that is the
  -- bytes of the entries less the size of the entry that the key had (0 if it had none).
  pub current_size-delete :
      (t : MemTable) (key : Text) (now : ℕ)
      → HasValidMap t
      → IsAccounted t
      → (delete t key now).current_size
        ≡ pos (exact_size (delete t key now)) -ℤ pos (existing_size t key)
  unfolding delete get_entry
  current_size-delete t key now h a =
      current_size-put (record t { current_size = without_existing t key }) key [] true now
      ∙ ap
          (λ (c : ℤ).
            c -ℤ pos (existing_size t key) +ℤ pos (calculate_entry_size key (stamped [] true now)))
          (without_existing-eq t key)
      ∙ low_after_delete _ _ _ _ _ a (exact_size-delete t key now h)
