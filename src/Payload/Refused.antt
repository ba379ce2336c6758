-- ===== src/Payload/Refused.antt =====
-- Fields that do not fit: a write that throws makes the whole payload throw.
use lsm_kv_store.Base.{
  ℕ, suc, ◌^◌, ◌≡◌, refl, ap, false, ◌&&◌, Option, none, some, List, [], ◌∷◌, ltb, length, arith,
  Bool-cases, inl, inr,
}
use lsm_kv_store.Text.{Text}
use lsm_kv_store.Codec.{TextCodec}
use lsm_kv_store.Bytes.{◌then_write◌, write_u32, write_text_16, write_text_32}
use lsm_kv_store.Wal.{fits_16, fits_32, fits_pairs}
use lsm_kv_store.Payload.{write_pairs}
use lsm_kv_store.Payload.Fields.{keys_of, values_of}

pub then_write-none : (a b : Option (List ℕ)) → b ≡ none → (a then_write b) ≡ none
then_write-none none b h = refl
then_write-none (some a) b h = rw h refl

pub write_u32-none : (n : ℕ) → ltb n (2 ^ 32) ≡ false → write_u32 n ≡ none
unfolding write_u32
write_u32-none n h = rw h refl

module _ ⦃codec : TextCodec⦄ where
  pub write_text_16-none : (t : Text) → fits_16 t ≡ false → write_text_16 t ≡ none
  unfolding write_text_16
  write_text_16-none t h = rw h refl

  pub write_text_32-none : (t : Text) → fits_32 t ≡ false → write_text_32 t ≡ none
  unfolding write_text_32
  write_text_32-none t h = rw h refl

  two_texts-none :
      (k v : Text) (more : Option (List ℕ))
      → (fits_16 k && fits_32 v) ≡ false
      → (write_text_16 k then_write write_text_32 v then_write more) ≡ none
  two_texts-none k v more h = elim (Bool-cases (fits_16 k)) [
    | inr no_key ↦ rw (write_text_16-none k no_key) refl
    | inl key ↦
        let no_value : fits_32 v ≡ false = ground arith in
        then_write-none (write_text_16 k) (write_text_32 v then_write more)
          (rw (write_text_32-none v no_value) refl)
  ]

  pub write_pairs-none : (ks vs : List Text) → fits_pairs ks vs ≡ false → write_pairs ks vs ≡ none
  unfolding write_pairs
  write_pairs-none [] vs h = absurd (cc h)
  write_pairs-none (k ∷ ks) [] h = refl
  write_pairs-none (k ∷ ks) (v ∷ vs) h = elim (Bool-cases (fits_16 k && fits_32 v)) [
    | inr unfit ↦ two_texts-none k v (write_pairs ks vs) unfit
    | inl both ↦
        let rest : fits_pairs ks vs ≡ false = ground arith in
        then_write-none (write_text_16 k) (write_text_32 v then_write write_pairs ks vs)
          (then_write-none (write_text_32 v) (write_pairs ks vs) (write_pairs-none ks vs rest))
  ]

  pub length-keys_of : (pairs : List (Text × Text)) → length (keys_of pairs) ≡ length pairs
  length-keys_of [] = refl
  length-keys_of (p ∷ pairs) = ap suc (length-keys_of pairs)

  pub length-values_of : (pairs : List (Text × Text)) → length (values_of pairs) ≡ length pairs
  length-values_of [] = refl
  length-values_of (p ∷ pairs) = ap suc (length-values_of pairs)
