-- ===== src/Bytes/Fields.antt =====
-- What was written reads back, before any rest.
use lsm_kv_store.Base.{
  ℕ, zero, suc, ◌+◌, ◌*◌, ◌/◌, ◌%◌, ◌^◌, ◌<◌, ◌≤◌, ◌≡◌, refl, ap, ◌∙◌, true, Option, none, some,
  List, [], ◌∷◌, ◌++◌, ltb, length, arith,
}
use lsm_kv_store.Text.{Text}
use lsm_kv_store.Codec.{TextCodec}
use lsm_kv_store.Bytes.{
  ◌>>=◌, ◌then_write◌, take, drop, u16_bytes, u32_bytes, u64_bytes, u32_of, read_u16, read_u32,
  read_u64, number_of_u64, text_of, read_text_16, read_text_32,
}

module _ {ℓ} {A : Type ℓ} where
  pub take-append : (xs ys : List A) → take (length xs) (xs ++ ys) ≡ xs
  take-append [] ys = refl
  take-append (x ∷ xs) ys = ap (◌∷◌ x) (take-append xs ys)

  pub drop-append : (xs ys : List A) → drop (length xs) (xs ++ ys) ≡ ys
  drop-append [] ys = refl
  drop-append (x ∷ xs) ys = drop-append xs ys

  pub length-take : (n : ℕ) (xs : List A) → n ≤ length xs → length (take n xs) ≡ n
  length-take zero xs h = refl
  length-take (suc n) [] h = absurd (omega arith)
  length-take (suc n) (x ∷ xs) h = ap suc (length-take n xs (omega arith))

pub read_u16-u16_bytes :
    (n : ℕ) (rest : List ℕ) → n < 2 ^ 16 → read_u16 (u16_bytes n ++ rest) ≡ some (n, rest)
unfolding read_u16
read_u16-u16_bytes n rest h =
    let e : n / 2 ^ 8 % 256 * 2 ^ 8 + n % 256 ≡ n = omega arith in rw e refl

pub u32_of-u32_bytes :
    (n : ℕ)
    → n < 2 ^ 32
    → u32_of (n / 2 ^ 24 % 256) (n / 2 ^ 16 % 256) (n / 2 ^ 8 % 256) (n % 256) ≡ n
u32_of-u32_bytes n h = omega arith

u32_of-low :
    (n : ℕ) → u32_of (n / 2 ^ 24 % 256) (n / 2 ^ 16 % 256) (n / 2 ^ 8 % 256) (n % 256) ≡ n % 2 ^ 32
u32_of-low n = omega arith

pub read_u32-u32_bytes :
    (n : ℕ) (rest : List ℕ) → n < 2 ^ 32 → read_u32 (u32_bytes n ++ rest) ≡ some (n, rest)
unfolding read_u32
read_u32-u32_bytes n rest h = rw (u32_of-u32_bytes n h) refl

-- A number that a float holds exactly.
pub read_u64-u64_bytes :
    (n : ℕ) (rest : List ℕ) → n < 2 ^ 53 → read_u64 (u64_bytes n ++ rest) ≡ some (n, rest)
unfolding read_u64 number_of_u64
read_u64-u64_bytes n rest h =
    let high = u32_of-u32_bytes (n / 2 ^ 32) (omega arith) in
    let whole : n / 2 ^ 32 * 2 ^ 32 + n % 2 ^ 32 ≡ n = omega arith in
    let small : ltb n (2 ^ 53) ≡ true = ground arith in rw (high, u32_of-low n, whole, small) refl

pub then_write-some :
    (a b : Option (List ℕ)) (c : List ℕ)
    → (a then_write b) ≡ some c
    → (x : List ℕ) × (y : List ℕ) × (a ≡ some x) × (b ≡ some y) × (c ≡ x ++ y)
then_write-some none b c h = absurd (cc h)
then_write-some (some x) none c h = absurd (cc h)
then_write-some (some x) (some y) c h = (x, y, refl, refl, cc h)

module _ ⦃codec : TextCodec⦄ where
  abbrev pub size : Text → ℕ
  size t = length (codec.encode t)

  text_of-encode :
      (t : Text) (rest : List ℕ)
      → codec.IsWellFormed t
      → text_of (size t, codec.encode t ++ rest) ≡ some (t, rest)
  text_of-encode t rest w =
      rw
        (
          take-append (codec.encode t) rest,
          drop-append (codec.encode t) rest,
          codec.decode-encode t w,
        )
        refl

  pub read_text_16-append :
      (t : Text) (rest : List ℕ)
      → codec.IsWellFormed t
      → size t < 2 ^ 16
      → read_text_16 (u16_bytes (size t) ++ codec.encode t ++ rest) ≡ some (t, rest)
  unfolding read_text_16
  read_text_16-append t rest w h =
      ap (λ o. o >>= text_of) (read_u16-u16_bytes (size t) (codec.encode t ++ rest) h)
      ∙ text_of-encode t rest w

  pub read_text_32-append :
      (t : Text) (rest : List ℕ)
      → codec.IsWellFormed t
      → size t < 2 ^ 32
      → read_text_32 (u32_bytes (size t) ++ codec.encode t ++ rest) ≡ some (t, rest)
  unfolding read_text_32
  read_text_32-append t rest w h =
      ap (λ o. o >>= text_of) (read_u32-u32_bytes (size t) (codec.encode t ++ rest) h)
      ∙ text_of-encode t rest w
