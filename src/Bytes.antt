-- ===== src/Bytes.antt =====
-- Node's Buffer as a list of bytes. A reader takes the bytes from the current offset on, and
-- returns what it read and the bytes after it; it is none where the read is out of range and
-- throws. A writer is none where the number does not fit and the write throws.
pub mod Fields
use lsm_kv_store.Base.{
  ℕ, zero, suc, ◌+◌, ◌-◌, ◌*◌, ◌/◌, ◌%◌, ◌^◌, Bool, true, false, ◌&&◌, ◌||◌, Option, none, some,
  List, [], ◌∷◌, ◌++◌, ltb, ◌==◌, length, if◌then◌else◌,
}
use lsm_kv_store.Text.{Text}
use lsm_kv_store.Codec.{TextCodec}

abbrev pub Reader : Type 0 → Type 0
Reader A = List ℕ → Option (A × List ℕ)

infixl 5 ◌>>=◌
abbrev pub ◌>>=◌ {ℓ κ} : {A : Type ℓ} {B : Type κ} → Option A → (A → Option B) → Option B
none >>= f = none
some a >>= f = f a

module _ {ℓ} {A : Type ℓ} where
  -- `subarray(0, n)` and `subarray(n)`: past the end there is nothing.
  abbrev pub take : ℕ → List A → List A
  take zero xs = []
  take (suc n) [] = []
  take (suc n) (x ∷ xs) = x ∷ take n xs

  abbrev pub drop : ℕ → List A → List A
  drop zero xs = xs
  drop (suc n) [] = []
  drop (suc n) (x ∷ xs) = drop n xs

-- === numbers, the highest byte first ===

abbrev pub u16_bytes : ℕ → List ℕ
u16_bytes n = n / 2 ^ 8 % 256 ∷ n % 256 ∷ []

abbrev pub u32_bytes : ℕ → List ℕ
u32_bytes n = n / 2 ^ 24 % 256 ∷ n / 2 ^ 16 % 256 ∷ n / 2 ^ 8 % 256 ∷ n % 256 ∷ []

abbrev pub u64_bytes : ℕ → List ℕ
u64_bytes n = u32_bytes (n / 2 ^ 32) ++ u32_bytes n

abbrev pub u32_of : ℕ → ℕ → ℕ → ℕ → ℕ
u32_of a b c d = a * 2 ^ 24 + b * 2 ^ 16 + c * 2 ^ 8 + d

unfoldable pub read_u8 : Reader ℕ
read_u8 (a ∷ bs) = some (a, bs)
read_u8 [] = none

unfoldable pub read_u16 : Reader ℕ
read_u16 (a ∷ b ∷ bs) = some (a * 2 ^ 8 + b, bs)
read_u16 short = none

unfoldable pub read_u32 : Reader ℕ
read_u32 (a ∷ b ∷ c ∷ d ∷ bs) = some (u32_of a b c d, bs)
read_u32 short = none

-- `Number` of a 64-bit integer: a float has 53 bits, and what is below them is rounded, a half to
-- the even neighbour.
unfoldable pub rounded : ℕ → ℕ → ℕ
rounded n unit =
    let q = n / unit in
    let r = n % unit in
    if ltb unit (2 * r) || (unit == 2 * r && q % 2 == 1) then (q + 1) * unit else q * unit

unfoldable pub number_from : ℕ → ℕ → ℕ → ℕ
unfolding rounded
number_from zero n unit = rounded n unit
number_from (suc bits) n unit =
    let wider = number_from bits n (2 * unit) in
    if ltb (n / unit) (2 ^ 53) then rounded n unit else wider

unfoldable pub number_of_u64 : ℕ → ℕ
unfolding number_from
number_of_u64 n = if ltb n (2 ^ 53) then n else number_from 11 n 1

unfoldable pub read_u64 : Reader ℕ
unfolding number_of_u64
read_u64 (a ∷ b ∷ c ∷ d ∷ e ∷ f ∷ g ∷ h ∷ bs) =
    some (number_of_u64 (u32_of a b c d * 2 ^ 32 + u32_of e f g h), bs)
read_u64 short = none

unfoldable pub write_u16 : ℕ → Option (List ℕ)
write_u16 n = if ltb n (2 ^ 16) then some (u16_bytes n) else none

unfoldable pub write_u32 : ℕ → Option (List ℕ)
write_u32 n = if ltb n (2 ^ 32) then some (u32_bytes n) else none

unfoldable pub write_u64 : ℕ → Option (List ℕ)
write_u64 n = if ltb n (2 ^ 64) then some (u64_bytes n) else none

-- One write after another.
infixr 6 ◌then_write◌
abbrev pub ◌then_write◌ : Option (List ℕ) → Option (List ℕ) → Option (List ℕ)
none then_write b = none
some a then_write none = none
some a then_write some b = some (a ++ b)

-- === texts after their byte length ===

module _ ⦃codec : TextCodec⦄ where
  unfoldable pub write_text_16 : Text → Option (List ℕ)
  unfolding write_u16
  write_text_16 t = write_u16 (length (codec.encode t)) then_write some (codec.encode t)

  unfoldable pub write_text_32 : Text → Option (List ℕ)
  unfolding write_u32
  write_text_32 t = write_u32 (length (codec.encode t)) then_write some (codec.encode t)

  -- `toString('utf8', offset, offset + n)`, and the offset moved on.
  abbrev pub text_of : ℕ × List ℕ → Option (Text × List ℕ)
  text_of (n, bs) = some (codec.decode (take n bs), drop n bs)

  unfoldable pub read_text_16 : Reader Text
  unfolding read_u16
  read_text_16 bs = read_u16 bs >>= text_of

  unfoldable pub read_text_32 : Reader Text
  unfolding read_u32
  read_text_32 bs = read_u32 bs >>= text_of
