-- ===== src/Tests/Samples.antt =====
-- Data that the tests share: a codec for ASCII text, and short keys.
use lsm_kv_store.Base.{ℕ, ◌≡◌, ◌<◌, refl, List, [], ◌∷◌, All, arith, ltb, if◌then◌else◌}
use lsm_kv_store.Text.{Text}
use lsm_kv_store.Codec.{TextCodec}

abbrev pub clip : List ℕ → List ℕ
clip [] = []
clip (x ∷ xs) = (if ltb x 128 then x else 0) ∷ clip xs

pub clip_bytes : (t : Text) → All (λ b. b < 256) (clip t)
clip_bytes [] = tt
clip_bytes (x ∷ xs) = (ground arith, clip_bytes xs)

abbrev pub IsAscii : Text → Type 0
IsAscii t = All (λ u. u < 128) t

pub clip_ascii : (t : Text) → IsAscii t → clip t ≡ t
clip_ascii [] h = refl
clip_ascii (x ∷ xs) h = ground (arith, clip_ascii xs h.1)

-- Code units below 128 are their own encoding; this codec writes 0 for any other.
instance abbrev pub ascii : TextCodec
ascii = record {
  encode = clip;
  decode = λ b. b;
  IsWellFormed = IsAscii;
  encode_bytes = clip_bytes;
  decode-encode = clip_ascii;
}

abbrev pub apple : Text
apple = 97 ∷ 112 ∷ []

abbrev pub berry : Text
berry = 98 ∷ []

abbrev pub cherry : Text
cherry = 99 ∷ 104 ∷ []

abbrev pub date : Text
date = 100 ∷ []
