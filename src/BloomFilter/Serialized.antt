-- ===== src/BloomFilter/Serialized.antt =====
-- src/storage/sstable/BloomFilter.ts: the byte form of a filter, which a table file keeps.
use lsm_kv_store.Base.{
  ℕ, zero, suc, ◌/◌, ◌%◌, ◌^◌, ◌<◌, ◌≡◌, refl, ap, List, [], ◌∷◌, ◌++◌, some, arith, length, true,
  ltb,
}
use lsm_kv_store.BloomFilter.{
  BloomFilter, byte_size, u32_bytes, u32_of, copied, subarray, serialize, from_buffer,
}
use lsm_kv_store.BloomFilter.Membership.{IsSized}

u32_of-u32_bytes :
    (n : ℕ)
    → n < 2 ^ 32
    → u32_of (n / 2 ^ 24 % 256) (n / 2 ^ 16 % 256) (n / 2 ^ 8 % 256) (n % 256) ≡ n
u32_of-u32_bytes n h = omega arith

copied_exactly : (n : ℕ) (bs : List ℕ) → length bs ≡ n → copied n bs ≡ bs
unfolding copied
copied_exactly zero [] h = refl
copied_exactly zero (b ∷ bs) h = absurd (omega arith)
copied_exactly (suc n) [] h = absurd (omega arith)
copied_exactly (suc n) (b ∷ bs) h = ap (◌∷◌ b) (copied_exactly n bs (omega arith))

subarray_whole : (n : ℕ) (bs : List ℕ) → length bs ≡ n → subarray n bs ≡ bs
unfolding subarray
subarray_whole zero [] h = refl
subarray_whole zero (b ∷ bs) h = absurd (omega arith)
subarray_whole (suc n) [] h = refl
subarray_whole (suc n) (b ∷ bs) h = ap (◌∷◌ b) (subarray_whole n bs (omega arith))

-- A filter whose array has the size its bits ask for, and whose two sizes are below 2 ^ 32,
-- serializes, and the buffer reads back as the same filter.
pub from_buffer-serialize :
    (f : BloomFilter)
    → IsSized f
    → f.num_bits < 2 ^ 32
    → f.num_hash_functions < 2 ^ 32
    → (buffer : List ℕ) × (serialize f ≡ some buffer) × (from_buffer buffer ≡ some f)
unfolding serialize from_buffer
from_buffer-serialize f s b h = (
  u32_bytes f.num_bits ++ u32_bytes f.num_hash_functions ++ f.bits,
  (let bits_fit : ltb f.num_bits (2 ^ 32) ≡ true = ground arith in
      let hashes_fit : ltb f.num_hash_functions (2 ^ 32) ≡ true = ground arith in
      rw (bits_fit, hashes_fit, copied_exactly (byte_size f.num_bits) f.bits s.sized) refl),
  rw
      (
        u32_of-u32_bytes f.num_bits b,
        u32_of-u32_bytes f.num_hash_functions h,
        subarray_whole (byte_size f.num_bits) f.bits s.sized,
      )
      refl,
)
