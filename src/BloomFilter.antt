-- ===== src/BloomFilter.antt =====
-- src/storage/sstable/BloomFilter.ts: the filter that a table keeps of its keys. The two sizes that
-- `calculateOptimalParams` computes with floating-point logarithms are arguments of `create`. A
-- 32-bit number is the natural number that `>>> 0` would give.
pub mod Membership
pub mod Serialized
use lsm_kv_store.Base.{
  ℕ, zero, suc, ◌+◌, ◌*◌, ◌/◌, ◌%◌, ◌^◌, Bool, true, false, not, ◌&&◌, Option, none, some, List, [],
  ◌∷◌, ◌++◌, ltb, ◌==◌, if◌then◌else◌,
}
use lsm_kv_store.Text.{Text}

pub record BloomFilter : Type 0 where
  pub bits : List ℕ
  pub num_bits : ℕ
  pub num_hash_functions : ℕ

-- === the operators of the language on bits, from the lowest bit up ===

-- `b | (1 << o)`
unfoldable pub or_bit : ℕ → ℕ → ℕ
or_bit b zero = b / 2 * 2 + 1
or_bit b (suc o) = b % 2 + 2 * or_bit (b / 2) o

-- `(b & (1 << o)) !== 0`
unfoldable pub test_bit : ℕ → ℕ → Bool
test_bit b zero = b % 2 == 1
test_bit b (suc o) = test_bit (b / 2) o

-- `a ^ b`, over as many bits as the first argument says.
unfoldable pub xor_bits : ℕ → ℕ → ℕ → ℕ
xor_bits zero a b = 0
xor_bits (suc n) a b = (a + b) % 2 + 2 * xor_bits n (a / 2) (b / 2)

-- === hashes ===

-- `Math.imul` keeps the low 32 bits of the product.
unfoldable pub fnv1a_from : ℕ → Text → ℕ
unfolding xor_bits
fnv1a_from hash [] = hash
fnv1a_from hash (u ∷ text) = fnv1a_from (xor_bits 32 hash u * 16777619 % 2 ^ 32) text

abbrev pub fnv1a : Text → ℕ
fnv1a text = fnv1a_from 2166136261 text

-- `(hash << 5) + hash` is cut to 32 bits by the `^` that follows.
unfoldable pub djb2_from : ℕ → Text → ℕ
unfolding xor_bits
djb2_from hash [] = hash
djb2_from hash (u ∷ text) = djb2_from (xor_bits 32 ((hash * 32 + hash) % 2 ^ 32) u) text

abbrev pub djb2 : Text → ℕ
djb2 text = djb2_from 5381 text

unfoldable pub combined_hash : BloomFilter → ℕ → ℕ → ℕ → ℕ
combined_hash f hash1 hash2 index = (hash1 + index * hash2) % 2 ^ 32 % f.num_bits

-- === bits of the array ===

-- Out of range, a read is `undefined`, which tests as 0, and a write does nothing.
unfoldable pub byte_at : List ℕ → ℕ → ℕ
byte_at [] i = 0
byte_at (b ∷ bs) zero = b
byte_at (b ∷ bs) (suc i) = byte_at bs i

unfoldable pub set_byte : List ℕ → ℕ → ℕ → List ℕ
set_byte [] i o = []
set_byte (b ∷ bs) zero o = or_bit b o ∷ bs
set_byte (b ∷ bs) (suc i) o = b ∷ set_byte bs i o

unfoldable pub set_bit : List ℕ → ℕ → List ℕ
set_bit bits index = set_byte bits (index / 8) (index % 8)

unfoldable pub get_bit : List ℕ → ℕ → Bool
get_bit bits index = test_bit (byte_at bits (index / 8)) (index % 8)

-- === operations ===

-- `Math.ceil(numBits / 8)`
abbrev pub byte_size : ℕ → ℕ
byte_size num_bits = (num_bits + 7) / 8

unfoldable pub zeros : ℕ → List ℕ
zeros zero = []
zeros (suc n) = 0 ∷ zeros n

unfoldable pub create : ℕ → ℕ → BloomFilter
create num_bits num_hash_functions = record {
  bits = zeros (byte_size num_bits);
  num_bits = num_bits;
  num_hash_functions = num_hash_functions;
}

-- The loop of `add` with `n` rounds to go, from index `i`.
unfoldable pub add_rounds : BloomFilter → ℕ → ℕ → ℕ → ℕ → BloomFilter
add_rounds f hash1 hash2 zero i = f
add_rounds f hash1 hash2 (suc n) i =
    add_rounds (record f { bits = set_bit f.bits (combined_hash f hash1 hash2 i) }) hash1 hash2 n
      (i + 1)

unfoldable pub add : BloomFilter → Text → BloomFilter
unfolding add_rounds
add f key = add_rounds f (fnv1a key) (djb2 key) f.num_hash_functions 0

-- The loop of `mightContain`.
unfoldable pub test_rounds : BloomFilter → ℕ → ℕ → ℕ → ℕ → Bool
test_rounds f hash1 hash2 zero i = true
test_rounds f hash1 hash2 (suc n) i =
    let rest = test_rounds f hash1 hash2 n (i + 1) in
    if not (get_bit f.bits (combined_hash f hash1 hash2 i)) then false else rest

unfoldable pub might_contain : BloomFilter → Text → Bool
unfolding test_rounds
might_contain f key = test_rounds f (fnv1a key) (djb2 key) f.num_hash_functions 0

-- === the byte form ===

-- `writeUInt32BE`
abbrev pub u32_bytes : ℕ → List ℕ
u32_bytes n = n / 2 ^ 24 % 256 ∷ n / 2 ^ 16 % 256 ∷ n / 2 ^ 8 % 256 ∷ n % 256 ∷ []

-- `readUInt32BE`
abbrev pub u32_of : ℕ → ℕ → ℕ → ℕ → ℕ
u32_of a b c d = a * 2 ^ 24 + b * 2 ^ 16 + c * 2 ^ 8 + d

-- A copy into a buffer of zeros with room for `n` bytes.
unfoldable pub copied : ℕ → List ℕ → List ℕ
copied zero bs = []
copied (suc n) [] = 0 ∷ copied n []
copied (suc n) (b ∷ bs) = b ∷ copied n bs

-- `buffer.subarray(offset, offset + n)` of what stands from the offset on.
unfoldable pub subarray : ℕ → List ℕ → List ℕ
subarray zero bs = []
subarray (suc n) [] = []
subarray (suc n) (b ∷ bs) = b ∷ subarray n bs

-- A size that does not fit its 32 bits makes the write throw.
unfoldable pub serialize : BloomFilter → Option (List ℕ)
serialize f =
    if ltb f.num_bits (2 ^ 32) && ltb f.num_hash_functions (2 ^ 32)
    then some (
        u32_bytes f.num_bits
        ++ u32_bytes f.num_hash_functions
        ++ copied (byte_size f.num_bits) f.bits)
    else none

-- A buffer of fewer than eight bytes makes the reads throw.
unfoldable pub from_buffer : List ℕ → Option BloomFilter
from_buffer (a ∷ b ∷ c ∷ d ∷ e ∷ f ∷ g ∷ h ∷ rest) = some (record {
  bits = subarray (byte_size (u32_of a b c d)) rest;
  num_bits = u32_of a b c d;
  num_hash_functions = u32_of e f g h;
})
from_buffer short = none
