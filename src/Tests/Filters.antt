-- ===== src/Tests/Filters.antt =====
-- The Bloom filter on concrete keys.
use lsm_kv_store.Base.{ℕ, ◌≡◌, refl, true, false, some, List, [], ◌∷◌, ◌++◌, arith}
use lsm_kv_store.BloomFilter
use lsm_kv_store.BloomFilter.{BloomFilter, create, add, might_contain, serialize, from_buffer}
use lsm_kv_store.BloomFilter.Membership.{IsSized, create-IsSized, add_all, might_contain-add_all}
use lsm_kv_store.BloomFilter.Serialized.{from_buffer-serialize}
use lsm_kv_store.Tests.Samples.{apple, berry, cherry, date}

-- The hashes of "b"; the first is that of the published test vectors.
fnv1a_b : BloomFilter.fnv1a berry ≡ 3876335077
unfolding BloomFilter.fnv1a_from BloomFilter.xor_bits
fnv1a_b = refl

djb2_b : BloomFilter.djb2 berry ≡ 177607
unfolding BloomFilter.djb2_from BloomFilter.xor_bits
djb2_b = refl

abbrev filter : BloomFilter
filter = create 40 3

filter-IsSized : IsSized filter
filter-IsSized = create-IsSized 40 3 (omega arith)

-- A key that was not added can be denied.
date_denied : might_contain (add filter apple) date ≡ false
unfolding might_contain BloomFilter.test_rounds add BloomFilter.add_rounds BloomFilter.combined_hash
    BloomFilter.fnv1a_from BloomFilter.djb2_from BloomFilter.xor_bits BloomFilter.get_bit
    BloomFilter.set_bit BloomFilter.byte_at BloomFilter.set_byte BloomFilter.or_bit
    BloomFilter.test_bit create BloomFilter.zeros
date_denied = refl

might_contain-add_all_example :
    might_contain (add_all filter ((apple ∷ []) ++ berry ∷ (cherry ∷ []))) berry ≡ true
might_contain-add_all_example =
    might_contain-add_all filter (apple ∷ []) berry (cherry ∷ []) filter-IsSized

from_buffer-serialize_example :
    (buffer : List ℕ) × (serialize filter ≡ some buffer) × (from_buffer buffer ≡ some filter)
from_buffer-serialize_example =
    from_buffer-serialize filter filter-IsSized (unfold create in omega arith)
      (unfold create in omega arith)
