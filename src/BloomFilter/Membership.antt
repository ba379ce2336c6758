-- ===== src/BloomFilter/Membership.antt =====
-- src/storage/sstable/BloomFilter.ts: the keys that were added to a filter.
use lsm_kv_store.Base.{
  ℕ, zero, suc, ◌+◌, ◌*◌, ◌/◌, ◌%◌, ◌^◌, ◌<◌, ◌≡◌, refl, sym, ◌∙◌, ap, true, List, [], ◌∷◌, ◌++◌,
  arith, length, Bool-cases, inl, inr,
}
use native.Mathlib.Nat.{mod-lt}
use lsm_kv_store.Text.{Text}
use lsm_kv_store.BloomFilter.{
  BloomFilter, or_bit, test_bit, fnv1a, djb2, combined_hash, byte_at, set_byte, set_bit, get_bit,
  byte_size, zeros, create, add_rounds, add, test_rounds, might_contain,
}

-- The array has the bytes that the number of bits asks for, and there is a bit.
pub record IsSized (f : BloomFilter) : Type 0 where
  pub some_bits : 0 < f.num_bits
  pub sized : length f.bits ≡ byte_size f.num_bits

length-zeros : (n : ℕ) → length (zeros n) ≡ n
unfolding zeros
length-zeros zero = refl
length-zeros (suc n) = ap suc (length-zeros n)

pub create-IsSized : (n k : ℕ) → 0 < n → IsSized (create n k)
unfolding create
create-IsSized n k h = record { some_bits = h; sized = length-zeros (byte_size n) }

test_bit-or_bit : (o b : ℕ) → test_bit (or_bit b o) o ≡ true
unfolding or_bit test_bit
test_bit-or_bit zero b = grind arith
test_bit-or_bit (suc o) b =
    let half : (b % 2 + 2 * or_bit (b / 2) o) / 2 ≡ or_bit (b / 2) o = omega arith in
    rw half (test_bit-or_bit o (b / 2))

test_bit-kept : (o b p : ℕ) → test_bit b p ≡ true → test_bit (or_bit b o) p ≡ true
unfolding or_bit test_bit
test_bit-kept zero b zero h = grind arith
test_bit-kept zero b (suc p) h = let half : (b / 2 * 2 + 1) / 2 ≡ b / 2 = omega arith in rw half h
test_bit-kept (suc o) b zero h =
    let low : (b % 2 + 2 * or_bit (b / 2) o) % 2 ≡ b % 2 = omega arith in rw low h
test_bit-kept (suc o) b (suc p) h =
    let half : (b % 2 + 2 * or_bit (b / 2) o) / 2 ≡ or_bit (b / 2) o = omega arith in
    rw half (test_bit-kept o (b / 2) p h)

byte_at-set_byte :
    (bs : List ℕ) (i o : ℕ) → i < length bs → byte_at (set_byte bs i o) i ≡ or_bit (byte_at bs i) o
unfolding byte_at set_byte
byte_at-set_byte [] i o h = absurd (omega arith)
byte_at-set_byte (b ∷ bs) zero o h = refl
byte_at-set_byte (b ∷ bs) (suc i) o h = byte_at-set_byte bs i o (omega arith)

byte_at-kept :
    (bs : List ℕ) (i o j p : ℕ)
    → test_bit (byte_at bs j) p ≡ true
    → test_bit (byte_at (set_byte bs i o) j) p ≡ true
unfolding byte_at set_byte
byte_at-kept [] i o j p h = h
byte_at-kept (b ∷ bs) zero o zero p h = test_bit-kept o b p h
byte_at-kept (b ∷ bs) zero o (suc j) p h = h
byte_at-kept (b ∷ bs) (suc i) o zero p h = h
byte_at-kept (b ∷ bs) (suc i) o (suc j) p h = byte_at-kept bs i o j p h

length-set_byte : (bs : List ℕ) (i o : ℕ) → length (set_byte bs i o) ≡ length bs
unfolding set_byte
length-set_byte [] i o = refl
length-set_byte (b ∷ bs) zero o = refl
length-set_byte (b ∷ bs) (suc i) o = ap suc (length-set_byte bs i o)

get_bit-set_bit : (bs : List ℕ) (i : ℕ) → i / 8 < length bs → get_bit (set_bit bs i) i ≡ true
unfolding get_bit set_bit
get_bit-set_bit bs i h =
    rw (byte_at-set_byte bs (i / 8) (i % 8) h) (test_bit-or_bit (i % 8) (byte_at bs (i / 8)))

get_bit-kept : (bs : List ℕ) (i j : ℕ) → get_bit bs j ≡ true → get_bit (set_bit bs i) j ≡ true
unfolding get_bit set_bit
get_bit-kept bs i j h = byte_at-kept bs (i / 8) (i % 8) (j / 8) (j % 8) h

-- `g` has the sizes of `f` and at least its bits.
record Grows (f g : BloomFilter) : Type 0 where
  same_bits : g.num_bits ≡ f.num_bits
  same_hashes : g.num_hash_functions ≡ f.num_hash_functions
  same_length : length g.bits ≡ length f.bits
  kept : (j : ℕ) → get_bit f.bits j ≡ true → get_bit g.bits j ≡ true

Grows-trans : (f g h : BloomFilter) → Grows f g → Grows g h → Grows f h
Grows-trans f g h a b = record {
  same_bits = b.same_bits ∙ a.same_bits;
  same_hashes = b.same_hashes ∙ a.same_hashes;
  same_length = b.same_length ∙ a.same_length;
  kept = λ j e. b.kept j (a.kept j e);
}

-- One round of `add`.
abbrev marked : BloomFilter → ℕ → BloomFilter
marked f index = record f { bits = set_bit f.bits index }

marked-Grows : (f : BloomFilter) (i : ℕ) → Grows f (marked f i)
marked-Grows f i = record {
  same_bits = refl;
  same_hashes = refl;
  same_length = unfold set_bit in length-set_byte f.bits (i / 8) (i % 8);
  kept = λ j e. get_bit-kept f.bits i j e;
}

add_rounds-Grows : (f : BloomFilter) (h1 h2 n i : ℕ) → Grows f (add_rounds f h1 h2 n i)
unfolding add_rounds
add_rounds-Grows f h1 h2 zero i = record {
  same_bits = refl;
  same_hashes = refl;
  same_length = refl;
  kept = λ j e. e;
}
add_rounds-Grows f h1 h2 (suc n) i =
    let index = combined_hash f h1 h2 i in
    Grows-trans f (marked f index) _ (marked-Grows f index)
      (add_rounds-Grows (marked f index) h1 h2 n (i + 1))

Grows-IsSized : (f g : BloomFilter) → Grows f g → IsSized f → IsSized g
Grows-IsSized f g grown s = record {
  some_bits = rw grown.same_bits s.some_bits;
  sized = grown.same_length ∙ s.sized ∙ ap byte_size (sym grown.same_bits);
}

combined_hash-Grows :
    (f g : BloomFilter) (h1 h2 i : ℕ)
    → Grows f g
    → combined_hash g h1 h2 i ≡ combined_hash f h1 h2 i
unfolding combined_hash
combined_hash-Grows f g h1 h2 i grown = rw grown.same_bits refl

in_range : (f : BloomFilter) (h1 h2 i : ℕ) → IsSized f → combined_hash f h1 h2 i / 8 < length f.bits
unfolding combined_hash
in_range f h1 h2 i s = rw s.sized (omega (arith, mod-lt ((h1 + i * h2) % 2 ^ 32) s.some_bits))

test_rounds-Grows :
    (f g : BloomFilter) (h1 h2 n i : ℕ)
    → Grows f g
    → test_rounds f h1 h2 n i ≡ true
    → test_rounds g h1 h2 n i ≡ true
unfolding test_rounds
test_rounds-Grows f g h1 h2 zero i grown e = refl
test_rounds-Grows f g h1 h2 (suc n) i grown e =
    elim (Bool-cases (get_bit f.bits (combined_hash f h1 h2 i))) [
      | inl b ↦
          rw (combined_hash-Grows f g h1 h2 i grown, grown.kept _ b)
            (test_rounds-Grows f g h1 h2 n (i + 1) grown (rw b at e))
      | inr b ↦ absurd (cc (rw b at e))
    ]

test_rounds-add_rounds :
    (f : BloomFilter) (h1 h2 n i : ℕ)
    → IsSized f
    → test_rounds (add_rounds f h1 h2 n i) h1 h2 n i ≡ true
unfolding test_rounds add_rounds
test_rounds-add_rounds f h1 h2 zero i s = refl
test_rounds-add_rounds f h1 h2 (suc n) i s =
    let index = combined_hash f h1 h2 i in
    let g = add_rounds (marked f index) h1 h2 n (i + 1) in
    let grown = add_rounds-Grows (marked f index) h1 h2 n (i + 1) in
    let set = grown.kept index (get_bit-set_bit f.bits index (in_range f h1 h2 i s)) in
    rw
      (
        combined_hash-Grows f g h1 h2 i
            (Grows-trans f (marked f index) g (marked-Grows f index) grown),
        set,
      )
      (test_rounds-add_rounds (marked f index) h1 h2 n (i + 1)
        (Grows-IsSized f (marked f index) (marked-Grows f index) s))

add-Grows : (f : BloomFilter) (key : Text) → Grows f (add f key)
unfolding add
add-Grows f key = add_rounds-Grows f (fnv1a key) (djb2 key) f.num_hash_functions 0

might_contain-Grows :
    (f g : BloomFilter) (key : Text)
    → Grows f g
    → might_contain f key ≡ true
    → might_contain g key ≡ true
unfolding might_contain combined_hash
might_contain-Grows f g key grown e =
    rw grown.same_hashes
      (test_rounds-Grows f g (fnv1a key) (djb2 key) f.num_hash_functions 0 grown e)

might_contain-add :
    (f : BloomFilter) (key : Text) → IsSized f → might_contain (add f key) key ≡ true
unfolding might_contain combined_hash
might_contain-add f key s =
    rw (add-Grows f key).same_hashes
      (unfold add in test_rounds-add_rounds f (fnv1a key) (djb2 key) f.num_hash_functions 0 s)

-- The keys of a list, added in order.
unfoldable pub add_all : BloomFilter → List Text → BloomFilter
add_all f [] = f
add_all f (key ∷ keys) = add_all (add f key) keys

add_all-Grows : (f : BloomFilter) (keys : List Text) → Grows f (add_all f keys)
unfolding add_all
add_all-Grows f [] = record {
  same_bits = refl;
  same_hashes = refl;
  same_length = refl;
  kept = λ j e. e;
}
add_all-Grows f (key ∷ keys) =
    Grows-trans f (add f key) _ (add-Grows f key) (add_all-Grows (add f key) keys)

-- A filter with at least one bit and an array of the size its bits ask for never denies a key that
-- was added to it, whatever was added before and after.
pub might_contain-add_all :
    (f : BloomFilter) (before : List Text) (key : Text) (after : List Text)
    → IsSized f
    → might_contain (add_all f (before ++ key ∷ after)) key ≡ true
unfolding add_all
might_contain-add_all f [] key after s =
    might_contain-Grows (add f key) _ key (add_all-Grows (add f key) after)
      (might_contain-add f key s)
might_contain-add_all f (k ∷ before) key after s =
    might_contain-add_all (add f k) before key after (Grows-IsSized f (add f k) (add-Grows f k) s)
