-- ===== src/SsTableReader/Entries.antt =====
-- src/storage/sstable/SSTableReader.ts: reading an entry where one starts.
use lsm_kv_store.Base.{
  subst, true, All, ltb, append-nil, ℕ, zero, suc, ◌+◌, ◌-◌, ◌/◌, ◌%◌, ◌^◌, ◌<◌, ◌≤◌, ◌≡◌, refl,
  sym, ap, ◌∙◌, some, List, [], ◌∷◌, ◌++◌, length, length-append, arith, append_assoc,
  if◌then◌else◌,
}
use lsm_kv_store.Codec.{TextCodec}
use lsm_kv_store.Bytes.{take, drop, u16_bytes, u64_bytes, u32_of, read_u32}
use lsm_kv_store.Bytes.Fields.{drop-append, read_u16-u16_bytes, size}
use lsm_kv_store.Payload.Fields.{text_16, text_32}
use lsm_kv_store.TcpProtocol.RoundTrip.{write_text_16-some}
use lsm_kv_store.SsTableSerializer.{
  SsTableEntry, serialize_entry, deserialize_entry, calculate_entry_size,
}
use lsm_kv_store.SsTableSerializer.RoundTrip.{
  IsExactEntry, entry_bytes, serialize_entry-some, deserialize_entry-serialize_entry,
}
use lsm_kv_store.SsTableReader.{header_size, read_entry_at}

module _ {ℓ} {A : Type ℓ} where
  take-longer :
      (n : ℕ) (xs ys : List A) → length xs ≤ n → take n (xs ++ ys) ≡ xs ++ take (n - length xs) ys
  take-longer n [] ys h = ap (λ m. take m ys) (omega arith)
  take-longer zero (x ∷ xs) ys h = absurd (omega arith)
  take-longer (suc n) (x ∷ xs) ys h =
      ap (◌∷◌ x) (take-longer n xs ys (omega arith) ∙ ap (λ m. xs ++ take m ys) (omega arith))

-- The first three of some bytes, with four more behind them.
three_more :
    (bs t : List ℕ) (p q r s : ℕ)
    → All (λ b. b < 256) bs
    → p < 256
    → q < 256
    → r < 256
    → (x : ℕ) × (y : ℕ) × (z : ℕ) × (w : List ℕ) × (bs ++ (p ∷ q ∷ r ∷ s ∷ t) ≡ x ∷ y ∷ z ∷ w)
      × (x < 256)
      × (y < 256)
      × (z < 256)
three_more [] t p q r s h a b c = (p, q, r, s ∷ t, refl, a, b, c)
three_more (x ∷ []) t p q r s h a b c = (x, p, q, r ∷ s ∷ t, refl, h.0, a, b)
three_more (x ∷ y ∷ []) t p q r s h a b c = (x, y, p, q ∷ r ∷ s ∷ t, refl, h.0, h.1.0, a)
three_more (x ∷ y ∷ z ∷ bs) t p q r s h a b c =
    (x, y, z, bs ++ (p ∷ q ∷ r ∷ s ∷ t), refl, h.0, h.1.0, h.1.1.0)

header_size-front :
    (n b x y z : ℕ) (w junk : List ℕ)
    → n < 2 ^ 16
    → header_size (take 6 (u16_bytes n ++ (b ∷ x ∷ y ∷ z ∷ w)) ++ junk)
      ≡ some (2 + n + 4 + u32_of b x y z + 8 + 1)
unfolding header_size read_u32
header_size-front n b x y z w junk h =
    let front : take 6 (u16_bytes n ++ (b ∷ x ∷ y ∷ z ∷ w)) ++ junk
        ≡ u16_bytes n ++ (b ∷ x ∷ y ∷ z ∷ junk) =
      refl in
    rw (front, read_u16-u16_bytes n (b ∷ x ∷ y ∷ z ∷ junk) h) refl

module _ ⦃codec : TextCodec⦄ where
  -- The key has a first byte from 1 to 126, and the value is shorter than 2 ^ 24 bytes.
  abbrev pub IsReadable : SsTableEntry → Type 0
  IsReadable e =
      (b : ℕ) × (bs : List ℕ) × (codec.encode e.0 ≡ b ∷ bs)
      × (1 ≤ b)
      × (b ≤ 126)
      × (size e.1.value < 2 ^ 24)

  pub length-entry_bytes : (e : SsTableEntry) → length (entry_bytes e) ≡ calculate_entry_size e
  unfolding calculate_entry_size
  length-entry_bytes (key, e) =
      let flag : ℕ = if e.deleted then 1 else 0 in
      let rest = u64_bytes e.timestamp ++ (flag ∷ []) in
      omega (
        arith,
        length-append (codec.encode key) (text_32 e.value ++ rest),
        length-append (codec.encode e.value) rest,
      )

  pub serialize_entry-nonempty :
      (e : SsTableEntry) (bytes : List ℕ)
      → IsExactEntry e
      → serialize_entry e ≡ some bytes
      → 1 ≤ length bytes
  unfolding calculate_entry_size
  serialize_entry-nonempty e bytes x h =
      omega (arith, ap length (serialize_entry-some e bytes x h).0, length-entry_bytes e)

  after_key : SsTableEntry → List ℕ
  after_key (key, e) =
      text_32 e.value ++ (u64_bytes e.timestamp ++ ((if e.deleted then 1 else 0) ∷ []))

  entry_front :
      (e : SsTableEntry) (after bs : List ℕ) (b : ℕ)
      → codec.encode e.0 ≡ b ∷ bs
      → (x : ℕ) × (y : ℕ) × (z : ℕ) × (w : List ℕ) × (entry_bytes e ++ after
          ≡ u16_bytes (size e.0) ++ (b ∷ x ∷ y ∷ z ∷ w))
        × (x < 256)
        × (y < 256)
        × (z < 256)
  unfolding after_key
  entry_front (key, e) after bs b first =
      let n = size key in
      let v = size e.value in
      let tail =
        codec.encode e.value ++ (u64_bytes e.timestamp ++ ((if e.deleted then 1 else 0) ∷ [])) in
      let in_bytes : All (λ c. c < 256) (b ∷ bs) =
        subst (λ bs. All (λ c. c < 256) bs) first (codec.encode_bytes key) in
      let (x, y, z, w, front, hx, hy, hz) =
        three_more bs tail (v / 2 ^ 24 % 256) (v / 2 ^ 16 % 256) (v / 2 ^ 8 % 256) (v % 256)
          in_bytes.1 (omega arith) (omega arith) (omega arith) in
      (
        x,
        y,
        z,
        w ++ after,
        ap (λ k. u16_bytes n ++ ((k ++ after_key (key, e)) ++ after)) first
            ∙ ap (λ l. u16_bytes n ++ (b ∷ (l ++ after))) front,
        hx,
        hy,
        hz,
      )

  module _ (alloc : ℕ → List ℕ) where
    -- What the buffer holds, of a file whose rest at the offset is known.
    abbrev filled : ℕ → List ℕ → List ℕ
    filled n rest = take n rest ++ drop (length (take n rest)) (alloc n)

    filled_longer :
        (n : ℕ) (bytes after : List ℕ)
        → length bytes ≤ n
        → (junk : List ℕ) × (filled n (bytes ++ after) ≡ bytes ++ junk)
    filled_longer n bytes after h =
        let got = take n (bytes ++ after) in
        let rest = take (n - length bytes) after in
        let junk = drop (length got) (alloc n) in
        (
          rest ++ junk,
          ap (λ z. z ++ junk) (take-longer n bytes after h) ∙ append_assoc bytes rest junk,
        )

    pub read_entry_at-serialized :
        (e : SsTableEntry) (before bytes after : List ℕ)
        → IsExactEntry e
        → IsReadable e
        → serialize_entry e ≡ some bytes
        → read_entry_at alloc (before ++ (bytes ++ after)) (length before) ≡ some (e, length bytes)
    unfolding read_entry_at calculate_entry_size
    read_entry_at-serialized e before bytes after x (b, bs, first, positive, low, short) h =
        let (shape, hk, hv) = serialize_entry-some e bytes x h in
        let n = size e.0 in
        let small = (write_text_16-some e.0 (text_16 e.0) hk).1 in
        let (p, q, r, w, front, hp, hq, hr) = entry_front e after bs b first in
        let claimed = 2 + n + 4 + u32_of b p q r + 8 + 1 in
        let here = drop-append before (bytes ++ after) in
        let header : header_size (filled 6 (drop (length before) (before ++ (bytes ++ after))))
            ≡ some claimed =
          ap (λ z. header_size (filled 6 z)) (here ∙ ap (λ z. z ++ after) shape ∙ front)
          ∙ header_size-front n b p q r w (drop 6 (alloc 6)) small in
        let long : length bytes ≤ claimed = omega (arith, ap length shape, length-entry_bytes e) in
        let (junk, body) = filled_longer claimed bytes after long in
        let within_limit : ltb claimed (2 ^ 31) ≡ true = ground arith in
        rw (header, within_limit)
          (ap (λ z. deserialize_entry (filled claimed z)) here
            ∙ ap deserialize_entry body
            ∙ deserialize_entry-serialize_entry e bytes junk x h)

  -- For an entry whose key has four bytes or more, and fewer than 2 ^ 16, the size that the header
  -- asks for has the number of the first four bytes of the key where the length of the value
  -- belongs.
  pub header_size-entry_bytes :
      (e : SsTableEntry) (after bs : List ℕ) (a b c d : ℕ)
      → codec.encode e.0 ≡ a ∷ b ∷ c ∷ d ∷ bs
      → size e.0 < 2 ^ 16
      → header_size (take 6 (entry_bytes e ++ after))
        ≡ some (2 + size e.0 + 4 + u32_of a b c d + 8 + 1)
  header_size-entry_bytes (key, e) after bs a b c d first small =
      let value =
        text_32 e.value ++ (u64_bytes e.timestamp ++ ((if e.deleted then 1 else 0) ∷ [])) in
      let front = take 6 (u16_bytes (size key) ++ (a ∷ b ∷ c ∷ d ∷ ((bs ++ value) ++ after))) in
      ap (λ k. header_size (take 6 ((u16_bytes (size key) ++ k ++ value) ++ after))) first
      ∙ ap header_size (sym (append-nil front))
      ∙ header_size-front (size key) a b c d ((bs ++ value) ++ after) [] small
