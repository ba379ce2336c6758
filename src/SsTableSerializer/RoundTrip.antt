-- ===== src/SsTableSerializer/RoundTrip.antt =====
-- src/storage/sstable/SSTableSerializer.ts: an entry reads back, and with it its size.
use lsm_kv_store.Base.{
  ℕ, ◌-◌, ◌^◌, ◌<◌, ◌≡◌, refl, ap, ◌∙◌, Bool, true, false, some, List, [], ◌∷◌, ◌++◌, length,
  length-append, ◌==◌, if◌then◌else◌, arith, append_assoc,
}
use lsm_kv_store.Codec.{TextCodec}
use lsm_kv_store.Bytes.{◌then_write◌, u64_bytes, write_u64, write_text_16, write_text_32}
use lsm_kv_store.Bytes.Fields.{read_u64-u64_bytes, then_write-some}
use lsm_kv_store.Payload.Fields.{text_16, text_32}
use lsm_kv_store.Wal.Records.RoundTrip.{write_u64-fits, read_u8-cons}
use lsm_kv_store.TcpProtocol.RoundTrip.{
  write_text_16-some, write_text_32-some, read_text_16-some, read_text_32-some,
}
use lsm_kv_store.SsTableSerializer.{SsTableEntry, serialize_entry, deserialize_entry}

module _ ⦃codec : TextCodec⦄ where
  -- The time stamp is exact as a float, and the texts survive their encoding.
  abbrev pub IsExactEntry : SsTableEntry → Type 0
  IsExactEntry (key, e) =
      codec.IsWellFormed key × codec.IsWellFormed e.value × (e.timestamp < 2 ^ 53)

  abbrev flag_of : Bool → ℕ
  flag_of deleted = if deleted then 1 else 0

  flag_of-eq : (b : Bool) → (flag_of b == 1) ≡ b
  flag_of-eq true = refl
  flag_of-eq false = refl

  -- The bytes of an entry.
  abbrev pub entry_bytes : SsTableEntry → List ℕ
  entry_bytes (key, e) =
      text_16 key ++ (text_32 e.value ++ (u64_bytes e.timestamp ++ (flag_of e.deleted ∷ [])))

  pub serialize_entry-some :
      (e : SsTableEntry) (bytes : List ℕ)
      → IsExactEntry e
      → serialize_entry e ≡ some bytes
      → (bytes ≡ entry_bytes e)
        × (write_text_16 e.0 ≡ some (text_16 e.0))
        × (write_text_32 e.1.value ≡ some (text_32 e.1.value))
  unfolding serialize_entry
  serialize_entry-some (key, e) bytes x h =
      let stamp = write_u64 e.timestamp then_write some (flag_of e.deleted ∷ []) in
      let stamped : stamp ≡ some (u64_bytes e.timestamp ++ (flag_of e.deleted ∷ [])) =
        rw (write_u64-fits e.timestamp x.2) refl in
      let (kb, more, hk, hm, shape) =
        then_write-some (write_text_16 key) (write_text_32 e.value then_write stamp) bytes h in
      let (vb, rest, hv, hr, shape1) = then_write-some (write_text_32 e.value) stamp more hm in
      let ks = (write_text_16-some key kb hk).0 in
      let vs = (write_text_32-some e.value vb hv).0 in
      (cc (shape, shape1, ks, vs, hr, stamped), cc (ks, hk), cc (vs, hv))

  -- An entry of a table file that serializes reads back, whatever follows it, with the number of
  -- its bytes, where its time stamp is below 2 ^ 53 and its texts survive the encoding.
  pub deserialize_entry-serialize_entry :
      (e : SsTableEntry) (bytes rest : List ℕ)
      → IsExactEntry e
      → serialize_entry e ≡ some bytes
      → deserialize_entry (bytes ++ rest) ≡ some (e, length bytes)
  unfolding deserialize_entry
  deserialize_entry-serialize_entry (key, e) bytes rest x h =
      let (shape, hk, hv) = serialize_entry-some (key, e) bytes x h in
      let flag = flag_of e.deleted in
      let tail3 = u64_bytes e.timestamp ++ (flag ∷ rest) in
      let tail2 = text_32 e.value ++ tail3 in
      let whole : bytes ++ rest ≡ text_16 key ++ tail2 =
        ap (λ z. z ++ rest) shape
        ∙ append_assoc (text_16 key) (text_32 e.value ++ (u64_bytes e.timestamp ++ (flag ∷ [])))
            rest
        ∙ ap (λ z. text_16 key ++ z)
            (append_assoc (text_32 e.value) (u64_bytes e.timestamp ++ (flag ∷ [])) rest) in
      let consumed : length (text_16 key ++ tail2) - length rest ≡ length bytes =
        omega (arith, ap length whole, length-append bytes rest) in
      rw
        (
          whole,
          read_text_16-some key (text_16 key) tail2 x.0 hk,
          read_text_32-some e.value (text_32 e.value) tail3 x.1 hv,
          read_u64-u64_bytes e.timestamp (flag ∷ rest) x.2,
          read_u8-cons flag rest,
          flag_of-eq e.deleted,
          consumed,
        )
        refl
