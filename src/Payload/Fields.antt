-- ===== src/Payload/Fields.antt =====
-- The changes that clients make, as log entries, and their fields through bytes and back.
use lsm_kv_store.Base.{
  ltb, ◌<◌, [], ◌∷◌, length, ◌^◌, arith, ltb→lt, ◌&&◌, Bool, ◌∙◌, ℕ, ◌≡◌, refl, ap, true, Option,
  none, some, List, ◌++◌, map, append_assoc, All,
}
use lsm_kv_store.Text.{Text}
use lsm_kv_store.Codec.{TextCodec}
use lsm_kv_store.Bytes.{
  write_u32, read_text_32, ◌then_write◌, ◌>>=◌, u16_bytes, u32_bytes, write_text_16, write_text_32,
  read_text_16,
}
use lsm_kv_store.Bytes.Fields.{read_u32-u32_bytes, read_text_16-append, read_text_32-append, size}
use lsm_kv_store.Wal.{fits_pairs, LogEntry, LogOperationType, fits_16, fits_32}
use lsm_kv_store.Payload.{
  batch_with, read_counted, read_batch, read_pairs, read_delete, read_put, write_pairs, Payload,
  entry_with, operation_to_code, code_to_operation,
}

-- What one log entry says.
pub data Change : Type 0 where
  put : Text → Text → Change
  delete : Text → Change
  batch : List (Text × Text) → Change

abbrev pub keys_of : List (Text × Text) → List Text
keys_of pairs = map (λ p. p.0) pairs

abbrev pub values_of : List (Text × Text) → List Text
values_of pairs = map (λ p. p.1) pairs

abbrev pub operation_of : Change → LogOperationType
operation_of (put k v) = LogOperationType.put
operation_of (delete k) = LogOperationType.delete
operation_of (batch pairs) = LogOperationType.batch_put

abbrev pub payload_of : Change → Payload
payload_of (put k v) = record { key = some k; value = some v; keys = none; values = none }
payload_of (delete k) = record { key = some k; value = none; keys = none; values = none }
payload_of (batch pairs) = record {
  key = none;
  value = none;
  keys = some (keys_of pairs);
  values = some (values_of pairs);
}

abbrev pub entry_of : ℕ → ℕ → Change → LogEntry
entry_of sequence_id timestamp change =
    entry_with sequence_id timestamp (operation_of change) (payload_of change)

pub code_to_operation-operation_to_code :
    (op : LogOperationType) → code_to_operation (operation_to_code op) ≡ some op
unfolding operation_to_code code_to_operation
code_to_operation-operation_to_code LogOperationType.put = refl
code_to_operation-operation_to_code LogOperationType.delete = refl
code_to_operation-operation_to_code LogOperationType.batch_put = refl

module _ ⦃codec : TextCodec⦄ where
  abbrev pub IsWellFormed : Change → Type 0
  IsWellFormed (put k v) = codec.IsWellFormed k × codec.IsWellFormed v
  IsWellFormed (delete k) = codec.IsWellFormed k
  IsWellFormed (batch pairs) = All (λ p. codec.IsWellFormed p.0 × codec.IsWellFormed p.1) pairs

  abbrev pub text_16 : Text → List ℕ
  text_16 t = u16_bytes (size t) ++ codec.encode t

  abbrev pub text_32 : Text → List ℕ
  text_32 t = u32_bytes (size t) ++ codec.encode t

  pub write_text_16-fits : (t : Text) → fits_16 t ≡ true → write_text_16 t ≡ some (text_16 t)
  unfolding write_text_16
  write_text_16-fits t h = rw h refl

  pub write_text_32-fits : (t : Text) → fits_32 t ≡ true → write_text_32 t ≡ some (text_32 t)
  unfolding write_text_32
  write_text_32-fits t h = rw h refl

  -- A list of bytes that are written, and that read back as something before any rest.
  abbrev pub Writes : {A : Type 0} → Option (List ℕ) → (List ℕ → Option A) → A → Type 0
  Writes written read a =
      (bytes : List ℕ) × (written ≡ some bytes) × ((rest : List ℕ) → read (bytes ++ rest) ≡ some a)

  read_text_16-before :
      (t : Text) (more rest : List ℕ)
      → codec.IsWellFormed t
      → fits_16 t ≡ true
      → read_text_16 ((text_16 t ++ more) ++ rest) ≡ some (t, more ++ rest)
  read_text_16-before t more rest w h =
      ap read_text_16 (append_assoc (text_16 t) more rest)
      ∙ read_text_16-append t (more ++ rest) w (ltb→lt (size t) (2 ^ 16) h)

  read_text_32-before :
      (t : Text) (more rest : List ℕ)
      → codec.IsWellFormed t
      → fits_32 t ≡ true
      → read_text_32 ((text_32 t ++ more) ++ rest) ≡ some (t, more ++ rest)
  read_text_32-before t more rest w h =
      ap read_text_32 (append_assoc (text_32 t) more rest)
      ∙ read_text_32-append t (more ++ rest) w (ltb→lt (size t) (2 ^ 32) h)

  -- The fields of a put, written.
  abbrev pub write_put : Text → Text → Option (List ℕ)
  write_put k v = write_text_16 k then_write write_text_32 v

  pub write_put-Writes :
      (k v : Text)
      → codec.IsWellFormed k
      → codec.IsWellFormed v
      → fits_16 k ≡ true
      → fits_32 v ≡ true
      → Writes (write_put k v) (λ bs. read_put bs) (payload_of (put k v))
  write_put-Writes k v wk wv hk hv = (
    text_16 k ++ text_32 v,
    rw (write_text_16-fits k hk, write_text_32-fits v hv) refl,
    λ rest.
        rw
          (
            read_text_16-before k (text_32 v) rest wk hk,
            read_text_32-append v rest wv (ltb→lt (size v) (2 ^ 32) hv),
          )
          refl,
  )

  pub write_delete-Writes :
      (k : Text)
      → codec.IsWellFormed k
      → fits_16 k ≡ true
      → Writes (write_text_16 k) (λ bs. read_delete bs) (payload_of (delete k))
  write_delete-Writes k wk hk = (
    text_16 k,
    write_text_16-fits k hk,
    λ rest. rw (read_text_16-append k rest wk (ltb→lt (size k) (2 ^ 16) hk)) refl,
  )

  and_left : (a b : Bool) → (a && b) ≡ true → a ≡ true
  and_left a b h = ground arith

  and_right : (a b : Bool) → (a && b) ≡ true → b ≡ true
  and_right a b h = ground arith

  write_pairs-Writes :
      (pairs : List (Text × Text))
      → IsWellFormed (batch pairs)
      → fits_pairs (keys_of pairs) (values_of pairs) ≡ true
      → Writes
          (write_pairs (keys_of pairs) (values_of pairs))
          (λ bs. read_pairs (length pairs) bs)
          (keys_of pairs, values_of pairs)
  unfolding write_pairs read_pairs
  write_pairs-Writes [] w h = ([], refl, λ rest. refl)
  write_pairs-Writes ((k, v) ∷ pairs) w h =
      let hk : fits_16 k ≡ true = ground arith in
      let hv : fits_32 v ≡ true = ground arith in
      let (bytes, written, reads) = write_pairs-Writes pairs w.1 (ground arith) in
      (
        text_16 k ++ (text_32 v ++ bytes),
        rw (write_text_16-fits k hk, write_text_32-fits v hv, written) refl,
        λ rest.
            rw
              (
                read_text_16-before k (text_32 v ++ bytes) rest w.0.0 hk,
                read_text_32-before v bytes rest w.0.1 hv,
                reads rest,
              )
              refl,
      )

  pub write_batch-Writes :
      (pairs : List (Text × Text))
      → IsWellFormed (batch pairs)
      → length pairs < 2 ^ 32
      → fits_pairs (keys_of pairs) (values_of pairs) ≡ true
      → Writes
          (write_u32 (length pairs) then_write write_pairs (keys_of pairs) (values_of pairs))
          (λ bs. read_batch bs)
          (payload_of (batch pairs))
  write_batch-Writes pairs w small h =
      let (bytes, written, reads) = write_pairs-Writes pairs w h in
      let fits : ltb (length pairs) (2 ^ 32) ≡ true = ground arith in
      let head : write_u32 (length pairs) ≡ some (u32_bytes (length pairs)) =
        (unfold write_u32 in rw fits refl) in
      (
        u32_bytes (length pairs) ++ bytes,
        rw (head, written) refl,
        λ rest.
            ap (λ o. o >>= read_counted) (read_u32-u32_bytes (length pairs) (bytes ++ rest) small)
            ∙ ap (λ o. o >>= batch_with) (reads rest),
      )
