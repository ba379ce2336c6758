-- ===== src/Frames/Whole.antt =====
-- A whole frame is parsed, whatever comes after it; one that is cut off is not.
use lsm_kv_store.Base.{
  ℕ, zero, suc, ◌+◌, ◌^◌, ◌<◌, ◌≡◌, refl, ap, ◌∙◌, true, false, Option, none, some, List, ◌∷◌, ◌++◌,
  length, length-append, ltb, ltb→lt, arith, Bool-cases, inl, inr,
}
use lsm_kv_store.Bytes.{take, u32_bytes, write_u32, read_u32}
use lsm_kv_store.Bytes.Fields.{length-take, read_u32-u32_bytes}
use lsm_kv_store.Payload.Refused.{write_u32-none}
use lsm_kv_store.Frames.{incomplete, thrown, parsed, frame, sized, sized_or_thrown, parse_frame}

abbrev pub frame_bytes : ℕ → List ℕ → List ℕ
frame_bytes opcode fields = u32_bytes (1 + length fields) ++ (opcode ∷ fields)

pub frame-some :
    (opcode : ℕ) (fields bytes : List ℕ)
    → frame opcode fields ≡ some bytes
    → (bytes ≡ frame_bytes opcode fields) × (1 + length fields < 2 ^ 32)
frame-some opcode fields bytes h = elim (Bool-cases (ltb (1 + length fields) (2 ^ 32))) [
  | inl fits ↦
      let written : write_u32 (1 + length fields) ≡ some (u32_bytes (1 + length fields)) =
        (unfold write_u32 in rw fits refl) in
      (cc (rw written at h), ltb→lt (1 + length fields) (2 ^ 32) fits)
  | inr big ↦ absurd (cc (rw (write_u32-none (1 + length fields) big) at h))
]

module _ {M : Type 0} (read : ℕ → ℕ → List ℕ → Option M) where
  sized-whole :
      (opcode : ℕ) (fields rest : List ℕ) (m : M)
      → read opcode (1 + length fields) (fields ++ rest) ≡ some m
      → sized read (1 + length fields, opcode ∷ (fields ++ rest))
        ≡ parsed m (length (frame_bytes opcode fields))
  sized-whole opcode fields rest m h =
      let long : ltb (suc (length (fields ++ rest))) (1 + length fields) ≡ false =
        ground (arith, length-append fields rest) in
      let sum : 4 + (1 + length fields) ≡ length (frame_bytes opcode fields) = omega arith in
      rw (long, h, sum) refl

  sized-unread :
      (opcode : ℕ) (fields rest : List ℕ)
      → read opcode (1 + length fields) (fields ++ rest) ≡ none
      → sized read (1 + length fields, opcode ∷ (fields ++ rest)) ≡ thrown
  sized-unread opcode fields rest h =
      let long : ltb (suc (length (fields ++ rest))) (1 + length fields) ≡ false =
        ground (arith, length-append fields rest) in
      rw (long, h) refl

  sized-short :
      (size : ℕ) (rest : List ℕ)
      → ltb (length rest) size ≡ true
      → sized read (size, rest) ≡ incomplete
  sized-short size rest h = rw h refl

  five :
      (buffer : List ℕ)
      → ltb (length buffer) 5 ≡ false
      → parse_frame read buffer ≡ sized_or_thrown read (read_u32 buffer)
  unfolding parse_frame
  five buffer h = rw h refl

  -- A switch that reads the fields whatever comes after them reads the frame.
  pub parse_frame-whole :
      (opcode : ℕ) (fields rest : List ℕ) (m : M)
      → 1 + length fields < 2 ^ 32
      → read opcode (1 + length fields) (fields ++ rest) ≡ some m
      → parse_frame read (frame_bytes opcode fields ++ rest)
        ≡ parsed m (length (frame_bytes opcode fields))
  parse_frame-whole opcode fields rest m small h =
      five (frame_bytes opcode fields ++ rest) (ground arith)
      ∙ ap (λ o. sized_or_thrown read o)
          (read_u32-u32_bytes (1 + length fields) (opcode ∷ (fields ++ rest)) small)
      ∙ sized-whole opcode fields rest m h

  pub parse_frame-unread :
      (opcode : ℕ) (fields rest : List ℕ)
      → 1 + length fields < 2 ^ 32
      → read opcode (1 + length fields) (fields ++ rest) ≡ none
      → parse_frame read (frame_bytes opcode fields ++ rest) ≡ thrown
  parse_frame-unread opcode fields rest small h =
      five (frame_bytes opcode fields ++ rest) (ground arith)
      ∙ ap (λ o. sized_or_thrown read o)
          (read_u32-u32_bytes (1 + length fields) (opcode ∷ (fields ++ rest)) small)
      ∙ sized-unread opcode fields rest h

  pub parse_frame-cut :
      (n opcode : ℕ) (fields : List ℕ)
      → 1 + length fields < 2 ^ 32
      → n < length (frame_bytes opcode fields)
      → parse_frame read (take n (frame_bytes opcode fields)) ≡ incomplete
  unfolding parse_frame
  parse_frame-cut zero opcode fields small h = refl
  parse_frame-cut (suc zero) opcode fields small h = refl
  parse_frame-cut (suc (suc zero)) opcode fields small h = refl
  parse_frame-cut (suc (suc (suc zero))) opcode fields small h = refl
  parse_frame-cut (suc (suc (suc (suc zero)))) opcode fields small h = refl
  parse_frame-cut (suc (suc (suc (suc (suc n))))) opcode fields small h =
      let cut = take (suc (suc (suc (suc (suc n))))) (frame_bytes opcode fields) in
      let short : ltb (suc (length (take n fields))) (1 + length fields) ≡ true =
        ground (arith, length-take n fields) in
      five cut (ground arith)
      ∙ ap (λ o. sized_or_thrown read o)
          (read_u32-u32_bytes (1 + length fields) (opcode ∷ take n fields) small)
      ∙ sized-short (1 + length fields) (opcode ∷ take n fields) short
