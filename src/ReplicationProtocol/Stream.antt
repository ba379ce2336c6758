-- ===== src/ReplicationProtocol/Stream.antt =====
-- Frames one after another, and what the part of them that has come in holds.
use lsm_kv_store.Base.{
  ℕ, ◌<◌, ◌≤◌, ◌≡◌, refl, sym, subst, ap, ◌∙◌, Option, some, List, [], ◌∷◌, ◌++◌, All, length, ltb,
  ltb→lt, arith, append_assoc, Bool-cases, inl, inr,
}
use lsm_kv_store.Codec.{TextCodec}
use lsm_kv_store.Bytes.{◌then_write◌, take, drop}
use lsm_kv_store.Bytes.Fields.{then_write-some}
use lsm_kv_store.Frames.{parse_frame, incomplete}
use lsm_kv_store.ReplicationProtocol.{parse_message}
use lsm_kv_store.ReplicationProtocol.RoundTrip.{Sent, frame_of, IsExactMessage, parse_message-cut}

module _ ⦃codec : TextCodec⦄ where
  -- The bytes of the messages, one frame after another.
  abbrev pub stream : List Sent → Option (List ℕ)
  stream [] = some []
  stream (m ∷ ms) = frame_of m then_write stream ms

  pub parse_message-nil : parse_message [] ≡ incomplete
  unfolding parse_message parse_frame
  parse_message-nil = refl

  -- === a prefix of a stream is whole frames and a part of the next one ===

  pub append_front :
      (b p more q : List ℕ)
      → p ++ q ≡ b ++ more
      → length b ≤ length p
      → (p ≡ b ++ drop (length b) p) × (more ≡ drop (length b) p ++ q)
  append_front [] p more q h n = (refl, sym h)
  append_front (x ∷ b) [] more q h n = absurd (omega (arith, n))
  append_front (x ∷ b) (y ∷ p) more q h n =
      let (front, back) = append_front b p more q (cc h) (omega (arith, n)) in (cc (front, h), back)

  pub append_part :
      (p b more q : List ℕ) → p ++ q ≡ b ++ more → length p < length b → p ≡ take (length p) b
  append_part [] b more q h n = refl
  append_part (y ∷ p) [] more q h n = absurd (omega (arith, n))
  append_part (y ∷ p) (x ∷ b) more q h n =
      let part = append_part p b more q (cc h) (omega (arith, n)) in cc (part, h)

  abbrev pub Prefix : List Sent → List ℕ → List ℕ → Type 0
  Prefix ms p q =
      (done : List Sent) × (left : List Sent) × (head : List ℕ) × (tail : List ℕ) × (ms
        ≡ done ++ left)
      × (stream done ≡ some head)
      × (p ≡ head ++ tail)
      × (stream left ≡ some (tail ++ q))
      × (parse_message tail ≡ incomplete)

  pub stream-Prefix :
      (ms : List Sent) (p q : List ℕ)
      → All IsExactMessage ms
      → stream ms ≡ some (p ++ q)
      → Prefix ms p q
  stream-Prefix [] [] q x h = ([], [], [], [], refl, refl, refl, h, parse_message-nil)
  stream-Prefix [] (b ∷ p) q x h = absurd (cc h)
  stream-Prefix (m ∷ ms) p q x h =
      let (b, more, wrote, later, shape) = then_write-some (frame_of m) (stream ms) (p ++ q) h in
      elim (Bool-cases (ltb (length p) (length b))) [
        | inl short ↦
            let part = append_part p b more q shape (ltb→lt (length p) (length b) short) in
            (
              [],
              m ∷ ms,
              [],
              p,
              refl,
              refl,
              refl,
              h,
              subst (λ z. parse_message z ≡ incomplete) (sym part)
                  (parse_message-cut m b (length p) x.0 wrote (ltb→lt (length p) (length b) short)),
            )
        | inr long ↦
            let (front, back) = append_front b p more q shape (ground arith) in
            let p1 = drop (length b) p in
            let (done, left, head, tail, split, heads, shape1, tails, cut) =
              stream-Prefix ms p1 q x.1 (cc (later, back)) in
            (
              m ∷ done,
              left,
              b ++ head,
              tail,
              ap (◌∷◌ m) split,
              rw (wrote, heads) refl,
              front ∙ ap (◌++◌ b) shape1 ∙ sym (append_assoc b head tail),
              tails,
              cut,
            )
      ]
