-- ===== src/Codec.antt =====
-- Node's `Buffer.from(text, 'utf8')`, `Buffer.byteLength` and `buffer.toString('utf8')`, which are
-- not part of the repository: what the program relies on is that well-formed text survives the
-- round trip and that an encoding is a sequence of bytes.
use lsm_kv_store.Base.{ℕ, ◌≡◌, ◌<◌, List, All}
use lsm_kv_store.Text.{Text}

pub record TextCodec : Type 1 where
  pub encode : Text → List ℕ
  pub decode : List ℕ → Text
  pub IsWellFormed : Text → Type 0
  pub encode_bytes : (t : Text) → All (λ b. b < 256) (encode t)
  pub decode-encode : (t : Text) → IsWellFormed t → decode (encode t) ≡ t
