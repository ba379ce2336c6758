-- ===== src/Frames.antt =====
-- What the two protocols share, src/replication/ReplicationProtocol.ts and src/server/TCPProtocol.ts:
-- a frame is the size of what follows it, an opcode and the fields.
pub mod Whole
use lsm_kv_store.Base.{
  ℕ, zero, suc, ◌+◌, ◌-◌, Option, none, some, List, [], ◌∷◌, ◌++◌, length, ltb, if◌then◌else◌,
}
use lsm_kv_store.Bytes.{◌>>=◌, ◌then_write◌, write_u32, read_u32}

-- What `parseMessage` does: it returns null, throws, or returns a message and `bytesConsumed`.
pub data Parsed (M : Type 0) : Type 0 where
  incomplete : Parsed M
  thrown : Parsed M
  parsed : M → ℕ → Parsed M

-- A frame: `writeUInt32BE` of the size, which may throw, and the rest.
abbrev pub frame : ℕ → List ℕ → Option (List ℕ)
frame opcode fields = write_u32 (1 + length fields) then_write some (opcode ∷ fields)

module _ {M : Type 0} where
  abbrev pub with_size : ℕ → Option M → Parsed M
  with_size size none = thrown
  with_size size (some m) = parsed m (4 + size)

  -- The body of `parseMessage` around its switch. `read opcode size bytes` is the switch on the
  -- opcode, where `bytes` is the buffer from offset 5 on, and the buffer may go on after the frame.
  abbrev pub sized : (ℕ → ℕ → List ℕ → Option M) → ℕ × List ℕ → Parsed M
  sized read (size, rest) =
      if ltb (length rest) size
      then incomplete
      else elim rest [ [] ↦ thrown | opcode ∷ bytes ↦ with_size size (read opcode size bytes) ]

  abbrev pub sized_or_thrown : (ℕ → ℕ → List ℕ → Option M) → Option (ℕ × List ℕ) → Parsed M
  sized_or_thrown read none = thrown
  sized_or_thrown read (some head) = sized read head

  unfoldable pub parse_frame : (ℕ → ℕ → List ℕ → Option M) → List ℕ → Parsed M
  parse_frame read buffer =
      if ltb (length buffer) 5 then incomplete else sized_or_thrown read (read_u32 buffer)
