-- ===== src/Tests/Frames.antt =====
-- Log records and frames on concrete bytes.
use lsm_kv_store.Base.{ℕ, ◌≡◌, refl, List, [], ◌∷◌, ◌++◌, arith}
use lsm_kv_store.Bytes.{take, write_u32, write_u64, write_text_16, write_text_32}
use lsm_kv_store.Wal.Records.{
  calculate_checksum, serialize_entry, serialize_body, serialize_payload, read_log_file,
}
use lsm_kv_store.Wal.Records.Torn.{Logged, logged_entry, IsExact, read_log_file-torn}
use lsm_kv_store.Payload.{operation_to_code}
use lsm_kv_store.Payload.Fields.{put, delete}
use lsm_kv_store.Frames.{parsed, incomplete}
use lsm_kv_store.ReplicationProtocol
use lsm_kv_store.ReplicationProtocol.{replicate, serialize_replicate, serialize_log_entry}
use lsm_kv_store.ReplicationProtocol.RoundTrip.{entry, parse_message-frame_of}
use lsm_kv_store.TcpProtocol
use lsm_kv_store.TcpProtocol.{stream_put, serialize_stream_put}
use lsm_kv_store.TcpProtocol.RoundTrip.{parse_message-serialize}
use lsm_kv_store.Tests.Samples.{ascii, apple, berry}

-- The check value of CRC-32, for the digits from 1 to 9.
check_value : calculate_checksum (49 ∷ 50 ∷ 51 ∷ 52 ∷ 53 ∷ 54 ∷ 55 ∷ 56 ∷ 57 ∷ []) ≡ 0xCBF43926
unfolding calculate_checksum
check_value = refl

abbrev pub first : Logged
first = (7, 1000, put apple berry)

abbrev pub second : Logged
second = (8, 1001, delete berry)

pub first-IsExact : IsExact first
first-IsExact = (omega arith, omega arith, ((omega arith, (omega arith, tt)), (omega arith, tt)))

pub second-IsExact : IsExact second
second-IsExact = (omega arith, omega arith, (omega arith, tt))

abbrev pub first_body : List ℕ
first_body =
    0 ∷ 0 ∷ 0 ∷ 0 ∷ 0 ∷ 0 ∷ 0 ∷ 7 ∷ 0 ∷ 0 ∷ 0 ∷ 0 ∷ 0 ∷ 0 ∷ 3 ∷ 232 ∷ 1 ∷ 0 ∷ 2 ∷ 97 ∷ 112 ∷ 0 ∷ 0
    ∷ 0 ∷ 1 ∷ 98 ∷ []

abbrev first_record : List ℕ
first_record = 0 ∷ 0 ∷ 0 ∷ 30 ∷ 62 ∷ 25 ∷ 178 ∷ 141 ∷ first_body

abbrev second_record : List ℕ
second_record =
    0 ∷ 0 ∷ 0 ∷ 24 ∷ 230 ∷ 40 ∷ 102 ∷ 94 ∷ 0 ∷ 0 ∷ 0 ∷ 0 ∷ 0 ∷ 0 ∷ 0 ∷ 8 ∷ 0 ∷ 0 ∷ 0 ∷ 0 ∷ 0 ∷ 0 ∷ 3
    ∷ 233 ∷ 2 ∷ 0 ∷ 1 ∷ 98 ∷ []

-- The second record lost all but nine bytes.
read_log_file-torn_example :
    read_log_file (first_record ++ take 9 second_record) ≡ (logged_entry first ∷ [])
unfolding serialize_entry serialize_body serialize_payload write_u32 write_u64 write_text_16
    write_text_32 operation_to_code calculate_checksum
read_log_file-torn_example =
    read_log_file-torn (first ∷ []) second first_record second_record 9 (first-IsExact, tt) refl
      refl (omega arith)

abbrev pub first_frame : List ℕ
first_frame = 0 ∷ 0 ∷ 0 ∷ 27 ∷ 16 ∷ first_body

parse_message-frame_of_example :
    (ReplicationProtocol.parse_message (first_frame ++ (0 ∷ 0 ∷ []))
      ≡ parsed (replicate (logged_entry first)) 31)
    × (ReplicationProtocol.parse_message (take 30 first_frame) ≡ incomplete)
unfolding serialize_replicate serialize_log_entry ReplicationProtocol.serialize_payload write_u32
    write_u64 write_text_16 write_text_32 operation_to_code
parse_message-frame_of_example =
    parse_message-frame_of (entry first) first_frame (0 ∷ 0 ∷ []) 30 first-IsExact refl
      (omega arith)

abbrev put_frame : List ℕ
put_frame = 0 ∷ 0 ∷ 0 ∷ 10 ∷ 1 ∷ 0 ∷ 2 ∷ 97 ∷ 112 ∷ 0 ∷ 0 ∷ 0 ∷ 1 ∷ 98 ∷ []

parse_message-serialize_example :
    (TcpProtocol.parse_message (put_frame ++ (0 ∷ 0 ∷ [])) ≡ parsed (stream_put apple berry) 14)
    × (TcpProtocol.parse_message (take 7 put_frame) ≡ incomplete)
unfolding serialize_stream_put write_u32 write_text_16 write_text_32
parse_message-serialize_example =
    parse_message-serialize (stream_put apple berry) put_frame (0 ∷ 0 ∷ []) 7
      ((omega arith, (omega arith, tt)), (omega arith, tt)) refl (omega arith)
