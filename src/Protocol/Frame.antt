-- ===== src/Protocol/Frame.antt =====
-- `SolMeshHeader`, `pack_message` and `unpack_message` of src/solmesh/protocol.py.
pub mod RoundTrip
pub mod Inversion
pub mod Corruption
use solmesh.Prelude.{
  ℕ, ◌+◌, Bool, List, [], ◌∷◌, ◌++◌, not, ltb, ◌==◌, Result, ok, err, Exn, value_error, Reason,
  payload_too_large, message_too_short, invalid_magic, unsupported_version, length_mismatch,
  checksum_mismatch, ◌>>=◌, ◌>>◌, raise_if, length, get_or, take, slice,
}
use solmesh.Prelude.Eq.{bytes_eq}
use solmesh.Constants.{Bytes, magic, protocol_version, header_size, max_chunk_data}
use solmesh.Protocol.Struct.{u8, u16, from_be}
use solmesh.Protocol.Crc.{crc8}

pub record SolMeshHeader : Type 0 where
  pub msg_type : ℕ
  pub msg_id : ℕ
  pub chunk_num : ℕ
  pub total_chunks : ℕ
  pub payload_len : ℕ
  pub checksum : ℕ

-- `struct.pack("!2sBBHBBB", MAGIC, PROTOCOL_VERSION, ...)`: the first nine bytes.
unfoldable pub pack_header : ℕ → ℕ → ℕ → ℕ → ℕ → Result Bytes
pack_header msg_type msg_id chunk_num total_chunks payload_len = do
  version ← u8 protocol_version
  t ← u8 msg_type
  i ← u16 msg_id
  c ← u8 chunk_num
  n ← u8 total_chunks
  l ← u8 payload_len
  ok (magic ++ (version ++ (t ++ (i ++ (c ++ (n ++ l))))))

unfoldable pub pack_message : ℕ → ℕ → ℕ → ℕ → Bytes → Result Bytes
unfolding pack_header
pack_message msg_type msg_id chunk_num total_chunks payload = do
  raise_if (ltb max_chunk_data (length payload)) (value_error (payload_too_large (length payload)))
  header_no_crc ← pack_header msg_type msg_id chunk_num total_chunks (length payload)
  let check = crc8 (header_no_crc ++ payload)
  check_byte ← u8 check
  ok (header_no_crc ++ (check_byte ++ payload))

-- A subscript `raw[k]` stands behind the test of the length, so that its default is never taken.
unfoldable pub unpack_message : Bytes → Result (SolMeshHeader × Bytes)
unpack_message raw = do
  raise_if (ltb (length raw) header_size) (value_error (message_too_short (length raw)))
  raise_if (not (bytes_eq (slice 0 2 raw) magic)) (value_error invalid_magic)
  let version = get_or raw 2 0
  raise_if (not (version == protocol_version)) (value_error (unsupported_version version))
  let payload_len = get_or raw 8 0
  let checksum = get_or raw 9 0
  let payload = slice header_size (header_size + payload_len) raw
  raise_if (not (length payload == payload_len))
      (value_error (length_mismatch payload_len (length payload)))
  let expected_crc = crc8 (slice 0 9 raw ++ payload)
  raise_if (not (checksum == expected_crc)) (value_error (checksum_mismatch checksum expected_crc))
  ok (
    record {
      msg_type = get_or raw 3 0;
      msg_id = from_be (slice 4 6 raw);
      chunk_num = get_or raw 6 0;
      total_chunks = get_or raw 7 0;
      payload_len = payload_len;
      checksum = checksum;
    },
    payload,
  )
