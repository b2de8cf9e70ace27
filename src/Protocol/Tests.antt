-- ===== src/Protocol/Tests.antt =====
-- Runs of the protocol's functions, and its theorems at concrete messages.
use solmesh.Prelude.{
  ◌≡◌, refl, inl, inr, true, [], ◌∷◌, ◌++◌, arith, ok, err, value_error, Reason, checksum_mismatch,
  ◌>>=◌, take, set, replicate,
}
use solmesh.Constants.{Bytes, utf8}
use solmesh.Protocol.Struct.{IsBytes}
use solmesh.Protocol.Crc.{crc8}
use solmesh.Protocol.Frame.{SolMeshHeader, pack_message, unpack_message}
use solmesh.Protocol.Frame.RoundTrip.{IsSendable, covered, unpack-pack, pack-unpack}
use solmesh.Protocol.Frame.Corruption.{corrupt_refused}
use solmesh.Protocol.Request.{encode_tx_request, decode_tx_request}
use solmesh.Protocol.Request.RoundTrip.{IsRequest, decode-encode_tx_request}
use solmesh.Protocol.Messages.{encode_balance_resp, decode_balance_resp}
use solmesh.Protocol.Messages.RoundTrip.{decode-encode_balance_resp}

-- The check value of this CRC for the text "123456789".
crc8_check_value : crc8 (utf8 "123456789") ≡ 0xa2
unfolding crc8
crc8_check_value = refl

abbrev hello : Bytes
hello = 0x68 ∷ 0x69 ∷ []

abbrev hello_frame : Bytes
hello_frame = 0x53 ∷ 0x4d ∷ 1 ∷ 3 ∷ 0x12 ∷ 0x34 ∷ 0 ∷ 1 ∷ 2 ∷ 0xfe ∷ 0x68 ∷ 0x69 ∷ []

pack_hello : pack_message 3 0x1234 0 1 hello ≡ ok hello_frame
unfolding pack_message crc8
pack_hello = refl

abbrev hello_header : SolMeshHeader
hello_header = record {
  msg_type = 3;
  msg_id = 0x1234;
  chunk_num = 0;
  total_chunks = 1;
  payload_len = 2;
  checksum = 0xfe;
}

unpack_hello : unpack_message hello_frame ≡ ok (hello_header, hello)
unfolding unpack_message crc8
unpack_hello = refl

hello-IsSendable : IsSendable 3 0x1234 0 1 hello
hello-IsSendable = record {
  type_fits = omega arith;
  id_fits = omega arith;
  chunk_fits = omega arith;
  total_fits = omega arith;
  payload_fits = omega arith;
  payload_bytes = omega arith;
}

hello_frame-IsBytes : IsBytes hello_frame
hello_frame-IsBytes = omega arith

-- The frame is followed by another byte in the buffer.
unpack-pack_example :
    (pack_message 3 0x1234 0 1 hello >>= λ raw. unpack_message (raw ++ 7 ∷ []))
    ≡ ok (
      record {
        msg_type = 3;
        msg_id = 0x1234;
        chunk_num = 0;
        total_chunks = 1;
        payload_len = 2;
        checksum = crc8 (covered 3 0x1234 0 1 hello);
      },
      hello,
    )
unpack-pack_example = unpack-pack 3 0x1234 0 1 hello (7 ∷ []) hello-IsSendable

pack-unpack_example : pack_message 3 0x1234 0 1 hello ≡ ok (take 12 hello_frame)
pack-unpack_example = pack-unpack hello_frame hello_frame-IsBytes unpack_hello

-- The last byte of the payload is replaced.
corrupt_refused_example :
    (r : Reason) × (unpack_message (set hello_frame 11 0x6a) ≡ err (value_error r))
corrupt_refused_example =
    corrupt_refused hello_frame 11 0x6a hello_frame-IsBytes unpack_hello (omega arith) (omega arith)
      (omega arith) (omega arith)

bad_checksum : unpack_message (set hello_frame 9 0) ≡ err (value_error (checksum_mismatch 0 0xfe))
unfolding unpack_message crc8
bad_checksum = refl

abbrev key_1 : Bytes
key_1 = replicate 32 1

abbrev key_2 : Bytes
key_2 = replicate 32 2

abbrev sig_3 : Bytes
sig_3 = replicate 64 3

sample-IsRequest : IsRequest key_1 key_2 5_000_000 sig_3 key_2
sample-IsRequest = record {
  sig_size = refl;
  sender_size = refl;
  dest_size = refl;
  amount_fits = omega arith;
  mint_size = inr refl;
}

decode-encode_tx_request_example :
    (encode_tx_request key_1 key_2 5_000_000 sig_3 (utf8 "rent") key_2
      >>= decode_tx_request (λ _. true))
    ≡ ok (record {
      signature = sig_3;
      sender_pubkey = key_1;
      dest_pubkey = key_2;
      amount = 5_000_000;
      lamports = 5_000_000;
      flags = 1;
      mint = key_2;
      memo = utf8 "rent";
    })
decode-encode_tx_request_example =
    decode-encode_tx_request (λ _. true) key_1 key_2 5_000_000 sig_3 (utf8 "rent") key_2
      sample-IsRequest (inr refl)

decode-encode_balance_resp_example :
    (encode_balance_resp key_1 70_000 [] >>= decode_balance_resp)
    ≡ ok (record { pubkey = key_1; lamports = 70_000; amount = 70_000; mint = [] })
decode-encode_balance_resp_example =
    decode-encode_balance_resp key_1 70_000 [] refl (omega arith) (inl refl)
