-- ===== src/Gateway/Tests.antt =====
-- A gateway in a small world, and its theorems there.
use solmesh.Prelude.{
  inr, ok, ◌≡◌, refl, ◌⊎◌, [], ◌∷◌, ◌++◌, arith, err, value_error, payload_too_large, replicate,
}
use solmesh.Constants.{Bytes}
use solmesh.Protocol.Struct.{be}
use solmesh.Protocol.Crc.{crc8}
use solmesh.Protocol.Frame.{SolMeshHeader, pack_message}
use solmesh.Protocol.Messages.{encode_tx_result}
use solmesh.Mesh
use solmesh.Solana.{verify_payload, create_sol_transfer, deserialize_transaction}
use solmesh.Gateway.Toy.{toy_world, toy_gateway}
use solmesh.Gateway.Reply.{send_nack, send_tx_result, check_rate_limit, broadcast_to_solana}
use solmesh.Gateway.Reply.Limits.{send_nack_too_long}
use solmesh.Gateway.Transfer.{
  handle_tx_request, authorize, check_amount, build_transfer, execute_transfer,
}
use solmesh.Prelude.Int.{◌+ℤ◌, ◌*ℤ◌, ◌-ℤ◌}
use solmesh.RateLimiter.{is_allowed, consume}
use solmesh.Protocol.Request.{TxRequest, decode_tx_request}
use solmesh.Gateway.Transfer.Cleared.{Cleared, lamports}
use solmesh.Gateway.Transfer.Live.{cleared-submitted}
use solmesh.Gateway.Transfer.Guard.{tx_request-guarded}

-- Half a SOL, signed.
abbrev toy_request : Bytes
toy_request = replicate 64 9 ++ (replicate 32 1 ++ (replicate 32 2 ++ (be 8 500000000 ++ 0 ∷ [])))

abbrev toy_header : SolMeshHeader
toy_header = record {
  msg_type = 9;
  msg_id = 77;
  chunk_num = 0;
  total_chunks = 1;
  payload_len = 137;
  checksum = 0;
}

-- The request is paid.
transfer_is_paid :
    (handle_tx_request toy_world 5 toy_header toy_request "!node" toy_gateway).1.submitted
    ≡ (2 ∷ 1 ∷ 7 ∷ []) ∷ []
unfolding handle_tx_request check_rate_limit is_allowed consume ◌+ℤ◌ ◌*ℤ◌ ◌-ℤ◌ decode_tx_request
    authorize verify_payload check_amount execute_transfer build_transfer create_sol_transfer
    broadcast_to_solana deserialize_transaction send_tx_result encode_tx_result pack_message crc8
    solmesh.Mesh.send
transfer_is_paid = refl

tx_request-guarded_example :
    let submitted =
      (handle_tx_request toy_world 5 toy_header toy_request "!node" toy_gateway).1.submitted in
    (submitted ≡ [])
    ⊎ ((t : Cleared toy_world 5 toy_request "!node" toy_gateway) × (submitted ≡ t.tx ∷ []))
tx_request-guarded_example =
    tx_request-guarded toy_world 5 toy_header toy_request "!node" toy_gateway

send_nack_too_long_example :
    send_nack toy_world 77 1 (replicate 208 65) "!node" toy_gateway
    ≡ (err (value_error (payload_too_large 211)), record toy_gateway { drawn = 1 })
send_nack_too_long_example =
    send_nack_too_long toy_world 77 1 (replicate 208 65) "!node" toy_gateway (omega arith)
      (omega arith) (omega arith)

abbrev read_request : TxRequest
read_request = record {
  signature = replicate 64 9;
  sender_pubkey = replicate 32 1;
  dest_pubkey = replicate 32 2;
  amount = 500000000;
  lamports = 500000000;
  flags = 0;
  mint = [];
  memo = [];
}

toy_cleared : Cleared toy_world 5 toy_request "!node" toy_gateway
unfolding is_allowed consume ◌+ℤ◌ ◌*ℤ◌ ◌-ℤ◌ decode_tx_request verify_payload build_transfer
    create_sol_transfer
toy_cleared = record {
  hot = record { secret = []; pubkey = replicate 32 4 };
  req = read_request;
  recent_blockhash = 7 ∷ [];
  tx = 2 ∷ 1 ∷ 7 ∷ [];
  in_rate = refl;
  has_wallet = refl;
  decodes = refl;
  signed = refl;
  admitted = inr refl;
  within = lamports refl (omega arith);
  fetched = refl;
  built = refl;
}

toy_parsed : deserialize_transaction toy_world.lib (2 ∷ 1 ∷ 7 ∷ []) ≡ ok tt
unfolding deserialize_transaction
toy_parsed = refl

cleared-submitted_example :
    (handle_tx_request toy_world 5 toy_header toy_request "!node" toy_gateway).1.submitted
    ≡ (2 ∷ 1 ∷ 7 ∷ []) ∷ []
unfolding toy_cleared
cleared-submitted_example =
    cleared-submitted toy_world 5 toy_header toy_request "!node" toy_gateway toy_cleared tt
      toy_parsed
