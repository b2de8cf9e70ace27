-- ===== src/Client/Signed.antt =====
-- The request that a client signs, and what the gateway reads from it.
use solmesh.Prelude.{
  ℕ, ◌^◌, ◌<◌, ◌≡◌, refl, ap, sym, ◌∙◌, inl, true, Bool, [], ◌∷◌, ◌++◌, append-nil, arith, some,
  String, ok, length, All-append, lt→ltb,
}
use solmesh.Constants.{Bytes}
use solmesh.Constants.MsgType
use solmesh.Protocol.Struct.{IsBytes, be, be-IsBytes}
use solmesh.Protocol.Frame.{SolMeshHeader, unpack_message}
use solmesh.Protocol.Frame.RoundTrip.{
  IsSendable, covered, frame_of, pack_message-eq, unpack-frame_of,
}
use solmesh.Protocol.Crc.{crc8}
use solmesh.Protocol.Request.{TxRequest, decode_tx_request}
use solmesh.Protocol.Request.RoundTrip.{
  IsRequest, layout, encode-eq, decode-encode_tx_request, length-encode_tx_request,
}
use solmesh.Chunker.{generate_msg_id}
use solmesh.Mesh.{truthy}
use solmesh.Mesh.Sending.{send-connected}
use solmesh.Solana.{Keypair, sign_payload}
use solmesh.Gateway.Transfer.{signed_data}
use solmesh.Client.{ClientNode}
use solmesh.Client.World.{ClientWorld}
use solmesh.Wallet.{load_keypair}
use solmesh.Client.Request.{transfer_payload, to_gateway, send_request, request_transfer}

module _ (w : ClientWorld) (c : ClientNode) (wallet destination passphrase gateway_id : String)
    (amount_sol : ℕ) (kp : Keypair) (dest : Bytes) where
  abbrev lamports : ℕ
  lamports = w.to_units amount_sol 9

  abbrev signature : Bytes
  signature = w.lib.sign_message kp (kp.pubkey ++ (dest ++ be 8 lamports))

  abbrev payload : Bytes
  payload = layout signature kp.pubkey dest lamports 0 []

  abbrev id : ℕ
  id = generate_msg_id (w.urandom c.drawn)

  payload-eq :
      load_keypair w.crypto wallet passphrase c.wallet_mgr ≡ ok kp
      → w.lib.pubkey_from_string destination ≡ ok dest
      → IsRequest kp.pubkey dest lamports signature []
      → transfer_payload w c.wallet_mgr wallet destination amount_sol passphrase ≡ ok payload
  unfolding transfer_payload sign_payload
  payload-eq loaded parsed sizes = simp (
    loaded,
    parsed,
    lt→ltb lamports (2 ^ 64) sizes.amount_fits,
    encode-eq kp.pubkey dest lamports signature [] [] sizes,
  )

  sends :
      (p : Bytes)
      → truthy c.gateway_id ≡ some gateway_id
      → c.mesh.connected ≡ true
      → transfer_payload w c.wallet_mgr wallet destination amount_sol passphrase ≡ ok p
      → IsSendable MsgType.tx_request id 0 1 p
      → (request_transfer w wallet destination amount_sol passphrase c).1.mesh.air
        ≡ c.mesh.air
          ++ record {
            contents = frame_of MsgType.tx_request id 0 1 p;
            destination = truthy (some gateway_id);
            want_ack = true;
          }
            ∷ []
  unfolding request_transfer
  sends p known connected built fits =
      rw (known, to_gateway)
        (rw (built, to_gateway)
          (rw (pack_message-eq MsgType.tx_request id 0 1 p fits, send_request)
            (rw
              (send-connected w.radio (frame_of MsgType.tx_request id 0 1 p) (some gateway_id)
                c.mesh connected)
              (ap (λ n. n.1.air)
                (send-connected w.radio (frame_of MsgType.tx_request id 0 1 p) (some gateway_id)
                  c.mesh connected)))))

-- What a client signs is what the gateway verifies. With a gateway and a connection, a wallet that
-- loads and a destination that parses, keys of 32 bytes, a signature of 64, an amount below 2 ^ 64
-- and a message id of two bytes, `request_transfer` hands the device one more frame, addressed to
-- the gateway, which unpacks to a transfer request without a mint, for the destination and the
-- amount, whose signature is the wallet's over the very bytes that the gateway checks it against.
pub request_transfer-authentic :
    (w : ClientWorld) (c : ClientNode) (wallet destination passphrase gateway_id : String)
    (amount_sol : ℕ) (kp : Keypair) (dest : Bytes) (valid : Bytes → Bool)
    → truthy c.gateway_id ≡ some gateway_id
    → c.mesh.connected ≡ true
    → load_keypair w.crypto wallet passphrase c.wallet_mgr ≡ ok kp
    → w.lib.pubkey_from_string destination ≡ ok dest
    → let units = w.to_units amount_sol 9 in
      let sig = w.lib.sign_message kp (kp.pubkey ++ (dest ++ be 8 units)) in
      IsRequest kp.pubkey dest units sig []
      → IsBytes kp.pubkey
      → IsBytes dest
      → IsBytes sig
      → generate_msg_id (w.urandom c.drawn) < 65536
      → (frame payload : Bytes) × (header : SolMeshHeader) × (req : TxRequest) × ((request_transfer
            w wallet destination amount_sol passphrase c).1.mesh.air
          ≡ c.mesh.air
            ++ record { contents = frame; destination = truthy (some gateway_id); want_ack = true }
              ∷ [])
        × (unpack_message frame ≡ ok (header, payload))
        × (header.msg_type ≡ MsgType.tx_request)
        × (decode_tx_request valid payload ≡ ok req)
        × (req.sender_pubkey ≡ kp.pubkey)
        × (req.dest_pubkey ≡ dest)
        × (req.lamports ≡ units)
        × (req.mint ≡ [])
        × (req.signature ≡ w.lib.sign_message kp (signed_data req))
unfolding signed_data
request_transfer-authentic w c wallet destination passphrase gateway_id amount_sol kp dest valid
      known connected loaded parsed sizes key_bytes dest_bytes sig_bytes id_fits =
    let units = w.to_units amount_sol 9 in
    let sig = w.lib.sign_message kp (kp.pubkey ++ (dest ++ be 8 units)) in
    let p = layout sig kp.pubkey dest units 0 [] in
    let msg_id = generate_msg_id (w.urandom c.drawn) in
    let built =
      payload-eq w c wallet destination passphrase gateway_id amount_sol kp dest loaded parsed
        sizes in
    let encoded = encode-eq kp.pubkey dest units sig [] [] sizes in
    let fits : IsSendable MsgType.tx_request msg_id 0 1 p = record {
      type_fits = omega arith;
      id_fits = id_fits;
      chunk_fits = omega arith;
      total_fits = omega arith;
      payload_fits =
          omega (arith, length-encode_tx_request kp.pubkey dest units sig [] [] sizes encoded);
      payload_bytes =
          All-append (λ (b : ℕ). b < 256) sig _ sig_bytes
            (All-append (λ (b : ℕ). b < 256) kp.pubkey _ key_bytes
              (All-append (λ (b : ℕ). b < 256) dest _ dest_bytes
                (All-append (λ (b : ℕ). b < 256) (be 8 units) (0 ∷ []) (be-IsBytes 8 units)
                  (omega arith, tt))));
    } in
    (
      frame_of MsgType.tx_request msg_id 0 1 p,
      p,
      record {
        msg_type = MsgType.tx_request;
        msg_id = msg_id;
        chunk_num = 0;
        total_chunks = 1;
        payload_len = length p;
        checksum = crc8 (covered MsgType.tx_request msg_id 0 1 p);
      },
      record {
        signature = sig;
        sender_pubkey = kp.pubkey;
        dest_pubkey = dest;
        amount = units;
        lamports = units;
        flags = 0;
        mint = [];
        memo = [];
      },
      sends w c wallet destination passphrase gateway_id amount_sol kp dest p known connected built
          fits,
      ap unpack_message (sym (append-nil (frame_of MsgType.tx_request msg_id 0 1 p)))
          ∙ unpack-frame_of MsgType.tx_request msg_id 0 1 p [],
      refl,
      rw encoded at
          (decode-encode_tx_request valid kp.pubkey dest units sig [] [] sizes (inl refl)),
      refl,
      refl,
      refl,
      refl,
      refl,
    )
