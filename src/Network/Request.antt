-- ===== src/Network/Request.antt =====
-- Mode 3 from end to end: the request of a client, and the payment of the gateway.
use solmesh.Prelude.{
  ap, ℕ, ◌<◌, ◌≤◌, ◌≡◌, refl, sym, subst, ◌∙◌, ◌⊎◌, Bool, true, false, [], ◌∷◌, ◌++◌, ◌==◌, ap₂,
  if◌then◌else◌, some, String, Result, ok, err, nonempty, any, length,
}
use solmesh.Prelude.Eq.{string_eq, nat_eq}
use solmesh.Constants.{Bytes}
use solmesh.Constants.MsgType
use solmesh.Protocol.Struct.{IsBytes, be}
use solmesh.Protocol.Frame.{SolMeshHeader, unpack_message}
use solmesh.Protocol.Request.{TxRequest, decode_tx_request}
use solmesh.Protocol.Request.RoundTrip.{IsRequest}
use solmesh.Chunker.{generate_msg_id}
use solmesh.RateLimiter.{is_allowed}
use solmesh.Solana.{Keypair, Solders, verify_payload, create_sol_transfer, deserialize_transaction}
use solmesh.Mesh.{truthy, on_receive, register_handler, run_handlers, handlers_of}
use solmesh.Mesh.Receive.{on_receive_lem}
use solmesh.Wallet.{load_keypair}
use solmesh.Client.{ClientNode}
use solmesh.Client.World.{ClientWorld}
use solmesh.Client.Request.{request_transfer}
use solmesh.Client.Signed.{request_transfer-authentic}
use solmesh.Gateway.Node.{World, GatewayNode}
use solmesh.Gateway.Start.{gateway_handlers}
use solmesh.Gateway.Transfer.{signed_data, build_transfer, handle_tx_request}
use solmesh.Gateway.Transfer.Cleared.{lamports, Cleared}
use solmesh.Gateway.Transfer.Live.{cleared-submitted}
use solmesh.Network.{packet_of}

-- A transfer request that arrives is handled by the gateway's handler of such requests.
delivered :
    (v : World) (now : ℕ) (sender_id : String) (frame payload : Bytes) (header : SolMeshHeader)
    (g : GatewayNode)
    → unpack_message frame ≡ ok (header, payload)
    → header.msg_type ≡ MsgType.tx_request
    → on_receive (gateway_handlers v now) (packet_of frame sender_id) g
      ≡ (handle_tx_request v now header payload sender_id g).1
unfolding gateway_handlers register_handler run_handlers
delivered v now sender_id frame payload header g unpacked is_request =
    on_receive_lem (gateway_handlers v now) (packet_of frame sender_id) g
    ∙ ap
        (λ (r : Result (SolMeshHeader × Bytes)).
          let n : GatewayNode = elim r [
            | err _ ↦ g
            | ok (header, payload) ↦
                run_handlers (handlers_of header.msg_type (gateway_handlers v now)) header payload
                  sender_id g
          ] in
          n)
        unpacked
    ∙ ap (λ t. run_handlers (handlers_of t (gateway_handlers v now)) header payload sender_id g)
        is_request

-- What the gateway needs for a transfer of SOL that the key asks for.
pub record Willing (v : World) (now : ℕ) (sender_id : String) (g : GatewayNode) (key dest : Bytes)
    (units : ℕ) : Type 0 where
  pub hot : Keypair
  pub recent_blockhash : Bytes
  pub tx : Bytes
  pub in_rate : (is_allowed v.clock_rate now sender_id g.rate_limiter).1 ≡ true
  pub has_wallet : g.hot_keypair ≡ some hot
  pub admitted :
      (nonempty g.config.allowed_requesters ≡ false)
      ⊎ (any (λ (s : String). string_eq.beq (v.lib.base58 key) s) g.config.allowed_requesters
          ≡ true)
  pub within : units ≤ v.to_units g.config.max_transfer_sol 9
  pub fetched : v.get_latest_blockhash now ≡ ok recent_blockhash
  pub built : create_sol_transfer v.lib hot dest units recent_blockhash ≡ ok tx
  pub parsed : deserialize_transaction v.lib tx ≡ ok tt

-- A signature that the client's library makes is good for the gateway's.
abbrev pub Verifies : Solders → Solders → Keypair → Type 0
Verifies lib lib' kp =
    (message : Bytes)
    → lib'.verify_signature kp.pubkey message (lib.sign_message kp message) ≡ ok true

else_branch : {A : Type 0} (b : Bool) (x y : A) → b ≡ false → (if b then x else y) ≡ y
else_branch b x y h = rw h refl

signed-Verifies :
    (lib lib' : Solders) (kp : Keypair) (message : Bytes)
    → Verifies lib lib' kp
    → verify_payload lib' kp.pubkey message (lib.sign_message kp message) ≡ true
unfolding verify_payload
signed-Verifies lib lib' kp message verifies =
    ap (λ (r : Result Bool). let b : Bool = elim r [ ok valid ↦ valid | err _ ↦ false ] in b)
      (verifies message)

module _ (v : World) (now : ℕ) (hot : Keypair) (req : TxRequest) (hash dest : Bytes) (units : ℕ)
    (to : req.dest_pubkey ≡ dest) (amount : req.lamports ≡ units) (sol : req.mint ≡ []) where
  is_sol : (length req.mint == 32) ≡ false
  is_sol = ap (λ m. length m == 32) sol

  build_transfer-sol :
      build_transfer v now hot req hash ≡ create_sol_transfer v.lib hot dest units hash
  unfolding build_transfer
  build_transfer-sol =
      else_branch (length req.mint == 32) _
        (create_sol_transfer v.lib hot req.dest_pubkey req.lamports hash) is_sol
      ∙ ap₂ (λ d n. create_sol_transfer v.lib hot d n hash) to amount

module _ (w : ClientWorld) (v : World) (now : ℕ) (sender_id : String) (g : GatewayNode)
    (kp : Keypair) (dest : Bytes) (units : ℕ)
    (ready : Willing v now sender_id g kp.pubkey dest units)
    (verifies : Verifies w.lib v.lib kp) where
  cleared :
      (payload : Bytes) (req : TxRequest)
      → decode_tx_request v.valid_utf8 payload ≡ ok req
      → req.sender_pubkey ≡ kp.pubkey
      → req.dest_pubkey ≡ dest
      → req.lamports ≡ units
      → req.mint ≡ []
      → req.signature ≡ w.lib.sign_message kp (signed_data req)
      → Cleared v now payload sender_id g
  cleared payload req decodes from to amount sol signature = record {
    hot = ready.hot;
    req = req;
    recent_blockhash = ready.recent_blockhash;
    tx = ready.tx;
    in_rate = ready.in_rate;
    has_wallet = ready.has_wallet;
    decodes = decodes;
    signed =
        subst (λ key. verify_payload v.lib key (signed_data req) req.signature ≡ true) (sym from)
          (subst (λ s. verify_payload v.lib kp.pubkey (signed_data req) s ≡ true) (sym signature)
            (signed-Verifies w.lib v.lib kp (signed_data req) verifies));
    admitted =
        subst
          (λ key.
            (nonempty g.config.allowed_requesters ≡ false)
            ⊎ (any (λ (s : String). string_eq.beq (v.lib.base58 key) s) g.config.allowed_requesters
                ≡ true))
          (sym from) ready.admitted;
    within =
        lamports (is_sol v now ready.hot req ready.recent_blockhash dest units to amount sol)
          (subst (λ n. n ≤ v.to_units g.config.max_transfer_sol 9) (sym amount) ready.within);
    fetched = ready.fetched;
    built =
        build_transfer-sol v now ready.hot req ready.recent_blockhash dest units to amount sol
        ∙ ready.built;
  }

-- A transfer of SOL that a client requests is paid: the client hands its device one more frame, for
-- its gateway, and when the frame comes to a gateway that is willing to pay, the gateway submits one
-- more transaction, which is the one that it builds for the destination and the amount that were
-- asked for. It holds for a client with a gateway, a connection and a wallet that loads; a
-- destination that parses, keys of 32 bytes, a signature of 64, an amount below 2 ^ 64 and a message
-- id of two bytes; and where the signatures of the client's library verify.
pub request_transfer-paid :
    (w : ClientWorld) (v : World) (c : ClientNode) (g : GatewayNode)
    (wallet destination passphrase gateway_id sender_id : String) (amount_sol now : ℕ)
    (kp : Keypair) (dest : Bytes)
    → truthy c.gateway_id ≡ some gateway_id
    → c.mesh.connected ≡ true
    → load_keypair w.crypto wallet passphrase c.wallet_mgr ≡ ok kp
    → w.lib.pubkey_from_string destination ≡ ok dest
    → let units = w.to_units amount_sol 9 in
      let sig = w.lib.sign_message kp (kp.pubkey ++ (dest ++ be 8 units)) in
      IsRequest kp.pubkey dest units sig []
      → IsBytes kp.pubkey
      → IsBytes dest
      → IsBytes sig
      → generate_msg_id (w.urandom c.drawn) < 65536
      → Verifies w.lib v.lib kp
      → (ready : Willing v now sender_id g kp.pubkey dest units)
      → (frame : Bytes) × ((request_transfer w wallet destination amount_sol passphrase
            c).1.mesh.air
          ≡ c.mesh.air
            ++ record { contents = frame; destination = truthy (some gateway_id); want_ack = true }
              ∷ [])
        × ((on_receive (gateway_handlers v now) (packet_of frame sender_id) g).submitted
            ≡ g.submitted ++ ready.tx ∷ [])
unfolding cleared
request_transfer-paid w v c g wallet destination passphrase gateway_id sender_id amount_sol now kp
      dest known connected loaded parsed sizes key_bytes dest_bytes sig_bytes id_fits verifies
      ready =
    let (
      frame, payload, header, req, sent, unpacked, is_request, decodes, from, to, amount, sol,
      signature,
    ) =
      request_transfer-authentic w c wallet destination passphrase gateway_id amount_sol kp dest
        v.valid_utf8 known connected loaded parsed sizes key_bytes dest_bytes sig_bytes id_fits in
    let t =
      cleared w v now sender_id g kp dest (w.to_units amount_sol 9) ready verifies payload req
        decodes from to amount sol signature in
    (
      frame,
      sent,
      ap (λ (n : GatewayNode). n.submitted)
            (delivered v now sender_id frame payload header g unpacked is_request)
          ∙ cleared-submitted v now header payload sender_id g t tt ready.parsed,
    )
