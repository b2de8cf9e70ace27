-- ===== src/Network/Command.antt =====
-- `solmesh send request` from end to end.
use solmesh.Prelude.{
  ap, sym, subst, inr, Option-cases, Bool-cases, ℕ, ◌<◌, ◌≡◌, refl, inl, ◌∙◌, true, false, List, [],
  ◌∷◌, ◌++◌, none, some, String, Result, ok, err, Option,
}
use solmesh.Prelude.Stateful.{◌>>=◌, ◌>>◌, bind_ok}
use solmesh.Constants.{Bytes, Str}
use solmesh.Protocol.Struct.{IsBytes, be}
use solmesh.Protocol.Request.RoundTrip.{IsRequest}
use solmesh.Chunker.{generate_msg_id}
use solmesh.Mesh.{truthy, on_receive, Sent}
use solmesh.Mesh
use solmesh.Solana.{Keypair}
use solmesh.Wallet.{load_keypair}
use solmesh.Client.{ClientNode, Outcome, success, failure, new_client}
use solmesh.Client.Wait.{listen, wait_for_result}
use solmesh.Client.Wait.Keeps.{own, listen-own, listen-named, wait_for_result-own}
use solmesh.Client.Request.{request_transfer}
use solmesh.Gateway.Node.{World, GatewayNode}
use solmesh.Gateway.Start.{gateway_handlers}
use solmesh.Network.{packet_of}
use solmesh.Network.Request.{Willing, Verifies, request_transfer-paid}
use solmesh.Cli.{
  Session, Running, Host, Online, on_client, say, build_mesh, with_client, close, closing,
  report_result, text, num, no_gateway_found,
}
use solmesh.Cli.Token.{Token, resolve_token}
use solmesh.Cli.Send.{
  Payment, Route, online, token_of, announce_request, request, request_and_report, send_request,
}
use solmesh.Cli.Send.Named.{Named, connected, online-Named}

abbrev air : Running → List Sent
air s = s.client.mesh.air

report-air : (o : Option Outcome) (s : Running) → air (report_result o s).1 ≡ air s
unfolding report_result
report-air (some (success signature)) s = refl
report-air (some (failure error)) s = refl
report-air none s = refl

reported-air :
    (s : Running) (n : Result (Option Outcome) × ClientNode)
    → let next : Result (Unit {0}) × Running = elim n.0 [
      | ok o ↦ report_result o (record s { client = n.1 })
      | err e ↦ (err e, record s { client = n.1 })
    ] in
      air next.1 ≡ n.1.mesh.air
reported-air s (ok o, c) = report-air o (record s { client = c })
reported-air s (err e, c) = refl

-- What follows the sending of the request.
abbrev finish : Host → ℕ → Online (Unit {0})
finish h msg_id = do
  say (text "Request sent (msg_id=" ∷ num msg_id ∷ text "). Waiting for result..." ∷ [])
  result ← on_client (wait_for_result h.world msg_id 120)
  report_result result

finish-air : (h : Host) (msg_id : ℕ) (s : Running) → air (finish h msg_id s).1 ≡ air s
finish-air h msg_id s =
    reported-air
      ((say (text "Request sent (msg_id=" ∷ num msg_id ∷ text "). Waiting for result..." ∷ []) s).1)
      (wait_for_result h.world msg_id 120 s.client)
    ∙ ap (λ o. o.0.air) (wait_for_result-own h.world msg_id 120 s.client)

sent-air :
    (h : Host) (s : Running) (n : Result ℕ × ClientNode)
    → let next : Result (Unit {0}) × Running = elim n.0 [
      | ok msg_id ↦ finish h msg_id (record s { client = n.1 })
      | err e ↦ (err e, record s { client = n.1 })
    ] in
      air next.1 ≡ n.1.mesh.air
sent-air h s (ok msg_id, c) = finish-air h msg_id (record s { client = c })
sent-air h s (err e, c) = refl

request-air :
    (h : Host) (o : Payment) (decimals : ℕ) (symbol : Str) (s : Running)
    → air (request_and_report h o (none, decimals, symbol) s).1
      ≡ (request_transfer h.world o.wallet o.recipient o.amount o.passphrase s.client).1.mesh.air
unfolding request_and_report announce_request request
request-air h o decimals symbol s =
    sent-air h (announce_request o none symbol s).1
      (request_transfer h.world o.wallet o.recipient o.amount o.passphrase s.client)

close-air : (h : Host) (s : Running) → air (close h s).1 ≡ air s
unfolding Mesh.close
close-air h s = elim (Option-cases h.close_raises) [
  | inl quiet ↦ rw quiet refl
  | inr (e, raises) ↦ elim (Bool-cases s.client.mesh.connected) [
    | inl on ↦ rw (raises, Mesh.close) (rw on refl)
    | inr off ↦ rw (raises, Mesh.close) (rw off refl)
  ]
]

either-air :
    {A : Type 0} (r : Result A) (n : Result (Unit {0}) × Running)
    → let m : Result A × Running = elim n.0 [ ok _ ↦ (r, n.1) | err e ↦ (err e, n.1) ] in
      air m.1 ≡ air n.1
either-air r (ok u, s) = refl
either-air r (err e, s) = refl

-- Closing sends nothing, whether or not it raises.
closing-air :
    {A : Type 0} (h : Host) (body : Online A) (s : Running)
    → air (closing h body s).1 ≡ air (body s).1
unfolding closing
closing-air h body s = either-air (body s).0 (close h (body s).1) ∙ close-air h (body s).1

with_client-air :
    (h : Host) (route : Route) (not_found : String) (body : Online (Unit {0})) (s : Session)
    → h.device_found ≡ true
    → Named route
    → let start : Running = record {
      client = new_client (build_mesh s) s.wallets route.gateway_node none false;
      out = s.out;
    } in
      (with_client route.gateway_node none false (online h route not_found body) s).1.mesh.air
      ≡ air (body (connected h start)).1
unfolding with_client
with_client-air h route not_found body s there named =
    let start : Running = record {
      client = new_client (build_mesh s) s.wallets route.gateway_node none false;
      out = s.out;
    } in
    ap (λ (n : Result (Unit {0}) × Running). air n.1)
      (online-Named h route not_found body start there named)
    ∙ closing-air h body (connected h start)

-- `send request` of SOL, to a gateway that is named, is paid: the command sends one frame more, and
-- when the frame comes to a gateway that is willing to pay, the gateway submits one more transaction,
-- which is the one that it builds for the recipient and the amount of the command. It holds where the
-- device is found, the flags name no token and the passphrase opens the wallet; for a recipient that
-- parses, keys of 32 bytes, a signature of 64, an amount below 2 ^ 64 and a message id of two bytes;
-- and where the signatures of the client's library verify.
pub send_request-paid :
    (h : Host) (v : World) (o : Payment) (route : Route) (s : Session) (g : GatewayNode)
    (gateway_id sender_id : String) (now : ℕ) (kp : Keypair) (dest : Bytes) (symbol : Str)
    → h.device_found ≡ true
    → truthy route.gateway_node ≡ some gateway_id
    → resolve_token h.upper o.token o.usdc o.fxn s.config.solana.network ≡ ok (none, 9, symbol)
    → load_keypair h.world.crypto o.wallet o.passphrase s.wallets ≡ ok kp
    → h.world.lib.pubkey_from_string o.recipient ≡ ok dest
    → let units = h.world.to_units o.amount 9 in
      let sig = h.world.lib.sign_message kp (kp.pubkey ++ (dest ++ be 8 units)) in
      IsRequest kp.pubkey dest units sig []
      → IsBytes kp.pubkey
      → IsBytes dest
      → IsBytes sig
      → generate_msg_id (h.world.urandom 0) < 65536
      → Verifies h.world.lib v.lib kp
      → (ready : Willing v now sender_id g kp.pubkey dest units)
      → (frame : Bytes) × ((send_request h o route s).1.mesh.air
          ≡ s.mesh.air
            ++ record { contents = frame; destination = truthy (some gateway_id); want_ack = true }
              ∷ [])
        × ((on_receive (gateway_handlers v now) (packet_of frame sender_id) g).submitted
            ≡ g.submitted ++ ready.tx ∷ [])
unfolding send_request new_client
send_request-paid h v o route s g gateway_id sender_id now kp dest symbol there named sol loaded
      parsed sizes key_bytes dest_bytes sig_bytes id_fits verifies ready =
    let token : Token = (none, 9, symbol) in
    let body : Token → Online (Unit {0}) = request_and_report h o in
    let start : Running = record {
      client = new_client (build_mesh s) s.wallets route.gateway_node none false;
      out = s.out;
    } in
    let heard = listen h.world start.client in
    let same : own heard ≡ own start.client = listen-own h.world start.client in
    let there_still : load_keypair h.world.crypto o.wallet o.passphrase heard.wallet_mgr ≡ ok kp =
      ap (λ x. load_keypair h.world.crypto o.wallet o.passphrase x.1) same ∙ loaded in
    let fits : generate_msg_id (h.world.urandom heard.drawn) < 65536 =
      subst (λ k. generate_msg_id (h.world.urandom k) < 65536) (sym (ap (λ x. x.5) same)) id_fits in
    let (frame, sent, submitted) =
      request_transfer-paid h.world v (connected h start).client g o.wallet o.recipient o.passphrase
        gateway_id sender_id o.amount now kp dest
        (listen-named h.world start.client gateway_id named) refl there_still parsed sizes key_bytes
        dest_bytes sig_bytes fits verifies ready in
    (
      frame,
      ap (λ (n : Result (Unit {0}) × Session). n.1.mesh.air)
            (bind_ok (token_of h o)
              (λ t.
                with_client route.gateway_node none false
                  (online h route no_gateway_found (request_and_report h o t)))
              s token s (ap (λ (r : Result Token). (r, s)) sol))
          ∙ with_client-air h route no_gateway_found (request_and_report h o token) s there
              (inl (gateway_id, named))
          ∙ request-air h o 9 symbol (connected h start)
          ∙ sent
          ∙ ap
              (λ x.
                x.0.air
                ++ record {
                  contents = frame;
                  destination = truthy (some gateway_id);
                  want_ack = true;
                }
                  ∷ [])
              same,
      submitted,
    )
