-- ===== src/Gateway/Transfer/Live.antt =====
-- A cleared transfer is submitted.
use solmesh.Prelude.{
  ℕ, ◌≡◌, refl, ap, ◌∙◌, ◌⊎◌, inl, inr, Bool, true, false, [], ◌∷◌, ◌++◌, arith, none, some, String,
  ok, nonempty, any, if◌then◌else◌, ltb-false,
}
use solmesh.Prelude.Eq.{string_eq}
use solmesh.Constants.{Bytes}
use solmesh.Config.{GatewayConfig}
use solmesh.Protocol.Frame.{SolMeshHeader}
use solmesh.Protocol.Request.{TxRequest, decode_tx_request}
use solmesh.RateLimiter.{is_allowed}
use solmesh.Solana.{Keypair, verify_payload, deserialize_transaction}
use solmesh.Gateway.Node.{bind_ok, World, GatewayNode, Method, gets, finished, ◌>>=◌}
use solmesh.Gateway.Reply.{broadcast_to_solana, check_rate_limit, send_tx_result}
use solmesh.Gateway.Reply.Effects.{check_rate_limit-allowed, send_tx_result-Keeps}
use solmesh.Gateway.Transfer.{
  signed_data, authorize, check_amount, build_transfer, submit_built, execute_transfer,
  process_request, answer_request, handle_tx_request,
}
use solmesh.Gateway.Transfer.Submits.{broadcast-sent}
use solmesh.Gateway.Transfer.Cleared.{
  WithinLimit, lamports, unlimited_token, limited_token, Cleared,
}

authorize_passes :
    (w : World) (config : GatewayConfig) (req : TxRequest)
    → verify_payload w.lib req.sender_pubkey (signed_data req) req.signature ≡ true
    → (nonempty config.allowed_requesters ≡ false)
      ⊎ (any
            (λ (s : String). string_eq.beq (w.lib.base58 req.sender_pubkey) s)
            config.allowed_requesters
          ≡ true)
    → authorize w config req ≡ none
unfolding authorize
authorize_passes w config req signed (inl anyone) = ground (arith, signed, anyone)
authorize_passes w config req signed (inr listed) = ground (arith, signed, listed)

check_amount_passes :
    (w : World) (config : GatewayConfig) (req : TxRequest)
    → WithinLimit w config req
    → check_amount w config req ≡ none
unfolding check_amount
check_amount_passes w config req (lamports sol within) = ground (arith, sol, within)
check_amount_passes w config req (unlimited_token symbol decimals spl known free) =
    rw (spl, check_amount) (rw (known, check_amount) (rw (free, check_amount) refl))
check_amount_passes w config req (limited_token symbol decimals limit spl known max within) =
    rw (spl, check_amount)
      (rw (known, check_amount)
        (rw (max, check_amount)
          (rw (ltb-false (w.to_units limit decimals) req.amount within) refl)))

submit_built_sends :
    (w : World) (now id : ℕ) (sender : String) (tx : Bytes) (u : Unit {0}) (g : GatewayNode)
    → deserialize_transaction w.lib tx ≡ ok u
    → (submit_built w now id sender (ok tx) g).1.submitted ≡ g.submitted ++ tx ∷ []
unfolding submit_built
submit_built_sends w now id sender tx u g parsed =
    let (r, sent) = broadcast-sent w now tx u g parsed in
    let g' = record g { submitted = g.submitted ++ tx ∷ [] } in
    ap (λ n. n.1.submitted)
      (bind_ok (broadcast_to_solana w now tx) (λ a. send_tx_result w id a.0 a.1 sender) g r g' sent)
    ∙ ap (λ c. c.0) (send_tx_result-Keeps w id r.0 r.1 sender g')

module _ (w : World) (now id : ℕ) (sender : String) (hot : Keypair) (req : TxRequest)
    (g : GatewayNode) (hash tx : Bytes) (u : Unit {0})
    (fetched : w.get_latest_blockhash now ≡ ok hash)
    (built : build_transfer w now hot req hash ≡ ok tx)
    (parsed : deserialize_transaction w.lib tx ≡ ok u) where
  execute_transfer_sends :
      (execute_transfer w now id sender hot req g).1.submitted ≡ g.submitted ++ tx ∷ []
  unfolding execute_transfer
  execute_transfer_sends =
      rw (fetched, execute_transfer)
        (rw (built, submit_built) (submit_built_sends w now id sender tx u g parsed))

  process_request_sends :
      authorize w g.config req ≡ none
      → check_amount w g.config req ≡ none
      → (process_request w now id sender hot req g).1.submitted ≡ g.submitted ++ tx ∷ []
  unfolding process_request
  process_request_sends authorized paid =
      rw (authorized, process_request) (rw (paid, process_request) execute_transfer_sends)

answer_request_sends :
    (w : World) (now : ℕ) (header : SolMeshHeader) (payload : Bytes) (sender_id : String)
    (g : GatewayNode) (hot : Keypair) (req : TxRequest)
    → decode_tx_request w.valid_utf8 payload ≡ ok req
    → answer_request w now header payload sender_id (some hot) g
      ≡ process_request w now header.msg_id sender_id hot req g
unfolding answer_request
answer_request_sends w now header payload sender_id g hot req decodes =
    rw (decodes, answer_request) refl

-- A transfer request that is cleared, with a transaction that the library reads back, is paid: the
-- transaction is submitted, behind what was submitted before, and nothing else is.
pub cleared-submitted :
    (w : World) (now : ℕ) (header : SolMeshHeader) (payload : Bytes) (sender_id : String)
    (g : GatewayNode) (t : Cleared w now payload sender_id g) (u : Unit {0})
    → deserialize_transaction w.lib t.tx ≡ ok u
    → (handle_tx_request w now header payload sender_id g).1.submitted ≡ g.submitted ++ t.tx ∷ []
unfolding handle_tx_request
cleared-submitted w now header payload sender_id g t u parsed =
    let check = check_rate_limit w now sender_id header.msg_id in
    let answer : Bool → Method (Unit {0}) = λ allowed.
      if allowed
      then (gets (λ n. n.hot_keypair) >>= answer_request w now header payload sender_id)
      else finished in
    let g' = record g { rate_limiter = (is_allowed w.clock_rate now sender_id g.rate_limiter).0 } in
    let run =
      bind_ok check answer g true g'
        (check_rate_limit-allowed w now sender_id header.msg_id g t.in_rate) in
    let answered = answer_request_sends w now header payload sender_id g' t.hot t.req t.decodes in
    ap (λ n. n.1.submitted)
      (run
        ∙ ap (λ wallet. answer_request w now header payload sender_id wallet g') t.has_wallet
        ∙ answered)
    ∙ process_request_sends w now header.msg_id sender_id t.hot t.req g' t.recent_blockhash t.tx u
        t.fetched t.built parsed (authorize_passes w g.config t.req t.signed t.admitted)
        (check_amount_passes w g.config t.req t.within)
