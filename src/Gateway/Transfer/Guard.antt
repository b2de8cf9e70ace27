-- ===== src/Gateway/Transfer/Guard.antt =====
-- What a transfer request has to pass before anything is handed to Solana.
use solmesh.Gateway.Transfer.Cleared.{Cleared, authorize-none, check_amount-none}
use solmesh.Prelude.{
  ℕ, ◌≡◌, refl, ap, ◌∙◌, ◌⊎◌, inl, inr, Bool, true, List, [], ◌∷◌, ◌++◌, Option, none, some, String,
  if◌then◌else◌, Bool-cases, Result-cases, ok,
}
use solmesh.Prelude.Eq.{string_eq}
use solmesh.Constants.{Bytes}
use solmesh.Protocol.Frame.{SolMeshHeader}
use solmesh.Protocol.Request.{TxRequest, decode_tx_request}
use solmesh.RateLimiter.{is_allowed}
use solmesh.Solana.{Keypair}
use solmesh.Gateway.Node.{bind_ok, World, GatewayNode, Method, ◌>>=◌, gets, finished}
use solmesh.Gateway.Reply.{check_rate_limit}
use solmesh.Gateway.Reply.Effects.{
  send_nack-Keeps, check_rate_limit-allowed, check_rate_limit-refused, bind_stops,
}
use solmesh.Gateway.Transfer.Submits.{execute_transfer-submits}
use solmesh.Gateway.Transfer.{
  authorize, check_amount, build_transfer, execute_transfer, Refusal, refuse_or, process_request,
  answer_request, handle_tx_request,
}

refuse_or-cases :
    (w : World) (id : ℕ) (sender : String) (r : Option Refusal) (next : Method (Unit {0}))
    (g : GatewayNode)
    → ((refuse_or w id sender r next g).1.submitted ≡ g.submitted)
      ⊎ ((r ≡ none) × (refuse_or w id sender r next g ≡ next g))
refuse_or-cases w id sender none next g = inr (refl, refl)
refuse_or-cases w id sender (some (code, text)) next g =
    inl (ap (λ c. c.0) (send_nack-Keeps w id code text sender g))

-- What a request that is decoded comes to.
abbrev Processed : World → ℕ → Keypair → TxRequest → GatewayNode → List Bytes → Type 0
Processed w now hot req g submitted =
    (submitted ≡ g.submitted)
    ⊎ ((authorize w g.config req ≡ none)
        × (check_amount w g.config req ≡ none)
        × (recent_blockhash : Bytes) × (tx : Bytes) × (w.get_latest_blockhash now
            ≡ ok recent_blockhash)
        × (build_transfer w now hot req recent_blockhash ≡ ok tx)
        × (submitted ≡ g.submitted ++ tx ∷ []))

process_request-submits :
    (w : World) (now id : ℕ) (sender : String) (hot : Keypair) (req : TxRequest) (g : GatewayNode)
    → Processed w now hot req g (process_request w now id sender hot req g).1.submitted
unfolding process_request
process_request-submits w now id sender hot req g =
    let run = execute_transfer w now id sender hot req in
    let pay = refuse_or w id sender (check_amount w g.config req) run in
    elim (refuse_or-cases w id sender (authorize w g.config req) pay g) [
      | inl same ↦ inl same
      | inr (authorized, to_pay) ↦
          elim (refuse_or-cases w id sender (check_amount w g.config req) run g) [
            | inl same ↦ inl (ap (λ n. n.1.submitted) to_pay ∙ same)
            | inr (allowed, to_run) ↦ elim (execute_transfer-submits w now id sender hot req g) [
              | inl same ↦ inl (ap (λ n. n.1.submitted) (to_pay ∙ to_run) ∙ same)
              | inr (recent_blockhash, tx, fetched, built, more) ↦ inr (
                authorized,
                allowed,
                recent_blockhash,
                tx,
                fetched,
                built,
                ap (λ n. n.1.submitted) (to_pay ∙ to_run) ∙ more,
              )
            ]
          ]
    ]

module _ (w : World) (now : ℕ) (header : SolMeshHeader) (payload : Bytes) (sender_id : String) where
  answer_request-submits :
      (wallet : Option Keypair) (g : GatewayNode)
      → let submitted = (answer_request w now header payload sender_id wallet g).1.submitted in
        (submitted ≡ g.submitted)
        ⊎ ((hot : Keypair) × (req : TxRequest) × (wallet ≡ some hot)
            × (decode_tx_request w.valid_utf8 payload ≡ ok req)
            × Processed w now hot req g submitted)
  unfolding answer_request
  answer_request-submits none g =
      inl (ap (λ c. c.0) (send_nack-Keeps w header.msg_id _ _ sender_id g))
  answer_request-submits (some hot) g =
      elim (Result-cases (decode_tx_request w.valid_utf8 payload)) [
        | inr (e, broken) ↦
            rw (broken, answer_request)
              (inl (ap (λ c. c.0) (send_nack-Keeps w header.msg_id _ _ sender_id g)))
        | inl (req, decodes) ↦
            rw (decodes, answer_request)
              (inr (
                hot,
                req,
                refl,
                refl,
                process_request-submits w now header.msg_id sender_id hot req g,
              ))
      ]

-- A transfer request makes the gateway submit at most one transaction, and only one that is
-- cleared: the limiter passed the sender, there is a hot wallet, the payload decodes to a request
-- whose signature is verified under its sender's key, this key is among the allowed requesters if
-- there are any, the amount is within the limit of its token if it has one, and the transaction is
-- the transfer built from that request and the latest blockhash. In every other case nothing is
-- submitted.
pub tx_request-guarded :
    (w : World) (now : ℕ) (header : SolMeshHeader) (payload : Bytes) (sender_id : String)
    (g : GatewayNode)
    → let submitted = (handle_tx_request w now header payload sender_id g).1.submitted in
      (submitted ≡ g.submitted)
      ⊎ ((t : Cleared w now payload sender_id g) × (submitted ≡ g.submitted ++ t.tx ∷ []))
unfolding handle_tx_request
tx_request-guarded w now header payload sender_id g =
    let check = check_rate_limit w now sender_id header.msg_id in
    let answer : Bool → Method (Unit {0}) = λ allowed.
      if allowed
      then (gets (λ n. n.hot_keypair) >>= answer_request w now header payload sender_id)
      else finished in
    elim (Bool-cases (is_allowed w.clock_rate now sender_id g.rate_limiter).1) [
      | inl passes ↦
          let g' = record g {
            rate_limiter = (is_allowed w.clock_rate now sender_id g.rate_limiter).0;
          } in
          let run =
            bind_ok check answer g true g'
              (check_rate_limit-allowed w now sender_id header.msg_id g passes) in
          elim (answer_request-submits w now header payload sender_id g.hot_keypair g') [
            | inl same ↦ inl (ap (λ n. n.1.submitted) run ∙ same)
            | inr (hot, req, wallet, decodes, done) ↦ elim done [
              | inl same ↦ inl (ap (λ n. n.1.submitted) run ∙ same)
              | inr (authorized, paid, recent_blockhash, tx, fetched, built, more) ↦
                  let (signed, admitted) = authorize-none w g.config req authorized in
                  inr (
                    record {
                      hot = hot;
                      req = req;
                      recent_blockhash = recent_blockhash;
                      tx = tx;
                      in_rate = passes;
                      has_wallet = wallet;
                      decodes = decodes;
                      signed = signed;
                      admitted = admitted;
                      within = check_amount-none w g.config req paid;
                      fetched = fetched;
                      built = built;
                    },
                    ap (λ n. n.1.submitted) run ∙ more,
                  )
            ]
          ]
      | inr refused ↦
          let (outcome, kept) = check_rate_limit-refused w now sender_id header.msg_id g refused in
          inl (bind_stops check answer g outcome (λ n. refl) ∙ ap (λ c. c.0) kept)
    ]
