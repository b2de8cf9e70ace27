-- ===== src/HttpApi/Live.antt =====
-- A granted transfer is submitted.
use solmesh.Prelude.{
  ap, ℕ, ◌≡◌, refl, ◌∙◌, [], ◌∷◌, ◌++◌, Option, none, some, String, ltb-false, ok, ◌≤◌,
}
use solmesh.Constants.{Bytes, Str}
use solmesh.Config.{GatewayConfig, get_max_transfer_token}
use solmesh.Solana.{Keypair, deserialize_transaction}
use solmesh.Gateway.Node.{GatewayNode}
use solmesh.Gateway.Reply.{broadcast_to_solana}
use solmesh.Gateway.Transfer.Submits.{broadcast-sent}
use solmesh.HttpApi.{Api, reply, resolve_token_mint}
use solmesh.HttpApi.Transfer.{
  TransferRequest, Plan, base_units, within_token, plan_transfer, build_plan, broadcast_built,
  run_plan, transfer, submit_transfer,
}
use solmesh.HttpApi.Planned.{Planned, sol, token}
use solmesh.HttpApi.Guard.{Granted, responded, charged, granted_access, transfer-eq}

within_token_passes :
    (api : Api) (req : TransferRequest) (mint : String) (symbol : Str) (decimals : ℕ)
    (max : Option ℕ)
    → ((limit : ℕ) → max ≡ some limit → req.amount ≤ limit)
    → within_token api req mint symbol decimals max
      ≡ reply (base_units mint decimals (api.world.to_units req.amount decimals))
within_token_passes api req mint symbol decimals none within = refl
within_token_passes api req mint symbol decimals (some limit) within =
    rw (ltb-false limit req.amount (within limit refl)) refl

plan_transfer_passes :
    (api : Api) (config : GatewayConfig) (req : TransferRequest) (plan : Plan)
    → Planned api config req plan
    → plan_transfer api config req ≡ reply plan
unfolding plan_transfer
plan_transfer_passes api config req plan (sol no_token within) =
    rw (no_token, plan_transfer)
      (rw (ltb-false config.max_transfer_sol req.amount within, plan_transfer) refl)
plan_transfer_passes api config req plan (token given symbol decimals named known within) =
    let mint = resolve_token_mint api given in
    rw (named, plan_transfer)
      (rw (known, plan_transfer)
        (within_token_passes api req mint symbol decimals (get_max_transfer_token config mint)
          within))

broadcast_built_sends :
    (api : Api) (now : ℕ) (tx : Bytes) (u : Unit {0}) (g : GatewayNode)
    → deserialize_transaction api.world.lib tx ≡ ok u
    → (broadcast_built api now (ok tx) g).1.submitted ≡ g.submitted ++ tx ∷ []
broadcast_built_sends api now tx u g parsed =
    let n = broadcast_to_solana api.world now tx g in
    let (r, sent) = broadcast-sent api.world now tx u g parsed in
    ap (λ h. h.submitted) (responded n.0 n.1) ∙ ap (λ h. h.1.submitted) sent

run_plan_sends :
    (api : Api) (now : ℕ) (hot : Keypair) (dest : Bytes) (plan : Plan) (hash tx : Bytes)
    (u : Unit {0}) (g : GatewayNode)
    → api.world.get_latest_blockhash now ≡ ok hash
    → build_plan api.world now hot dest plan hash ≡ ok tx
    → deserialize_transaction api.world.lib tx ≡ ok u
    → (run_plan api now hot dest (reply plan) g).1.submitted ≡ g.submitted ++ tx ∷ []
run_plan_sends api now hot dest plan hash tx u g fetched built parsed =
    rw (fetched, run_plan)
      (rw (built, broadcast_built) (broadcast_built_sends api now tx u g parsed))

-- A transfer that is granted, with a transaction that the library reads back, is paid: the endpoint
-- submits the transaction, behind what was submitted before, and nothing else.
pub granted-submitted :
    (api : Api) (now : ℕ) (key : String) (req : TransferRequest) (g : GatewayNode)
    (t : Granted api now key req g) (u : Unit {0})
    → deserialize_transaction api.world.lib t.tx ≡ ok u
    → (submit_transfer api now key req g).1.submitted ≡ g.submitted ++ t.tx ∷ []
unfolding submit_transfer
granted-submitted api now key req g t u parsed =
    let open_access = granted_access api now key req g (transfer api now req) t.has_key t.in_rate in
    let g' = charged api now key req g in
    ap (λ n. n.1.submitted)
      (open_access
        ∙ transfer-eq api now key req g t.hot t.dest t.has_wallet t.parsed
        ∙ ap (λ r. run_plan api now t.hot t.dest r g')
            (plan_transfer_passes api g.config req t.plan t.planned))
    ∙ run_plan_sends api now t.hot t.dest t.plan t.recent_blockhash t.tx u g' t.fetched t.built
        parsed
