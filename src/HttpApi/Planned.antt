-- ===== src/HttpApi/Planned.antt =====
-- What the limits of the HTTP API let through.
use solmesh.Prelude.{
  ℕ, ◌≤◌, ◌≡◌, sym, subst, inl, inr, arith, Option, none, some, String, ltb, Bool-cases,
  Option-cases,
}
use solmesh.Constants.{Str, known_token}
use solmesh.Config.{GatewayConfig, get_max_transfer_token}
use solmesh.Mesh.{truthy}
use solmesh.HttpApi.{Api, reply, resolve_token_mint}
use solmesh.HttpApi.Transfer.{
  TransferRequest, Plan, lamports, base_units, within_token, plan_transfer,
}

-- The plan moves what was asked, and the amount is within the limit for what is moved.
pub data Planned (api : Api) (config : GatewayConfig) (req : TransferRequest) : Plan → Type 0 where
  sol :
      truthy req.token ≡ none
      → req.amount ≤ config.max_transfer_sol
      → Planned api config req (lamports (api.world.to_units req.amount 9))
  token :
      (given : String) (symbol : Str) (decimals : ℕ)
      → truthy req.token ≡ some given
      → known_token (resolve_token_mint api given) ≡ some (symbol, decimals)
      → ((limit : ℕ)
          → get_max_transfer_token config (resolve_token_mint api given) ≡ some limit
          → req.amount ≤ limit)
      → Planned api config req (
          base_units
            (resolve_token_mint api given)
            decimals
            (api.world.to_units req.amount decimals))

within_token-reply :
    (api : Api) (req : TransferRequest) (mint : String) (symbol : Str) (decimals : ℕ)
    (max : Option ℕ) (plan : Plan)
    → within_token api req mint symbol decimals max ≡ reply plan
    → (plan ≡ base_units mint decimals (api.world.to_units req.amount decimals))
      × ((limit : ℕ) → max ≡ some limit → req.amount ≤ limit)
within_token-reply api req mint symbol decimals none plan h =
    (ground (arith, h), λ limit e. ground (arith, e))
within_token-reply api req mint symbol decimals (some m) plan h =
    elim (Bool-cases (ltb m req.amount)) [
      | inl over ↦ ground (arith, over, h)
      | inr within ↦ (ground (arith, within, h), λ limit e. ground (arith, within, e))
    ]

pub plan_transfer-reply :
    (api : Api) (config : GatewayConfig) (req : TransferRequest) (plan : Plan)
    → plan_transfer api config req ≡ reply plan
    → Planned api config req plan
unfolding plan_transfer
plan_transfer-reply api config req plan h = elim (Option-cases (truthy req.token)) [
  | inl no_token ↦ elim (Bool-cases (ltb config.max_transfer_sol req.amount)) [
    | inl over ↦ absurd (ground arith)
    | inr within ↦
        let eq : lamports (api.world.to_units req.amount 9) ≡ plan = ground arith in
        subst (Planned api config req) eq (sol no_token (ground arith))
  ]
  | inr (given, named) ↦ elim (Option-cases (known_token (resolve_token_mint api given))) [
    | inl unknown ↦ absurd (ground arith)
    | inr ((symbol, decimals), known) ↦
        let mint = resolve_token_mint api given in
        let step : within_token api req mint symbol decimals (get_max_transfer_token config mint)
            ≡ reply plan =
          ground arith in
        let (eq, within) =
          within_token-reply api req mint symbol decimals (get_max_transfer_token config mint) plan
            step in
        subst (Planned api config req) (sym eq) (token given symbol decimals named known within)
  ]
]
