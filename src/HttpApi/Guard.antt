-- ===== src/HttpApi/Guard.antt =====
-- What must hold for the HTTP API to submit a transaction.
use solmesh.Prelude.{
  ap, ℕ, ◌≡◌, refl, sym, subst, ◌∙◌, ◌⊎◌, inl, inr, Bool, true, [], ◌∷◌, ◌++◌, Option, none, some,
  String, Bool-cases, Option-cases, Result, Result-cases, ok, err, if◌then◌else◌,
}
use solmesh.Constants.{Bytes, Str, utf8}
use solmesh.RateLimiter.{RateLimiter, is_allowed}
use solmesh.Solana.{Keypair}
use solmesh.Gateway.Node.{GatewayNode}
use solmesh.Gateway.Reply.{broadcast_to_solana}
use solmesh.Gateway.Transfer.Submits.{broadcast-submits}
use solmesh.HttpApi.{
  Api, Endpoint, Response, reply, http_exception, uncaught, verify_api_key, bucket_id,
  check_rate_limit,
}
use solmesh.HttpApi.Transfer.{
  TransferRequest, TransferResponse, signature, error, Plan, plan_transfer, build_plan,
  broadcast_built, run_plan, transfer, submit_transfer,
}
use solmesh.HttpApi.Planned.{Planned, plan_transfer-reply}

-- A transfer that passed every check: what was asked, and what it was turned into.
pub record Granted (api : Api) (now : ℕ) (key : String) (req : TransferRequest) (g : GatewayNode)
    : Type 0 where
  pub hot : Keypair
  pub dest : Bytes
  pub plan : Plan
  pub recent_blockhash : Bytes
  pub tx : Bytes
  pub has_key : verify_api_key g.config key ≡ true
  pub in_rate : (is_allowed api.world.clock_rate now (bucket_id key) g.rate_limiter).1 ≡ true
  pub has_wallet : g.hot_keypair ≡ some hot
  pub parsed : api.world.lib.pubkey_from_string req.destination ≡ ok dest
  pub planned : Planned api g.config req plan
  pub fetched : api.world.get_latest_blockhash now ≡ ok recent_blockhash
  pub built : build_plan api.world now hot dest plan recent_blockhash ≡ ok tx

-- Nothing is submitted, or one transaction that the checks granted.
abbrev pub Guarded : Api → ℕ → String → TransferRequest → GatewayNode → GatewayNode → Type 0
Guarded api now key req g g' =
    (g'.submitted ≡ g.submitted)
    ⊎ ((t : Granted api now key req g) × (g'.submitted ≡ g.submitted ++ t.tx ∷ []))

pub responded :
    (r : Result (Bool × Str)) (g : GatewayNode)
    → let n : Response TransferResponse × GatewayNode = elim r [
      | err e ↦ (uncaught e, g)
      | ok (success, result) ↦ (reply (if success then signature result else error result), g)
    ] in
      n.1 ≡ g
responded (err e) g = refl
responded (ok (success, result)) g = refl

broadcast_built-Submits :
    (api : Api) (now : ℕ) (built : Result Bytes) (g : GatewayNode)
    → let g' = (broadcast_built api now built g).1 in
      (g'.submitted ≡ g.submitted)
      ⊎ ((tx : Bytes) × (built ≡ ok tx) × (g'.submitted ≡ g.submitted ++ tx ∷ []))
broadcast_built-Submits api now (err e) g = inl refl
broadcast_built-Submits api now (ok tx) g =
    let n = broadcast_to_solana api.world now tx g in
    let (r, g', eq, either) = broadcast-submits api.world now tx g in
    let same = ap (λ h. h.submitted) (responded n.0 n.1) ∙ ap (λ h. h.1.submitted) eq in
    elim either [ inl s ↦ inl (same ∙ s) | inr s ↦ inr (tx, refl, same ∙ s) ]

module _ (api : Api) (now : ℕ) (key : String) (req : TransferRequest) (g : GatewayNode)
    (has_key : verify_api_key g.config key ≡ true)
    (in_rate : (is_allowed api.world.clock_rate now (bucket_id key) g.rate_limiter).1 ≡ true)
    (hot : Keypair) (has_wallet : g.hot_keypair ≡ some hot) (dest : Bytes)
    (parsed : api.world.lib.pubkey_from_string req.destination ≡ ok dest) (g' : GatewayNode)
    (same : g'.submitted ≡ g.submitted) where
  run_plan-Guarded :
      (r : Response Plan)
      → plan_transfer api g.config req ≡ r
      → Guarded api now key req g (run_plan api now hot dest r g').1
  run_plan-Guarded (http_exception status detail) e = inl same
  run_plan-Guarded (uncaught x) e = inl same
  run_plan-Guarded (reply plan) e = elim (Result-cases (api.world.get_latest_blockhash now)) [
    | inr (x, raised) ↦ rw (raised, run_plan) (inl same)
    | inl (hash, fetched) ↦
        rw (fetched, run_plan)
          (elim (broadcast_built-Submits api now (build_plan api.world now hot dest plan hash) g') [
            | inl s ↦ inl (s ∙ same)
            | inr (tx, built, s) ↦ inr (
              record {
                hot = hot;
                dest = dest;
                plan = plan;
                recent_blockhash = hash;
                tx = tx;
                has_key = has_key;
                in_rate = in_rate;
                has_wallet = has_wallet;
                parsed = parsed;
                planned = plan_transfer-reply api g.config req plan e;
                fetched = fetched;
                built = built;
              },
              s ∙ ap (λ l. l ++ tx ∷ []) same,
            )
          ])
  ]

on_wallet :
    {A : Type 0} (o : Option Keypair) (hot : Keypair) (a : A) (f : Keypair → A)
    → o ≡ some hot
    → (elim o [ none ↦ a | some kp ↦ f kp ]) ≡ f hot
on_wallet o hot a f e = rw e refl

module _ (api : Api) (now : ℕ) (key : String) (req : TransferRequest) (g : GatewayNode) where
  abbrev pub limited : RateLimiter × Bool
  limited = is_allowed api.world.clock_rate now (bucket_id key) g.rate_limiter

  abbrev pub charged : GatewayNode
  charged = record g { rate_limiter = limited.0 }

  pub granted_access :
      {A : Type 0} (endpoint : Endpoint A)
      → verify_api_key g.config key ≡ true
      → limited.1 ≡ true
      → check_rate_limit api now key endpoint g ≡ endpoint charged
  unfolding check_rate_limit
  granted_access endpoint has_key in_rate =
      rw (has_key, check_rate_limit) (rw (in_rate, check_rate_limit) refl)

  access :
      {A : Type 0} (endpoint : Endpoint A)
      → ((check_rate_limit api now key endpoint g).1.submitted ≡ g.submitted)
        ⊎ ((verify_api_key g.config key ≡ true)
            × (limited.1 ≡ true)
            × (check_rate_limit api now key endpoint g ≡ endpoint charged))
  unfolding check_rate_limit
  access endpoint = elim (Bool-cases (verify_api_key g.config key)) [
    | inr wrong ↦ inl (rw (wrong, check_rate_limit) refl)
    | inl has_key ↦ elim (Bool-cases limited.1) [
      | inr late ↦ inl (rw (has_key, check_rate_limit) (rw (late, check_rate_limit) refl))
      | inl in_rate ↦ inr (has_key, in_rate, granted_access endpoint has_key in_rate)
    ]
  ]

  pub transfer-eq :
      (hot : Keypair) (dest : Bytes)
      → g.hot_keypair ≡ some hot
      → api.world.lib.pubkey_from_string req.destination ≡ ok dest
      → transfer api now req charged
        ≡ run_plan api now hot dest (plan_transfer api g.config req) charged
  unfolding transfer
  transfer-eq hot dest has_wallet parsed =
      on_wallet g.hot_keypair hot
        (http_exception 503 (utf8 "No hot wallet configured on this gateway"), charged)
        (λ kp. elim (api.world.lib.pubkey_from_string req.destination) [
          | err _ ↦ (
            http_exception 400 (utf8 "Invalid destination address: " ++ utf8 req.destination),
            charged,
          )
          | ok to ↦ run_plan api now kp to (plan_transfer api g.config req) charged
        ])
        has_wallet
      ∙ rw parsed refl

  transfer-Guarded :
      verify_api_key g.config key ≡ true
      → limited.1 ≡ true
      → Guarded api now key req g (transfer api now req charged).1
  unfolding transfer
  transfer-Guarded has_key in_rate = elim (Option-cases g.hot_keypair) [
    | inl absent ↦ inl (rw (absent, transfer) refl)
    | inr (hot, has_wallet) ↦
        elim (Result-cases (api.world.lib.pubkey_from_string req.destination)) [
          | inr (x, bad) ↦ inl (rw (has_wallet, transfer) (rw (bad, transfer) refl))
          | inl (dest, parsed) ↦
              subst (λ (n : Response TransferResponse × GatewayNode). Guarded api now key req g n.1)
                (sym (transfer-eq hot dest has_wallet parsed))
                (run_plan-Guarded api now key req g has_key in_rate hot has_wallet dest parsed
                  charged refl (plan_transfer api g.config req) refl)
        ]
  ]

-- The transfer endpoint submits at most one transaction, and only one that is granted: the key is
-- the gateway's, its bucket has a token left, there is a hot wallet, the destination parses, the
-- plan is for the amount that was asked, within the limit of SOL, or of a known token and within
-- its limit if it has one, and the transaction is built from the plan and the latest blockhash. In
-- every other case nothing is submitted.
pub submit_transfer-guarded :
    (api : Api) (now : ℕ) (key : String) (req : TransferRequest) (g : GatewayNode)
    → let g' = (submit_transfer api now key req g).1 in
      (g'.submitted ≡ g.submitted)
      ⊎ ((t : Granted api now key req g) × (g'.submitted ≡ g.submitted ++ t.tx ∷ []))
unfolding submit_transfer
submit_transfer-guarded api now key req g = elim (access api now key req g (transfer api now req)) [
  | inl kept ↦ inl kept
  | inr (has_key, in_rate, eq) ↦
      subst (λ (n : Response TransferResponse × GatewayNode). Guarded api now key req g n.1)
        (sym eq) (transfer-Guarded api now key req g has_key in_rate)
]
