-- ===== src/HttpApi/Transfer.antt =====
-- `submit_transfer`: a transfer from the hot wallet for the holder of the key.
use solmesh.Prelude.{
  ℕ, Bool, true, not, ◌++◌, Option, none, some, String, ltb, if◌then◌else◌, Result, ok, err, ◌>>=◌,
}
use solmesh.Constants.{Bytes, Str, utf8, known_token}
use solmesh.Config.{GatewayConfig, get_max_transfer_token}
use solmesh.Mesh.{truthy}
use solmesh.Solana.{
  Keypair, find_associated_token_address, create_spl_transfer, create_sol_transfer,
}
use solmesh.Gateway.Node.{World}
use solmesh.Gateway.Reply.{broadcast_to_solana}
use solmesh.HttpApi.{
  Api, Response, reply, http_exception, uncaught, Endpoint, resolve_token_mint, check_rate_limit,
}

pub record TransferRequest : Type 0 where
  pub destination : String
  pub amount : ℕ
  pub token : Option String

-- The signature, or the error.
pub data TransferResponse : Type 0 where
  signature : Str → TransferResponse
  error : Str → TransferResponse

-- What is moved, once the limits are checked: lamports, or base units of a mint.
pub data Plan : Type 0 where
  lamports : ℕ → Plan
  base_units : String → ℕ → ℕ → Plan

-- The mint, the decimals and the amount, for a token whose limit is known.
abbrev pub within_token : Api → TransferRequest → String → Str → ℕ → Option ℕ → Response Plan
within_token api req mint_str symbol decimals none =
    reply (base_units mint_str decimals (api.world.to_units req.amount decimals))
within_token api req mint_str symbol decimals (some max_amount) =
    if ltb max_amount req.amount
    then http_exception 400 (
        utf8 "Amount "
        ++ (api.world.show_amount req.amount
            ++ (utf8 " exceeds max "
                ++ (api.world.show_amount max_amount ++ (utf8 " " ++ symbol)))))
    else reply (base_units mint_str decimals (api.world.to_units req.amount decimals))

-- Step 3: the limits.
unfoldable pub plan_transfer : Api → GatewayConfig → TransferRequest → Response Plan
unfolding resolve_token_mint
plan_transfer api config req = elim (truthy req.token) [
  | some token ↦
      let mint_str = resolve_token_mint api token in
      elim (known_token mint_str) [
        | none ↦ http_exception 400 (utf8 "Unsupported token: " ++ utf8 mint_str)
        | some (symbol, decimals) ↦
            within_token api req mint_str symbol decimals (get_max_transfer_token config mint_str)
      ]
  | none ↦
      if ltb config.max_transfer_sol req.amount
      then http_exception 400 (
          utf8 "Amount "
          ++ (api.world.show_amount req.amount
              ++ (utf8 " SOL exceeds max "
                  ++ (api.world.show_amount config.max_transfer_sol ++ utf8 " SOL"))))
      else reply (lamports (api.world.to_units req.amount 9))
]

-- Step 5, up to the signature.
unfoldable pub build_plan : World → ℕ → Keypair → Bytes → Plan → Bytes → Result Bytes
build_plan w now hot dest (lamports amount) recent_blockhash =
    create_sol_transfer w.lib hot dest amount recent_blockhash
build_plan w now hot dest (base_units mint_str decimals amount) recent_blockhash = do
  mint ← w.lib.pubkey_from_string mint_str
  let recipient_ata = find_associated_token_address w.lib dest mint
  let create_ata : Bool = elim (w.get_account_info now recipient_ata) [
    | ok there ↦ not there
    | err _ ↦ true
  ]
  create_spl_transfer w.lib hot dest mint amount decimals recent_blockhash create_ata

-- From the signed transaction on.
abbrev pub broadcast_built : Api → ℕ → Result Bytes → Endpoint TransferResponse
broadcast_built api now (err e) g =
    (reply (error (utf8 "TX creation failed: " ++ api.world.text_of e)), g)
broadcast_built api now (ok tx_bytes) g =
    let (r, g') = broadcast_to_solana api.world now tx_bytes g in
    elim r [
      | err e ↦ (uncaught e, g')
      | ok (success, result) ↦ (reply (if success then signature result else error result), g')
    ]

-- From the blockhash on.
abbrev pub run_plan : Api → ℕ → Keypair → Bytes → Response Plan → Endpoint TransferResponse
run_plan api now hot dest (http_exception status detail) g = (http_exception status detail, g)
run_plan api now hot dest (uncaught e) g = (uncaught e, g)
run_plan api now hot dest (reply plan) g = elim (api.world.get_latest_blockhash now) [
  | err e ↦ (http_exception 502 (utf8 "RPC error fetching blockhash: " ++ api.world.text_of e), g)
  | ok recent_blockhash ↦
      broadcast_built api now (build_plan api.world now hot dest plan recent_blockhash) g
]

-- The endpoint behind its dependencies.
unfoldable pub transfer : Api → ℕ → TransferRequest → Endpoint TransferResponse
unfolding plan_transfer build_plan
transfer api now req g = elim g.hot_keypair [
  | none ↦ (http_exception 503 (utf8 "No hot wallet configured on this gateway"), g)
  | some hot ↦ elim (api.world.lib.pubkey_from_string req.destination) [
    | err _ ↦ (http_exception 400 (utf8 "Invalid destination address: " ++ utf8 req.destination), g)
    | ok dest ↦ run_plan api now hot dest (plan_transfer api g.config req) g
  ]
]

unfoldable pub submit_transfer : Api → ℕ → String → TransferRequest → Endpoint TransferResponse
unfolding check_rate_limit transfer
submit_transfer api now key req = check_rate_limit api now key (transfer api now req)
