-- ===== src/HttpApi.antt =====
-- src/solmesh/http_api.py: the endpoints of the gateway's HTTP API. FastAPI runs the dependencies of
-- an endpoint in order before it. The key that is compared is an ASCII text.

pub mod Keyed
pub mod Transfer
pub mod Planned
pub mod Guard
pub mod Limits
pub mod Live
mod Tests
use solmesh.Prelude.{
  ℕ, zero, suc, ◌-◌, Bool, true, false, not, List, [], ◌∷◌, ◌++◌, Option, none, some, String, ltb,
  if◌then◌else◌, Result, ok, err, Exn, attribute_error, ◌>>=◌,
}
use solmesh.Prelude.Eq.{string_eq}
use solmesh.Constants.{Bytes, Str, utf8, known_token, usdc_mint_devnet, fxn_mint_mainnet}
use solmesh.Config.{GatewayConfig, get_max_transfer_token}
use solmesh.RateLimiter.{is_allowed}
use solmesh.Mesh.{truthy}
use solmesh.Solana.{
  Keypair, find_associated_token_address, create_spl_transfer, create_sol_transfer,
}
use solmesh.Gateway.Node.{World, GatewayNode}
use solmesh.Gateway.Reply.{broadcast_to_solana}

-- What the endpoints call and the gateway does not: `str.upper`, and two more answers of the RPC.
pub record Api : Type 0 where
  pub world : World
  pub upper : String → String
  pub get_slot : ℕ → Result ℕ
  pub last_valid_block_height : ℕ → ℕ

-- An answer; an `HTTPException` with its status and detail; or another exception, which is a 500.
pub data Response (A : Type 0) : Type 0 where
  reply : A → Response A
  http_exception : ℕ → Str → Response A
  uncaught : Exn → Response A

abbrev pub Endpoint : Type 0 → Type 0
Endpoint A = GatewayNode → Response A × GatewayNode

unfoldable pub resolve_token_mint : Api → String → String
resolve_token_mint api token_input =
    let upper = api.upper token_input in
    if string_eq.beq upper "USDC"
    then usdc_mint_devnet
    else if string_eq.beq upper "FXN"
    then fxn_mint_mainnet
    else token_input

unfoldable pub verify_api_key : GatewayConfig → String → Bool
verify_api_key config x_api_key = elim (truthy config.api_key) [
  | none ↦ false
  | some expected ↦ string_eq.beq x_api_key expected
]

-- `x_api_key[:n]`; a shorter key is whole.
pub key_prefix : ℕ → String → String
key_prefix zero s = ""
key_prefix (suc n) String.[] = ""
key_prefix (suc n) (String.◌∷◌ c s) = String.◌∷◌ c (key_prefix n s)

pub join_text : String → String → String
join_text String.[] t = t
join_text (String.◌∷◌ c s) t = String.◌∷◌ c (join_text s t)

unfoldable pub bucket_id : String → String
unfolding key_prefix join_text
bucket_id x_api_key = join_text "http:" (key_prefix 8 x_api_key)

-- The dependencies of every endpoint: the key first, then the rate limit of its bucket.
unfoldable pub check_rate_limit : {A : Type 0} → Api → ℕ → String → Endpoint A → Endpoint A
unfolding verify_api_key bucket_id
check_rate_limit api now x_api_key endpoint g =
    let (limiter, allowed) =
      is_allowed api.world.clock_rate now (bucket_id x_api_key) g.rate_limiter in
    let g' = record g { rate_limiter = limiter } in
    if not (verify_api_key g.config x_api_key)
    then (http_exception 401 (utf8 "Invalid API key"), g)
    else if allowed
    then endpoint g'
    else (http_exception 429 (utf8 "Rate limit exceeded"), g')

pub record Status : Type 0 where
  pub hot_wallet : Option String
  pub uptime_seconds : ℕ
  pub mesh_connected : Bool
  pub max_per_minute : ℕ
  pub burst : ℕ

-- The status is made of `gateway._mesh.connected`, an attribute that `MeshInterface` does not have.
unfoldable pub get_status : Api → ℕ → String → Endpoint Status
unfolding check_rate_limit
get_status api now key = check_rate_limit api now key (λ g. (uncaught attribute_error, g))

-- What an endpoint reads of the RPC; whatever is raised becomes a 502 with its text.
abbrev pub from_rpc : {A B : Type 0} → World → Str → Result A → (A → Response B) → Response B
from_rpc w text (ok a) next = next a
from_rpc w text (err e) next = http_exception 502 (text ++ w.text_of e)

-- A balance: its mint, the raw amount, the decimals and the symbol.
abbrev pub Holding : Type 0
Holding = Option String × ℕ × ℕ × Str

abbrev pub token_holding : Api → ℕ → Bytes → String → Response Holding
token_holding api now pubkey mint_str = elim (known_token mint_str) [
  | none ↦ http_exception 400 (utf8 "Unknown token: " ++ utf8 mint_str)
  | some (symbol, decimals) ↦ elim (api.world.lib.pubkey_from_string mint_str) [
    | err e ↦ uncaught e
    | ok mint_pubkey ↦
        from_rpc api.world (utf8 "RPC error: ")
          (api.world.get_token_account_balance now
            (find_associated_token_address api.world.lib pubkey mint_pubkey))
          (λ raw_amount. reply (some mint_str, raw_amount, decimals, symbol))
  ]
]

unfoldable pub get_balance : Api → ℕ → String → String → Option String → Endpoint Holding
unfolding check_rate_limit resolve_token_mint
get_balance api now key address token = check_rate_limit api now key (λ g. (
  elim (api.world.lib.pubkey_from_string address) [
    | err _ ↦ http_exception 400 (utf8 "Invalid Solana address: " ++ utf8 address)
    | ok pubkey ↦ elim (truthy token) [
      | some given ↦ token_holding api now pubkey (resolve_token_mint api given)
      | none ↦
          from_rpc api.world (utf8 "RPC error: ") (api.world.get_balance now pubkey)
            (λ lamports. reply (none, lamports, 9, utf8 "SOL"))
    ]
  ],
  g,
))

unfoldable pub get_blockhash : Api → ℕ → String → Endpoint (String × ℕ)
unfolding check_rate_limit
get_blockhash api now key = check_rate_limit api now key (λ g. (
  from_rpc api.world (utf8 "RPC error: ") (api.world.get_latest_blockhash now)
      (λ hash. reply (api.world.lib.base58 hash, api.last_valid_block_height now)),
  g,
))

unfoldable pub get_slot : Api → ℕ → String → Endpoint ℕ
unfolding check_rate_limit
get_slot api now key =
    check_rate_limit api now key
      (λ g. (from_rpc api.world (utf8 "RPC error: ") (api.get_slot now) reply, g))
