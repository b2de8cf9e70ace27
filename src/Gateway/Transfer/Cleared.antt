-- ===== src/Gateway/Transfer/Cleared.antt =====
-- The checks of a transfer request, spelled out.
use solmesh.Prelude.{
  ℕ, ◌≤◌, ◌≡◌, ◌⊎◌, inl, inr, true, false, arith, none, some, String, nonempty, any, Bool-cases,
  Option-cases, ok,
}
use solmesh.Prelude.Eq.{string_eq}
use solmesh.Constants.{Bytes, Str, known_token}
use solmesh.Config.{GatewayConfig, get_max_transfer_token}
use solmesh.Protocol.Request.{TxRequest, decode_tx_request}
use solmesh.RateLimiter.{is_allowed}
use solmesh.Solana.{Keypair, verify_payload}
use solmesh.Gateway.Node.{World, GatewayNode}
use solmesh.Gateway.Transfer.{
  is_token_transfer, signed_data, authorize, check_amount, build_transfer,
}

-- The amount that a request asks for is one that the gateway pays.
pub data WithinLimit (w : World) (config : GatewayConfig) (req : TxRequest) : Type 0 where
  lamports :
      is_token_transfer req ≡ false
      → req.lamports ≤ w.to_units config.max_transfer_sol 9
      → WithinLimit w config req
  unlimited_token :
      (symbol : Str) (decimals : ℕ)
      → is_token_transfer req ≡ true
      → known_token (w.lib.base58 req.mint) ≡ some (symbol, decimals)
      → get_max_transfer_token config (w.lib.base58 req.mint) ≡ none
      → WithinLimit w config req
  limited_token :
      (symbol : Str) (decimals limit : ℕ)
      → is_token_transfer req ≡ true
      → known_token (w.lib.base58 req.mint) ≡ some (symbol, decimals)
      → get_max_transfer_token config (w.lib.base58 req.mint) ≡ some limit
      → req.amount ≤ w.to_units limit decimals
      → WithinLimit w config req

-- A transfer that passed every check: what was asked, and what it was turned into.
pub record Cleared (w : World) (now : ℕ) (payload : Bytes) (sender_id : String) (g : GatewayNode)
    : Type 0 where
  pub hot : Keypair
  pub req : TxRequest
  pub recent_blockhash : Bytes
  pub tx : Bytes
  pub in_rate : (is_allowed w.clock_rate now sender_id g.rate_limiter).1 ≡ true
  pub has_wallet : g.hot_keypair ≡ some hot
  pub decodes : decode_tx_request w.valid_utf8 payload ≡ ok req
  pub signed : verify_payload w.lib req.sender_pubkey (signed_data req) req.signature ≡ true
  pub admitted :
      (nonempty g.config.allowed_requesters ≡ false)
      ⊎ (any
            (λ (s : String). string_eq.beq (w.lib.base58 req.sender_pubkey) s)
            g.config.allowed_requesters
          ≡ true)
  pub within : WithinLimit w g.config req
  pub fetched : w.get_latest_blockhash now ≡ ok recent_blockhash
  pub built : build_transfer w now hot req recent_blockhash ≡ ok tx

pub authorize-none :
    (w : World) (config : GatewayConfig) (req : TxRequest)
    → authorize w config req ≡ none
    → (verify_payload w.lib req.sender_pubkey (signed_data req) req.signature ≡ true)
      × ((nonempty config.allowed_requesters ≡ false)
          ⊎ (any
                (λ (s : String). string_eq.beq (w.lib.base58 req.sender_pubkey) s)
                config.allowed_requesters
              ≡ true))
unfolding authorize
authorize-none w config req h = ground arith

pub check_amount-none :
    (w : World) (config : GatewayConfig) (req : TxRequest)
    → check_amount w config req ≡ none
    → WithinLimit w config req
unfolding check_amount
check_amount-none w config req h = elim (Bool-cases (is_token_transfer req)) [
  | inr sol ↦ lamports sol (ground arith)
  | inl spl ↦ elim (Option-cases (known_token (w.lib.base58 req.mint))) [
    | inl unknown ↦ absurd (ground arith)
    | inr ((symbol, decimals), known) ↦
        elim (Option-cases (get_max_transfer_token config (w.lib.base58 req.mint))) [
          | inl free ↦ unlimited_token symbol decimals spl known free
          | inr (limit, max) ↦ limited_token symbol decimals limit spl known max (ground arith)
        ]
  ]
]
