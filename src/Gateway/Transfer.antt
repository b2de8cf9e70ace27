-- ===== src/Gateway/Transfer.antt =====
-- `_handle_tx_request` (mode 3): a transfer from the hot wallet, on a signed request.
pub mod Submits
pub mod Cleared
pub mod Guard
pub mod Live
use solmesh.Prelude.{
  ℕ, Bool, true, false, not, ◌&&◌, ◌||◌, List, [], ◌∷◌, ◌++◌, Option, none, some, String, ltb, ◌==◌,
  bit_and, if◌then◌else◌, Result, ok, err, Exn, length, nonempty, take, any,
}
use solmesh.Prelude.Eq.{string_eq}
use solmesh.Constants.{Bytes, Str, utf8, known_token}
use solmesh.Constants.ErrorCode
use solmesh.Config.{GatewayConfig, get_max_transfer_token}
use solmesh.Protocol.Struct.{be}
use solmesh.Protocol.Frame.{SolMeshHeader}
use solmesh.Protocol.Request.{TxRequest, decode_tx_request}
use solmesh.Solana.{
  Keypair, Solders, verify_payload, find_associated_token_address, create_spl_transfer,
  create_sol_transfer,
}
use solmesh.Gateway.Node.{World, GatewayNode, Method, ◌>>=◌, ◌>>◌, gets, finished}
use solmesh.Gateway.Reply.{send_nack, check_rate_limit, broadcast_to_solana, send_tx_result}

-- The bytes that the sender must have signed. The amount came from eight bytes, and the flags from
-- one, so that packing them again cannot raise.
unfoldable pub signed_data : TxRequest → Bytes
signed_data req =
    req.sender_pubkey
    ++ (req.dest_pubkey
        ++ (be 8 req.amount
            ++ (if req.flags == 0
                then []
                else be 1 req.flags
                  ++ (if not (bit_and req.flags 1 == 0) && nonempty req.mint
                      then req.mint
                      else []))))

abbrev pub is_token_transfer : TxRequest → Bool
is_token_transfer req = length req.mint == 32

-- A refusal: its error code and its text.
abbrev pub Refusal : Type 0
Refusal = ℕ × Str

-- An empty list of requesters lets everybody in.
unfoldable pub authorize : World → GatewayConfig → TxRequest → Option Refusal
unfolding signed_data
authorize w config req =
    let allowed = config.allowed_requesters in
    let sender = w.lib.base58 req.sender_pubkey in
    if not (verify_payload w.lib req.sender_pubkey (signed_data req) req.signature)
    then some (ErrorCode.unauthorized, utf8 "Invalid signature")
    else if nonempty allowed && not (any (λ (s : String). string_eq.beq sender s) allowed)
    then some (ErrorCode.unauthorized, utf8 "Not in allowed requesters")
    else none

unfoldable pub check_amount : World → GatewayConfig → TxRequest → Option Refusal
check_amount w config req =
    let mint_str = w.lib.base58 req.mint in
    if is_token_transfer req
    then elim (known_token mint_str) [
      | none ↦ some (
        ErrorCode.unsupported_token,
        utf8 "Unsupported token: " ++ (take 16 (utf8 mint_str) ++ utf8 "..."),
      )
      | some (symbol, decimals) ↦ elim (get_max_transfer_token config mint_str) [
        | none ↦ none
        | some max_amount ↦
            if ltb (w.to_units max_amount decimals) req.amount
            then some (
              ErrorCode.amount_exceeded,
              utf8 "Max " ++ (w.show_amount max_amount ++ (utf8 " " ++ symbol)),
            )
            else none
      ]
    ]
    else if ltb (w.to_units config.max_transfer_sol 9) req.lamports
    then some (
      ErrorCode.amount_exceeded,
      utf8 "Max " ++ (w.show_amount config.max_transfer_sol ++ utf8 " SOL"),
    )
    else none

-- The recipient's token account is made where the RPC does not show it.
unfoldable pub build_transfer : World → ℕ → Keypair → TxRequest → Bytes → Result Bytes
build_transfer w now hot req recent_blockhash =
    let recipient_ata = find_associated_token_address w.lib req.dest_pubkey req.mint in
    let create_ata : Bool = elim (w.get_account_info now recipient_ata) [
      | ok there ↦ not there
      | err _ ↦ true
    ] in
    if is_token_transfer req
    then elim (known_token (w.lib.base58 req.mint)) [
      | none ↦ err Exn.key_error
      | some (symbol, decimals) ↦
          create_spl_transfer w.lib hot req.dest_pubkey req.mint req.amount decimals
            recent_blockhash create_ata
    ]
    else create_sol_transfer w.lib hot req.dest_pubkey req.lamports recent_blockhash

-- From the result of building the transaction on.
unfoldable pub submit_built : World → ℕ → ℕ → String → Result Bytes → Method (Unit {0})
submit_built w now msg_id sender_id (err e) =
    send_nack w msg_id ErrorCode.rpc_error (utf8 "TX creation failed: " ++ w.text_of e) sender_id
submit_built w now msg_id sender_id (ok tx_bytes) = do
  (success, result) ← broadcast_to_solana w now tx_bytes
  send_tx_result w msg_id success result sender_id

-- From the blockhash on, for a request that is authorized and within the limits.
unfoldable pub execute_transfer : World → ℕ → ℕ → String → Keypair → TxRequest → Method (Unit {0})
unfolding submit_built
execute_transfer w now msg_id sender_id hot req = elim (w.get_latest_blockhash now) [
  | err e ↦
      send_nack w msg_id ErrorCode.rpc_error (utf8 "Blockhash fetch failed: " ++ w.text_of e)
        sender_id
  | ok recent_blockhash ↦
      submit_built w now msg_id sender_id (build_transfer w now hot req recent_blockhash)
]

abbrev pub refuse_or : World → ℕ → String → Option Refusal → Method (Unit {0}) → Method (Unit {0})
refuse_or w msg_id sender_id none next = next
refuse_or w msg_id sender_id (some (code, message)) next = send_nack w msg_id code message sender_id

-- The request once it is decoded: signature first, then the requester, then the amount.
unfoldable pub process_request : World → ℕ → ℕ → String → Keypair → TxRequest → Method (Unit {0})
unfolding execute_transfer
process_request w now msg_id sender_id hot req = do
  config ← gets (λ g. g.config)
  refuse_or w msg_id sender_id (authorize w config req) (
      refuse_or w msg_id sender_id (check_amount w config req)
        (execute_transfer w now msg_id sender_id hot req))

-- What is done with a request that the limiter lets through.
unfoldable pub answer_request :
    World → ℕ → SolMeshHeader → Bytes → String → Option Keypair → Method (Unit {0})
unfolding process_request
answer_request w now header payload sender_id none =
    send_nack w header.msg_id ErrorCode.unauthorized (utf8 "No hot wallet configured") sender_id
answer_request w now header payload sender_id (some hot) =
    elim (decode_tx_request w.valid_utf8 payload) [
      | err e ↦ send_nack w header.msg_id ErrorCode.invalid_tx (w.text_of e) sender_id
      | ok req ↦ process_request w now header.msg_id sender_id hot req
    ]

unfoldable pub handle_tx_request : World → ℕ → SolMeshHeader → Bytes → String → Method (Unit {0})
unfolding answer_request
handle_tx_request w now header payload sender_id = do
  allowed ← check_rate_limit w now sender_id header.msg_id
  if allowed
      then (do
        hot_keypair ← gets (λ g. g.hot_keypair)
        answer_request w now header payload sender_id hot_keypair)
      else finished
