-- ===== src/Cli/Send.antt =====
-- The `send` commands.
pub mod Closing
pub mod Deferred
pub mod Named
use solmesh.Prelude.{
  ℕ, Bool, true, false, List, [], ◌∷◌, Option, none, some, String, if◌then◌else◌, Result, ok, err,
  Exn, file_not_found_error, value_error, invalid_tag,
}
use solmesh.Prelude.Stateful.{◌>>=◌, ◌>>◌, lift, gets, finished, attempt}
use solmesh.Constants.{Str}
use solmesh.Mesh.{truthy}
use solmesh.Store.{Intent, QueueFile}
use solmesh.Client.{ClientNode}
use solmesh.Client.World.{ClientWorld}
use solmesh.Client.Wait.{wait_for_result}
use solmesh.Client.Request.{request_transfer, request_token_transfer}
use solmesh.Client.Relay.{relay_signed_tx, relay_signed_token_tx}
use solmesh.Client.Queue.Intake.{queue_intent}
use solmesh.Cli.{
  Part, text, raw, num, float, Session, Running, Host, Command, Online, echo, say, refuse,
  on_client, open_store, with_client, connect, closing, find_gateway, no_gateway_found,
  report_result,
}
use solmesh.Cli.Token.{Token, resolve_token, is_set}

-- The options that the three commands share.
pub record Payment : Type 0 where
  pub wallet : String
  pub recipient : String
  pub amount : ℕ
  pub token : Option String
  pub usdc : Bool
  pub fxn : Bool
  pub passphrase : String

-- How a gateway is found.
pub record Route : Type 0 where
  pub gateway_node : Option String
  pub auto_discover : Bool

abbrev pub token_of : Host → Payment → Command Token
token_of h o s = (resolve_token h.upper o.token o.usdc o.fxn s.config.solana.network, s)

abbrev pub say_if : Bool → List Part → Online (Unit {0})
say_if true parts = say parts
say_if false parts = finished

abbrev pub blockhash_line : Option String → Online (Unit {0})
blockhash_line blockhash =
    if is_set blockhash
    then finished
    else say (text "  Blockhash: auto-fetching from gateway..." ∷ [])

unfoldable pub announce_relay :
    Payment → Option String → Str → Bool → Option String → Online (Unit {0})
announce_relay o (some mint) symbol create_ata blockhash = do
  say (text "Signing token transaction locally..." ∷ [])
  say (text "  From:   " ∷ text o.wallet ∷ [])
  say (text "  To:     " ∷ text o.recipient ∷ [])
  say (text "  Amount: " ∷ float o.amount ∷ text " " ∷ raw symbol ∷ [])
  say (text "  Token:  " ∷ text mint ∷ [])
  say_if create_ata (text "  Creating recipient token account if needed" ∷ [])
  blockhash_line blockhash
  say []
announce_relay o none symbol create_ata blockhash = do
  say (text "Signing transaction locally..." ∷ [])
  say (text "  From:   " ∷ text o.wallet ∷ [])
  say (text "  To:     " ∷ text o.recipient ∷ [])
  say (text "  Amount: " ∷ float o.amount ∷ text " SOL" ∷ [])
  blockhash_line blockhash
  say []

unfoldable pub relay :
    ClientWorld
    → Payment
    → Option String
    → ℕ
    → Bool
    → Option String
    → (ClientNode → Result ℕ × ClientNode)
relay w o (some mint) decimals create_ata blockhash =
    relay_signed_token_tx w o.wallet o.recipient mint o.amount decimals blockhash o.passphrase
      create_ata
relay w o none decimals create_ata blockhash =
    relay_signed_tx w o.wallet o.recipient o.amount blockhash o.passphrase

-- Connect, find a gateway, then `body` with the client closed behind it.
unfoldable pub online : {A : Type 0} → Host → Route → String → Online A → Online A
unfolding connect closing find_gateway
online h route not_found body =
    on_client (connect h)
    >> (find_gateway h route.auto_discover route.gateway_node not_found >> closing h body)

-- With the client, and the token that the flags name.
unfoldable pub relay_and_report : Host → Payment → Bool → Option String → Token → Online (Unit {0})
unfolding announce_relay relay report_result
relay_and_report h o create_ata blockhash (mint_address, decimals, symbol) = do
  announce_relay o (truthy mint_address) symbol create_ata blockhash
  msg_id ← on_client (relay h.world o (truthy mint_address) decimals create_ata blockhash)
  say (text "Transaction sent (msg_id=" ∷ num msg_id ∷ text "). Waiting for result..." ∷ [])
  result ← on_client (wait_for_result h.world msg_id 120)
  report_result result

unfoldable pub send_relay : Host → Payment → Route → Bool → Option String → Command (Unit {0})
unfolding with_client online relay_and_report
send_relay h o route create_ata blockhash = do
  token ← token_of h o
  with_client route.gateway_node none false
      (online h route no_gateway_found (relay_and_report h o create_ata blockhash token))

unfoldable pub announce_request : Payment → Option String → Str → Online (Unit {0})
announce_request o (some mint) symbol = do
  say (text "Requesting gateway token transfer..." ∷ [])
  say (text "  To:     " ∷ text o.recipient ∷ [])
  say (text "  Amount: " ∷ float o.amount ∷ text " " ∷ raw symbol ∷ [])
  say (text "  Token:  " ∷ text mint ∷ [])
  say []
announce_request o none symbol = do
  say (text "Requesting gateway transfer..." ∷ [])
  say (text "  To:     " ∷ text o.recipient ∷ [])
  say (text "  Amount: " ∷ float o.amount ∷ text " SOL" ∷ [])
  say []

unfoldable pub request :
    ClientWorld → Payment → Option String → ℕ → (ClientNode → Result ℕ × ClientNode)
request w o (some mint) decimals =
    request_token_transfer w o.wallet o.recipient mint o.amount decimals o.passphrase
request w o none decimals = request_transfer w o.wallet o.recipient o.amount o.passphrase

unfoldable pub request_and_report : Host → Payment → Token → Online (Unit {0})
unfolding announce_request request report_result
request_and_report h o (mint_address, decimals, symbol) = do
  announce_request o (truthy mint_address) symbol
  msg_id ← on_client (request h.world o (truthy mint_address) decimals)
  say (text "Request sent (msg_id=" ∷ num msg_id ∷ text "). Waiting for result..." ∷ [])
  result ← on_client (wait_for_result h.world msg_id 120)
  report_result result

unfoldable pub send_request : Host → Payment → Route → Command (Unit {0})
unfolding with_client online request_and_report
send_request h o route = do
  token ← token_of h o
  with_client route.gateway_node none false
      (online h route no_gateway_found (request_and_report h o token))

-- The `except` clauses of `send_deferred`.
pub deferred_failed : Host → Payment → Exn → Command (Unit {0})
deferred_failed h o file_not_found_error =
    refuse (text "Error: Wallet '" ∷ text o.wallet ∷ text "' not found." ∷ [])
deferred_failed h o (value_error reason) =
    refuse (text "Error: " ∷ raw (h.world.text_of (value_error reason)) ∷ [])
deferred_failed h o invalid_tag = refuse (text "Error: Wrong passphrase." ∷ [])
deferred_failed h o e = lift (err e)

unfoldable pub deferred : Host → Payment → ℕ → Str → Result Intent → Command (Unit {0})
unfolding deferred_failed
deferred h o int_mode symbol (err e) = deferred_failed h o e
deferred h o int_mode symbol (ok intent) = do
  echo (text "Intent queued: " ∷ text intent.id ∷ [])
  echo (text "  Mode:   " ∷ num int_mode ∷ [])
  echo (text "  From:   " ∷ text o.wallet ∷ [])
  echo (text "  To:     " ∷ text o.recipient ∷ [])
  echo (text "  Amount: " ∷ float o.amount ∷ text " " ∷ raw symbol ∷ [])
  echo []
  echo (text "Flush with: solmesh queue flush --passphrase ..." ∷ [])

-- The client has no device. An empty passphrase is not checked.
unfoldable pub enqueue : Host → Payment → ℕ → Token → Command (Unit {0})
unfolding with_client deferred
enqueue h o int_mode (token_mint, token_decimals, symbol) = do
  open_store h
  store ← gets (λ s. s.queue)
  r ← attempt (
      with_client none (some store) false (
        on_client (
          queue_intent h.world int_mode o.wallet o.recipient o.amount token_mint token_decimals
            (truthy (some o.passphrase)))))
  deferred h o int_mode symbol r

unfoldable pub send_deferred : Host → Payment → ℕ → Command (Unit {0})
unfolding enqueue
send_deferred h o int_mode = do token ← token_of h o; enqueue h o int_mode token
