-- ===== src/Cli/Node.antt =====
-- The commands `share-address`, `balance` and `listen`.
pub mod Closed
use solmesh.Prelude.{
  ℕ, zero, suc, Bool, true, false, List, [], ◌∷◌, Option, none, some, String, ltb, if◌then◌else◌,
  Result, ok, err, Exn, file_not_found_error, invalid_tag, nonempty,
}
use solmesh.Prelude.Stateful.{◌>>=◌, ◌>>◌, lift, gets}
use solmesh.Constants.{Str, known_token}
use solmesh.Mesh.{truthy}
use solmesh.Wallet.{load_keypair, get_pubkey}
use solmesh.Client.{ClientNode, Balance}
use solmesh.Client.World.{ClientWorld}
use solmesh.Client.Wait.{sleep, wait_for_balance}
use solmesh.Client.Request.{check_balance, check_token_balance}
use solmesh.Client.Relay.{share_address}
use solmesh.Client.Queue.{auto_flush_pending}
use solmesh.Client.Queue.Intake.{cache_passphrase}
use solmesh.Cli.{
  Part, text, raw, num, fixed, Host, Command, Online, say, refuse, on_client, open_store,
  with_client, connect, closing, find_gateway, no_gateway_found,
}
use solmesh.Cli.Token.{resolve_token}
use solmesh.Cli.Send.{Route, online}

unfoldable pub announce_address : Host → String → Str → Online (Unit {0})
announce_address h wallet label = do
  on_client (share_address h.world wallet label)
  pubkey ← on_client (λ c. (get_pubkey h.world.lib wallet c.wallet_mgr, c))
  say (text "Address broadcast: " ∷ text (h.world.lib.base58 pubkey) ∷ [])

-- `share-address`
unfoldable pub share : Host → String → Str → Command (Unit {0})
unfolding with_client connect closing announce_address
share h wallet label =
    with_client none none false
      (on_client (connect h) >> closing h (announce_address h wallet label))

-- The amount of a token in whole units and in base units. An answer about SOL has neither and counts
-- as 0; the decimals are those that the client knows for the mint of the answer.
abbrev pub mint_decimals : Option (Str × ℕ) → ℕ
mint_decimals none = 6
mint_decimals (some (symbol, decimals)) = decimals

unfoldable pub token_line : Host → ℕ → Str → Balance → List Part
token_line h decimals symbol b =
    let scale = mint_decimals (known_token (h.world.lib.base58 b.mint)) in
    let units : ℕ = if nonempty b.mint then b.amount else 0 in
    text "Balance: "
    ∷ fixed units (if nonempty b.mint then scale else decimals) decimals
    ∷ text " "
    ∷ raw symbol
    ∷ text " ("
    ∷ num units
    ∷ text " base units)"
    ∷ []

abbrev pub print_balance : Host → (Balance → List Part) → Option Balance → Online (Unit {0})
print_balance h line none = say (text "Timed out waiting for balance response." ∷ [])
print_balance h line (some b) =
    say (text "Address: " ∷ text (h.world.lib.base58 b.pubkey) ∷ []) >> say (line b)

abbrev pub sol_line : Balance → List Part
sol_line b =
    text "Balance: " ∷ fixed b.amount 9 9 ∷ text " SOL (" ∷ num b.amount ∷ text " lamports)" ∷ []

unfoldable pub ask_balance : Host → String → Option String → ℕ → Str → Online (Unit {0})
unfolding token_line
ask_balance h address none decimals symbol = do
  on_client (check_balance h.world address)
  say (text "Balance request sent. Waiting for response..." ∷ [])
  result ← on_client (wait_for_balance h.world 60)
  print_balance h sol_line result
ask_balance h address (some mint) decimals symbol = do
  on_client (check_token_balance h.world address mint)
  say (text "Token balance request sent (" ∷ raw symbol ∷ text "). Waiting for response..." ∷ [])
  result ← on_client (wait_for_balance h.world 60)
  print_balance h (token_line h decimals symbol) result

unfoldable pub balance : Host → String → Option String → Bool → Bool → Route → Command (Unit {0})
unfolding with_client online ask_balance
balance h address token usdc fxn route = do
  network ← gets (λ s. s.config.solana.network)
  (mint_address, decimals, symbol) ← lift (resolve_token h.upper token usdc fxn network)
  with_client route.gateway_node none false (
      online h route no_gateway_found (ask_balance h address (truthy mint_address) decimals symbol))

-- One second of the loop. A flush that a beacon starts meanwhile runs at its end; what it raises ends
-- its thread alone.
unfoldable pub listen_second : ClientWorld → ClientNode → ClientNode
listen_second w c =
    let c' = (sleep w c).1 in
    if ltb c.flushes c'.flushes then (auto_flush_pending w false c').1 else c'

-- The seconds until Ctrl+C.
pub listen_seconds : ClientWorld → ℕ → ClientNode → ClientNode
unfolding listen_second
listen_seconds w zero c = c
listen_seconds w (suc seconds) c = listen_seconds w seconds (listen_second w c)

pub wallet_refused : String → Exn → Command (Unit {0})
wallet_refused wallet file_not_found_error =
    refuse (text "Error: Wallet '" ∷ text wallet ∷ text "' not found." ∷ [])
wallet_refused wallet invalid_tag = refuse (text "Error: Wrong passphrase." ∷ [])
wallet_refused wallet e = lift (err e)

abbrev pub check_wallet : Host → String → String → Command (Unit {0})
check_wallet h wallet passphrase s =
    elim (load_keypair h.world.crypto wallet passphrase s.wallets) [
      | ok kp ↦ (ok tt, s)
      | err e ↦ wallet_refused wallet e s
    ]

-- The flush of a beacon that came before the loop runs when the loop begins.
unfoldable pub flush_started : ClientWorld → ClientNode → ClientNode
flush_started w c = if ltb 0 c.flushes then (auto_flush_pending w false c).1 else c

unfoldable pub until_stopped : Host → ℕ → Online (Unit {0})
unfolding flush_started listen_seconds
until_stopped h seconds = do
  on_client (λ c. (ok tt, listen_seconds h.world seconds (flush_started h.world c)))
  say (text "\nStopping..." ∷ [])

unfoldable pub watch : Host → ℕ → Online (Unit {0})
unfolding closing until_stopped
watch h seconds = do
  say (text "Listening for beacons. Queued intents will auto-flush." ∷ [])
  say (text "Press Ctrl+C to stop." ∷ [])
  closing h (until_stopped h seconds)

-- With the client. The passphrase is cached before the device is connected.
unfoldable pub listen_online : Host → String → String → Route → ℕ → Online (Unit {0})
unfolding connect find_gateway watch
listen_online h wallet passphrase route seconds = do
  on_client (cache_passphrase wallet passphrase)
  on_client (connect h)
  find_gateway h route.auto_discover route.gateway_node "No gateway found."
  watch h seconds

unfoldable pub listen : Host → String → String → Route → ℕ → Command (Unit {0})
unfolding wallet_refused with_client listen_online
listen h wallet passphrase route seconds = do
  open_store h
  check_wallet h wallet passphrase
  store ← gets (λ s. s.queue)
  with_client route.gateway_node (some store) true (listen_online h wallet passphrase route seconds)
