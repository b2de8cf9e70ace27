-- ===== src/Cli/Node/Closed.antt =====
-- The commands that use the device, and the device behind them.
use solmesh.Prelude.{
  ℕ, ◌≡◌, refl, Bool, true, false, List, [], ◌∷◌, Option, none, some, String, Result, ok, err, Exn,
  arith, file_not_found_error, invalid_tag,
}
use solmesh.Prelude.Stateful.{◌>>=◌, ◌>>◌, lift}
use solmesh.Constants.{Str}
use solmesh.Mesh.{truthy}
use solmesh.Wallet.{load_keypair}
use solmesh.Store.{Intent, QueueFile, pending_intents, recover_sending}
use solmesh.Client.{new_client}
use solmesh.Client.Queue.Intake.{cache_passphrase}
use solmesh.Cli.{
  Session, Host, Command, Online, on_client, connect, closing, with_client, no_gateway_found,
  build_mesh, say, text,
}
use solmesh.Solana.{Keypair}
use solmesh.Cli.Token.{Token, resolve_token}
use solmesh.Cli.Send.{
  Payment, Route, send_relay, send_request, online, relay_and_report, request_and_report,
}
use solmesh.Cli.Send.Closing.{
  Undisturbed, Closes, StaysClosed, closing-closed, online-StaysClosed, find_gateway-StaysClosed,
  connect-StaysClosed,
}
use solmesh.Cli.Queue.{queue_flush, flush_if_any, flush_pending, flush_and_report}
use solmesh.Cli.Node.{
  share, balance, listen, check_wallet, wallet_refused, ask_balance, announce_address,
  listen_online, watch, until_stopped,
}

abbrev Off : Result (Unit {0}) × Session → Type 0
Off (r, s) = s.mesh.connected ≡ false

with_client-Off :
    (gateway_node : Option String) (store : Option QueueFile) (auto_flush : Bool)
    (body : Online (Unit {0})) (s : Session)
    → StaysClosed body
    → Off (with_client gateway_node store auto_flush body s)
unfolding with_client new_client
with_client-Off gateway_node store auto_flush body s closes =
    closes
      (record {
        client = new_client (build_mesh s) s.wallets gateway_node store auto_flush;
        out = s.out;
      })
      refl

online-Off :
    (h : Host) (route : Route) (store : Option QueueFile) (auto_flush : Bool) (not_found : String)
    (body : Online (Unit {0})) (s : Session)
    → Undisturbed h
    → Off (with_client route.gateway_node store auto_flush (online h route not_found body) s)
online-Off h route store auto_flush not_found body s u =
    with_client-Off route.gateway_node store auto_flush (online h route not_found body) s
      (online-StaysClosed h route not_found body u)

-- What follows the resolution of the token.
resolved-Off :
    (h : Host) (route : Route) (r : Result Token) (body : Token → Online (Unit {0})) (s : Session)
    → Undisturbed h
    → s.mesh.connected ≡ false
    → Off (
        (lift r >>= λ t.
        with_client route.gateway_node none false (online h route no_gateway_found (body t)))
          s)
resolved-Off h route (err e) body s u off = off
resolved-Off h route (ok t) body s u off =
    online-Off h route none false no_gateway_found (body t) s u

module _ (h : Host) (o : Payment) (route : Route) (s : Session) (undisturbed : Undisturbed h)
    (off : s.mesh.connected ≡ false) where
  send_relay-Off :
      (create_ata : Bool) (blockhash : Option String)
      → Off (send_relay h o route create_ata blockhash s)
  unfolding send_relay
  send_relay-Off create_ata blockhash =
      resolved-Off h route (resolve_token h.upper o.token o.usdc o.fxn s.config.solana.network)
        (relay_and_report h o create_ata blockhash) s undisturbed off

  send_request-Off : Off (send_request h o route s)
  unfolding send_request
  send_request-Off =
      resolved-Off h route (resolve_token h.upper o.token o.usdc o.fxn s.config.solana.network)
        (request_and_report h o) s undisturbed off

module _ (h : Host) (route : Route) (undisturbed : Undisturbed h) where
  balance-Off :
      (address : String) (token : Option String) (usdc fxn : Bool) (s : Session)
      → s.mesh.connected ≡ false
      → Off (balance h address token usdc fxn route s)
  unfolding balance
  balance-Off address token usdc fxn s off =
      resolved-Off h route (resolve_token h.upper token usdc fxn s.config.solana.network)
        (λ t. ask_balance h address (truthy t.0) t.1 t.2) s undisturbed off

  flush_if_any-Off :
      (passphrase : String) (wallet : Option String) (store : QueueFile) (l : List Intent)
      (s : Session)
      → s.mesh.connected ≡ false
      → Off (flush_if_any h passphrase wallet route store l s)
  unfolding flush_pending
  flush_if_any-Off passphrase wallet store [] s off = off
  flush_if_any-Off passphrase wallet store (i ∷ rest) s off =
      online-Off h route (some store) false "No gateway found."
        (flush_and_report h passphrase wallet (i ∷ rest)) s undisturbed

  queue_flush-Off :
      (passphrase : String) (wallet : Option String) (s : Session)
      → s.mesh.connected ≡ false
      → Off (queue_flush h passphrase wallet route s)
  unfolding queue_flush
  queue_flush-Off passphrase wallet s off =
      let store = recover_sending (h.world.clock 0) s.queue in
      flush_if_any-Off passphrase wallet store (pending_intents store) (record s { queue = store })
        off

share-Off :
    (h : Host) (wallet : String) (label : Str) (s : Session)
    → Undisturbed h
    → Off (share h wallet label s)
unfolding share
share-Off h wallet label s u =
    let body = closing h (announce_address h wallet label) in
    with_client-Off none none false (on_client (connect h) >> body) s
      (connect-StaysClosed h body (λ t. closing-closed h (announce_address h wallet label) t u))

watch-Closes : (h : Host) (seconds : ℕ) → Undisturbed h → Closes (watch h seconds)
unfolding watch
watch-Closes h seconds u s =
    let listening =
      (say (text "Listening for beacons. Queued intents will auto-flush." ∷ []) s).1 in
    closing-closed h (until_stopped h seconds) (say (text "Press Ctrl+C to stop." ∷ []) listening).1
      u

listen_online-StaysClosed :
    (h : Host) (wallet passphrase : String) (route : Route) (seconds : ℕ)
    → Undisturbed h
    → StaysClosed (listen_online h wallet passphrase route seconds)
unfolding listen_online cache_passphrase
listen_online-StaysClosed h wallet passphrase route seconds u s off =
    find_gateway-StaysClosed h route "No gateway found." (watch h seconds) u
      (watch-Closes h seconds u)
      (record s { client = (cache_passphrase wallet passphrase s.client).1 }) off

refused-Off :
    (wallet : String) (e : Exn) (s : Session)
    → s.mesh.connected ≡ false
    → Off (wallet_refused wallet e s)
unfolding wallet_refused
refused-Off wallet file_not_found_error s off = off
refused-Off wallet invalid_tag s off = off
refused-Off wallet e s off = ground arith

then-Off :
    (n : Result (Unit {0}) × Session) (next : Command (Unit {0}))
    → Off n
    → ((s : Session) → Off (next s))
    → let m : Result (Unit {0}) × Session = elim n.0 [ ok _ ↦ next n.1 | err e ↦ (err e, n.1) ] in
      Off m
then-Off (ok u, s) next off next_off = next_off s
then-Off (err e, s) next off next_off = off

checked-Off :
    (wallet : String) (r : Result Keypair) (s : Session)
    → s.mesh.connected ≡ false
    → let n : Result (Unit {0}) × Session = elim r [
      | ok kp ↦ (ok tt, s)
      | err e ↦ wallet_refused wallet e s
    ] in
      Off n
checked-Off wallet (ok kp) s off = off
checked-Off wallet (err e) s off = refused-Off wallet e s off

listen-Off :
    (h : Host) (wallet passphrase : String) (route : Route) (seconds : ℕ) (s : Session)
    → Undisturbed h
    → s.mesh.connected ≡ false
    → Off (listen h wallet passphrase route seconds s)
unfolding listen
listen-Off h wallet passphrase route seconds s u off =
    let s' : Session = record s { queue = recover_sending (h.world.clock 0) s.queue } in
    then-Off (check_wallet h wallet passphrase s')
      (λ t.
        with_client route.gateway_node (some t.queue) true
          (listen_online h wallet passphrase route seconds) t)
      (checked-Off wallet (load_keypair h.world.crypto wallet passphrase s'.wallets) s' off)
      (λ t.
        with_client-Off route.gateway_node (some t.queue) true
          (listen_online h wallet passphrase route seconds) t
          (listen_online-StaysClosed h wallet passphrase route seconds u))

-- A command that uses the device leaves it closed, whether it ends normally or with an exception:
-- both ways to send, a share of an address, a balance, a flush of the queue, and listening until it is
-- stopped, from a session whose device is closed, where Ctrl+C does not interrupt a search for a
-- gateway and the device is closed without an exception.
pub device_closed :
    (h : Host) (o : Payment) (route : Route) (create_ata : Bool) (blockhash : Option String)
    (label : Str) (wallet : Option String) (seconds : ℕ) (s : Session)
    → Undisturbed h
    → s.mesh.connected ≡ false
    → ((send_relay h o route create_ata blockhash s).1.mesh.connected ≡ false)
      × ((send_request h o route s).1.mesh.connected ≡ false)
      × ((share h o.wallet label s).1.mesh.connected ≡ false)
      × ((balance h o.recipient o.token o.usdc o.fxn route s).1.mesh.connected ≡ false)
      × ((queue_flush h o.passphrase wallet route s).1.mesh.connected ≡ false)
      × ((listen h o.wallet o.passphrase route seconds s).1.mesh.connected ≡ false)
device_closed h o route create_ata blockhash label wallet seconds s u off = (
  send_relay-Off h o route s u off create_ata blockhash,
  send_request-Off h o route s u off,
  share-Off h o.wallet label s u,
  balance-Off h route u o.recipient o.token o.usdc o.fxn s off,
  queue_flush-Off h route u o.passphrase wallet s off,
  listen-Off h o.wallet o.passphrase route seconds s u off,
)
