-- ===== src/Gateway/Start.antt =====
-- `start`: the hot wallet, the handlers, the device and the checks before the HTTP server; and the
-- beacon. Which thread runs when is not modelled.
pub mod Started
use solmesh.Prelude.{
  ℕ, zero, suc, ◌+◌, ◌-◌, Bool, true, false, [], Option, none, some, String, ltb, ◌==◌, bit_or,
  if◌then◌else◌, Result, ok, err, struct_error, value_error, api_key_required,
}
use solmesh.Constants.{Bytes, protocol_version}
use solmesh.Constants.MsgType
use solmesh.Config.{GatewayConfig}
use solmesh.Protocol.Messages.{encode_gateway_beacon}
use solmesh.RateLimiter.{new_limiter}
use solmesh.Mesh.{Mesh, Handlers, Handler, register_handler, truthy}
use solmesh.Mesh
use solmesh.Wallet.{Wallets, load_keypair}
use solmesh.Gateway.Node.{
  World, GatewayNode, Method, ◌>>=◌, ◌>>◌, lift, gets, finished, new_msg_id, mesh_send,
}
use solmesh.Gateway.Reply.{send_frame}
use solmesh.Gateway.Relay.{handle_tx_chunk, handle_addr_share}
use solmesh.Gateway.Transfer.{handle_tx_request}
use solmesh.Gateway.Query.{handle_balance_req, handle_blockhash_req}

-- `GatewayNode.__init__`
unfoldable pub new_gateway : ℕ → Mesh → Wallets → GatewayConfig → GatewayNode
unfolding new_limiter
new_gateway now mesh wallet_manager config = record {
  mesh = mesh;
  wallet_mgr = wallet_manager;
  reassembler = [];
  config = config;
  known_addresses = [];
  hot_keypair = none;
  start_time = now;
  rate_limiter = new_limiter config.max_requests_per_minute config.rate_limit_burst;
  drawn = 0;
  submitted = [];
}

-- What `start` registers, for messages that are handled at time `now`.
unfoldable pub gateway_handlers : World → ℕ → Handlers GatewayNode
unfolding register_handler
gateway_handlers w now = register_handler MsgType.addr_share (handle_addr_share w now) (
    register_handler MsgType.blockhash_req (handle_blockhash_req w now) (
      register_handler MsgType.balance_req (handle_balance_req w now) (
        register_handler MsgType.tx_request (handle_tx_request w now)
          (register_handler MsgType.tx_chunk (handle_tx_chunk w now) []))))

abbrev pub load_hot_wallet : World → String → Method (Unit {0})
load_hot_wallet w passphrase g = elim (truthy g.config.hot_wallet) [
  | none ↦ (ok tt, g)
  | some name ↦ elim (load_keypair w.crypto name passphrase g.wallet_mgr) [
    | err e ↦ (err e, g)
    | ok kp ↦ (ok tt, record g { hot_keypair = some kp })
  ]
]

abbrev pub connect_mesh : World → Method (Unit {0})
connect_mesh w g =
    let (r, mesh') = Mesh.connect w.device_found g.mesh in (r, record g { mesh = mesh' })

abbrev pub with_key : Option String → Method (Unit {0})
with_key none = lift (err (value_error api_key_required))
with_key (some key) = finished

-- The server is FastAPI's: of its start the check of the key is left.
unfoldable pub start_http_server : Method (Unit {0})
start_http_server g = with_key (truthy g.config.api_key) g

abbrev pub if_port : Option ℕ → Method (Unit {0}) → Method (Unit {0})
if_port none server = finished
if_port (some zero) server = finished
if_port (some (suc port)) server = server

-- `if self._config.http_port: ...`
unfoldable pub start_http : Method (Unit {0})
unfolding start_http_server
start_http g = if_port g.config.http_port start_http_server g

-- Up to `run`. The beacon thread is started before the HTTP server.
unfoldable pub start : World → String → Method (Unit {0})
unfolding start_http
start w hot_wallet_passphrase =
    load_hot_wallet w hot_wallet_passphrase >> (connect_mesh w >> start_http)

abbrev pub beacon_caps : Bool → ℕ
beacon_caps hot =
    let caps = bit_or (bit_or (bit_or 0x01 0x04) 0x08) 0x10 in
    if hot then bit_or caps 0x02 else caps

-- A negative uptime (the clock was set back) does not pack.
abbrev pub uptime_of : ℕ → ℕ → Result ℕ
uptime_of now start_time = if ltb now start_time then err struct_error else ok (now - start_time)

unfoldable pub send_beacon : World → ℕ → Method (Unit {0})
unfolding new_msg_id mesh_send
send_beacon w now = do
  hot_keypair ← gets (λ g. g.hot_keypair)
  start_time ← gets (λ g. g.start_time)
  uptime ← lift (uptime_of now start_time)
  let caps : ℕ = elim hot_keypair [ none ↦ beacon_caps false | some _ ↦ beacon_caps true ]
  let pubkey : Bytes = elim hot_keypair [ none ↦ [] | some kp ↦ kp.pubkey ]
  payload ← lift (encode_gateway_beacon protocol_version caps pubkey uptime)
  send_frame w MsgType.gateway_beacon payload none false

-- `_beacon_loop` for a number of rounds; what a beacon raises ends it.
pub beacon_loop : World → ℕ → ℕ → Method (Unit {0})
unfolding send_beacon
beacon_loop w zero now = finished
beacon_loop w (suc rounds) now = do
  send_beacon w now
  interval ← gets (λ g. g.config.beacon_interval)
  beacon_loop w rounds (now + interval)
