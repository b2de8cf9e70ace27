-- ===== src/Cli/Serve.antt =====
-- The `cli` group and the command `gateway`.
use solmesh.Prelude.{ℕ, [], ◌∷◌, Option, none, some, String, if◌then◌else◌, Result, ok, err, ◌==◌}
use solmesh.Prelude.Eq.{string_eq}
use solmesh.Prelude.Stateful.{◌>>=◌, ◌>>◌, gets, finished}
use solmesh.Config.{SolMeshConfig, GatewayConfig, get_rpc_url}
use solmesh.Config.Load.{RawConfig, load_config, default_config}
use solmesh.Mesh.{truthy}
use solmesh.Gateway.Node.{GatewayNode}
use solmesh.Gateway.Start.{new_gateway, start}
use solmesh.Cli.{text, num, float, Host, Command, echo, build_mesh}
use solmesh.Prelude.{Bool}

-- The group: the configuration for the commands. `document` is what the file of `--config` holds.
unfoldable pub cli : (decimal : ℕ → ℕ → ℕ) → Option (Result RawConfig) → Bool → Result SolMeshConfig
unfolding load_config
cli decimal document verbose =
    let config : Result SolMeshConfig = elim document [
      | none ↦ ok (default_config decimal)
      | some read ↦ load_config decimal read
    ] in
    let set_level : SolMeshConfig → SolMeshConfig =
      λ c. if verbose then record c { log_level = "DEBUG" } else c in
    elim config [ err e ↦ err e | ok c ↦ ok (set_level c) ]

-- The options of `gateway`; `prompted` is what the user types when the passphrase is asked for.
pub record GatewayOptions : Type 0 where
  pub rpc_url : Option String
  pub hot_wallet : Option String
  pub passphrase : String
  pub prompted : String
  pub beacon_interval : Option ℕ
  pub http_port : Option ℕ
  pub api_key : Option String

abbrev pub override {ℓ} : {A : Type ℓ} → Option A → Option A → Option A
override none old = old
override (some new) old = some new

-- The options that are given replace what the configuration says.
unfoldable pub apply_options : GatewayOptions → SolMeshConfig → SolMeshConfig
apply_options o config = record config {
  solana = record config.solana { rpc_url = override (truthy o.rpc_url) config.solana.rpc_url };
  gateway = record config.gateway {
    hot_wallet = override (truthy o.hot_wallet) config.gateway.hot_wallet;
    beacon_interval = elim o.beacon_interval [
      | none ↦ config.gateway.beacon_interval
      | some interval ↦ interval
    ];
    http_port = override o.http_port config.gateway.http_port;
    api_key = override o.api_key config.gateway.api_key;
  };
}

abbrev pub hot_passphrase : GatewayOptions → GatewayConfig → String
hot_passphrase o config = elim (truthy config.hot_wallet) [
  | none ↦ o.passphrase
  | some name ↦ if string_eq.beq o.passphrase "" then o.prompted else o.passphrase
]

abbrev pub hot_wallet_lines : GatewayConfig → Command (Unit {0})
hot_wallet_lines config = elim (truthy config.hot_wallet) [
  | none ↦ finished
  | some name ↦
      echo (text "  Hot wallet: " ∷ text name ∷ [])
      >> echo (
          text "  Max transfer: "
          ∷ float config.max_transfer_sol
          ∷ text " SOL / "
          ∷ float config.max_transfer_usdc
          ∷ text " USDC"
          ∷ [])
]

abbrev pub http_line : GatewayConfig → Command (Unit {0})
http_line config = elim config.http_port [
  | none ↦ finished
  | some port ↦ if port == 0 then finished else echo (text "  HTTP API:   port " ∷ num port ∷ [])
]

abbrev pub set_config : SolMeshConfig → Command (Unit {0})
set_config config s = (ok tt, record s { config = config })

-- `gw.start(...)` up to the loop that listens; the node that listens is the result.
abbrev pub start_gateway : Host → String → Command GatewayNode
start_gateway h passphrase s =
    let gw = new_gateway (h.world.clock 0) (build_mesh s) s.wallets s.config.gateway in
    let (r, gw') = start h.gateway_world passphrase gw in
    (
      elim r [ err e ↦ err e | ok _ ↦ ok gw' ],
      record s { mesh = gw'.mesh; wallets = gw'.wallet_mgr },
    )

unfoldable pub gateway : Host → GatewayOptions → Command GatewayNode
unfolding apply_options
gateway h o = do
  before ← gets (λ s. s.config)
  let config : SolMeshConfig = apply_options o before
  set_config config
  echo (text "Starting gateway node..." ∷ [])
  echo (text "  Solana RPC: " ∷ text (get_rpc_url config.solana) ∷ [])
  echo (text "  Network:    " ∷ text config.solana.network ∷ [])
  hot_wallet_lines config.gateway
  http_line config.gateway
  echo []
  start_gateway h (hot_passphrase o config.gateway)
