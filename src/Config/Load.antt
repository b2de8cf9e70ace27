-- ===== src/Config/Load.antt =====
-- `load_config`: the sections that are there, and the defaults for the rest.
use solmesh.Prelude.{ℕ, List, [], Option, none, some, String, Result, ok, err}
use solmesh.Prelude.Dict.{Dict}
use solmesh.Config.{MeshConfig, SolanaConfig, GatewayConfig, SolMeshConfig}

pub record RawMesh : Type 0 where
  pub connection_type : Option String
  pub device_path : Option String
  pub hostname : Option String

pub record RawSolana : Type 0 where
  pub network : Option String
  pub rpc_url : Option String

pub record RawGateway : Type 0 where
  pub hot_wallet : Option String
  pub allowed_requesters : Option (List String)
  pub max_transfer_sol : Option ℕ
  pub max_transfer_usdc : Option ℕ
  pub token_limits : Option (Dict String ℕ)
  pub max_requests_per_minute : Option ℕ
  pub rate_limit_burst : Option ℕ
  pub beacon_interval : Option ℕ
  pub http_port : Option ℕ
  pub api_key : Option String

-- The document; an empty one has no section.
pub record RawConfig : Type 0 where
  pub mesh : Option RawMesh
  pub solana : Option RawSolana
  pub gateway : Option RawGateway
  pub log_level : Option String

-- `d.get(key, default)`
abbrev pub get_default {ℓ} : {A : Type ℓ} → Option A → A → A
get_default none default = default
get_default (some value) default = value

abbrev pub default_mesh : MeshConfig
default_mesh = record { connection_type = "serial"; device_path = none; hostname = none }

abbrev pub default_solana : SolanaConfig
default_solana = record { network = "devnet"; rpc_url = none }

module _ (decimal : ℕ → ℕ → ℕ) where
  abbrev pub default_gateway : GatewayConfig
  default_gateway = record {
    hot_wallet = none;
    allowed_requesters = [];
    max_transfer_sol = decimal 1 1;
    max_transfer_usdc = decimal 100 1;
    token_limits = [];
    max_requests_per_minute = decimal 100 1;
    rate_limit_burst = 3;
    beacon_interval = 60;
    http_port = none;
    api_key = none;
  }

  -- `SolMeshConfig()`
  abbrev pub default_config : SolMeshConfig
  default_config = record {
    mesh = default_mesh;
    solana = default_solana;
    gateway = default_gateway;
    log_level = "INFO";
  }

  abbrev pub load_mesh : RawMesh → MeshConfig
  load_mesh m = record {
    connection_type = get_default m.connection_type "serial";
    device_path = m.device_path;
    hostname = m.hostname;
  }

  abbrev pub load_solana : RawSolana → SolanaConfig
  load_solana s = record { network = get_default s.network "devnet"; rpc_url = s.rpc_url }

  abbrev pub load_gateway : RawGateway → GatewayConfig
  load_gateway g = record {
    hot_wallet = g.hot_wallet;
    allowed_requesters = get_default g.allowed_requesters [];
    max_transfer_sol = get_default g.max_transfer_sol (decimal 1 1);
    max_transfer_usdc = get_default g.max_transfer_usdc (decimal 100 1);
    token_limits = get_default g.token_limits [];
    max_requests_per_minute = get_default g.max_requests_per_minute (decimal 100 1);
    rate_limit_burst = get_default g.rate_limit_burst 3;
    beacon_interval = get_default g.beacon_interval 60;
    http_port = g.http_port;
    api_key = g.api_key;
  }

  -- A file that is missing or is no YAML raises in `read`.
  unfoldable pub load_config : Result RawConfig → Result SolMeshConfig
  load_config (err e) = err e
  load_config (ok raw) = ok (record {
    mesh = elim raw.mesh [ none ↦ default_mesh | some m ↦ load_mesh m ];
    solana = elim raw.solana [ none ↦ default_solana | some s ↦ load_solana s ];
    gateway = elim raw.gateway [ none ↦ default_gateway | some g ↦ load_gateway g ];
    log_level = get_default raw.log_level "INFO";
  })
