-- ===== src/Config.antt =====
-- src/solmesh/config.py. A float stands as a number, as amounts do; `decimal m d` is the number for
-- the literal with the digits `m`, of which `d` stand behind the point. The YAML document stands as
-- what its sections hold, each value with the type that the configuration expects of it.
pub mod Load
use solmesh.Prelude.{ℕ, ◌||◌, List, [], ◌∷◌, Option, none, some, String, if◌then◌else◌}
use solmesh.Prelude.Eq.{string_eq}
use solmesh.Prelude.Dict.{Dict, lookup}
use solmesh.Constants.{
  usdc_mint_mainnet, usdc_mint_devnet, default_rpc_url, devnet_rpc_url, testnet_rpc_url,
}

abbrev pub rpc_urls : Dict String String
rpc_urls =
    ("mainnet-beta", default_rpc_url)
    ∷ ("devnet", devnet_rpc_url)
    ∷ ("testnet", testnet_rpc_url)
    ∷ []

pub record MeshConfig : Type 0 where
  pub connection_type : String
  pub device_path : Option String
  pub hostname : Option String

pub record SolanaConfig : Type 0 where
  pub network : String
  pub rpc_url : Option String

pub record GatewayConfig : Type 0 where
  pub hot_wallet : Option String
  pub allowed_requesters : List String
  pub max_transfer_sol : ℕ
  pub max_transfer_usdc : ℕ
  pub token_limits : Dict String ℕ
  pub max_requests_per_minute : ℕ
  pub rate_limit_burst : ℕ
  pub beacon_interval : ℕ
  pub http_port : Option ℕ
  pub api_key : Option String

pub record SolMeshConfig : Type 0 where
  pub mesh : MeshConfig
  pub solana : SolanaConfig
  pub gateway : GatewayConfig
  pub log_level : String

unfoldable pub get_max_transfer_token : GatewayConfig → String → Option ℕ
get_max_transfer_token config mint_address = elim (lookup mint_address config.token_limits) [
  | some limit ↦ some limit
  | none ↦
      if string_eq.beq mint_address usdc_mint_mainnet || string_eq.beq mint_address usdc_mint_devnet
      then some config.max_transfer_usdc
      else none
]

-- A custom URL, if it is not empty, or the one of the network; an unknown network is the devnet.
unfoldable pub get_rpc_url : SolanaConfig → String
get_rpc_url config =
    let of_network : String = elim (lookup config.network rpc_urls) [
      | none ↦ devnet_rpc_url
      | some url ↦ url
    ] in
    elim config.rpc_url [
      | none ↦ of_network
      | some url ↦ if string_eq.beq url "" then of_network else url
    ]
