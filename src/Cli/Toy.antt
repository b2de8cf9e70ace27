-- ===== src/Cli/Toy.antt =====
-- A session in a small world, for the tests.
use solmesh.Prelude.{true, false, [], ◌∷◌, none, some, ok, err, Exn}
use solmesh.Constants.{utf8}
use solmesh.Config.{SolMeshConfig}
use solmesh.Config.Load.{default_mesh, default_solana}
use solmesh.Wallet.Toy.{toy_crypto}
use solmesh.Store.{saved}
use solmesh.Client.Toy.{toy_world, toy_intent, toy_client}
use solmesh.Gateway.Toy.{toy_config, toy_world as gateway_toy}
use solmesh.Cli.{Session, Host}
use solmesh.Cli.Send.{Payment, Route}

abbrev pub host : Host
host = record {
  world = record toy_world { crypto = toy_crypto };
  gateway_world = gateway_toy;
  device_found = true;
  close_raises = none;
  interrupted = none;
  upper = λ s. s;
  b58decode = λ s. ok (utf8 s);
  from_hex = λ s. err Exn.other_error;
}

abbrev pub config : SolMeshConfig
config = record {
  mesh = default_mesh;
  solana = default_solana;
  gateway = toy_config;
  log_level = "INFO";
}

abbrev pub session : Session
session = record {
  config = config;
  wallets = toy_client.wallet_mgr;
  queue = saved (toy_intent ∷ []);
  mesh = record { connected = false; air = [] };
  out = [];
}

abbrev pub lunch : Payment
lunch = record {
  wallet = "main";
  recipient = "Bob";
  amount = 3;
  token = some "USDC";
  usdc = false;
  fxn = false;
  passphrase = "";
}

abbrev pub route : Route
route = record { gateway_node = some "!gate"; auto_discover = true }
