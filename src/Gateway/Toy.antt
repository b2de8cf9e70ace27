-- ===== src/Gateway/Toy.antt =====
-- A gateway in a small world, for the tests.
use solmesh.Prelude.{◌*◌, ◌^◌, true, [], ◌∷◌, ◌++◌, some, none, ok, replicate}
use solmesh.Constants.{utf8}
use solmesh.Config.{GatewayConfig}
use solmesh.Protocol.Struct.{be}
use solmesh.Solana.{Solders}
use solmesh.Wallet.Toy.{toy_crypto, empty}
use solmesh.Gateway.Node.{World, GatewayNode}

-- Every signature is good here.
abbrev pub toy_solders : Solders
toy_solders = record {
  pubkey_from_string = λ s. ok (utf8 s);
  base58 = λ key. "key";
  find_program_address = λ seeds program. program;
  system_transfer = λ from to lamports.
      ok (record { program_id = from; accounts = []; contents = to ++ be 8 lamports });
  try_compile = λ payer instructions blockhash. ok (1 ∷ blockhash);
  versioned_transaction = λ msg keypair. ok (2 ∷ msg);
  transaction_from_bytes = λ raw. ok tt;
  sign_message = λ keypair msg. replicate 64 9;
  verify_signature = λ key msg signature. ok true;
  spl_token_program = [];
  associated_token_program = [];
  system_program = [];
}

abbrev pub toy_world : World
toy_world = record {
  lib = toy_solders;
  radio = λ before frame. true;
  urandom = λ k. 0 ∷ k ∷ [];
  valid_utf8 = λ text. true;
  text_of = λ e. utf8 "error";
  show_amount = λ n. n ∷ [];
  to_units = λ n decimals. n * 10 ^ decimals;
  clock_rate = 1;
  device_found = true;
  crypto = toy_crypto;
  get_latest_blockhash = λ now. ok (7 ∷ []);
  get_account_info = λ now account. ok true;
  get_balance = λ now account. ok 5;
  get_token_account_balance = λ now account. ok 6;
  send_raw_transaction = λ now tx. ok (utf8 "sig");
}

abbrev pub toy_config : GatewayConfig
toy_config = record {
  hot_wallet = some "hot";
  allowed_requesters = "key" ∷ [];
  max_transfer_sol = 1;
  max_transfer_usdc = 100;
  token_limits = [];
  max_requests_per_minute = 10;
  rate_limit_burst = 3;
  beacon_interval = 60;
  http_port = none;
  api_key = some "secret-key";
}

abbrev pub toy_gateway : GatewayNode
toy_gateway = record {
  mesh = record { connected = true; air = [] };
  wallet_mgr = empty;
  reassembler = [];
  config = toy_config;
  known_addresses = [];
  hot_keypair = some (record { secret = []; pubkey = replicate 32 4 });
  start_time = 0;
  rate_limiter = record { max_per_minute = 10; burst = 3; buckets = [] };
  drawn = 0;
  submitted = [];
}
