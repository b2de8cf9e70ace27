-- ===== src/Client/Toy.antt =====
-- A client in a small world, for the tests.
use solmesh.Prelude.{◌*◌, ◌^◌, true, [], ◌∷◌, false, none, some, ok, err, Exn, replicate, length}
use solmesh.Solana.{Keypair, Solders}
use solmesh.Wallet.{WalletFile}
use solmesh.Wallet.Toy.{toy_crypto}
use solmesh.Store.{pending, Intent, saved}
use solmesh.Client.{ClientNode}
use solmesh.Client.World.{ClientWorld}

-- A signature repeats the length of what is signed.
abbrev pub toy_solders : Solders
toy_solders = record {
  pubkey_from_string = λ s. ok (replicate 32 2);
  base58 = λ key. "key";
  find_program_address = λ seeds program. program;
  system_transfer = λ from to lamports. err Exn.other_error;
  try_compile = λ payer instructions blockhash. err Exn.other_error;
  versioned_transaction = λ msg keypair. err Exn.other_error;
  transaction_from_bytes = λ raw. ok tt;
  sign_message = λ keypair msg. replicate 64 (length msg);
  verify_signature = λ key msg signature. ok true;
  spl_token_program = [];
  associated_token_program = [];
  system_program = [];
}

abbrev pub wallet_key : Keypair
wallet_key = record { secret = []; pubkey = replicate 32 1 }

abbrev pub toy_world : ClientWorld
toy_world = record {
  lib = toy_solders;
  radio = λ before frame. true;
  crypto = record toy_crypto { keypair_from_bytes = λ raw. ok wallet_key };
  urandom = λ k. 0 ∷ 9 ∷ [];
  uuid_hex = λ k. "id";
  to_units = λ n decimals. n * 10 ^ decimals;
  valid_utf8 = λ text. true;
  replaced = λ text. text;
  text_of = λ e. [];
  show = λ n. n ∷ [];
  hash_from_bytes = λ raw. ok raw;
  hash_from_string = λ s. ok [];
  heard = λ k. [];
  clock = λ k. 10 * k;
}

abbrev pub toy_file : WalletFile
toy_file = record {
  pubkey = "key";
  encrypted = true;
  secret = record { salt = []; nonce = []; ciphertext = 0 ∷ [] };
}

abbrev pub toy_intent : Intent
toy_intent = record {
  id = "lunch";
  mode = 3;
  status = pending;
  created_at = 0;
  updated_at = 0;
  wallet_name = "main";
  recipient = "Bob";
  amount = 3;
  token_mint = none;
  token_decimals = 9;
  attempts = 1;
  max_attempts = 3;
  last_error = none;
  result_tx_hash = none;
}

abbrev pub toy_client : ClientNode
toy_client = record {
  mesh = record { connected = true; air = [] };
  wallet_mgr = record { files = ("main", toy_file) ∷ []; drawn = 0 };
  gateway_id = some "!gate";
  acked_chunks = [];
  results = [];
  balances = [];
  received_addresses = [];
  discovered_gateways = [];
  blockhash = none;
  intent_store = some (saved (toy_intent ∷ []));
  auto_flush = false;
  passphrase_cache = [];
  flushes = 0;
  threads = [];
  drawn = 0;
  waits = 0;
}
