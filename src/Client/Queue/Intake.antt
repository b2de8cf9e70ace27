-- ===== src/Client/Queue/Intake.antt =====
-- `cache_passphrase` and `queue_intent`: the checks before an intent is queued.
pub mod Accepts
use solmesh.Prelude.{
  ℕ, suc, not, ◌||◌, Option, none, some, String, ◌==◌, ok, err, value_error, runtime_error,
  invalid_mode,
}
use solmesh.Prelude.Eq.{string_eq}
use solmesh.Prelude.Dict.{insert}
use solmesh.Prelude.Stateful.{◌>>=◌, ◌>>◌, lift, gets, finished, raise_when}
use solmesh.Constants.{max_flush_attempts}
use solmesh.Wallet.{load_keypair, get_pubkey}
use solmesh.Store.{pending, Intent, QueueFile, add}
use solmesh.Client.{ClientNode}
use solmesh.Client.World.{ClientWorld, Method, now}

unfoldable pub cache_passphrase : String → String → Method (Unit {0})
cache_passphrase wallet_name passphrase c =
    (ok tt, record c { passphrase_cache = insert wallet_name passphrase c.passphrase_cache })

-- A passphrase that is given must open the wallet.
abbrev pub check_passphrase : ClientWorld → String → Option String → Method (Unit {0})
check_passphrase w wallet_name none = finished
check_passphrase w wallet_name (some passphrase) = do
  wallets ← gets (λ c. c.wallet_mgr)
  lift (load_keypair w.crypto wallet_name passphrase wallets)
  cache_passphrase wallet_name passphrase

abbrev pub new_intent :
    ClientWorld → ℕ → String → String → ℕ → Option String → ℕ → ClientNode → Intent
new_intent w mode wallet_name recipient amount token_mint token_decimals c = record {
  id = w.uuid_hex c.drawn;
  mode = mode;
  status = pending;
  created_at = now w c;
  updated_at = now w c;
  wallet_name = wallet_name;
  recipient = recipient;
  amount = amount;
  token_mint = token_mint;
  token_decimals = token_decimals;
  attempts = 0;
  max_attempts = max_flush_attempts;
  last_error = none;
  result_tx_hash = none;
}

abbrev pub add_intent : Intent → QueueFile → Method Intent
add_intent intent file c =
    let (r, file') = add intent file in
    (r, record c { intent_store = some file'; drawn = suc c.drawn })

unfoldable pub queue_intent :
    ClientWorld → ℕ → String → String → ℕ → Option String → ℕ → Option String → Method Intent
unfolding cache_passphrase
queue_intent w mode wallet_name recipient amount token_mint token_decimals passphrase c =
    elim c.intent_store [
      | none ↦ (err runtime_error, c)
      | some file ↦
          (do
            raise_when (not (mode == 1 || mode == 3)) (value_error (invalid_mode mode))
            lift (get_pubkey w.lib wallet_name c.wallet_mgr)
            check_passphrase w wallet_name passphrase
            intent ← gets (new_intent w mode wallet_name recipient amount token_mint token_decimals)
            add_intent intent file)
            c
    ]
