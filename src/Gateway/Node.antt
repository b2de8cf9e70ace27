-- ===== src/Gateway/Node.antt =====
-- The state of `GatewayNode`, its surroundings, and methods as state passing with exceptions.
use solmesh.Prelude.{ℕ, suc, Bool, List, Option, String, Result, ok, Exn}
use solmesh.Prelude.Dict.{Dict}
pub use solmesh.Prelude.Stateful.{◌>>=◌, ◌>>◌, pure, lift, gets, finished, bind_ok}
use solmesh.Prelude.Stateful.{Stateful}
use solmesh.Constants.{Bytes, Str}
use solmesh.Config.{GatewayConfig}
use solmesh.Chunker.{Buffers, generate_msg_id}
use solmesh.RateLimiter.{RateLimiter}
use solmesh.Mesh.{Mesh, Radio}
use solmesh.Mesh
use solmesh.Solana.{Keypair, Solders}
use solmesh.Wallet.{Crypto, Wallets}

-- What the gateway calls and does not implement. The answers of the RPC are functions of the time
-- and of the arguments; `urandom k` are the two bytes of draw number `k`.
pub record World : Type 0 where
  pub lib : Solders
  pub radio : Radio
  pub urandom : ℕ → Bytes
  pub valid_utf8 : Bytes → Bool
  -- `str(e)`, and `str(x)` of a float
  pub text_of : Exn → Str
  pub show_amount : ℕ → Str
  -- `int(x * 10 ** d)`
  pub to_units : ℕ → ℕ → ℕ
  pub clock_rate : ℕ
  pub device_found : Bool
  pub crypto : Crypto
  pub get_latest_blockhash : ℕ → Result Bytes
  -- whether the account is there
  pub get_account_info : ℕ → Bytes → Result Bool
  pub get_balance : ℕ → Bytes → Result ℕ
  pub get_token_account_balance : ℕ → Bytes → Result ℕ
  -- the signature, as text
  pub send_raw_transaction : ℕ → Bytes → Result Str

-- `submitted` is what was handed to `send_raw_transaction`, in order; `drawn` counts the message
-- ids that were generated.
pub record GatewayNode : Type 0 where
  pub mesh : Mesh
  pub wallet_mgr : Wallets
  pub reassembler : Buffers
  pub config : GatewayConfig
  pub known_addresses : Dict String Bytes
  pub hot_keypair : Option Keypair
  pub start_time : ℕ
  pub rate_limiter : RateLimiter
  pub drawn : ℕ
  pub submitted : List Bytes

abbrev pub Method : Type 0 → Type 0
Method A = Stateful GatewayNode A

unfoldable pub new_msg_id : World → Method ℕ
unfolding generate_msg_id
new_msg_id w g = (ok (generate_msg_id (w.urandom g.drawn)), record g { drawn = suc g.drawn })

-- `self._mesh.send(...)`; its result is not looked at.
unfoldable pub mesh_send : World → Bytes → Option String → Bool → Method Bool
mesh_send w contents destination_id want_ack g =
    let (r, mesh') = Mesh.send w.radio contents destination_id want_ack g.mesh in
    (r, record g { mesh = mesh' })
