-- ===== src/Client/World.antt =====
-- What surrounds the client.
use solmesh.Prelude.{ℕ, Bool, List, String, Result, Exn}
use solmesh.Prelude.Stateful.{Stateful}
use solmesh.Constants.{Bytes, Str}
use solmesh.Mesh.{Radio, Packet}
use solmesh.Solana.{Solders}
use solmesh.Wallet.{Crypto}
use solmesh.Client.{ClientNode}

-- What the client calls and does not implement. `heard k` are the packets that the device gives to
-- `_on_receive` during wait number `k`, and `clock k` is the time, in seconds, after `k` waits.
pub record ClientWorld : Type 0 where
  pub lib : Solders
  pub crypto : Crypto
  pub radio : Radio
  pub urandom : ℕ → Bytes
  pub uuid_hex : ℕ → String
  -- `int(x * 10 ** d)`
  pub to_units : ℕ → ℕ → ℕ
  pub valid_utf8 : Bytes → Bool
  pub replaced : Bytes → Str
  -- `str(e)`, and `str(n)` of a number
  pub text_of : Exn → Str
  pub show : ℕ → Str
  pub hash_from_bytes : Bytes → Result Bytes
  pub hash_from_string : String → Result Bytes
  pub heard : ℕ → List Packet
  pub clock : ℕ → ℕ

abbrev pub Method : Type 0 → Type 0
Method A = Stateful ClientNode A

-- `time.time()`
abbrev pub now : ClientWorld → ClientNode → ℕ
now w c = w.clock c.waits
