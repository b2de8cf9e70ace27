-- ===== src/Cli.antt =====
-- src/solmesh/cli.py: the command line. A command is a method on a session: what it finds on disk and
-- on the device, and the lines that it prints. One that acts as a client has the client as its state
-- meanwhile. The parsing of arguments and the prompts are Click's: a command starts from their values.
pub mod Token
pub mod Keys
pub mod Send
pub mod Queue
pub mod Node
pub mod Serve
pub mod Toy
mod Tests
use solmesh.Prelude.{
  ℕ, Bool, true, false, not, ◌&&◌, List, [], ◌∷◌, ◌++◌, Option, none, some, String, if◌then◌else◌,
  Result, ok, err, Exn, keyboard_interrupt, system_exit, nonempty, ltb,
}
use solmesh.Prelude.Stateful.{Stateful, ◌>>=◌, ◌>>◌, lift, finished}
use solmesh.Constants.{Str}
use solmesh.Config.{SolMeshConfig}
use solmesh.Mesh.{Mesh, truthy}
use solmesh.Mesh
use solmesh.Wallet.{Wallets}
use solmesh.Store.{Intent, QueueFile, recover_sending}
use solmesh.Client.{ClientNode, Outcome, success, failure, new_client}
use solmesh.Client.World.{ClientWorld, Method}
use solmesh.Client.Wait.{listen, wait_for, choose_gateway, discover_gateway}
use solmesh.Gateway.Node.{World}

-- The parts of an f-string. A float stands as a number, as amounts do.
pub data Part : Type 0 where
  text : String → Part
  raw : Str → Part
  num : ℕ → Part
  float : ℕ → Part
  -- `f"{units / 10 ** scale:.{digits}f}"`
  fixed : (units scale digits : ℕ) → Part
  -- `f"{x:<width}"` of a text, of a number and of a float
  padded : ℕ → Str → Part
  padded_num : ℕ → ℕ → Part
  padded_float : ℕ → ℕ → Part
  -- `"-" * n`
  rule : ℕ → Part
  -- `json.dumps(intents, indent=2)`
  json : List Intent → Part

pub record Line : Type 0 where
  pub to_stderr : Bool
  pub parts : List Part

-- `mesh` is the device as `build_mesh` finds it, `queue` the queue file, `out` what was printed.
pub record Session : Type 0 where
  pub config : SolMeshConfig
  pub wallets : Wallets
  pub queue : QueueFile
  pub mesh : Mesh
  pub out : List Line

-- While a client is there.
pub record Running : Type 0 where
  pub client : ClientNode
  pub out : List Line

-- What surrounds one call of the program. `device_found` is whether the device is there that the
-- configuration names by its connection type, path or host name; `close_raises` is what the device
-- raises when it is closed, and `interrupted` says after how many seconds of a search for a gateway
-- Ctrl+C is pressed. `upper` is `str.upper`, and `b58decode` and `from_hex` are `base58.b58decode` and
-- `bytes.fromhex`.
pub record Host : Type 0 where
  pub world : ClientWorld
  pub gateway_world : World
  pub device_found : Bool
  pub close_raises : Option Exn
  pub interrupted : Option ℕ
  pub upper : String → String
  pub b58decode : String → Result (List ℕ)
  pub from_hex : String → Result (List ℕ)

abbrev pub Command : Type 0 → Type 0
Command A = Stateful Session A

abbrev pub Online : Type 0 → Type 0
Online A = Stateful Running A

-- `click.echo`, for a session and for a client.
abbrev pub echo : List Part → Command (Unit {0})
echo parts s =
    (ok tt, record s { out = s.out ++ (record { to_stderr = false; parts = parts }) ∷ [] })

abbrev pub echo_err : List Part → Command (Unit {0})
echo_err parts s =
    (ok tt, record s { out = s.out ++ (record { to_stderr = true; parts = parts }) ∷ [] })

abbrev pub say : List Part → Online (Unit {0})
say parts s =
    (ok tt, record s { out = s.out ++ (record { to_stderr = false; parts = parts }) ∷ [] })

abbrev pub say_err : List Part → Online (Unit {0})
say_err parts s =
    (ok tt, record s { out = s.out ++ (record { to_stderr = true; parts = parts }) ∷ [] })

-- An error line and `sys.exit(1)`.
abbrev pub refuse : List Part → Command (Unit {0})
refuse parts = echo_err parts >> lift (err (system_exit 1))

abbrev pub on_client : {A : Type 0} → Stateful ClientNode A → Online A
on_client m s = let (r, c) = m s.client in (r, record s { client = c })

abbrev pub on_wallets : {A : Type 0} → Stateful Wallets A → Command A
on_wallets m s = let (r, wallets) = m s.wallets in (r, record s { wallets = wallets })

-- `IntentStore()` recovers what a crash left behind.
abbrev pub open_store : Host → Command (Unit {0})
open_store h s = (ok tt, record s { queue = recover_sending (h.world.clock 0) s.queue })

abbrev pub build_mesh : Session → Mesh
build_mesh s = record s.mesh { connected = false }

abbrev pub queue_after : QueueFile → Option QueueFile → QueueFile
queue_after before none = before
queue_after before (some file) = file

-- What is done with a new client, on the files and the device of the session.
unfoldable pub with_client :
    {A : Type 0} → Option String → Option QueueFile → Bool → Online A → Command A
with_client gateway_node store auto_flush body s =
    let client = new_client (build_mesh s) s.wallets gateway_node store auto_flush in
    let (r, after) = body (record { client = client; out = s.out }) in
    (
      r,
      record s {
        wallets = after.client.wallet_mgr;
        queue = queue_after s.queue after.client.intent_store;
        mesh = after.client.mesh;
        out = after.out;
      },
    )

-- The handlers are registered first: what arrives while the device is opened is handled, in a wait of
-- the client.
unfoldable pub connect : Host → Stateful ClientNode (Unit {0})
connect h c =
    let c' = listen h.world c in
    let (r, mesh) = Mesh.connect h.device_found c'.mesh in (r, record c' { mesh = mesh })

abbrev pub close : Host → Online (Unit {0})
close h s =
    let (r, mesh) = Mesh.close h.close_raises s.client.mesh in
    (r, record s { client = record s.client { mesh = mesh } })

-- `try: ... finally: client.close()`: what the closing raises takes the place of the result.
unfoldable pub closing : {A : Type 0} → Host → Online A → Online A
closing h m s =
    let (r, s') = m s in
    let (closed, s'') = close h s' in elim closed [ ok _ ↦ (r, s'') | err e ↦ (err e, s'') ]

abbrev pub close_and_exit : Host → Online (Unit {0})
close_and_exit h = close h >> lift (err (system_exit 1))

abbrev pub found : Host → String → Option String → Online (Unit {0})
found h not_found none = say_err (text not_found ∷ []) >> close_and_exit h
found h not_found (some gw) = say (text "  Found gateway: " ∷ text gw ∷ [])

-- A gateway that was heard before Ctrl+C ends the search.
abbrev pub unless_heard : Method (Option String)
unless_heard c =
    if nonempty c.discovered_gateways then choose_gateway c else (err keyboard_interrupt, c)

-- `client.discover_gateway(timeout=120)`, with the Ctrl+C that may end it.
unfoldable pub search : Host → Method (Option String)
search h = elim h.interrupted [
  | none ↦ discover_gateway h.world 120
  | some seconds ↦
      if ltb seconds 120
      then (wait_for h.world (λ c. nonempty c.discovered_gateways) seconds >> unless_heard)
      else discover_gateway h.world 120
]

abbrev pub discover : Host → String → Online (Unit {0})
discover h not_found = do
  say (text "Discovering gateway via beacon..." ∷ [])
  gw ← on_client (search h)
  found h not_found (truthy gw)

abbrev pub unless_named : Option String → Online (Unit {0}) → Online (Unit {0})
unless_named (some id) look = finished
unless_named none look = look

-- `if auto_discover and not gateway_node: ...`, outside the `try` that closes the device.
unfoldable pub find_gateway : Host → Bool → Option String → String → Online (Unit {0})
unfolding search
find_gateway h auto_discover gateway_node not_found =
    unless_named (truthy gateway_node) (if auto_discover then discover h not_found else finished)

abbrev pub no_gateway_found : String
no_gateway_found = "No gateway found. Specify --gateway-node or try again."

-- What `wait_for_result` gave.
unfoldable pub report_result : Option Outcome → Online (Unit {0})
report_result (some (success signature)) = say (text "Success! TX signature: " ∷ raw signature ∷ [])
report_result (some (failure error)) = say (text "Failed: " ∷ raw error ∷ [])
report_result none = say (text "Timed out waiting for result from gateway." ∷ [])
