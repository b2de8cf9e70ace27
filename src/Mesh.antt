-- ===== src/Mesh.antt =====
-- src/solmesh/mesh.py: sending frames through the Meshtastic device, and dispatching received ones.
pub mod Receive
pub mod Keeps
pub mod Sending
mod Tests
use solmesh.Prelude.{
  ℕ, Bool, true, false, not, ◌||◌, List, [], ◌∷◌, ◌++◌, Option, none, some, String, ltb,
  if◌then◌else◌, Result, ok, err, Exn, runtime_error, other_error, system_exit, length, nonempty,
  slice,
}
use solmesh.Prelude.Eq.{string_eq, nat_eq, bytes_eq}
use solmesh.Prelude.Dict.{Dict, lookup, insert}
use solmesh.Constants.{Bytes, magic}
use solmesh.Protocol.Frame.{SolMeshHeader, unpack_message}

-- The arguments of one call of `sendData`. No destination is a broadcast.
pub record Sent : Type 0 where
  pub contents : Bytes
  pub destination : Option String
  pub want_ack : Bool

-- `connected` is `self._interface is not None`; `air` is what was handed to the device, in order.
pub record Mesh : Type 0 where
  pub connected : Bool
  pub air : List Sent

-- Whether the device takes a frame, after what was handed to it before.
abbrev pub Radio : Type 0
Radio = List Sent → Sent → Bool

-- The truth of an optional text: an empty one counts as none.
abbrev pub truthy : Option String → Option String
truthy none = none
truthy (some s) = if string_eq.beq s "" then none else some s

unfoldable pub connect : Bool → Mesh → Result (Unit {0}) × Mesh
connect device_found mesh =
    if device_found then (ok tt, record mesh { connected = true }) else (err other_error, mesh)

-- `raised` is what the device raises when it is closed, if it raises; it is then not forgotten.
unfoldable pub close : Option Exn → Mesh → Result (Unit {0}) × Mesh
close none mesh = (ok tt, record mesh { connected = false })
close (some raised) mesh = if mesh.connected then (err raised, mesh) else (ok tt, mesh)

-- `run` loops until a signal comes, whose handler closes the device and exits.
unfoldable pub run : Option Exn → Mesh → Result (Unit {0}) × Mesh
unfolding close
run raised mesh =
    let (r, mesh') = close raised mesh in
    elim r [ ok _ ↦ (err (system_exit 0), mesh') | err e ↦ (err e, mesh') ]

-- `info` is the node number that the device shows, if it shows its information.
unfoldable pub my_node_id : Option String → Mesh → Option String
my_node_id info mesh = if mesh.connected then info else none

unfoldable pub send : Radio → Bytes → Option String → Bool → Mesh → Result Bool × Mesh
send radio contents destination_id want_ack mesh =
    if not mesh.connected
    then (err runtime_error, mesh)
    else (let frame : Sent = record {
      contents = contents;
      destination = truthy destination_id;
      want_ack = want_ack;
    } in
        (ok (radio mesh.air frame), record mesh { air = mesh.air ++ frame ∷ [] }))

-- Without the pauses between the chunks.
pub send_chunks : Radio → List Bytes → Option String → Mesh → Result Bool × Mesh
unfolding send
send_chunks radio [] destination_id mesh = (ok true, mesh)
send_chunks radio (chunk ∷ rest) destination_id mesh =
    let (r, mesh') = send radio chunk destination_id true mesh in
    elim r [
      | ok success ↦ elim success [
        | true ↦ send_chunks radio rest destination_id mesh'
        | false ↦ (ok false, mesh')
      ]
      | err e ↦ (err e, mesh')
    ]

-- A handler works on the state of the node that registered it.
abbrev pub Handler : Type 0 → Type 0
Handler S = SolMeshHeader → Bytes → String → S → Result (Unit {0}) × S

abbrev pub Handlers : Type 0 → Type 0
Handlers S = Dict ℕ (List (Handler S))

module _ {S : Type 0} where
  abbrev pub handlers_of : ℕ → Handlers S → List (Handler S)
  handlers_of msg_type handlers = elim (lookup msg_type handlers) [ none ↦ [] | some l ↦ l ]

  unfoldable pub register_handler : ℕ → Handler S → Handlers S → Handlers S
  register_handler msg_type callback handlers =
      insert msg_type (handlers_of msg_type handlers ++ callback ∷ []) handlers

  -- Every handler is called; what one raises is logged, and its changes stay.
  unfoldable pub run_handlers : List (Handler S) → SolMeshHeader → Bytes → String → S → S
  run_handlers [] header payload sender_id s = s
  run_handlers (handler ∷ rest) header payload sender_id s =
      run_handlers rest header payload sender_id (handler header payload sender_id s).1

-- The parts of a packet that are read; a missing payload is an empty one.
pub record Packet : Type 0 where
  pub portnum : Option String
  pub payload : Bytes
  pub from_id : Option String
  pub from : Option String

abbrev pub sender_of : Packet → String
sender_of packet = elim packet.from_id [
  | some id ↦ id
  | none ↦ elim packet.from [ some id ↦ id | none ↦ "unknown" ]
]

abbrev pub is_private_app : Option String → Bool
is_private_app none = false
is_private_app (some portnum) = string_eq.beq portnum "PRIVATE_APP"

module _ {S : Type 0} where
  unfoldable pub on_receive : Handlers S → Packet → S → S
  unfolding run_handlers
  on_receive handlers packet s =
      let raw = packet.payload in
      if not (is_private_app packet.portnum)
      then s
      else if not (nonempty raw) || (ltb (length raw) 2 || not (bytes_eq (slice 0 2 raw) magic))
      then s
      else elim (unpack_message raw) [
        | err _ ↦ s
        | ok (header, payload) ↦
            run_handlers (handlers_of header.msg_type handlers) header payload (sender_of packet) s
      ]
