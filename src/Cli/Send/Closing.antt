-- ===== src/Cli/Send/Closing.antt =====
-- What connects closes the device behind it, where nothing disturbs it.
use solmesh.Prelude.{
  ap, ◌∙◌, ℕ, ◌≡◌, refl, system_exit, Bool, true, false, if◌then◌else◌, List, [], ◌∷◌, nonempty,
  Option, none, some, String, Result, ok, err,
}
use solmesh.Prelude.Stateful.{◌>>◌, finished}
use solmesh.Mesh.{Mesh, truthy}
use solmesh.Mesh
use solmesh.Client.{ClientNode}
use solmesh.Client.World.{ClientWorld}
use solmesh.Client.Wait.{wait_for, latest, choose_gateway, discover_gateway, listen}
use solmesh.Client.Wait.Keeps.{listen-own}
use solmesh.Prelude.Dict.{Dict}
use solmesh.Protocol.Messages.{Beacon}
use solmesh.Cli.{
  Line, Running, Host, Online, on_client, connect, closing, find_gateway, found, discover,
  unless_named, close, search, say_err, text,
}
use solmesh.Cli.Send.{Route, online}

abbrev pub is_connected : Running → Bool
is_connected s = s.client.mesh.connected

-- Ctrl+C is not pressed during a search for a gateway, and the device is closed without an
-- exception.
pub record Undisturbed (h : Host) : Type 0 where
  pub closes : h.close_raises ≡ none
  pub not_interrupted : h.interrupted ≡ none

abbrev pub closed : Running → Running
closed s = record s {
  client = record s.client { mesh = record s.client.mesh { connected = false } };
}

close-eq : (h : Host) (s : Running) → h.close_raises ≡ none → close h s ≡ (ok tt, closed s)
unfolding Mesh.close
close-eq h s quiet =
    ap
      (λ raised.
        let n = Mesh.close raised s.client.mesh in
        let r : Result (Unit {0}) × Running =
          (n.0, record s { client = record s.client { mesh = n.1 } }) in
        r)
      quiet

after_close : {A : Type 0} → Result A → Result (Unit {0}) × Running → Result A × Running
after_close r (ok u, s) = (r, s)
after_close r (err e, s) = (err e, s)

after_close-eq :
    {A : Type 0} (r : Result A) (n : Result (Unit {0}) × Running)
    → let m : Result A × Running = elim n.0 [ ok _ ↦ (r, n.1) | err e ↦ (err e, n.1) ] in
      m ≡ after_close r n
unfolding after_close
after_close-eq r (ok u, s) = refl
after_close-eq r (err e, s) = refl

-- A device that closes without an exception is closed behind what was done, whose result stays.
pub closing-quiet :
    {A : Type 0} (h : Host) (body : Online A) (s : Running)
    → h.close_raises ≡ none
    → closing h body s ≡ ((body s).0, closed (body s).1)
unfolding closing after_close
closing-quiet h body s quiet =
    after_close-eq (body s).0 (close h (body s).1)
    ∙ ap (after_close (body s).0) (close-eq h (body s).1 quiet)

pub closing-closed :
    {A : Type 0} (h : Host) (body : Online A) (s : Running)
    → Undisturbed h
    → is_connected (closing h body s).1 ≡ false
closing-closed {A} h body s u =
    ap (λ (n : Result A × Running). is_connected n.1) (closing-quiet h body s u.closes)

-- A gateway is found, or the command ends with the device closed.
abbrev ClosedByError : {A : Type 0} → Result A × Running → Type 0
ClosedByError (ok a, s) = Unit
ClosedByError (err e, s) = is_connected s ≡ false

exit-ClosedByError :
    (n : Result (Unit {0}) × Running)
    → is_connected n.1 ≡ false
    → let m : Result (Unit {0}) × Running = elim n.0 [
      | ok _ ↦ (err (system_exit 1), n.1)
      | err e ↦ (err e, n.1)
    ] in
      ClosedByError m
exit-ClosedByError (ok u, s) off = off
exit-ClosedByError (err e, s) off = off

found-ClosedByError :
    (h : Host) (not_found : String) (gw : Option String) (s : Running)
    → Undisturbed h
    → ClosedByError (found h not_found gw s)
found-ClosedByError h not_found none s u =
    let s' = (say_err (text not_found ∷ []) s).1 in
    exit-ClosedByError (close h s')
      (ap (λ (n : Result (Unit {0}) × Running). is_connected n.1) (close-eq h s' u.closes))
found-ClosedByError h not_found (some gw) s u = tt

choose_gateway-ok :
    (d : Dict String (Beacon × ℕ)) (c : ClientNode)
    → c.discovered_gateways ≡ d
    → (gw : Option String) × ((choose_gateway c).0 ≡ ok gw)
choose_gateway-ok [] c e = (none, rw (e, choose_gateway) refl)
choose_gateway-ok ((id, (beacon, last_seen)) ∷ rest) c e =
    (some (latest id last_seen rest), rw (e, choose_gateway) refl)

discover_gateway-ok :
    (w : ClientWorld) (timeout : ℕ) (c : ClientNode)
    → (gw : Option String) × ((discover_gateway w timeout c).0 ≡ ok gw)
unfolding discover_gateway wait_for
discover_gateway-ok w timeout c =
    choose_gateway-ok _ (wait_for w (λ c. nonempty c.discovered_gateways) timeout c).1 refl

search-ok :
    (h : Host) (c : ClientNode) → Undisturbed h → (gw : Option String) × ((search h c).0 ≡ ok gw)
unfolding search
search-ok h c u = rw u.not_interrupted (discover_gateway-ok h.world 120 c)

found_by-ClosedByError :
    (h : Host) (not_found : String) (out : List Line) (n : Result (Option String) × ClientNode)
    (gw : Option String)
    → Undisturbed h
    → n.0 ≡ ok gw
    → let s : Running = record { client = n.1; out = out } in
      let next : Result (Unit {0}) × Running = elim n.0 [
        | ok gw ↦ found h not_found (truthy gw) s
        | err e ↦ (err e, s)
      ] in
      ClosedByError next
found_by-ClosedByError h not_found out n gw u e =
    rw e (found-ClosedByError h not_found (truthy gw) (record { client = n.1; out = out }) u)

unless_named-ClosedByError :
    (o : Option String) (look : Online (Unit {0})) (s : Running)
    → ClosedByError (look s)
    → ClosedByError (unless_named o look s)
unless_named-ClosedByError (some id) look s h = tt
unless_named-ClosedByError none look s h = h

if-ClosedByError :
    (b : Bool) (look : Online (Unit {0})) (s : Running)
    → ClosedByError (look s)
    → ClosedByError ((if b then look else finished) s)
if-ClosedByError true look s h = h
if-ClosedByError false look s h = tt

discover-ClosedByError :
    (h : Host) (not_found : String) (s : Running)
    → Undisturbed h
    → ClosedByError (discover h not_found s)
discover-ClosedByError h not_found s u =
    let (gw, e) = search-ok h s.client u in
    found_by-ClosedByError h not_found _ (search h s.client) gw u e

find_gateway-ClosedByError :
    (h : Host) (auto_discover : Bool) (gateway_node : Option String) (not_found : String)
    (s : Running)
    → Undisturbed h
    → ClosedByError (find_gateway h auto_discover gateway_node not_found s)
unfolding find_gateway
find_gateway-ClosedByError h auto_discover gateway_node not_found s u =
    unless_named-ClosedByError (truthy gateway_node) _ s (
      if-ClosedByError auto_discover (discover h not_found) s
        (discover-ClosedByError h not_found s u))

-- From an open or closed device to a closed one, and from a closed to a closed one.
abbrev pub Closes : {A : Type 0} → Online A → Type 0
Closes m = (s : Running) → is_connected (m s).1 ≡ false

abbrev pub StaysClosed : {A : Type 0} → Online A → Type 0
StaysClosed m = (s : Running) → is_connected s ≡ false → is_connected (m s).1 ≡ false

then_close :
    {A : Type 0} (k : Online A) (n : Result (Unit {0}) × Running)
    → Closes k
    → ClosedByError n
    → let next : Result A × Running = elim n.0 [ ok _ ↦ k n.1 | err e ↦ (err e, n.1) ] in
      is_connected next.1 ≡ false
then_close k (ok u, s) closes h = closes s
then_close k (err e, s) closes h = h

connect_then :
    {A : Type 0} (device_found : Bool) (k : Online A) (s : Running) (c : ClientNode)
    → c.mesh.connected ≡ false
    → Closes k
    → let n = Mesh.connect device_found c.mesh in
      let s' : Running = record s { client = record c { mesh = n.1 } } in
      let next : Result A × Running = elim n.0 [ ok _ ↦ k s' | err e ↦ (err e, s') ] in
      is_connected next.1 ≡ false
unfolding Mesh.connect
connect_then true k s c off closes = closes _
connect_then false k s c off closes = off

-- What arrives while the device is opened leaves it closed.
heard-closed :
    (h : Host) (c : ClientNode)
    → c.mesh.connected ≡ false
    → (listen h.world c).mesh.connected ≡ false
heard-closed h c off = ap (λ o. o.0.connected) (listen-own h.world c) ∙ off

pub find_gateway-StaysClosed :
    {A : Type 0} (h : Host) (route : Route) (not_found : String) (k : Online A)
    → Undisturbed h
    → Closes k
    → StaysClosed (
        on_client (connect h)
        >> (find_gateway h route.auto_discover route.gateway_node not_found >> k))
unfolding connect Mesh.connect
find_gateway-StaysClosed h route not_found k u closes s off =
    connect_then h.device_found
      (find_gateway h route.auto_discover route.gateway_node not_found >> k) s
      (listen h.world s.client) (heard-closed h s.client off)
      (λ s'.
        then_close k (find_gateway h route.auto_discover route.gateway_node not_found s') closes
          (find_gateway-ClosedByError h route.auto_discover route.gateway_node not_found s' u))

pub connect-StaysClosed :
    {A : Type 0} (h : Host) (k : Online A) → Closes k → StaysClosed (on_client (connect h) >> k)
unfolding connect Mesh.connect
connect-StaysClosed h k closes s off =
    connect_then h.device_found k s (listen h.world s.client) (heard-closed h s.client off) closes

pub online-StaysClosed :
    {A : Type 0} (h : Host) (route : Route) (not_found : String) (body : Online A)
    → Undisturbed h
    → StaysClosed (online h route not_found body)
unfolding online
online-StaysClosed h route not_found body u =
    find_gateway-StaysClosed h route not_found (closing h body) u (λ s. closing-closed h body s u)
