-- ===== src/Cli/Send/Named.antt =====
-- A client that connects without a search for a gateway.
use solmesh.Prelude.{
  ap, ◌≡◌, refl, ◌∙◌, ◌⊎◌, inl, inr, true, false, if◌then◌else◌, Option, none, some, String, Result,
  ok,
}
use solmesh.Prelude.Stateful.{◌>>◌, bind_ok, finished}
use solmesh.Mesh.{truthy}
use solmesh.Mesh
use solmesh.Client.{ClientNode}
use solmesh.Client.Wait.{listen}
use solmesh.Cli.{
  Running, Host, Online, on_client, connect, closing, find_gateway, unless_named, discover,
}
use solmesh.Cli.Send.{Route, online}

-- No gateway is searched for.
abbrev pub Named : Route → Type 0
Named route =
    ((id : String) × (truthy route.gateway_node ≡ some id)) ⊎ (route.auto_discover ≡ false)

Named-finds_nothing :
    (h : Host) (route : Route) (not_found : String) (s : Running)
    → Named route
    → find_gateway h route.auto_discover route.gateway_node not_found s ≡ (ok tt, s)
unfolding find_gateway
Named-finds_nothing h route not_found s (inl (id, named)) =
    ap (λ o. unless_named o (if route.auto_discover then discover h not_found else finished) s)
      named
Named-finds_nothing h route not_found s (inr off) =
    ap
      (λ b.
        unless_named (truthy route.gateway_node) (if b then discover h not_found else finished) s)
      off
    ∙ never (truthy route.gateway_node)
  where
    never : (o : Option String) → unless_named o finished s ≡ (ok tt, s)
    never none = refl
    never (some id) = refl

connect_found :
    (h : Host) (c : ClientNode)
    → h.device_found ≡ true
    → let c' = listen h.world c in
      connect h c ≡ (ok tt, record c' { mesh = record c'.mesh { connected = true } })
unfolding connect Mesh.connect
connect_found h c there =
    let c' = listen h.world c in
    ap
      (λ b.
        let n = Mesh.connect b c'.mesh in
        let r : Result (Unit {0}) × ClientNode = (n.0, record c' { mesh = n.1 }) in r)
      there

-- What arrives meanwhile has been handled.
abbrev pub connected : Host → Running → Running
connected h s =
    let c = listen h.world s.client in
    record s { client = record c { mesh = record c.mesh { connected = true } } }

pub online-Named :
    (h : Host) (route : Route) (not_found : String) (body : Online (Unit {0})) (s : Running)
    → h.device_found ≡ true
    → Named route
    → online h route not_found body s ≡ closing h body (connected h s)
unfolding online
online-Named h route not_found body s there named =
    bind_ok (on_client (connect h))
      (λ u. find_gateway h route.auto_discover route.gateway_node not_found >> closing h body) s tt
      (connected h s)
      (ap
        (λ (n : Result (Unit {0}) × ClientNode).
          let r : Result (Unit {0}) × Running = (n.0, record s { client = n.1 }) in r)
        (connect_found h s.client there))
    ∙ bind_ok (find_gateway h route.auto_discover route.gateway_node not_found)
        (λ u. closing h body) (connected h s) tt (connected h s)
        (Named-finds_nothing h route not_found (connected h s) named)
