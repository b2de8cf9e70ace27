-- ===== src/Client/Wait.antt =====
-- Waiting: the messages that arrive meanwhile are handled, and a time-out ends it.
pub mod Keeps
pub mod Timeout
use solmesh.Prelude.{
  ◌+◌, ℕ, zero, suc, Bool, true, false, List, [], ◌∷◌, Option, none, some, String, ltb, leb,
  if◌then◌else◌, ok, nonempty,
}
use solmesh.Prelude.Eq.{string_eq, nat_eq}
use solmesh.Prelude.Dict.{Dict, lookup, erase, contains}
use solmesh.Prelude.Stateful.{◌>>◌}
use solmesh.Protocol.Messages.{Beacon}
use solmesh.Mesh.{Handlers, Packet, on_receive, truthy}
use solmesh.Client.{Outcome, Balance, ClientNode, client_handlers}
use solmesh.Client.World.{ClientWorld, Method, now}

pub receive_all : Handlers ClientNode → List Packet → ClientNode → ClientNode
unfolding on_receive
receive_all handlers [] c = c
receive_all handlers (packet ∷ rest) c = receive_all handlers rest (on_receive handlers packet c)

-- One wait on a condition, or one sleep.
unfoldable pub listen : ClientWorld → ClientNode → ClientNode
unfolding receive_all client_handlers
listen w c =
    let handlers = client_handlers w.valid_utf8 w.replaced (w.clock (suc c.waits)) in
    receive_all handlers (w.heard c.waits) (record c { waits = suc c.waits })

abbrev pub sleep : ClientWorld → Method (Unit {0})
sleep w c = (ok tt, listen w c)

-- `while not ready: ...; cond.wait(timeout=remaining)`, with the rounds that are left. The clock
-- advances with each wait, so that as many rounds as seconds are left are enough.
pub wait_rounds : ClientWorld → (ClientNode → Bool) → ℕ → ℕ → ClientNode → ClientNode
wait_rounds w ready deadline zero c = c
wait_rounds w ready deadline (suc rounds) c = elim (ready c) [
  | true ↦ c
  | false ↦ elim (leb deadline (now w c)) [
    | true ↦ c
    | false ↦ wait_rounds w ready deadline rounds (listen w c)
  ]
]

-- Up to `timeout` seconds.
unfoldable pub wait_for : ClientWorld → (ClientNode → Bool) → ℕ → Method (Unit {0})
unfolding wait_rounds listen
wait_for w ready timeout c = (ok tt, wait_rounds w ready (now w c + timeout) timeout c)

abbrev pub pop_result : ℕ → Method (Option Outcome)
pop_result msg_id c = elim (lookup msg_id c.results) [
  | none ↦ (ok none, c)
  | some outcome ↦ (ok (some outcome), record c { results = erase msg_id c.results })
]

unfoldable pub wait_for_result : ClientWorld → ℕ → ℕ → Method (Option Outcome)
unfolding wait_for
wait_for_result w msg_id timeout =
    wait_for w (λ c. contains msg_id c.results) timeout >> pop_result msg_id

pub max_key : {V : Type 0} → ℕ → Dict ℕ V → ℕ
max_key best [] = best
max_key best ((k, v) ∷ rest) = max_key (if ltb best k then k else best) rest

abbrev pub pop_balance : Method (Option Balance)
pop_balance c = elim c.balances [
  | [] ↦ (ok none, c)
  | (k, b) ∷ rest ↦
      let key = max_key k rest in
      (ok (lookup key c.balances), record c { balances = erase key c.balances })
]

unfoldable pub wait_for_balance : ClientWorld → ℕ → Method (Option Balance)
unfolding wait_for max_key
wait_for_balance w timeout = wait_for w (λ c. nonempty c.balances) timeout >> pop_balance

-- `max(..., key=last_seen)`: of equals the first.
pub latest : String → ℕ → Dict String (Beacon × ℕ) → String
latest best seen [] = best
latest best seen ((id, (beacon, last_seen)) ∷ rest) =
    if ltb seen last_seen then latest id last_seen rest else latest best seen rest

abbrev pub choose_gateway : Method (Option String)
choose_gateway c = elim c.discovered_gateways [
  | [] ↦ (ok none, c)
  | (id, (beacon, last_seen)) ∷ rest ↦
      let best_id = latest id last_seen rest in
      let gateway_id : Option String = elim (truthy c.gateway_id) [
        | none ↦ some best_id
        | some _ ↦ c.gateway_id
      ] in
      (ok (some best_id), record c { gateway_id = gateway_id })
]

unfoldable pub discover_gateway : ClientWorld → ℕ → Method (Option String)
unfolding wait_for latest
discover_gateway w timeout =
    wait_for w (λ c. nonempty c.discovered_gateways) timeout >> choose_gateway
