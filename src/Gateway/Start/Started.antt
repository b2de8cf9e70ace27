-- ===== src/Gateway/Start/Started.antt =====
-- A gateway that has started.
use solmesh.Prelude.{
  ap, ℕ, zero, suc, ◌≡◌, refl, ◌∙◌, sym, subst, inl, inr, true, none, some, String, Option,
  Option-cases, Result, Result-cases, ok, Bool, arith, false,
}
use solmesh.Prelude.Stateful.{bind-ok_inv}
use solmesh.Config.{GatewayConfig}
use solmesh.Mesh.{truthy}
use solmesh.Mesh
use solmesh.Wallet.{load_keypair}
use solmesh.Gateway.Node.{World, GatewayNode, Method, ◌>>◌}
use solmesh.Gateway.Start.{
  start, with_key, if_port, start_http, start_http_server, load_hot_wallet, connect_mesh,
}

load-config :
    (w : World) (passphrase : String) (g : GatewayNode)
    → (load_hot_wallet w passphrase g).1.config ≡ g.config
load-config w passphrase g = elim (Option-cases (truthy g.config.hot_wallet)) [
  | inl unset ↦ rw (unset, load_hot_wallet) refl
  | inr (name, set) ↦ elim (Result-cases (load_keypair w.crypto name passphrase g.wallet_mgr)) [
    | inl (kp, loaded) ↦ rw (set, load_hot_wallet) (rw (loaded, load_hot_wallet) refl)
    | inr (e, failed) ↦ rw (set, load_hot_wallet) (rw (failed, load_hot_wallet) refl)
  ]
]

connect-connected :
    (device_found : Bool) (g : GatewayNode)
    → (Mesh.connect device_found g.mesh).0 ≡ ok tt
    → (Mesh.connect device_found g.mesh).1.connected ≡ true
unfolding Mesh.connect
connect-connected true g h = refl
connect-connected false g h = cc

with_key-same : (o : Option String) (g : GatewayNode) → (with_key o g).1 ≡ g
with_key-same none g = refl
with_key-same (some key) g = refl

if_port-same :
    (o : Option ℕ) (server : Method (Unit {0})) (g : GatewayNode)
    → (server g).1 ≡ g
    → (if_port o server g).1 ≡ g
if_port-same none server g same = refl
if_port-same (some zero) server g same = refl
if_port-same (some (suc port)) server g same = same

start_http-same : (g : GatewayNode) → (start_http g).1 ≡ g
unfolding start_http start_http_server
start_http-same g =
    if_port-same g.config.http_port start_http_server g (with_key-same (truthy g.config.api_key) g)

key_given :
    (o : Option String) (g : GatewayNode)
    → (with_key o g).0 ≡ ok tt
    → (key : String) × (o ≡ some key)
key_given none g h = absurd (ground arith)
key_given (some key) g h = (key, refl)

start_http-key :
    (g : GatewayNode) (port : ℕ)
    → g.config.http_port ≡ some (suc port)
    → (start_http g).0 ≡ ok tt
    → (key : String) × (truthy g.config.api_key ≡ some key)
unfolding start_http start_http_server
start_http-key g port served started =
    key_given (truthy g.config.api_key) g
      (sym (ap (λ o. (if_port o start_http_server g).0) served) ∙ started)

-- A gateway with an HTTP port that has started is connected, has kept its configuration, and has an
-- API key that is not empty.
pub start_keyed :
    (w : World) (passphrase : String) (g : GatewayNode) (port : ℕ)
    → g.config.http_port ≡ some (suc port)
    → (start w passphrase g).0 ≡ ok tt
    → ((start w passphrase g).1.config ≡ g.config)
      × ((start w passphrase g).1.mesh.connected ≡ true)
      × ((key : String) × (truthy g.config.api_key ≡ some key))
unfolding start
start_keyed w passphrase g port served started =
    let g1 = (load_hot_wallet w passphrase g).1 in
    let (u1, loaded, is1) =
      bind-ok_inv (load_hot_wallet w passphrase) (λ u. connect_mesh w >> start_http) g tt started in
    let started1 : ((connect_mesh w >> start_http) g1).0 ≡ ok tt =
      sym (ap (λ (n : Result (Unit {0}) × GatewayNode). n.0) is1) ∙ started in
    let g2 = (connect_mesh w g1).1 in
    let (u2, found, is2) = bind-ok_inv (connect_mesh w) (λ u. start_http) g1 tt started1 in
    let started2 : (start_http g2).0 ≡ ok tt =
      sym (ap (λ (n : Result (Unit {0}) × GatewayNode). n.0) is2) ∙ started1 in
    let whole : (start w passphrase g).1 ≡ g2 =
      ap (λ (n : Result (Unit {0}) × GatewayNode). n.1) (is1 ∙ is2) ∙ start_http-same g2 in
    let kept : g2.config ≡ g.config = load-config w passphrase g in
    (
      ap (λ (n : GatewayNode). n.config) whole ∙ kept,
      ap (λ (n : GatewayNode). n.mesh.connected) whole ∙ connect-connected w.device_found g1 found,
      subst (λ (c : GatewayConfig). (key : String) × (truthy c.api_key ≡ some key)) kept
          (start_http-key g2 port (ap (λ (c : GatewayConfig). c.http_port) kept ∙ served) started2),
    )
