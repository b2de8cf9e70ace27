-- ===== src/HttpApi/Keyed.antt =====
-- The API of a gateway that has started.
use solmesh.Prelude.{ap, ℕ, suc, ◌≡◌, ◌∙◌, true, Bool, false, Option, none, some, String, ok}
use solmesh.Prelude.Eq.{string_eq}
use solmesh.Config.{GatewayConfig}
use solmesh.Mesh.{truthy}
use solmesh.Gateway.Node.{World, GatewayNode}
use solmesh.Gateway.Start.{start}
use solmesh.Gateway.Start.Started.{start_keyed}
use solmesh.HttpApi.{verify_api_key}

verified :
    (config : GatewayConfig) (x_api_key key : String)
    → truthy config.api_key ≡ some key
    → verify_api_key config x_api_key ≡ string_eq.beq x_api_key key
unfolding verify_api_key
verified config x_api_key key given =
    ap
      (λ (o : Option String).
        let b : Bool = elim o [ none ↦ false | some expected ↦ string_eq.beq x_api_key expected ] in
        b)
      given

-- A gateway with an HTTP port only starts with an API key that is not empty, and once it has started
-- it is connected and its API lets in exactly that key.
pub started_keyed :
    (w : World) (passphrase x_api_key : String) (g : GatewayNode) (port : ℕ)
    → g.config.http_port ≡ some (suc port)
    → (start w passphrase g).0 ≡ ok tt
    → ((start w passphrase g).1.mesh.connected ≡ true)
      × ((key : String) × (truthy g.config.api_key ≡ some key)
          × (verify_api_key (start w passphrase g).1.config x_api_key
              ≡ string_eq.beq x_api_key key))
started_keyed w passphrase x_api_key g port served started =
    let (kept, connected, (key, given)) = start_keyed w passphrase g port served started in
    (
      connected,
      (
        key,
        given,
        ap (λ c. verify_api_key c x_api_key) kept ∙ verified g.config x_api_key key given,
      ),
    )
