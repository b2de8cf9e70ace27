-- ===== src/HttpApi/Limits.antt =====
-- The limits of the HTTP API in base units, as the gateway's own requests have them.
use solmesh.Prelude.{ℕ, ◌≤◌, ◌≡◌, some}
use solmesh.Config.{GatewayConfig, get_max_transfer_token}
use solmesh.HttpApi.{Api, reply}
use solmesh.HttpApi.Transfer.{TransferRequest, Plan, lamports, base_units, plan_transfer}
use solmesh.HttpApi.Planned.{Planned, sol, token, plan_transfer-reply}

-- What a plan moves is no more than the limit for it, in base units.
abbrev pub InLimit : Api → GatewayConfig → Plan → Type 0
InLimit api config (lamports amount) = amount ≤ api.world.to_units config.max_transfer_sol 9
InLimit api config (base_units mint decimals amount) =
    (limit : ℕ)
    → get_max_transfer_token config mint ≡ some limit
    → amount ≤ api.world.to_units limit decimals

planned-InLimit :
    (api : Api) (config : GatewayConfig) (req : TransferRequest) (plan : Plan)
    → ((a b decimals : ℕ) → a ≤ b → api.world.to_units a decimals ≤ api.world.to_units b decimals)
    → Planned api config req plan
    → InLimit api config plan
planned-InLimit api config req plan mono (sol none_given within) = mono _ _ 9 within
planned-InLimit api config req plan mono (token given symbol decimals named known within) =
    λ limit max. mono _ _ decimals (within limit max)

-- If larger amounts are no fewer base units, then whatever the HTTP API plans to move is within the
-- bound in base units that the gateway sets for requests over the mesh.
pub plan_transfer-InLimit :
    (api : Api) (config : GatewayConfig) (req : TransferRequest) (plan : Plan)
    → ((a b decimals : ℕ) → a ≤ b → api.world.to_units a decimals ≤ api.world.to_units b decimals)
    → plan_transfer api config req ≡ reply plan
    → InLimit api config plan
plan_transfer-InLimit api config req plan mono h =
    planned-InLimit api config req plan mono (plan_transfer-reply api config req plan h)
