-- ===== src/HttpApi/Tests.antt =====
-- The HTTP API of a gateway in a small world, and its theorems there.
use solmesh.Prelude.{
  replicate, arith, ◌^◌, ◌≡◌, refl, ◌⊎◌, [], ◌∷◌, none, some, true, String, ok, ◌≤◌,
}
use native.Mathlib.Nat.{mul-le-mul_right}
use solmesh.Prelude.Int.{◌+ℤ◌, ◌*ℤ◌, ◌-ℤ◌}
use solmesh.RateLimiter.{is_allowed, consume}
use solmesh.Solana.{create_sol_transfer, deserialize_transaction}
use solmesh.Gateway.Reply.{broadcast_to_solana}
use solmesh.Prelude.Eq.{string_eq}
use solmesh.Mesh.{connect, truthy}
use solmesh.Gateway.Node.{GatewayNode}
use solmesh.Gateway.Start.{start, start_http, start_http_server}
use solmesh.HttpApi.Keyed.{started_keyed}
use solmesh.Gateway.Toy.{toy_world, toy_gateway, toy_config}
use solmesh.Constants.{utf8}
use solmesh.HttpApi.{Api, verify_api_key, bucket_id, reply}
use solmesh.HttpApi.Transfer.{TransferRequest, lamports, plan_transfer, build_plan, submit_transfer}
use solmesh.HttpApi.Planned.{sol}
use solmesh.HttpApi.Guard.{Granted, submit_transfer-guarded}
use solmesh.HttpApi.Live.{granted-submitted}
use solmesh.HttpApi.Limits.{plan_transfer-InLimit}

abbrev toy_api : Api
toy_api = record {
  world = toy_world;
  upper = λ s. s;
  get_slot = λ now. ok now;
  last_valid_block_height = λ now. now;
}

-- One SOL.
abbrev toy_request : TransferRequest
toy_request = record { destination = "Bob"; amount = 1; token = none }

-- The request is paid.
http_transfer_is_paid :
    (submit_transfer toy_api 5 "secret-key" toy_request toy_gateway).1.submitted
    ≡ (2 ∷ 1 ∷ 7 ∷ []) ∷ []
unfolding submit_transfer is_allowed consume ◌+ℤ◌ ◌*ℤ◌ ◌-ℤ◌ create_sol_transfer broadcast_to_solana
    deserialize_transaction
http_transfer_is_paid = refl

submit_transfer-guarded_example :
    let submitted = (submit_transfer toy_api 5 "secret-key" toy_request toy_gateway).1.submitted in
    (submitted ≡ [])
    ⊎ ((t : Granted toy_api 5 "secret-key" toy_request toy_gateway) × (submitted ≡ t.tx ∷ []))
submit_transfer-guarded_example =
    submit_transfer-guarded toy_api 5 "secret-key" toy_request toy_gateway

planned : plan_transfer toy_api toy_config toy_request ≡ reply (lamports 1000000000)
unfolding plan_transfer
planned = refl

plan_transfer-InLimit_example : 1000000000 ≤ toy_world.to_units toy_config.max_transfer_sol 9
plan_transfer-InLimit_example =
    plan_transfer-InLimit toy_api toy_config toy_request (lamports 1000000000)
      (λ a b decimals h. mul-le-mul_right (10 ^ decimals) h) planned

toy_granted : Granted toy_api 5 "secret-key" toy_request toy_gateway
unfolding verify_api_key bucket_id is_allowed consume ◌+ℤ◌ ◌*ℤ◌ ◌-ℤ◌ build_plan create_sol_transfer
toy_granted = record {
  hot = record { secret = []; pubkey = replicate 32 4 };
  dest = utf8 "Bob";
  plan = lamports 1000000000;
  recent_blockhash = 7 ∷ [];
  tx = 2 ∷ 1 ∷ 7 ∷ [];
  has_key = refl;
  in_rate = refl;
  has_wallet = refl;
  parsed = refl;
  planned = sol refl (omega arith);
  fetched = refl;
  built = refl;
}

toy_reads : deserialize_transaction toy_world.lib (2 ∷ 1 ∷ 7 ∷ []) ≡ ok tt
unfolding deserialize_transaction
toy_reads = refl

granted-submitted_example :
    (submit_transfer toy_api 5 "secret-key" toy_request toy_gateway).1.submitted
    ≡ (2 ∷ 1 ∷ 7 ∷ []) ∷ []
unfolding toy_granted
granted-submitted_example =
    granted-submitted toy_api 5 "secret-key" toy_request toy_gateway toy_granted tt toy_reads

-- A gateway with an HTTP port and no hot wallet.
abbrev serving : GatewayNode
serving = record toy_gateway {
  config = record toy_config { hot_wallet = none; http_port = some 8080 };
}

serving_starts : (start toy_world "" serving).0 ≡ ok tt
unfolding start start_http start_http_server connect
serving_starts = refl

started_keyed_example :
    ((start toy_world "" serving).1.mesh.connected ≡ true)
    × ((key : String) × (truthy serving.config.api_key ≡ some key)
        × (verify_api_key (start toy_world "" serving).1.config "secret-key"
            ≡ string_eq.beq "secret-key" key))
started_keyed_example = started_keyed toy_world "" "secret-key" serving 8079 refl serving_starts
