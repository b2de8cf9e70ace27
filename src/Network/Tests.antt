-- ===== src/Network/Tests.antt =====
-- A client that asks a gateway for one SOL.
use solmesh.Prelude.{none, false, ◌≡◌, refl, inl, inr, [], ◌∷◌, some, ok, replicate, true, arith}
use solmesh.Constants.{Bytes, utf8}
use solmesh.Wallet.{load_keypair}
use solmesh.Chunker.{generate_msg_id}
use solmesh.Prelude.Int.{◌+ℤ◌, ◌*ℤ◌}
use solmesh.RateLimiter.{is_allowed, consume}
use solmesh.Solana.{create_sol_transfer, deserialize_transaction}
use solmesh.Mesh.{on_receive}
use solmesh.Client.Toy.{toy_world, toy_client, wallet_key}
use solmesh.Client.Request.{request_transfer}
use solmesh.Gateway.Toy.{toy_world as gateway_world, toy_gateway}
use solmesh.Gateway.Start.{gateway_handlers}
use solmesh.Cli.{Host}
use solmesh.Cli.Toy.{host, session, lunch, route}
use solmesh.Cli.Token.{resolve_token}
use solmesh.Cli.Send.{Payment, send_request}
use solmesh.Network.Command.{send_request-paid}
use solmesh.Network.{packet_of}
use solmesh.Network.Request.{Willing, request_transfer-paid}

loaded : load_keypair toy_world.crypto "main" "secret" toy_client.wallet_mgr ≡ ok wallet_key
unfolding load_keypair
loaded = refl

abbrev payment : Bytes
payment = 2 ∷ 1 ∷ 7 ∷ []

let_through : (is_allowed gateway_world.clock_rate 5 "!client" toy_gateway.rate_limiter).1 ≡ true
unfolding is_allowed consume ◌+ℤ◌ ◌*ℤ◌
let_through = refl

paid_by_hot_wallet :
    create_sol_transfer gateway_world.lib
      (record { secret = []; pubkey = replicate 32 4 })
      (replicate 32 2)
      1000000000
      (7 ∷ [])
    ≡ ok payment
unfolding create_sol_transfer
paid_by_hot_wallet = refl

reads_back : deserialize_transaction gateway_world.lib payment ≡ ok tt
unfolding deserialize_transaction
reads_back = refl

abbrev toy_ready :
    Willing gateway_world 5 "!client" toy_gateway wallet_key.pubkey (replicate 32 2) 1000000000
toy_ready = record {
  hot = record { secret = []; pubkey = replicate 32 4 };
  recent_blockhash = 7 ∷ [];
  tx = payment;
  in_rate = let_through;
  has_wallet = refl;
  admitted = inr refl;
  within = omega arith;
  fetched = refl;
  built = paid_by_hot_wallet;
  parsed = reads_back;
}

request_transfer-paid_example :
    (frame : Bytes) × ((request_transfer toy_world "main" "Bob" 1 "secret" toy_client).1.mesh.air
      ≡ record { contents = frame; destination = some "!gate"; want_ack = true } ∷ [])
    × ((on_receive
          (gateway_handlers gateway_world 5)
          (packet_of frame "!client")
          toy_gateway).submitted
        ≡ payment ∷ [])
unfolding generate_msg_id
request_transfer-paid_example =
    request_transfer-paid toy_world gateway_world toy_client toy_gateway "main" "Bob" "secret"
      "!gate" "!client" 1 5 wallet_key (replicate 32 2) refl refl loaded refl
      (record {
        sig_size = refl;
        sender_size = refl;
        dest_size = refl;
        amount_fits = omega arith;
        mint_size = inl refl;
      })
      (omega arith) (omega arith) (omega arith) (omega arith) (λ message. refl) toy_ready

abbrev one_sol : Payment
one_sol = record lunch { amount = 1; token = none; passphrase = "secret" }

abbrev client_host : Host
client_host = record host { world = toy_world }

sol_resolved : resolve_token client_host.upper none false false "devnet" ≡ ok (none, 9, utf8 "SOL")
unfolding resolve_token
sol_resolved = refl

send_request-paid_example :
    (frame : Bytes) × ((send_request client_host one_sol route session).1.mesh.air
      ≡ record { contents = frame; destination = some "!gate"; want_ack = true } ∷ [])
    × ((on_receive
          (gateway_handlers gateway_world 5)
          (packet_of frame "!client")
          toy_gateway).submitted
        ≡ payment ∷ [])
unfolding generate_msg_id
send_request-paid_example =
    send_request-paid client_host gateway_world one_sol route session toy_gateway "!gate" "!client"
      5 wallet_key (replicate 32 2) (utf8 "SOL") refl refl sol_resolved loaded refl
      (record {
        sig_size = refl;
        sender_size = refl;
        dest_size = refl;
        amount_fits = omega arith;
        mint_size = inl refl;
      })
      (omega arith) (omega arith) (omega arith) (omega arith) (λ message. refl) toy_ready
