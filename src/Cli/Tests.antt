-- ===== src/Cli/Tests.antt =====
-- The commands in a small world, and their theorems there.
use solmesh.Prelude.{
  ◌≡◌, ◌++◌, refl, inl, true, false, [], ◌∷◌, none, some, ok, err, keyboard_interrupt, replicate,
}
use solmesh.Prelude.Eq.{string_eq, ne_of_beq}
use solmesh.Prelude.Dict.{lookup}
use solmesh.Constants.{utf8, usdc_mint_devnet}
use solmesh.Wallet.{load_keypair, get_pubkey}
use solmesh.Wallet.Toy.{key_7, toy_crypto}
use solmesh.Store.{saved, load, is_duplicate, pending_intents, recover_sending}
use solmesh.Client.{new_client}
use solmesh.Client.Toy.{toy_solders, toy_intent}
use solmesh.Client.Wait.{wait_for}
use solmesh.Mesh
use solmesh.Cli.{Host}
use solmesh.Cli.Toy.{host, session, lunch, route}
use solmesh.Cli.Token.{resolve_token}
use solmesh.Cli.Token.Known.{Fits, resolve_token-known}
use solmesh.Cli.Keys.{wallet_create, wallet_recover, wallet_import}
use solmesh.Cli.Keys.Protected.{Refused, unprotected-Refused, wallet_import-loads}
use solmesh.Cli.Send.{send_relay, send_request, send_deferred}
use solmesh.Cli.Send.Deferred.{Deferrable, deferred_intent, send_deferred-queues}
use solmesh.Cli.Queue.{queue_flush}
use solmesh.Cli.Queue.Silent.{nothing_flushed, Unheard, queue_flush-silent}
use solmesh.Cli.Node.{share, balance, listen}
use solmesh.Cli.Node.Closed.{device_closed}

usdc_resolved :
    resolve_token (λ s. s) (some "USDC") false false "devnet"
    ≡ ok (some usdc_mint_devnet, 6, utf8 "USDC")
unfolding resolve_token
usdc_resolved = refl

resolve_token-known_example : Fits 1 (some usdc_mint_devnet, 6, utf8 "USDC")
resolve_token-known_example =
    resolve_token-known (λ s. s) (some "USDC") false false "devnet"
      (some usdc_mint_devnet, 6, utf8 "USDC") usdc_resolved

unprotected-Refused_example :
    Refused session (wallet_create host "cash" true "" session)
    × Refused session (wallet_recover host "cash" "zoo" "" session)
    × Refused session (wallet_import host "cash" "key" "" session)
unprotected-Refused_example = unprotected-Refused host "cash" "key" "zoo" true session

-- A world whose texts of keys read back.
abbrev reading : Host
reading = record host {
  world = record host.world { lib = record toy_solders { pubkey_from_string = λ s. ok (8 ∷ []) } };
}

wallet_import-loads_example :
    let (r, s') = wallet_import reading "cash" "key" "secret" session in
    (r ≡ ok tt)
    × (load_keypair toy_crypto "cash" "secret" s'.wallets ≡ ok key_7)
    × (lookup "main" s'.wallets.files ≡ lookup "main" session.wallets.files)
wallet_import-loads_example =
    wallet_import-loads reading "cash" "main" "key" "secret" (utf8 "key") key_7 session refl refl
      (record { decrypts = λ key nonce plain. refl; parses = refl; reads = refl }) refl
      (ne_of_beq "secret" "" refl) (ne_of_beq "main" "cash" refl)

lunch-Deferrable :
    Deferrable host lunch 3 session (some usdc_mint_devnet) 6 (utf8 "USDC") (replicate 32 2)
unfolding resolve_token get_pubkey is_duplicate recover_sending
lunch-Deferrable = record {
  valid_mode = refl;
  resolved = refl;
  wallet_there = refl;
  opens = tt;
  not_queued = refl;
}

send_deferred-queues_example :
    let (r, s') = send_deferred host lunch 3 session in
    (r ≡ ok tt)
    × (s'.queue
        ≡ saved (
            load (recover_sending 0 session.queue)
            ++ deferred_intent host lunch 3 (some usdc_mint_devnet) 6 ∷ []))
    × (s'.wallets ≡ session.wallets)
    × (s'.mesh.air ≡ [])
send_deferred-queues_example =
    send_deferred-queues host lunch 3 session (some usdc_mint_devnet) 6 (utf8 "USDC")
      (replicate 32 2) lunch-Deferrable

one_waits : pending_intents (recover_sending 0 session.queue) ≡ toy_intent ∷ []
unfolding pending_intents recover_sending
one_waits = refl

none_heard : Unheard host route (record session { queue = recover_sending 0 session.queue })
unfolding recover_sending solmesh.Client.Wait.listen new_client
none_heard = refl

queue_flush-silent_example :
    queue_flush host "secret" none route session ≡ (ok tt, nothing_flushed host 1 session)
queue_flush-silent_example =
    queue_flush-silent host "secret" none route toy_intent [] session refl refl none_heard
      (inl ("!gate", refl)) one_waits

device_closed_example :
    ((send_relay host lunch route false none session).1.mesh.connected ≡ false)
    × ((send_request host lunch route session).1.mesh.connected ≡ false)
    × ((share host "main" [] session).1.mesh.connected ≡ false)
    × ((balance host "Bob" (some "USDC") false false route session).1.mesh.connected ≡ false)
    × ((queue_flush host "" none route session).1.mesh.connected ≡ false)
    × ((listen host "main" "" route 5 session).1.mesh.connected ≡ false)
device_closed_example =
    device_closed host lunch route false none [] none 5 session
      (record { closes = refl; not_interrupted = refl }) refl

-- Ctrl+C in the search for a gateway, which is outside the `try`, leaves the device open.
interrupted_open :
    let (r, s') =
      balance
        (record host { interrupted = some 3 })
        "Bob"
        none
        false
        false
        (record { gateway_node = none; auto_discover = true })
        session in
    (r ≡ err keyboard_interrupt) × (s'.mesh.connected ≡ true)
unfolding balance resolve_token Mesh.connect wait_for new_client
interrupted_open = (refl, refl)
