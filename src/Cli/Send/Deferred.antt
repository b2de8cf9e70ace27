-- ===== src/Cli/Send/Deferred.antt =====
-- `send deferred`: the intent that is queued.
use solmesh.Prelude.{
  ap, ℕ, suc, sym, subst, ◌≡◌, refl, true, false, ◌||◌, [], ◌∷◌, ◌++◌, Option, none, some, String,
  ◌==◌, Result, ok,
}
use solmesh.Prelude.Eq.{nat_eq}
use solmesh.Prelude.Stateful.{bind_ok}
use solmesh.Constants.{Bytes, Str, max_flush_attempts}
use solmesh.Mesh.{truthy}
use solmesh.Wallet.{get_pubkey}
use solmesh.Store.{pending, Intent, saved, load, is_duplicate, recover_sending}
use solmesh.Client.{ClientNode, new_client}
use solmesh.Client.Queue.Intake.Accepts.{Opens, remember, accepted, queue_intent-accepts}
use solmesh.Cli.{Session, Host, build_mesh, with_client, queue_after}
use solmesh.Cli.Token.{Token, resolve_token}
use solmesh.Cli.Send.{Payment, token_of, enqueue, deferred, send_deferred}

abbrev pub deferred_intent : Host → Payment → ℕ → Option String → ℕ → Intent
deferred_intent h o mode mint decimals = record {
  id = h.world.uuid_hex 0;
  mode = mode;
  status = pending;
  created_at = h.world.clock 0;
  updated_at = h.world.clock 0;
  wallet_name = o.wallet;
  recipient = o.recipient;
  amount = o.amount;
  token_mint = mint;
  token_decimals = decimals;
  attempts = 0;
  max_attempts = max_flush_attempts;
  last_error = none;
  result_tx_hash = none;
}

-- What `send deferred` needs: a mode, token flags that resolve, a wallet that is there and that a
-- passphrase that is given opens, and no pending intent for the same transfer.
pub record Deferrable (h : Host) (o : Payment) (mode : ℕ) (s : Session) (mint : Option String)
    (decimals : ℕ) (symbol : Str) (key : Bytes) : Type 0 where
  pub valid_mode : (mode == 1 || mode == 3) ≡ true
  pub resolved :
      resolve_token h.upper o.token o.usdc o.fxn s.config.solana.network
      ≡ ok (mint, decimals, symbol)
  pub wallet_there : get_pubkey h.world.lib o.wallet s.wallets ≡ ok key
  pub opens : Opens h.world o.wallet (truthy (some o.passphrase)) s.wallets
  pub not_queued :
      is_duplicate
        (load (recover_sending (h.world.clock 0) s.queue))
        o.wallet
        o.recipient
        o.amount
        mint
      ≡ false

-- What the client is left with shows in the session.
abbrev back :
    Host → Payment → ℕ → Str → Session → Result Intent × ClientNode → Result (Unit {0}) × Session
back h o mode symbol s n = deferred h o mode symbol n.0 (record s {
  wallets = n.1.wallet_mgr;
  queue = queue_after s.queue n.1.intent_store;
  mesh = n.1.mesh;
  out = s.out;
})

abbrev Queues :
    Host → Payment → ℕ → Session → Option String → ℕ → Result (Unit {0}) × Session → Type 0
Queues h o mode s mint decimals n =
    (n.0 ≡ ok tt)
    × (n.1.queue
        ≡ saved (
            load (recover_sending (h.world.clock 0) s.queue)
            ++ deferred_intent h o mode mint decimals ∷ []))
    × (n.1.wallets ≡ s.wallets)
    × (n.1.mesh.air ≡ s.mesh.air)

accepted-Queues :
    (h : Host) (o : Payment) (mode : ℕ) (s : Session) (mint : Option String) (decimals : ℕ)
    (symbol : Str) (passphrase : Option String)
    → let store = recover_sending (h.world.clock 0) s.queue in
      let s' : Session = record s { queue = store } in
      let c =
        remember o.wallet passphrase
          (new_client (build_mesh s') s'.wallets none (some store) false) in
      let intent = accepted h.world mode o.wallet o.recipient o.amount mint decimals passphrase c in
      Queues h o mode s mint decimals (
        back h o mode symbol s' (
          ok intent,
          record c { intent_store = some (saved (load store ++ intent ∷ [])); drawn = suc c.drawn },
        ))
unfolding deferred new_client
accepted-Queues h o mode s mint decimals symbol none = (refl, refl, refl, refl)
accepted-Queues h o mode s mint decimals symbol (some passphrase) = (refl, refl, refl, refl)

enqueue-Queues :
    (h : Host) (o : Payment) (mode : ℕ) (s : Session) (mint : Option String) (decimals : ℕ)
    (symbol : Str) (key : Bytes)
    → Deferrable h o mode s mint decimals symbol key
    → Queues h o mode s mint decimals (enqueue h o mode (mint, decimals, symbol) s)
unfolding enqueue with_client new_client
enqueue-Queues h o mode s mint decimals symbol key d =
    let store = recover_sending (h.world.clock 0) s.queue in
    let s' : Session = record s { queue = store } in
    let c = new_client (build_mesh s') s'.wallets none (some store) false in
    let passphrase = truthy (some o.passphrase) in
    subst (λ n. Queues h o mode s mint decimals (back h o mode symbol s' n))
      (sym (
        queue_intent-accepts h.world mode o.wallet o.recipient o.amount mint decimals passphrase
          store key c refl d.valid_mode d.wallet_there d.opens d.not_queued))
      (accepted-Queues h o mode s mint decimals symbol passphrase)

-- `send deferred` of a transfer that can be deferred ends normally: behind what crash recovery left
-- stands the intent, pending, not yet attempted, with the mint and the decimals that the flags
-- resolve to; the key store is as it was, and nothing is sent.
pub send_deferred-queues :
    (h : Host) (o : Payment) (mode : ℕ) (s : Session) (mint : Option String) (decimals : ℕ)
    (symbol : Str) (key : Bytes)
    → Deferrable h o mode s mint decimals symbol key
    → let (r, s') = send_deferred h o mode s in
      (r ≡ ok tt)
      × (s'.queue
          ≡ saved (
              load (recover_sending (h.world.clock 0) s.queue)
              ++ deferred_intent h o mode mint decimals ∷ []))
      × (s'.wallets ≡ s.wallets)
      × (s'.mesh.air ≡ s.mesh.air)
unfolding send_deferred
send_deferred-queues h o mode s mint decimals symbol key d =
    subst (Queues h o mode s mint decimals)
      (sym (
        bind_ok (token_of h o) (enqueue h o mode) s (mint, decimals, symbol) s
          (ap (λ (r : Result Token). (r, s)) d.resolved)))
      (enqueue-Queues h o mode s mint decimals symbol key d)
