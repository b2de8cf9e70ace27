-- ===== src/Client/Queue/Intake/Accepts.antt =====
-- An intent that `queue_intent` accepts.
use solmesh.Prelude.{
  ap, ℕ, suc, ◌≡◌, refl, ◌∙◌, true, false, not, ◌||◌, [], ◌∷◌, ◌++◌, Option, none, some, String,
  ◌==◌, Result, ok, err, runtime_error, value_error, invalid_mode,
}
use solmesh.Prelude.Stateful.{◌>>=◌, ◌>>◌, bind_ok, lift, gets, raise_when}
use solmesh.Constants.{Bytes}
use solmesh.Prelude.Dict.{insert}
use solmesh.Prelude.Eq.{string_eq, nat_eq}
use solmesh.Solana.{Keypair}
use solmesh.Wallet.{load_keypair, get_pubkey, Wallets}
use solmesh.Store.{Intent, QueueFile, saved, load, add, is_duplicate}
use solmesh.Client.{ClientNode}
use solmesh.Client.World.{ClientWorld, Method}
use solmesh.Client.Queue.Untouched.{configured}
use solmesh.Client.Queue.Intake.{
  queue_intent, check_passphrase, cache_passphrase, new_intent, add_intent,
}

-- A passphrase that is given opens the wallet.
abbrev pub Opens : ClientWorld → String → Option String → Wallets → Type 0
Opens w name none wallets = Unit
Opens w name (some passphrase) wallets =
    (kp : Keypair) × (load_keypair w.crypto name passphrase wallets ≡ ok kp)

abbrev pub remember : String → Option String → ClientNode → ClientNode
remember name none c = c
remember name (some passphrase) c = record c {
  passphrase_cache = insert name passphrase c.passphrase_cache;
}

check_passphrase-Opens :
    (w : ClientWorld) (name : String) (passphrase : Option String) (c : ClientNode)
    → Opens w name passphrase c.wallet_mgr
    → check_passphrase w name passphrase c ≡ (ok tt, remember name passphrase c)
unfolding cache_passphrase
check_passphrase-Opens w name none c opens = refl
check_passphrase-Opens w name (some passphrase) c (kp, opens) =
    bind_ok (lift (load_keypair w.crypto name passphrase c.wallet_mgr))
      (λ k. cache_passphrase name passphrase) c kp c (ap (λ r. (r, c)) opens)

add_intent-new :
    (intent : Intent) (file : QueueFile) (c : ClientNode)
    → is_duplicate (load file) intent.wallet_name intent.recipient intent.amount intent.token_mint
      ≡ false
    → add_intent intent file c ≡ (
      ok intent,
      record c { intent_store = some (saved (load file ++ intent ∷ [])); drawn = suc c.drawn },
    )
unfolding add
add_intent-new intent file c new = rw (new, add) refl

module _ (w : ClientWorld) (mode : ℕ) (name to : String) (amount : ℕ) (mint : Option String)
    (decimals : ℕ) (passphrase : Option String) where
  -- Once everything is checked.
  abbrev enqueue : QueueFile → Method Intent
  enqueue file =
      gets (new_intent w mode name to amount mint decimals) >>= λ intent. add_intent intent file

  abbrev pub accepted : ClientNode → Intent
  accepted c = new_intent w mode name to amount mint decimals c

  pub queue_intent-accepts :
      (file : QueueFile) (key : Bytes) (c : ClientNode)
      → c.intent_store ≡ some file
      → (mode == 1 || mode == 3) ≡ true
      → get_pubkey w.lib name c.wallet_mgr ≡ ok key
      → Opens w name passphrase c.wallet_mgr
      → is_duplicate (load file) name to amount mint ≡ false
      → queue_intent w mode name to amount mint decimals passphrase c ≡ (
        ok (accepted (remember name passphrase c)),
        record (remember name passphrase c) {
          intent_store = some (saved (load file ++ accepted (remember name passphrase c) ∷ []));
          drawn = suc (remember name passphrase c).drawn;
        },
      )
  unfolding queue_intent
  queue_intent-accepts file key c set valid there opens new =
      let c' = remember name passphrase c in
      configured c.intent_store file (err runtime_error, c)
        (λ file.
          (raise_when (not (mode == 1 || mode == 3)) (value_error (invalid_mode mode))
              >> (lift (get_pubkey w.lib name c.wallet_mgr)
                  >> (check_passphrase w name passphrase >> enqueue file)))
            c)
        set
      ∙ bind_ok (raise_when (not (mode == 1 || mode == 3)) (value_error (invalid_mode mode)))
          (λ u.
            lift (get_pubkey w.lib name c.wallet_mgr)
            >> (check_passphrase w name passphrase >> enqueue file))
          c tt c (ap (λ b. raise_when (not b) (value_error (invalid_mode mode)) c) valid)
      ∙ bind_ok (lift (get_pubkey w.lib name c.wallet_mgr))
          (λ u. check_passphrase w name passphrase >> enqueue file) c key c
          (ap (λ (r : Result Bytes). (r, c)) there)
      ∙ bind_ok (check_passphrase w name passphrase) (λ u. enqueue file) c tt c'
          (check_passphrase-Opens w name passphrase c opens)
      ∙ add_intent-new (accepted c') file c' new
