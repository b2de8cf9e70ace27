-- ===== src/Client/Queue/Offline.antt =====
-- Flushing without a gateway that was heard.
use solmesh.Prelude.{
  ap, ℕ, ◌≡◌, refl, ◌∙◌, Bool, true, false, inl, inr, Option-cases, List, [], ◌∷◌, Option, none,
  some, String, ok, err, runtime_error,
}
use solmesh.Prelude.Dict.{Dict, lookup}
use solmesh.Mesh.{truthy}
use solmesh.Store.{Intent, QueueFile, pending_intents}
use solmesh.Client.{ClientNode, Outcome, is_gateway_online}
use solmesh.Client.Queue.Untouched.{configured}
use solmesh.Client.World.{ClientWorld, Method, now}
use solmesh.Client.Queue.{flush_one, flush_each, flush_all_pending, choose_passphrase, is_skipped}

offline :
    (c : ClientNode) (time limit : ℕ)
    → c.discovered_gateways ≡ []
    → is_gateway_online time limit c ≡ false
unfolding is_gateway_online
offline c time limit e = elim (Option-cases (truthy c.gateway_id)) [
  | inl unset ↦ rw (unset, is_gateway_online) refl
  | inr (id, set) ↦ rw (set, is_gateway_online) (rw (e, lookup) refl)
]

flush_one-offline :
    (w : ClientWorld) (i : Intent) (skip : Bool) (passphrase : Option String)
    (next : Method (List (String × Outcome))) (c : ClientNode)
    → next c ≡ (ok [], c)
    → flush_one w i skip passphrase false next c ≡ (ok [], c)
flush_one-offline w i true passphrase next c h = h
flush_one-offline w i false none next c h = h
flush_one-offline w i false (some passphrase) next c h = refl

flush_each-offline :
    (w : ClientWorld) (passphrase_map : Dict String String) (wallet : Option String)
    (l : List Intent) (c : ClientNode)
    → c.discovered_gateways ≡ []
    → flush_each w passphrase_map wallet l c ≡ (ok [], c)
unfolding flush_each
flush_each-offline w passphrase_map wallet [] c e = refl
flush_each-offline w passphrase_map wallet (i ∷ rest) c e =
    ap
      (λ online.
        flush_one w i (is_skipped wallet i) (choose_passphrase passphrase_map i.wallet_name c)
          online (flush_each w passphrase_map wallet rest) c)
      (offline c (now w c) 180 e)
    ∙ flush_one-offline w i (is_skipped wallet i) (choose_passphrase passphrase_map i.wallet_name c)
        (flush_each w passphrase_map wallet rest) c
        (flush_each-offline w passphrase_map wallet rest c e)

-- A client that has heard no beacon flushes nothing and stays as it is.
pub flush_all_pending-offline :
    (w : ClientWorld) (passphrase_map : Dict String String) (wallet : Option String)
    (file : QueueFile) (c : ClientNode)
    → c.discovered_gateways ≡ []
    → c.intent_store ≡ some file
    → flush_all_pending w passphrase_map wallet c ≡ (ok [], c)
unfolding flush_all_pending
flush_all_pending-offline w passphrase_map wallet file c e set =
    configured c.intent_store file (err runtime_error, c)
      (λ f. flush_each w passphrase_map wallet (pending_intents f) c) set
    ∙ flush_each-offline w passphrase_map wallet (pending_intents file) c e
