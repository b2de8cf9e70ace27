-- ===== src/Client/Queue/Untouched.antt =====
-- What flushing the whole queue leaves alone.
use solmesh.Prelude.{
  ap, ◌≡◌, refl, ◌∙◌, inl, inr, Bool, Option-cases, true, false, List, [], ◌∷◌, arith, Option, none,
  some, String, Result, err, runtime_error, any,
}
use solmesh.Prelude.Eq.{string_eq}
use solmesh.Prelude.Dict.{Dict}
use solmesh.Prelude.Stateful.{◌>>=◌, attempt, pure, Keeps, bind-Keeps}
use solmesh.Store.{Intent, QueueFile, pending_intents}
use solmesh.Client.{ClientNode, Outcome, is_gateway_online}
use solmesh.Client.World.{ClientWorld, Method, now}
use solmesh.Client.Queue.{
  flush_intent, flush_one, flush_each, flush_all_pending, choose_passphrase, is_skipped, outcome_of,
}
use solmesh.Client.Queue.View.{view}
use solmesh.Client.Queue.Flushed.{flush_intent_lem}

unconfigured :
    {A : Type 0} (o : Option QueueFile) (a : A) (f : QueueFile → A)
    → o ≡ none
    → (elim o [ none ↦ a | some file ↦ f file ]) ≡ a
unconfigured o a f e = rw e refl

pub configured :
    {A : Type 0} (o : Option QueueFile) (file : QueueFile) (a : A) (f : QueueFile → A)
    → o ≡ some file
    → (elim o [ none ↦ a | some it ↦ f it ]) ≡ f file
configured o file a f e = rw e refl

module _ (w : ClientWorld) (j : String) where
  pub flush_intent-view :
      (intent : Intent) (passphrase : String)
      → string_eq.beq intent.id j ≡ false
      → Keeps (view j) (flush_intent w intent passphrase)
  unfolding flush_intent
  flush_intent-view intent passphrase other c = elim (Option-cases c.intent_store) [
    | inl unset ↦
        ap (λ (n : Result Outcome × ClientNode). view j n.1)
          (unconfigured c.intent_store (err runtime_error, c) _ unset)
    | inr (file, set) ↦ flush_intent_lem w intent passphrase file c set j ∙ rw other refl
  ]

  flush_one-view :
      (intent : Intent) (skip : Bool) (passphrase : Option String) (online : Bool)
      (next : Method (List (String × Outcome)))
      → string_eq.beq intent.id j ≡ false
      → Keeps (view j) next
      → Keeps (view j) (flush_one w intent skip passphrase online next)
  flush_one-view intent true passphrase online next other later c = later c
  flush_one-view intent false none online next other later c = later c
  flush_one-view intent false (some passphrase) false next other later c = refl
  flush_one-view intent false (some passphrase) true next other later c =
      bind-Keeps (view j) (attempt (flush_intent w intent passphrase))
        (λ r. next >>= λ more. pure ((intent.id, outcome_of w r) ∷ more))
        (flush_intent-view intent passphrase other)
        (λ r.
          bind-Keeps (view j) next (λ more. pure ((intent.id, outcome_of w r) ∷ more)) later
            (λ more s. refl))
        c

  pub flush_each-view :
      (passphrase_map : Dict String String) (wallet_filter : Option String) (l : List Intent)
      → any (λ (i : Intent). string_eq.beq i.id j) l ≡ false
      → Keeps (view j) (flush_each w passphrase_map wallet_filter l)
  unfolding flush_each
  flush_each-view passphrase_map wallet_filter [] h c = refl
  flush_each-view passphrase_map wallet_filter (intent ∷ rest) h c =
      flush_one-view intent (is_skipped wallet_filter intent)
        (choose_passphrase passphrase_map intent.wallet_name c) (is_gateway_online (now w c) 180 c)
        (flush_each w passphrase_map wallet_filter rest) (ground arith)
        (flush_each-view passphrase_map wallet_filter rest (ground arith)) c

-- Flushing the whole queue of a client that has one leaves an intent whose id no pending intent has
-- as it stands: its status, its attempts and their maximum.
pub flush_all_pending-view :
    (w : ClientWorld) (passphrase_map : Dict String String) (wallet_filter : Option String)
    (file : QueueFile) (j : String) (c : ClientNode)
    → c.intent_store ≡ some file
    → any (λ (i : Intent). string_eq.beq i.id j) (pending_intents file) ≡ false
    → view j (flush_all_pending w passphrase_map wallet_filter c).1 ≡ view j c
unfolding flush_all_pending
flush_all_pending-view w passphrase_map wallet_filter file j c set others =
    ap (λ (n : Result (List (String × Outcome)) × ClientNode). view j n.1)
      (configured c.intent_store file (err runtime_error, c)
        (λ f. flush_each w passphrase_map wallet_filter (pending_intents f) c) set)
    ∙ flush_each-view w j passphrase_map wallet_filter (pending_intents file) others c
