-- ===== src/Client/Queue/Steps.antt =====
-- Flushing the queue moves every intent along its life cycle.
use solmesh.Prelude.{
  ap, ◌≡◌, refl, ◌∙◌, sym, subst, ◌⊎◌, inl, inr, Bool, Bool-cases, true, false, List, [], ◌∷◌,
  arith, Option, none, some, String, Result, ok, err, runtime_error, any, All,
}
use mathlib.Core.Option
use solmesh.Prelude.Eq.{string_eq}
use solmesh.Prelude.Dict.{Dict}
use solmesh.Store.{Intent, QueueFile, pending, get, load, pending_intents}
use solmesh.Store.Waiting.{Apart, Waits, same_id, pending_intents-Waits}
use solmesh.Client.{ClientNode, Outcome, is_gateway_online}
use solmesh.Client.World.{ClientWorld, Method, now}
use solmesh.Client.Queue.{
  flush_intent, flush_one, flush_each, flush_all_pending, choose_passphrase, is_skipped, outcome_of,
}
use solmesh.Client.Queue.View.{Standing, standing, view}
use solmesh.Client.Queue.Flushed.{after, fate, flush_intent_lem}
use solmesh.Client.Queue.Untouched.{configured, flush_intent-view, flush_each-view}
use solmesh.Client.Queue.Lives.{Step, flushed, Lives, later, Sound, Lives-Sound, Step-max}

-- An intent stays as it stands or takes one step.
abbrev pub OneStep : Option Standing → Option Standing → Type 0
OneStep before then_after =
    (then_after ≡ before)
    ⊎ ((s : Standing) × (t : Standing) × (before ≡ some s) × (then_after ≡ some t) × Step s t)

-- The pending intents as the client sees them.
abbrev pub AllWait : ClientNode → List Intent → Type 0
AllWait c [] = Unit
AllWait c (i ∷ l) = (view i.id c ≡ some (standing i)) × (i.status ≡ pending) × AllWait c l

AllWait-congr :
    (c c' : ClientNode) (id : String) (l : List Intent)
    → ((j : String) → string_eq.beq id j ≡ false → view j c' ≡ view j c)
    → any (same_id id) l ≡ false
    → AllWait c l
    → AllWait c' l
AllWait-congr c c' id [] same other f = tt
AllWait-congr c c' id (i ∷ l) same other f = (
  same i.id (ground (arith, string_eq.beq_iff id i.id, string_eq.beq_iff i.id id)) ∙ f.0,
  f.1,
  AllWait-congr c c' id l same (ground arith) f.2,
)

seen_in :
    (id : String) (s : Standing) (o : Option QueueFile)
    → Option.map standing (elim o [ none ↦ none | some file ↦ get id file ]) ≡ some s
    → (file : QueueFile) × (o ≡ some file)
seen_in id s none h = ground arith
seen_in id s (some file) h = (file, refl)

module _ (w : ClientWorld) (i : Intent) (passphrase : String) (c : ClientNode)
    (seen : view i.id c ≡ some (standing i)) (waits : i.status ≡ pending) where
  flush_intent-Step :
      (j : String)
      → string_eq.beq i.id j ≡ true
      → OneStep (view j c) (view j (flush_intent w i passphrase c).1)
  flush_intent-Step j same =
      let (file, set) = seen_in i.id (standing i) c.intent_store seen in
      let id_is : i.id ≡ j = (string_eq.beq_iff i.id j).0 same in
      let moved : view j (flush_intent w i passphrase c).1
          ≡ some (after (fate w i passphrase c) (standing i)) =
        flush_intent_lem w i passphrase file c set j
        ∙ rw same (ap (Option.map (after (fate w i passphrase c))) seen) in
      inr (
        standing i,
        after (fate w i passphrase c) (standing i),
        subst (λ k. view k c ≡ some (standing i)) id_is seen,
        moved,
        flushed (standing i) (fate w i passphrase c) waits,
      )

last_state :
    {A B : Type 0} (f : A → B) (n : Result A × ClientNode)
    → let q : Result B × ClientNode = elim n.0 [ ok a ↦ (ok (f a), n.1) | err e ↦ (err e, n.1) ] in
      q.1 ≡ n.1
last_state f (ok a, c) = refl
last_state f (err e, c) = refl

abbrev Steps : Method (List (String × Outcome)) → ClientNode → Type 0
Steps m c = (j : String) → OneStep (view j c) (view j (m c).1)

flush_one-Steps :
    (w : ClientWorld) (i : Intent) (skip : Bool) (passphrase : Option String) (online : Bool)
    (next : Method (List (String × Outcome))) (c : ClientNode)
    → view i.id c ≡ some (standing i)
    → i.status ≡ pending
    → ((c' : ClientNode)
        → ((j : String) → string_eq.beq i.id j ≡ false → view j c' ≡ view j c)
        → Steps next c')
    → ((c' : ClientNode) → view i.id (next c').1 ≡ view i.id c')
    → Steps (flush_one w i skip passphrase online next) c
flush_one-Steps w i true passphrase online next c seen waits rest keeps = rest c (λ j other. refl)
flush_one-Steps w i false none online next c seen waits rest keeps = rest c (λ j other. refl)
flush_one-Steps w i false (some passphrase) false next c seen waits rest keeps = λ j. inl refl
flush_one-Steps w i false (some passphrase) true next c seen waits rest keeps = λ j.
    let n = flush_intent w i passphrase c in
    let others = λ (k : String) (other : string_eq.beq i.id k ≡ false).
      flush_intent-view w k i passphrase other c in
    let ended = last_state (λ more. (i.id, outcome_of w n.0) ∷ more) (next n.1) in
    subst (λ (d : ClientNode). OneStep (view j c) (view j d)) (sym ended)
      (elim (Bool-cases (string_eq.beq i.id j)) [
        | inl same ↦
            let id_is : i.id ≡ j = (string_eq.beq_iff i.id j).0 same in
            let kept : view j (next n.1).1 ≡ view j n.1 =
              subst (λ k. view k (next n.1).1 ≡ view k n.1) id_is (keeps n.1) in
            subst (OneStep (view j c)) (sym kept)
              (flush_intent-Step w i passphrase c seen waits j same)
        | inr other ↦
            subst (λ o. OneStep o (view j (next n.1).1)) (others j other) (rest n.1 others j)
      ])

flush_each-Steps :
    (w : ClientWorld) (passphrase_map : Dict String String) (wallet : Option String)
    (l : List Intent) (c : ClientNode)
    → Apart l
    → AllWait c l
    → Steps (flush_each w passphrase_map wallet l) c
unfolding flush_each
flush_each-Steps w passphrase_map wallet [] c a f = λ j. inl refl
flush_each-Steps w passphrase_map wallet (i ∷ rest) c a f =
    flush_one-Steps w i (is_skipped wallet i) (choose_passphrase passphrase_map i.wallet_name c)
      (is_gateway_online (now w c) 180 c) (flush_each w passphrase_map wallet rest) c f.0 f.1
      (λ c' same.
        flush_each-Steps w passphrase_map wallet rest c' a.1
          (AllWait-congr c c' i.id rest same a.0 f.2))
      (flush_each-view w i.id passphrase_map wallet rest a.0)

waiting-AllWait :
    (file : QueueFile) (l : List Intent) (c : ClientNode)
    → c.intent_store ≡ some file
    → All (Waits (λ j. get j file)) l
    → AllWait c l
waiting-AllWait file [] c set f = tt
waiting-AllWait file (i ∷ l) c set f = (
  ap
        (λ (o : Option QueueFile).
          Option.map standing (elim o [ none ↦ none | some file ↦ get i.id file ]))
        set
      ∙ ap (Option.map standing) f.0.0,
  f.0.1,
  waiting-AllWait file l c set f.1,
)

-- A flush of the whole queue, in which no two intents share their id, leaves every intent as it
-- stands or takes it one step along its life cycle, so that it is tried at most once.
pub flush_all_pending-OneStep :
    (w : ClientWorld) (passphrase_map : Dict String String) (wallet : Option String)
    (file : QueueFile) (c : ClientNode) (j : String)
    → c.intent_store ≡ some file
    → Apart (load file)
    → OneStep (view j c) (view j (flush_all_pending w passphrase_map wallet c).1)
unfolding flush_all_pending
flush_all_pending-OneStep w passphrase_map wallet file c j set apart =
    let (apart', waits) = pending_intents-Waits file apart in
    subst (λ (n : Result (List (String × Outcome)) × ClientNode). OneStep (view j c) (view j n.1))
      (sym (
        configured c.intent_store file (err runtime_error, c)
          (λ f. flush_each w passphrase_map wallet (pending_intents f) c) set))
      (flush_each-Steps w passphrase_map wallet (pending_intents file) c apart'
        (waiting-AllWait file (pending_intents file) c set waits) j)

-- An intent that stands where a life cycle has taken it, in a queue in which no two intents share
-- their id, does so after a flush of the whole queue: it is still there, with the same maximum of
-- attempts, no more attempts than that, and fewer while it is pending or marked as being sent.
pub flush_all_pending-Sound :
    (w : ClientWorld) (passphrase_map : Dict String String) (wallet : Option String)
    (file : QueueFile) (c : ClientNode) (j : String) (s : Standing)
    → c.intent_store ≡ some file
    → Apart (load file)
    → view j c ≡ some s
    → Lives s
    → (t : Standing) × (view j (flush_all_pending w passphrase_map wallet c).1 ≡ some t)
      × (t.max_attempts ≡ s.max_attempts)
      × Lives t
      × Sound t
flush_all_pending-Sound w passphrase_map wallet file c j s set apart seen lives =
    elim (flush_all_pending-OneStep w passphrase_map wallet file c j set apart) [
      | inl same ↦ (s, same ∙ seen, refl, lives, Lives-Sound s lives)
      | inr (r, t, before, now_stands, step) ↦
          let is_s : r ≡ s = cc in
          let lives' : Lives t = later s t lives (subst (λ x. Step x t) is_s step) in
          (
            t,
            now_stands,
            Step-max r t step ∙ ap (λ (x : Standing). x.max_attempts) is_s,
            lives',
            Lives-Sound t lives',
          )
    ]
