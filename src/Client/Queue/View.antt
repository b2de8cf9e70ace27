-- ===== src/Client/Queue/View.antt =====
-- What the queue shows of an intent, and the calls on the store as changes of it.
use solmesh.Prelude.{
  ap, ◌+◌, ℕ, ◌≡◌, refl, ◌∙◌, inl, inr, Bool-cases, Option-cases, arith, Option, none, some, String,
  leb, if◌then◌else◌,
}
use mathlib.Core.Option
use solmesh.Prelude.Eq.{string_eq}
use solmesh.Constants.{Str}
use solmesh.Store.{IntentStatus, failed, Intent, get}
use solmesh.Store.Queue.{get-update_status, get-increment_attempts}
use solmesh.Client.{ClientNode}
use solmesh.Client.World.{ClientWorld, now}
use solmesh.Client.Queue.{update_intent, count_attempt, current_intent}

-- Where an intent stands.
pub record Standing : Type 0 where
  pub status : IntentStatus
  pub attempts : ℕ
  pub max_attempts : ℕ

abbrev pub standing : Intent → Standing
standing i = record { status = i.status; attempts = i.attempts; max_attempts = i.max_attempts }

abbrev pub view : String → ClientNode → Option Standing
view id c = Option.map standing (current_intent id c)

abbrev pub at : String → String → (Standing → Standing) → ClientNode → Option Standing
at id j f c = if string_eq.beq id j then Option.map f (view id c) else view j c

-- One attempt more; the last one fails the intent.
abbrev pub counted : Standing → Standing
counted s = record s {
  attempts = s.attempts + 1;
  status = if leb s.max_attempts (s.attempts + 1) then failed else s.status;
}

abbrev pub with_status : IntentStatus → Standing → Standing
with_status status s = record s { status = status }

map-map :
    (f : Standing → Standing) (g : Intent → Intent) (o : Option Intent)
    → ((i : Intent) → standing (g i) ≡ f (standing i))
    → Option.map standing (Option.map g o) ≡ Option.map f (Option.map standing o)
map-map f g none h = refl
map-map f g (some i) h = ap some (h i)

through :
    (id j : String) (f : Standing → Standing) (g : Intent → Intent) (o o' : Option Intent)
    → ((i : Intent) → standing (g i) ≡ f (standing i))
    → Option.map standing (if string_eq.beq id j then Option.map g o else o') ≡ (
        if string_eq.beq id j then Option.map f (Option.map standing o) else Option.map standing o')
through id j f g o o' h = elim (Bool-cases (string_eq.beq id j)) [
  | inl same ↦ rw same (map-map f g o h)
  | inr other ↦ rw other refl
]

pub update_intent-view :
    (w : ClientWorld) (id j : String) (status : IntentStatus) (error tx_hash : Option Str)
    (c : ClientNode)
    → view j (update_intent w id status error tx_hash c).1 ≡ at id j (with_status status) c
unfolding update_intent
update_intent-view w id j status error tx_hash c = elim (Option-cases c.intent_store) [
  | inl unset ↦ rw unset (ground arith)
  | inr (file, set) ↦ rw set (
      ap (Option.map standing) (get-update_status (now w c) id j status error tx_hash file).0
      ∙ through id j (with_status status) _ (get id file) (get j file) (λ i. refl))
]

pub count_attempt-view :
    (w : ClientWorld) (id j : String) (c : ClientNode)
    → view j (count_attempt w id c).1 ≡ at id j counted c
unfolding count_attempt
count_attempt-view w id j c = elim (Option-cases c.intent_store) [
  | inl unset ↦ rw unset (ground arith)
  | inr (file, set) ↦ rw set (
      ap (Option.map standing) (get-increment_attempts (now w c) id j file).0
      ∙ through id j counted _ (get id file) (get j file) (λ i. refl))
]
