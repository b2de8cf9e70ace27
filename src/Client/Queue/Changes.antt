-- ===== src/Client/Queue/Changes.antt =====
-- Changes of one intent of the queue, one after the other.
use solmesh.Prelude.{
  ap, ◌≡◌, refl, sym, subst, ◌∙◌, inl, inr, Bool-cases, Option-cases, arith, Option, none, some,
  String, if◌then◌else◌,
}
use mathlib.Core.Option
use solmesh.Prelude.Eq.{string_eq, beq_self}
use solmesh.Constants.{Str}
use solmesh.Store.{pending, failed, status_eq, Intent}
use solmesh.Client.{ClientNode}
use solmesh.Client.World.{ClientWorld}
use solmesh.Client.Queue.{update_intent, current_intent, back_to_pending, status_or_pending}
use solmesh.Client.Queue.View.{Standing, standing, view, at, with_status, update_intent-view}

-- The intent with the id stands as `f` says, every other one as before.
abbrev pub Changes : String → (Standing → Standing) → ClientNode → ClientNode → Type 0
Changes id f c c' = (j : String) → view j c' ≡ at id j f c

map-map :
    (f g : Standing → Standing) (o : Option Standing)
    → Option.map g (Option.map f o) ≡ Option.map (λ s. g (f s)) o
map-map f g none = refl
map-map f g (some s) = refl

pub then-Changes :
    (id : String) (f g : Standing → Standing) (c c' c'' : ClientNode)
    → Changes id f c c'
    → Changes id g c' c''
    → Changes id (λ s. g (f s)) c c''
then-Changes id f g c c' c'' h k j = elim (Bool-cases (string_eq.beq id j)) [
  | inr other ↦ k j ∙ rw other (h j ∙ rw other refl)
  | inl same ↦
      k j ∙ rw same (ap (Option.map g) (h id ∙ rw (beq_self id) refl) ∙ map-map f g (view id c))
]

-- What follows and leaves the queue alone changes no more.
pub later_queue-Changes :
    (id : String) (f : Standing → Standing) (c c' c'' : ClientNode)
    → c''.intent_store ≡ c'.intent_store
    → Changes id f c c'
    → Changes id f c c''
later_queue-Changes id f c c' c'' same h j = rw same (h j)

pub congr-Changes :
    (id : String) (f g : Standing → Standing) (c c' : ClientNode)
    → ((s : Standing) → view id c ≡ some s → f s ≡ g s)
    → Changes id f c c'
    → Changes id g c c'
congr-Changes id f g c c' e h j = elim (Bool-cases (string_eq.beq id j)) [
  | inr other ↦ h j ∙ rw other refl
  | inl same ↦ elim (Option-cases (view id c)) [
    | inl absent ↦ h j ∙ rw (same, absent) refl
    | inr (s, found) ↦ h j ∙ rw (same, found) (ap some (e s found))
  ]
]

map_self : (o : Option Standing) → o ≡ Option.map (λ s. s) o
map_self none = refl
map_self (some s) = refl

pub none-Changes : (id : String) (c : ClientNode) → Changes id (λ s. s) c c
none-Changes id c j = elim (Bool-cases (string_eq.beq id j)) [
  | inr other ↦ rw other refl
  | inl same ↦
      rw same (ap (λ k. view k c) (sym ((string_eq.beq_iff id j).0 same)) ∙ map_self (view id c))
]

-- What is seen of an intent is its standing.
seen-standing :
    (o : Option Intent) (i : Intent) (s : Standing)
    → o ≡ some i
    → Option.map standing o ≡ some s
    → standing i ≡ s
seen-standing o i s found seen = ground (arith, found, seen)

abbrev pub unfail : Standing → Standing
unfail s = if status_eq s.status failed then s else with_status pending s

settle_back :
    (w : ClientWorld) (id : String) (error : Str) (c : ClientNode) (o : Option Intent)
    → current_intent id c ≡ o
    → Changes id unfail c (back_to_pending w id error o c).1
settle_back w id error c none absent =
    congr-Changes id (λ s. s) unfail c c (λ s seen. ground (arith, absent, seen))
      (none-Changes id c)
settle_back w id error c (some i) found = elim (Bool-cases (status_eq i.status failed)) [
  | inl over ↦
      congr-Changes id (λ s. s) unfail c (back_to_pending w id error (some i) c).1
        (λ s seen.
          subst (λ t. t ≡ unfail t) (seen-standing (current_intent id c) i s found seen)
            (rw over refl))
        (rw over (none-Changes id c))
  | inr still ↦
      congr-Changes id (with_status pending) unfail c (back_to_pending w id error (some i) c).1
        (λ s seen.
          subst (λ t. with_status pending t ≡ unfail t)
            (seen-standing (current_intent id c) i s found seen) (rw still refl))
        (rw still (λ j. update_intent-view w id j pending (some error) none c))
]

-- The intent goes back to the pending ones unless it has failed.
pub back_to_pending-Changes :
    (w : ClientWorld) (id : String) (error : Str) (c : ClientNode)
    → Changes id unfail c (back_to_pending w id error (current_intent id c) c).1
back_to_pending-Changes w id error c = settle_back w id error c (current_intent id c) refl

same_status :
    (o : Option Intent) (s : Standing)
    → Option.map standing o ≡ some s
    → with_status (status_or_pending o) s ≡ s
same_status none s seen = ground (arith, seen)
same_status (some i) s seen =
    subst (λ t. with_status i.status t ≡ t) (seen-standing (some i) i s refl seen) refl

-- The intent keeps its status.
pub keep_status-Changes :
    (w : ClientWorld) (id : String) (error : Option Str) (c : ClientNode)
    → Changes id
        (λ s. s)
        c
        (update_intent w id (status_or_pending (current_intent id c)) error none c).1
keep_status-Changes w id error c =
    let status = status_or_pending (current_intent id c) in
    congr-Changes id (with_status status) (λ s. s) c (update_intent w id status error none c).1
      (λ s seen. same_status (current_intent id c) s seen)
      (λ j. update_intent-view w id j status error none c)
