-- ===== src/Store/Queue.antt =====
-- The operations of the queue on single intents.
use solmesh.Prelude.{
  ap, ap₂, ℕ, ◌+◌, ◌≡◌, refl, ◌∙◌, inl, inr, true, false, List, [], ◌∷◌, arith, Option, none, some,
  String, leb, if◌then◌else◌, Option-cases,
}
use mathlib.Core.Option
use mathlib.Core.Path.{fun_ext}
use solmesh.Prelude.Eq.{string_eq}
use solmesh.Constants.{Str}
use solmesh.Store.{
  IntentStatus, failed, Intent, QueueFile, saved, find_intent, get, change_first, change,
  set_status, or_else, update_status, bump_attempts, increment_attempts,
}

-- A change that keeps the id is seen under that id alone.
find-change_first :
    (k j : String) (f : Intent → Intent) (l : List Intent)
    → ((i : Intent) → (f i).id ≡ i.id)
    → find_intent j (change_first k f l)
      ≡ (if string_eq.beq k j then Option.map f (find_intent k l) else find_intent j l)
unfolding find_intent change_first
find-change_first k j f [] keep = ground arith
find-change_first k j f (i ∷ l) keep = ground (
  arith,
  keep i,
  string_eq.beq_iff k j,
  string_eq.beq_iff i.id j,
  string_eq.beq_iff i.id k,
  string_eq.beq_iff (f i).id j,
  find-change_first k j f l keep,
)

get-change :
    (k j : String) (f : Intent → Intent) (file : QueueFile)
    → ((i : Intent) → (f i).id ≡ i.id)
    → get j (change k f file).1
      ≡ (if string_eq.beq k j then Option.map f (get k file) else get j file)
unfolding get change
get-change k j f (saved l) keep = elim (Option-cases (find_intent k l)) [
  | inl absent ↦ rw absent (ground (arith, string_eq.beq_iff k j, absent))
  | inr (i, found) ↦ rw (found, change) (find-change_first k j f l keep ∙ rw found refl)
]
get-change k j f other keep = ground arith

change-found :
    (k : String) (f : Intent → Intent) (file : QueueFile)
    → (change k f file).0 ≡ (elim (get k file) [ none ↦ false | some _ ↦ true ])
unfolding get change
change-found k f file = ground arith

or_else_lem : (e old : Option Str) → or_else e old ≡ (elim e [ none ↦ old | some new ↦ some new ])
or_else_lem none old = refl
or_else_lem (some new) old = refl

-- `update_status` changes exactly the intent with the id: `get` finds it with the new status and
-- time, with the error and the hash replaced where one is given; every other id finds what it found
-- before. It returns whether the id was there.
pub get-update_status :
    (now : ℕ) (k j : String) (status : IntentStatus) (error tx_hash : Option Str) (file : QueueFile)
    → (get j (update_status now k status error tx_hash file).1 ≡ (
        if string_eq.beq k j
        then Option.map {A = Intent}
            (λ i. record i {
              status = status;
              updated_at = now;
              last_error = elim error [ none ↦ i.last_error | some e ↦ some e ];
              result_tx_hash = elim tx_hash [ none ↦ i.result_tx_hash | some h ↦ some h ];
            })
            (get k file)
        else get j file))
      × ((update_status now k status error tx_hash file).0
          ≡ (elim (get k file) [ none ↦ false | some _ ↦ true ]))
unfolding update_status
get-update_status now k j status error tx_hash file = (
  get-change k j (set_status now status error tx_hash) file (λ i. refl)
      ∙ ap
          (λ (f : Intent → Intent).
            if string_eq.beq k j then Option.map f (get k file) else get j file)
          (fun_ext (λ i.
            ap₂
              (λ a b. record i {
                status = status;
                updated_at = now;
                last_error = a;
                result_tx_hash = b;
              })
              (or_else_lem error i.last_error) (or_else_lem tx_hash i.result_tx_hash))),
  change-found k (set_status now status error tx_hash) file,
)

-- `increment_attempts` counts one attempt of exactly the intent with the id, and fails it exactly
-- when the maximum is reached; every other id finds what it found before. It returns whether the id
-- was there.
pub get-increment_attempts :
    (now : ℕ) (k j : String) (file : QueueFile)
    → (get j (increment_attempts now k file).1 ≡ (
        if string_eq.beq k j
        then Option.map {A = Intent}
            (λ i. record i {
              attempts = i.attempts + 1;
              updated_at = now;
              status = if leb i.max_attempts (i.attempts + 1) then failed else i.status;
            })
            (get k file)
        else get j file))
      × ((increment_attempts now k file).0 ≡ (elim (get k file) [ none ↦ false | some _ ↦ true ]))
unfolding increment_attempts
get-increment_attempts now k j file =
    (get-change k j (bump_attempts now) file (λ i. refl), change-found k (bump_attempts now) file)
