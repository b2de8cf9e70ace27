-- ===== src/Store/Recovery.antt =====
-- Crash recovery, which `IntentStore.__init__` runs once.
use mathlib.Core.Option
use solmesh.Prelude.{
  if◌then◌else◌, ℕ, ◌≡◌, refl, ap, sym, ◌∙◌, Bool, false, List, [], ◌∷◌, arith, String, Bool-cases,
  inl, inr, any,
}
use solmesh.Prelude.Eq.{string_eq}
use solmesh.Store.{
  pending, sending, status_eq, Intent, QueueFile, load, find_intent, get, recover_intent,
  recover_list, recover_sending,
}

abbrev pub is_sending : Intent → Bool
is_sending i = status_eq i.status sending

recover_list-any : (now : ℕ) (l : List Intent) → any is_sending (recover_list now l) ≡ false
unfolding recover_list recover_intent
recover_list-any now [] = refl
recover_list-any now (i ∷ l) = ground (arith, recover_list-any now l)

recover_list-unchanged :
    (now : ℕ) (l : List Intent) → any is_sending l ≡ false → recover_list now l ≡ l
unfolding recover_list recover_intent
recover_list-unchanged now [] h = refl
recover_list-unchanged now (i ∷ l) h = ground (arith, recover_list-unchanged now l)

recover_list-find :
    (now : ℕ) (k : String) (l : List Intent)
    → find_intent k (recover_list now l) ≡ Option.map (recover_intent now) (find_intent k l)
unfolding recover_list find_intent recover_intent
recover_list-find now k [] = refl
recover_list-find now k (i ∷ l) = ground (arith, recover_list-find now k l)

-- After recovery no intent is marked as being sent; every id finds what it found before, with
-- `sending` turned into `pending` and its time renewed, and nothing else changed; and a second
-- recovery changes nothing.
pub recover_sending_lem :
    (now later : ℕ) (k : String) (file : QueueFile)
    → (any is_sending (load (recover_sending now file)) ≡ false)
      × (get k (recover_sending now file)
          ≡ Option.map {A = Intent}
              (λ i.
                if status_eq i.status sending
                then record i { status = pending; updated_at = now }
                else i)
              (get k file))
      × (recover_sending later (recover_sending now file) ≡ recover_sending now file)
unfolding recover_sending recover_intent
recover_sending_lem now later k file = elim (Bool-cases (any is_sending (load file))) [
  | inl crashed ↦ rw crashed (
    recover_list-any now (load file),
    unfold get in recover_list-find now k (load file),
    rw (recover_list-any now (load file)) refl,
  )
  | inr clean ↦ rw clean (
    clean,
    unfold get in
        (ap (find_intent k) (sym (recover_list-unchanged now (load file) clean))
          ∙ recover_list-find now k (load file)),
    rw clean refl,
  )
]
