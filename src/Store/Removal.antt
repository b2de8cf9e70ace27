-- ===== src/Store/Removal.antt =====
-- `remove` and `clear`.
use solmesh.Prelude.{
  ◌+◌, ◌≤◌, ◌<◌, ◌≡◌, ◌≢◌, refl, ap, inl, inr, Bool, true, false, not, List, [], ◌∷◌, arith, none,
  some, String, ltb, lt→ltb, ltb-false, if◌then◌else◌, Bool-cases, Option-cases, length, keep_if,
}
use solmesh.Prelude.Eq.{string_eq}
use solmesh.Store.{
  IntentStatus, status_eq, Intent, QueueFile, load, list_intents, find_intent, get, remove, clear,
  has_status,
}

module _ (p : Intent → Bool) where
  length-keep_if : (l : List Intent) → length (keep_if p l) ≤ length l
  length-keep_if [] = omega arith
  length-keep_if (i ∷ l) = ground (arith, length-keep_if l)

absent-kept :
    (k : String) (l : List Intent)
    → find_intent k l ≡ none
    → keep_if (λ (i : Intent). not (string_eq.beq i.id k)) l ≡ l
unfolding find_intent
absent-kept k [] h = refl
absent-kept k (i ∷ l) h = ground (arith, absent-kept k l)

present-shorter :
    (k : String) (l : List Intent)
    → find_intent k l ≢ none
    → length (keep_if (λ (i : Intent). not (string_eq.beq i.id k)) l) < length l
unfolding find_intent
present-shorter k [] h = absurd (h refl)
present-shorter k (i ∷ l) h =
    ground
      (arith, present-shorter k l, length-keep_if (λ (i : Intent). not (string_eq.beq i.id k)) l)

find_intent-removed :
    (k : String) (l : List Intent)
    → find_intent k (keep_if (λ (i : Intent). not (string_eq.beq i.id k)) l) ≡ none
unfolding find_intent
find_intent-removed k [] = refl
find_intent-removed k (i ∷ l) = ground (arith, find_intent-removed k l)

find_intent-kept :
    (k j : String) (l : List Intent)
    → k ≢ j
    → find_intent j (keep_if (λ (i : Intent). not (string_eq.beq i.id k)) l) ≡ find_intent j l
unfolding find_intent
find_intent-kept k j [] ne = refl
find_intent-kept k j (i ∷ l) ne =
    ground (arith, string_eq.beq_iff i.id k, string_eq.beq_iff i.id j, find_intent-kept k j l ne)

-- `remove` returns whether the id was there; afterwards it is not, and every other id finds what it
-- found before.
pub remove_lem :
    (k j : String) (file : QueueFile)
    → ((remove k file).0 ≡ (elim (get k file) [ none ↦ false | some _ ↦ true ]))
      × (get j (remove k file).1 ≡ (if string_eq.beq k j then none else get j file))
unfolding remove
remove_lem k j file =
    let others = keep_if (λ (i : Intent). not (string_eq.beq i.id k)) (load file) in
    elim (Option-cases (find_intent k (load file))) [
      | inl absent ↦
          let same : ltb (length others) (length (load file)) ≡ false =
            ltb-false (length others) (length (load file))
              (omega (arith, ap length (absent-kept k (load file) absent))) in
          rw same (
            unfold get in rw absent refl,
            unfold get in
                elim (Bool-cases (string_eq.beq k j)) [
                  | inl same ↦ ground (arith, string_eq.beq_iff k j, absent)
                  | inr other ↦ rw other refl
                ],
          )
      | inr (i, found) ↦
          let fewer : ltb (length others) (length (load file)) ≡ true =
            lt→ltb (length others) (length (load file))
              (present-shorter k (load file) (λ none_there. cc)) in
          rw fewer (
            unfold get in rw found refl,
            unfold get in
                elim (Bool-cases (string_eq.beq k j)) [
                  | inl same ↦
                      ground (arith, string_eq.beq_iff k j, find_intent-removed k (load file))
                  | inr other ↦ rw other (
                      unfold load in
                      find_intent-kept k j (load file) (λ e. ground (arith, string_eq.beq_iff k j)))
                ],
          )
    ]

other_status :
    (a s s' : IntentStatus) → status_eq a s ≡ true → status_eq s s' ≡ false → status_eq a s' ≡ false
other_status a s s' h k = ground arith

keep_if-twice :
    (s s' : IntentStatus) (l : List Intent)
    → status_eq s s' ≡ false
    → keep_if (has_status s') (keep_if (λ (i : Intent). not (has_status s i)) l)
      ≡ keep_if (has_status s') l
keep_if-twice s s' [] ne = refl
keep_if-twice s s' (i ∷ l) ne = ground (arith, other_status i.status s s', keep_if-twice s s' l ne)

keep_if-none :
    (s : IntentStatus) (l : List Intent)
    → keep_if (has_status s) (keep_if (λ (i : Intent). not (has_status s i)) l) ≡ []
keep_if-none s [] = refl
keep_if-none s (i ∷ l) = ground (arith, keep_if-none s l)

same_status :
    (s s' : IntentStatus)
    → status_eq s s' ≡ true
    → (l : List Intent)
    → keep_if (has_status s') (keep_if (λ (i : Intent). not (has_status s i)) l) ≡ []
same_status s s' e l = let same : s ≡ s' = ground arith in rw same (keep_if-none s' l)

-- `clear` of a status returns how many intents it removed; afterwards none is listed under that
-- status, and under every other status the list is what it was.
pub clear_lem :
    (s s' : IntentStatus) (file : QueueFile)
    → ((clear (some s) file).0 + length (load (clear (some s) file).1) ≡ length (load file))
      × (list_intents (some s') (clear (some s) file).1
          ≡ (if status_eq s s' then [] else list_intents (some s') file))
unfolding clear list_intents
clear_lem s s' file = (
  omega (arith, length-keep_if (λ (i : Intent). not (has_status s i)) (load file)),
  elim (Bool-cases (status_eq s s')) [
    | inl same ↦ rw same (same_status s s' same (load file))
    | inr other ↦ rw other (keep_if-twice s s' (load file) other)
  ],
)
