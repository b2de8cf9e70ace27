-- ===== src/Store/Waiting.antt =====
-- The pending intents of a queue in which no two intents share their id.
use solmesh.Prelude.{
  ◌≡◌, refl, inl, inr, Bool, Bool-cases, true, false, List, [], ◌∷◌, arith, Option, some, String,
  any, All, keep_if, leb,
}
use solmesh.Prelude.Eq.{string_eq, beq_self}
use solmesh.Store.{
  IntentStatus, Intent, QueueFile, pending, sending, sent, failed, status_eq, has_status,
  find_intent, get, load, list_intents, insert_by_age, sort_by_age, pending_intents,
}

abbrev pub same_id : String → Intent → Bool
same_id id i = string_eq.beq i.id id

-- No two intents share their id.
abbrev pub Apart : List Intent → Type 0
Apart [] = Unit
Apart (i ∷ l) = (any (same_id i.id) l ≡ false) × Apart l

-- An intent that is pending and is found as it stands.
abbrev pub Waits : (String → Option Intent) → Intent → Type 0
Waits look i = (look i.id ≡ some i) × (i.status ≡ pending)

abbrev FoundAs : (String → Option Intent) → Intent → Type 0
FoundAs look i = look i.id ≡ some i

cons-FoundAs :
    (i : Intent) (rest l : List Intent)
    → any (same_id i.id) l ≡ false
    → All (FoundAs (λ j. find_intent j rest)) l
    → All (FoundAs (λ j. find_intent j (i ∷ rest))) l
unfolding find_intent
cons-FoundAs i rest [] other f = tt
cons-FoundAs i rest (k ∷ l) other f = (
  ground (arith, f.0, string_eq.beq_iff i.id k.id, string_eq.beq_iff k.id i.id),
  cons-FoundAs i rest l (ground arith) f.1,
)

Apart-FoundAs : (l : List Intent) → Apart l → All (FoundAs (λ j. find_intent j l)) l
unfolding find_intent
Apart-FoundAs [] a = tt
Apart-FoundAs (i ∷ l) a = (rw (beq_self i.id) refl, cons-FoundAs i l l a.0 (Apart-FoundAs l a.1))

is_pending : (status : IntentStatus) → status_eq status pending ≡ true → status ≡ pending
is_pending pending h = refl
is_pending sending h = ground arith
is_pending sent h = ground arith
is_pending failed h = ground arith

keep-Waits :
    (look : String → Option Intent) (l : List Intent)
    → All (FoundAs look) l
    → All (Waits look) (keep_if (has_status pending) l)
keep-Waits look [] f = tt
keep-Waits look (i ∷ l) f = elim (Bool-cases (status_eq i.status pending)) [
  | inl waits ↦ rw waits ((f.0, is_pending i.status waits), keep-Waits look l f.1)
  | inr other ↦ rw other (keep-Waits look l f.1)
]

any-keep : (p q : Intent → Bool) (l : List Intent) → any p l ≡ false → any p (keep_if q l) ≡ false
any-keep p q [] h = refl
any-keep p q (i ∷ l) h = ground (arith, any-keep p q l)

keep-Apart : (q : Intent → Bool) (l : List Intent) → Apart l → Apart (keep_if q l)
keep-Apart q [] a = tt
keep-Apart q (i ∷ l) a = elim (Bool-cases (q i)) [
  | inl kept ↦ rw kept (any-keep (same_id i.id) q l a.0, keep-Apart q l a.1)
  | inr dropped ↦ rw dropped (keep-Apart q l a.1)
]

insert-Waits :
    (look : String → Option Intent) (i : Intent) (l : List Intent)
    → Waits look i
    → All (Waits look) l
    → All (Waits look) (insert_by_age i l)
unfolding insert_by_age
insert-Waits look i [] w f = (w, tt)
insert-Waits look i (k ∷ l) w f = elim (Bool-cases (leb i.created_at k.created_at)) [
  | inl older ↦ rw older (w, f)
  | inr younger ↦ rw younger (f.0, insert-Waits look i l w f.1)
]

any-insert :
    (p : Intent → Bool) (i : Intent) (l : List Intent)
    → p i ≡ false
    → any p l ≡ false
    → any p (insert_by_age i l) ≡ false
unfolding insert_by_age
any-insert p i [] h k = ground arith
any-insert p i (x ∷ l) h k = ground (arith, any-insert p i l)

insert-Apart :
    (i : Intent) (l : List Intent)
    → any (same_id i.id) l ≡ false
    → Apart l
    → Apart (insert_by_age i l)
unfolding insert_by_age
insert-Apart i [] other a = (refl, tt)
insert-Apart i (k ∷ l) other a = elim (Bool-cases (leb i.created_at k.created_at)) [
  | inl older ↦ rw older (other, a)
  | inr younger ↦ rw younger (
    any-insert (same_id k.id) i l
        (ground (arith, string_eq.beq_iff i.id k.id, string_eq.beq_iff k.id i.id)) a.0,
    insert-Apart i l (ground arith) a.1,
  )
]

any-sort : (p : Intent → Bool) (l : List Intent) → any p l ≡ false → any p (sort_by_age l) ≡ false
unfolding sort_by_age
any-sort p [] h = refl
any-sort p (i ∷ l) h = any-insert p i (sort_by_age l) (ground arith) (any-sort p l (ground arith))

sort-Waits :
    (look : String → Option Intent) (l : List Intent)
    → All (Waits look) l
    → All (Waits look) (sort_by_age l)
unfolding sort_by_age
sort-Waits look [] f = tt
sort-Waits look (i ∷ l) f = insert-Waits look i (sort_by_age l) f.0 (sort-Waits look l f.1)

sort-Apart : (l : List Intent) → Apart l → Apart (sort_by_age l)
unfolding sort_by_age
sort-Apart [] a = tt
sort-Apart (i ∷ l) a =
    insert-Apart i (sort_by_age l) (any-sort (same_id i.id) l a.0) (sort-Apart l a.1)

-- The intents that `pending_intents` gives have different ids again, and each is pending and what
-- `get` finds under its id.
pub pending_intents-Waits :
    (file : QueueFile)
    → Apart (load file)
    → Apart (pending_intents file) × All (Waits (λ j. get j file)) (pending_intents file)
unfolding pending_intents list_intents get
pending_intents-Waits file a = (
  sort-Apart (keep_if (has_status pending) (load file))
      (keep-Apart (has_status pending) (load file) a),
  sort-Waits (λ j. find_intent j (load file)) (keep_if (has_status pending) (load file))
      (keep-Waits (λ j. find_intent j (load file)) (load file) (Apart-FoundAs (load file) a)),
)
