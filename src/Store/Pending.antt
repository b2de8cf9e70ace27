-- ===== src/Store/Pending.antt =====
-- `pending_intents`: the pending intents, the oldest first.
use solmesh.Prelude.{
  ℕ, ◌≤◌, ◌≡◌, refl, ◌∙◌, Bool, List, [], ◌∷◌, arith, some, leb, ◌==◌, Bool-cases, inl, inr,
  keep_if, All,
}
use mathlib.Core.List.{Perm}
use mathlib.Core.List.Perm
use solmesh.Store.{
  pending, Intent, QueueFile, list_intents, insert_by_age, sort_by_age, pending_intents,
}

-- Each intent is as old as all that follow it, or older.
abbrev pub OldestFirst : List Intent → Type 0
OldestFirst [] = Unit
OldestFirst (i ∷ l) = All (λ (j : Intent). i.created_at ≤ j.created_at) l × OldestFirst l

All-older :
    (a b : ℕ) (l : List Intent)
    → a ≤ b
    → All (λ (j : Intent). b ≤ j.created_at) l
    → All (λ (j : Intent). a ≤ j.created_at) l
All-older a b [] h k = tt
All-older a b (i ∷ l) h k = (omega arith, All-older a b l h k.1)

insert-All :
    (a : ℕ) (i : Intent) (l : List Intent)
    → a ≤ i.created_at
    → All (λ (j : Intent). a ≤ j.created_at) l
    → All (λ (j : Intent). a ≤ j.created_at) (insert_by_age i l)
unfolding insert_by_age
insert-All a i [] h k = (h, tt)
insert-All a i (j ∷ l) h k = elim (Bool-cases (leb i.created_at j.created_at)) [
  | inl here ↦ rw here (h, k)
  | inr on ↦ rw on (k.0, insert-All a i l h k.1)
]

insert-OldestFirst :
    (i : Intent) (l : List Intent) → OldestFirst l → OldestFirst (insert_by_age i l)
unfolding insert_by_age
insert-OldestFirst i [] h = (tt, tt)
insert-OldestFirst i (j ∷ l) h = elim (Bool-cases (leb i.created_at j.created_at)) [
  | inl here ↦
      let older : i.created_at ≤ j.created_at = ground arith in
      rw here ((older, All-older i.created_at j.created_at l older h.0), h)
  | inr on ↦
      let younger : j.created_at ≤ i.created_at = ground arith in
      rw on (insert-All j.created_at i l younger h.0, insert-OldestFirst i l h.1)
]

sort-OldestFirst : (l : List Intent) → OldestFirst (sort_by_age l)
unfolding sort_by_age
sort-OldestFirst [] = tt
sort-OldestFirst (i ∷ l) = insert-OldestFirst i (sort_by_age l) (sort-OldestFirst l)

insert-perm : (i : Intent) (l : List Intent) → Perm (insert_by_age i l) (i ∷ l)
unfolding insert_by_age
insert-perm i [] = Perm.refl (i ∷ [])
insert-perm i (j ∷ l) = elim (Bool-cases (leb i.created_at j.created_at)) [
  | inl here ↦ rw here (Perm.refl (i ∷ j ∷ l))
  | inr on ↦ rw on (Perm.trans (Perm.cons j (insert-perm i l)) (Perm.swap i j l))
]

sort-perm : (l : List Intent) → Perm (sort_by_age l) l
unfolding sort_by_age
sort-perm [] = Perm.refl []
sort-perm (i ∷ l) = Perm.trans (insert-perm i (sort_by_age l)) (Perm.cons i (sort-perm l))

abbrev pub made_at : ℕ → Intent → Bool
made_at t i = i.created_at == t

insert-stable :
    (t : ℕ) (i : Intent) (l : List Intent)
    → keep_if (made_at t) (insert_by_age i l) ≡ keep_if (made_at t) (i ∷ l)
unfolding insert_by_age
insert-stable t i [] = refl
insert-stable t i (j ∷ l) = ground (arith, insert-stable t i l)

sort-stable :
    (t : ℕ) (l : List Intent) → keep_if (made_at t) (sort_by_age l) ≡ keep_if (made_at t) l
unfolding sort_by_age
sort-stable t [] = refl
sort-stable t (i ∷ l) = insert-stable t i (sort_by_age l) ∙ ground (arith, sort-stable t l)

-- `pending_intents` is a rearrangement of the pending intents, oldest first, in which intents of the
-- same age keep the order that they have in the file.
pub pending_intents_lem :
    (t : ℕ) (file : QueueFile)
    → Perm (pending_intents file) (list_intents (some pending) file)
      × OldestFirst (pending_intents file)
      × (keep_if (made_at t) (pending_intents file)
          ≡ keep_if (made_at t) (list_intents (some pending) file))
unfolding pending_intents
pending_intents_lem t file =
    let l = list_intents (some pending) file in (sort-perm l, sort-OldestFirst l, sort-stable t l)
