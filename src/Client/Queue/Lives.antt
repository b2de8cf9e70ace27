-- ===== src/Client/Queue/Lives.antt =====
-- The life cycle of an intent, as a step relation on where it stands.
use solmesh.Prelude.{
  ap, ℕ, ◌≤◌, ◌<◌, ◌≡◌, refl, inl, inr, Bool, Bool-cases, true, false, arith, none, some,
}
use solmesh.Prelude.Eq.{string_eq}
use solmesh.Store.{IntentStatus, pending, sending, sent, failed}
use solmesh.Client.{success, failure}
use solmesh.Client.Queue.{is_invalid_tag}
use solmesh.Client.Queue.View.{Standing, with_status}
use solmesh.Client.Queue.Flushed.{Fate, raised, answered, after}

-- A flush of a pending intent with a fate, and the recovery of one whose flush was cut off.
pub data Step : Standing → Standing → Type 0 where
  flushed : (s : Standing) (f : Fate) → s.status ≡ pending → Step s (after f s)
  recovered : (s : Standing) → s.status ≡ sending → Step s (with_status pending s)

-- Where an intent can come to stand from when it was queued.
pub data Lives : Standing → Type 0 where
  queued : (m : ℕ) → 0 < m → Lives (record { status = pending; attempts = 0; max_attempts = m })
  later : (s t : Standing) → Lives s → Step s t → Lives t

abbrev pub is_open : IntentStatus → Bool
is_open pending = true
is_open sending = true
is_open sent = false
is_open failed = false

-- Attempts are left for what is not settled.
pub record Sound (s : Standing) : Type 0 where
  pub bounded : s.attempts ≤ s.max_attempts
  pub left : is_open s.status ≡ true → s.attempts < s.max_attempts

after-Sound : (f : Fate) (s : Standing) → s.attempts < s.max_attempts → Sound (after f s)
after-Sound (raised e) s h = elim (Bool-cases (is_invalid_tag e)) [
  | inl wrong ↦ rw wrong (record { bounded = omega arith; left = λ _. h })
  | inr other ↦ rw other (record { bounded = omega arith; left = ground arith })
]
after-Sound (answered none) s h = record { bounded = omega arith; left = ground arith }
after-Sound (answered (some (success signature))) s h = record {
  bounded = omega arith;
  left = λ closed. ground arith;
}
after-Sound (answered (some (failure error))) s h = record {
  bounded = omega arith;
  left = ground arith;
}

Step-Sound : (s t : Standing) → Step s t → Sound s → Sound t
Step-Sound s t (flushed _ f waits) h = after-Sound f s (h.left (ap is_open waits))
Step-Sound s t (recovered _ cut_off) h = record {
  bounded = h.bounded;
  left = λ _. h.left (ap is_open cut_off);
}

after-max : (f : Fate) (s : Standing) → (after f s).max_attempts ≡ s.max_attempts
after-max (raised e) s = elim (Bool-cases (is_invalid_tag e)) [
  | inl wrong ↦ rw wrong refl
  | inr other ↦ rw other refl
]
after-max (answered none) s = refl
after-max (answered (some (success signature))) s = refl
after-max (answered (some (failure error))) s = refl

pub Step-max : (s t : Standing) → Step s t → t.max_attempts ≡ s.max_attempts
Step-max s t (flushed _ f waits) = after-max f s
Step-max s t (recovered _ cut_off) = refl

-- However often an intent is flushed and recovered, it never has more attempts than its maximum, and
-- while it is pending or being sent it has fewer.
pub Lives-Sound : (s : Standing) → Lives s → Sound s
Lives-Sound s (queued m positive) = record { bounded = omega arith; left = λ _. positive }
Lives-Sound s (later r _ lives step) = Step-Sound r s step (Lives-Sound r lives)
