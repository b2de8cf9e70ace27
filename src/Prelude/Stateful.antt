-- ===== src/Prelude/Stateful.antt =====
-- Methods: functions from a state to a result and the next state, which comes back after a raise too.
use mathlib.Core.Path.{◌≡◌, refl, ap, ◌∙◌}
use mathlib.Core.Bool.{Bool, true, false}
use solmesh.Prelude.Results.{Exn, Result, ok, err}

abbrev pub Stateful : Type 0 → Type 0 → Type 0
Stateful S A = S → Result A × S

module _ {S A B : Type 0} where
  infixl 5 ◌>>=◌ ◌>>◌
  abbrev pub ◌>>=◌ : Stateful S A → (A → Stateful S B) → Stateful S B
  ◌>>=◌ m f s = let (r, s') = m s in elim r [ ok a ↦ f a s' | err e ↦ (err e, s') ]

  abbrev pub ◌>>◌ : Stateful S A → Stateful S B → Stateful S B
  m >> k = m >>= λ _. k

module _ {S A : Type 0} where
  abbrev pub pure : A → Stateful S A
  pure a s = (ok a, s)

  -- A result of the pure parts, raised if it is an exception.
  abbrev pub lift : Result A → Stateful S A
  lift r s = (r, s)

  abbrev pub gets : (S → A) → Stateful S A
  gets f s = (ok (f s), s)

abbrev pub finished : {S : Type 0} → Stateful S (Unit {0})
finished = pure tt

-- `if test: raise e`
abbrev pub raise_when : {S : Type 0} → Bool → Exn → Stateful S (Unit {0})
raise_when true e = lift (err e)
raise_when false e = finished

-- `try: ... except`: the exception becomes a value; the changes stay.
abbrev pub attempt : {S A : Type 0} → Stateful S A → Stateful S (Result A)
attempt m s = let (r, s') = m s in (ok r, s')

-- A method leaves what is observed of the state as it was.
abbrev pub Keeps : {S X A : Type 0} → (S → X) → Stateful S A → Type 0
Keeps observe m = (s : _) → observe (m s).1 ≡ observe s

module _ {S X A B : Type 0} (observe : S → X) where
  after :
      (f : A → Stateful S B) (r : Result A) (s s' : S)
      → observe s' ≡ observe s
      → ((a : A) → Keeps observe (f a))
      → let next : Result B × S = elim r [ ok a ↦ f a s' | err e ↦ (err e, s') ] in
        observe next.1 ≡ observe s
  after f (ok a) s s' same keep = keep a s' ∙ same
  after f (err e) s s' same keep = same

  pub bind-Keeps :
      (m : Stateful S A) (f : A → Stateful S B)
      → Keeps observe m
      → ((a : A) → Keeps observe (f a))
      → Keeps observe (m >>= f)
  bind-Keeps m f h k s = after f (m s).0 s (m s).1 (h s) k

module _ {S A B : Type 0} where
  carry_on :
      (f : A → Stateful S B) (n : Result A × S) (a : A) (s : S)
      → n ≡ (ok a, s)
      → let next : Result B × S = elim n.0 [ ok a ↦ f a n.1 | err e ↦ (err e, n.1) ] in next ≡ f a s
  carry_on f n a s e = rw (ap (λ x. x.0) e) (ap (λ x. f a x.1) e)

  pub bind_ok :
      (m : Stateful S A) (f : A → Stateful S B) (s : S) (a : A) (s' : S)
      → m s ≡ (ok a, s')
      → (m >>= f) s ≡ f a s'
  bind_ok m f s a s' e = carry_on f (m s) a s' e

  inverted :
      (f : A → Stateful S B) (n : Result A × S) (b : B)
      → let next : Result B × S = elim n.0 [ ok a ↦ f a n.1 | err e ↦ (err e, n.1) ] in
        next.0 ≡ ok b → (a : A) × (n.0 ≡ ok a) × (next ≡ f a n.1)
  inverted f (ok a, s) b h = (a, refl, refl)
  inverted f (err e, s) b h = absurd (cc)

  -- What ends normally has gone through its first part.
  pub bind-ok_inv :
      (m : Stateful S A) (f : A → Stateful S B) (s : S) (b : B)
      → ((m >>= f) s).0 ≡ ok b
      → (a : A) × ((m s).0 ≡ ok a) × ((m >>= f) s ≡ f a (m s).1)
  bind-ok_inv m f s b h = inverted f (m s) b h
