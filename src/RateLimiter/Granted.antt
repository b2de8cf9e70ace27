-- ===== src/RateLimiter/Granted.antt =====
-- The number of requests of one sender that `is_allowed` lets through, over any run of requests of
-- all senders.
use solmesh.Prelude.{
  ℕ, ◌+◌, ◌-◌, ◌*◌, ◌≤◌, ◌≡◌, ◌≢◌, refl, sym, ◌∙◌, ◌↔◌, inl, inr, Bool, true, false, List, [], ◌∷◌,
  arith, none, some, String, if◌then◌else◌, Bool-cases,
}
use solmesh.Prelude.Int.{pos}
use solmesh.Prelude.Eq.{string_eq}
use solmesh.Prelude.Dict.{lookup, insert, lookup-insert_self, lookup-insert_ne}
use solmesh.RateLimiter.{TokenBucket, token, consume, RateLimiter, is_allowed, new_limiter}
use solmesh.RateLimiter.Bound.{Level, credit, consume-eq, consume-credit, split_time}

-- Requests as pairs of a time and a sender, and how many of `who`'s pass.
unfoldable pub granted : ℕ → String → List (ℕ × String) → RateLimiter → ℕ
granted per_second who [] r = 0
granted per_second who ((now, sender) ∷ rest) r =
    let (r', allowed) = is_allowed per_second now sender r in
    (if string_eq.beq sender who then (if allowed then 1 else 0) else 0)
    + granted per_second who rest r'

-- The times do not go back, and lie between `from` and `end`.
abbrev pub InOrder : ℕ → ℕ → List (ℕ × String) → Type 0
InOrder end from [] = from ≤ end
InOrder end from ((now, sender) ∷ rest) = (from ≤ now) × InOrder end now rest

InOrder-le : (end from : ℕ) (requests : List (ℕ × String)) → InOrder end from requests → from ≤ end
InOrder-le end from [] h = h
InOrder-le end from ((now, sender) ∷ rest) h = omega (arith, InOrder-le end now rest h.1)

is_allowed-keeps :
    (per_second now : ℕ) (sender : String) (r : RateLimiter)
    → ((is_allowed per_second now sender r).0.max_per_minute ≡ r.max_per_minute)
      × ((is_allowed per_second now sender r).0.burst ≡ r.burst)
unfolding is_allowed
is_allowed-keeps per_second now sender r = (refl, refl)

count_one :
    {c c' : ℕ} (unit n : ℕ) (passed : Bool)
    → n * unit ≤ c'
    → c' + (if passed then unit else 0) ≤ c
    → ((if passed then 1 else 0) + n) * unit ≤ c
count_one unit n true h k = omega arith
count_one unit n false h k = omega arith

module _ (per_second rate burst end : ℕ) (who : String) where
  -- The limiter may still grant `c` units to `who` after time `t`.
  pub data MayGrant (t c : ℕ) (r : RateLimiter) : Type 0 where
    absent :
        lookup who r.buckets ≡ none
        → burst * token per_second + (end - t) * rate ≤ c
        → MayGrant t c r
    present :
        (b : TokenBucket) (m : ℕ)
        → lookup who r.buckets ≡ some b
        → Level per_second rate burst end m b
        → b.last_refill ≤ t
        → credit per_second rate burst end m b ≤ c
        → MayGrant t c r

  -- The bucket that `is_allowed` consumes from.
  own_bucket :
      (t c now : ℕ) (r : RateLimiter)
      → MayGrant t c r
      → t ≤ now
      → now ≤ end
      → r.max_per_minute ≡ rate
      → r.burst ≡ burst
      → (b : TokenBucket) × (m : ℕ) × (is_allowed per_second now who r ≡ (
        record r { buckets = insert who (consume per_second now b).0 r.buckets },
        (consume per_second now b).1,
      ))
        × Level per_second rate burst end m b
        × (b.last_refill ≤ now)
        × (credit per_second rate burst end m b ≤ c)
  unfolding is_allowed
  own_bucket t c now r (absent e le) lo hi er eb = (
    record {
      max_tokens = r.burst;
      refill_rate = r.max_per_minute;
      tokens = pos (r.burst * token per_second);
      last_refill = now;
    },
    burst * token per_second,
    rw e refl,
    record { holds = rw eb; same_max = eb; same_rate = er },
    omega arith,
    omega (arith, split_time t now end rate lo hi),
  )
  own_bucket t c now r (present b m e v old le) lo hi er eb = (b, m, rw e refl, v, omega arith, le)

  own_step :
      (t c now : ℕ) (r : RateLimiter)
      → MayGrant t c r
      → t ≤ now
      → now ≤ end
      → r.max_per_minute ≡ rate
      → r.burst ≡ burst
      → (c' : ℕ) × MayGrant now c' (is_allowed per_second now who r).0
        × (c' + (if (is_allowed per_second now who r).1 then token per_second else 0) ≤ c)
  own_step t c now r g lo hi er eb =
      let (b, m, e, v, old, le) = own_bucket t c now r g lo hi er eb in
      let (m', v', now_eq, le') = consume-credit per_second rate burst end now m b v old hi in
      let b' = (consume per_second now b).0 in
      (
        credit per_second rate burst end m' b',
        rw e (
            present b' m' (lookup-insert_self who b' r.buckets) v' (omega (arith, now_eq))
              (omega arith)),
        rw e (omega arith),
      )

  later :
      {t c : ℕ} (now : ℕ)
      → t ≤ now
      → burst * token per_second + (end - t) * rate ≤ c
      → burst * token per_second + (end - now) * rate ≤ c
  later {t} {c} now lo le =
      let shorter : end - now ≤ end - t = omega arith in
      let less : (end - now) * rate ≤ (end - t) * rate = grind arith in omega arith

  other_sender :
      (t c now : ℕ) (sender : String) (r : RateLimiter)
      → MayGrant t c r
      → who ≢ sender
      → t ≤ now
      → MayGrant now c (is_allowed per_second now sender r).0
  unfolding is_allowed
  other_sender t c now sender r (absent e le) ne lo =
      absent (lookup-insert_ne sender who _ r.buckets ne ∙ e) (later now lo le)
  other_sender t c now sender r (present b m e v old le) ne lo =
      present b m (lookup-insert_ne sender who _ r.buckets ne ∙ e) v (omega arith) le

  granted-credit :
      (requests : List (ℕ × String)) (t c : ℕ) (r : RateLimiter)
      → MayGrant t c r
      → InOrder end t requests
      → r.max_per_minute ≡ rate
      → r.burst ≡ burst
      → granted per_second who requests r * token per_second ≤ c
  unfolding granted
  granted-credit [] t c r g o er eb = omega arith
  granted-credit ((now, sender) ∷ rest) t c r g o er eb =
      let hi = InOrder-le end now rest o.1 in
      let r' = (is_allowed per_second now sender r).0 in
      let (er', eb') = is_allowed-keeps per_second now sender r in
      elim (Bool-cases (string_eq.beq sender who)) [
        | inl same ↦
            let sender_who : sender ≡ who = (string_eq.beq_iff sender who).0 same in
            let (c', g', le) = own_step t c now r g o.0 hi er eb in
            let ih = granted-credit rest now c' r' (rw sender_who g') o.1 (er' ∙ er) (eb' ∙ eb) in
            let le' : c' + (if (is_allowed per_second now sender r).1 then token per_second else 0)
                ≤ c =
              rw sender_who le in
            rw same (
              count_one (token per_second) (granted per_second who rest r')
                (is_allowed per_second now sender r).1 ih le')
        | inr other ↦ rw other (
            let none_more : 0 + granted per_second who rest r' ≡ granted per_second who rest r' =
              omega arith in
            rw none_more (
              granted-credit rest now c r'
                (other_sender t c now sender r g
                  (λ w. cc ((string_eq.beq_iff sender who).1 (sym w))) o.0)
                o.1 (er' ∙ er) (eb' ∙ eb)))
      ]

-- From a fresh limiter on, in any run of requests of any senders whose times lie in order between
-- `from` and `end`, the requests of one sender that pass are, in tokens, at most the burst and the
-- refill over the whole time: `n <= burst + rate * (end - from)`, here in units.
pub granted-le :
    (per_second rate burst from end : ℕ) (who : String) (requests : List (ℕ × String))
    → InOrder end from requests
    → granted per_second who requests (new_limiter rate burst) * token per_second
      ≤ burst * token per_second + rate * (end - from)
unfolding new_limiter
granted-le per_second rate burst from end who requests o =
    granted-credit per_second rate burst end who requests from
      (burst * token per_second + rate * (end - from)) (new_limiter rate burst)
      (absent refl (omega arith)) o refl refl

-- For a bucket with a capacity of one token or more that holds `m` units, a request that does not
-- come before the last one is allowed exactly if `m` and the refill since the last request make a
-- token.
pub consume-allowed :
    (per_second now m : ℕ) (b : TokenBucket)
    → b.tokens ≡ pos m
    → b.last_refill ≤ now
    → 1 ≤ b.max_tokens
    → ((consume per_second now b).1 ≡ true)
      ↔ (token per_second ≤ m + (now - b.last_refill) * b.refill_rate)
consume-allowed per_second now m b e h one =
    let cap : token per_second ≤ b.max_tokens * token per_second = grind arith in
    rw (consume-eq per_second now m b e h) (ground arith)
