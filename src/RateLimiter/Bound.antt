-- ===== src/RateLimiter/Bound.antt =====
-- However a sender asks, it is not let through more often than its burst and its rate allow.
use solmesh.Prelude.{
  ℕ, ◌+◌, ◌-◌, ◌*◌, ◌≤◌, ◌≡◌, refl, ap, ◌∙◌, inl, inr, min, true, false, arith, ltb, if◌then◌else◌,
  Bool-cases,
}
use solmesh.Prelude.Int.{pos, sub_ℕ, ◌+ℤ◌, ◌-ℤ◌, ◌*ℤ◌, ltb_ℤ}
use solmesh.Prelude.Eq.{string_eq}
use solmesh.RateLimiter.{TokenBucket, token, min_ℤ, consume}

-- The refilled bucket, in natural numbers, while the clock does not go back.
abbrev refill : ℕ → ℕ → ℕ → TokenBucket → ℕ
refill per_second now m b =
    min (b.max_tokens * token per_second) (m + (now - b.last_refill) * b.refill_rate)

elapsed-pos : (a b : ℕ) → b ≤ a → sub_ℕ a b ≡ pos (a - b)
elapsed-pos a b h = ground arith

mul-pos : (a b : ℕ) → pos a *ℤ pos b ≡ pos (a * b)
unfolding ◌*ℤ◌
mul-pos a b =
    let z : a * 0 + 0 * b ≡ 0 = omega arith in
    let s : a * b + 0 * 0 ≡ a * b = omega arith in
    rw (z, s) (elapsed-pos (a * b) 0 (omega arith) ∙ ap pos (omega arith))

add-pos : (a b : ℕ) → pos a +ℤ pos b ≡ pos (a + b)
unfolding ◌+ℤ◌
add-pos a b = ground arith

sub-pos : (a b : ℕ) → b ≤ a → pos a -ℤ pos b ≡ pos (a - b)
unfolding ◌-ℤ◌
sub-pos a b h = ground arith

min-pos : (a b : ℕ) → min_ℤ (pos a) (pos b) ≡ pos (min a b)
min-pos a b = ground arith

ltb-pos : (a b : ℕ) → ltb_ℤ (pos a) (pos b) ≡ ltb a b
ltb-pos a b = ground arith

pub consume-eq :
    (per_second now m : ℕ) (b : TokenBucket)
    → b.tokens ≡ pos m
    → b.last_refill ≤ now
    → consume per_second now b ≡ (
        if ltb (refill per_second now m b) (token per_second)
        then (record b { tokens = pos (refill per_second now m b); last_refill = now }, false)
        else (
          record b {
            tokens = pos (refill per_second now m b - token per_second);
            last_refill = now;
          },
          true,
        ))
unfolding consume
consume-eq per_second now m b e h =
    let level : min_ℤ (pos (b.max_tokens * token per_second))
          (b.tokens +ℤ sub_ℕ now b.last_refill *ℤ pos b.refill_rate)
        ≡ pos (refill per_second now m b) =
      rw (e, elapsed-pos now b.last_refill h)
        (rw (mul-pos (now - b.last_refill) b.refill_rate)
          (rw (add-pos m ((now - b.last_refill) * b.refill_rate)) (min-pos _ _))) in
    rw level (
      rw (ltb-pos (refill per_second now m b) (token per_second))
        (elim (Bool-cases (ltb (refill per_second now m b) (token per_second))) [
          | inl low ↦ rw low
          | inr high ↦ rw high (
              ap (λ t. (record b { tokens = t; last_refill = now }, true))
                (sub-pos (refill per_second now m b) (token per_second) (ground arith)))
        ]))

consume-keeps :
    (per_second now : ℕ) (b : TokenBucket)
    → ((consume per_second now b).0.max_tokens ≡ b.max_tokens)
      × ((consume per_second now b).0.refill_rate ≡ b.refill_rate)
      × ((consume per_second now b).0.last_refill ≡ now)
unfolding consume
consume-keeps per_second now b = ground arith

pub split_time :
    (l now end rate : ℕ)
    → l ≤ now
    → now ≤ end
    → (end - l) * rate ≡ (now - l) * rate + (end - now) * rate
split_time l now end rate h k =
    let parts : end - l ≡ (now - l) + (end - now) = omega arith in rw parts (omega arith)

module _ (per_second rate burst end : ℕ) where
  -- A bucket with the limiter's parameters that holds `m` units.
  pub record Level (m : ℕ) (b : TokenBucket) : Type 0 where
    pub holds : b.tokens ≡ pos m
    pub same_max : b.max_tokens ≡ burst
    pub same_rate : b.refill_rate ≡ rate

  -- What a bucket may still grant until `end`, in units.
  abbrev pub credit : ℕ → TokenBucket → ℕ
  credit m b = m + (end - b.last_refill) * rate

  pub consume-credit :
      (now m : ℕ) (b : TokenBucket)
      → Level m b
      → b.last_refill ≤ now
      → now ≤ end
      → (m' : ℕ) × Level m' (consume per_second now b).0
        × ((consume per_second now b).0.last_refill ≡ now)
        × (credit m' (consume per_second now b).0
              + (if (consume per_second now b).1 then token per_second else 0)
            ≤ credit m b)
  consume-credit now m b v lo hi =
      let level = refill per_second now m b in
      let (k1, k2, k3) = consume-keeps per_second now b in
      let bound : level ≤ m + (now - b.last_refill) * rate = rw (← v.same_rate) (omega arith) in
      elim (Bool-cases (ltb level (token per_second))) [
        | inl low ↦
            let e : consume per_second now b
                ≡ (record b { tokens = pos level; last_refill = now }, false) =
              consume-eq per_second now m b v.holds lo ∙ rw low refl in
            (
              level,
              rw e (record { holds = refl; same_max = v.same_max; same_rate = v.same_rate }),
              k3,
              rw e (omega (arith, split_time b.last_refill now end rate lo hi)),
            )
        | inr high ↦
            let e : consume per_second now b
                ≡ (record b { tokens = pos (level - token per_second); last_refill = now }, true) =
              consume-eq per_second now m b v.holds lo ∙ rw high refl in
            let enough : token per_second ≤ level = ground arith in
            (
              level - token per_second,
              rw e (record { holds = refl; same_max = v.same_max; same_rate = v.same_rate }),
              k3,
              rw e (omega (arith, split_time b.last_refill now end rate lo hi)),
            )
      ]
