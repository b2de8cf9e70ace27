-- ===== src/RateLimiter.antt =====
-- src/solmesh/rate_limiter.py: a token bucket for each sender.
-- Numbers are exact here, where the source has floats. The clock counts ticks, `per_second` to a
-- second. Tokens are counted in units of `1 / (60 * per_second)`: a token is `60 * per_second`
-- units, and a rate of `max_per_minute` tokens a minute is `max_per_minute` units a tick.
pub mod Bound
pub mod Granted
mod Tests
use solmesh.Prelude.{
  ℕ, ◌+◌, ◌-◌, ◌*◌, Bool, true, false, List, [], ◌∷◌, Option, none, some, String, ltb,
  if◌then◌else◌, length,
}
use solmesh.Prelude.Int.{ℤ, pos, sub_ℕ, ◌+ℤ◌, ◌-ℤ◌, ◌*ℤ◌, ltb_ℤ}
use solmesh.Prelude.Eq.{string_eq}
use solmesh.Prelude.Dict.{Dict, lookup, insert, erase}

pub record TokenBucket : Type 0 where
  pub max_tokens : ℕ
  pub refill_rate : ℕ
  pub tokens : ℤ
  pub last_refill : ℕ

-- One token, in units.
abbrev pub token : ℕ → ℕ
token per_second = 60 * per_second

-- `_TokenBucket(max_tokens=..., refill_rate=...)` with its `__post_init__`.
unfoldable pub new_bucket : ℕ → ℕ → ℕ → ℕ → TokenBucket
new_bucket per_second now max_tokens refill_rate = record {
  max_tokens = max_tokens;
  refill_rate = refill_rate;
  tokens = pos (max_tokens * token per_second);
  last_refill = now;
}

abbrev pub min_ℤ : ℤ → ℤ → ℤ
min_ℤ a b = if ltb_ℤ b a then b else a

unfoldable pub consume : ℕ → ℕ → TokenBucket → TokenBucket × Bool
consume per_second now b =
    let elapsed = sub_ℕ now b.last_refill in
    let refilled =
      min_ℤ (pos (b.max_tokens * token per_second)) (b.tokens +ℤ elapsed *ℤ pos b.refill_rate) in
    if ltb_ℤ refilled (pos (token per_second))
    then (record b { tokens = refilled; last_refill = now }, false)
    else (record b { tokens = refilled -ℤ pos (token per_second); last_refill = now }, true)

pub record RateLimiter : Type 0 where
  pub max_per_minute : ℕ
  pub burst : ℕ
  pub buckets : Dict String TokenBucket

unfoldable pub new_limiter : ℕ → ℕ → RateLimiter
new_limiter max_per_minute burst = record {
  max_per_minute = max_per_minute;
  burst = burst;
  buckets = [];
}

unfoldable pub is_allowed : ℕ → ℕ → String → RateLimiter → RateLimiter × Bool
unfolding new_bucket
is_allowed per_second now sender_id r =
    let fresh = new_bucket per_second now r.burst r.max_per_minute in
    let bucket : TokenBucket = elim (lookup sender_id r.buckets) [ none ↦ fresh | some b ↦ b ] in
    let (bucket', allowed) = consume per_second now bucket in
    (record r { buckets = insert sender_id bucket' r.buckets }, allowed)

unfoldable pub stale_ids : ℕ → ℕ → Dict String TokenBucket → List String
stale_ids now max_age [] = []
stale_ids now max_age ((sid, b) ∷ rest) =
    let ids = stale_ids now max_age rest in
    if ltb max_age (now - b.last_refill) then sid ∷ ids else ids

unfoldable pub erase_ids : List String → Dict String TokenBucket → Dict String TokenBucket
erase_ids [] d = d
erase_ids (sid ∷ ids) d = erase_ids ids (erase sid d)

unfoldable pub cleanup_stale : ℕ → ℕ → RateLimiter → RateLimiter × ℕ
unfolding stale_ids erase_ids
cleanup_stale now max_age r =
    let stale = stale_ids now max_age r.buckets in
    (record r { buckets = erase_ids stale r.buckets }, length stale)
