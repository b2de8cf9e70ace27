-- ===== src/RateLimiter/Tests.antt =====
-- The limiter's theorems at concrete runs of requests.
use solmesh.Prelude.{ℕ, ◌+◌, ◌*◌, ◌≤◌, ◌≡◌, refl, List, [], ◌∷◌, arith, String}
use solmesh.Prelude.Int.{pos, ◌+ℤ◌, ◌*ℤ◌, ◌-ℤ◌}
use solmesh.RateLimiter.{TokenBucket, consume, new_limiter, is_allowed}
use solmesh.RateLimiter.Granted.{granted, granted-le}

abbrev requests : List (ℕ × String)
requests = (0, "!a") ∷ (0, "!b") ∷ (0, "!a") ∷ (0, "!a") ∷ (60, "!a") ∷ []

-- Two at once, not a third, and one more after a second at a rate of 60 a minute.
three_pass : granted 60 "!a" requests (new_limiter 60 2) ≡ 3
unfolding granted is_allowed consume new_limiter ◌+ℤ◌ ◌*ℤ◌ ◌-ℤ◌
three_pass = refl

granted-le_example : granted 60 "!a" requests (new_limiter 60 2) * 3600 ≤ 2 * 3600 + 60 * 60
granted-le_example = granted-le 60 60 2 0 60 "!a" requests (omega arith)

abbrev half_full : TokenBucket
half_full = record { max_tokens = 2; refill_rate = 60; tokens = pos 1800; last_refill = 0 }
