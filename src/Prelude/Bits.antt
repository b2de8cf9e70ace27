-- ===== src/Prelude/Bits.antt =====
-- Exclusive or at variables: the law for one binary digit, and what follows at every width.
use Prim.Native.Nat.{
  ℕ, zero, suc, ◌+◌, ◌*◌, ◌/◌, ◌%◌, ◌^◌, ◌≤◌, ◌<◌, bit_xor, digits, bit_xor-bitwise, differ,
}
use native.Mathlib.Nat.{le_refl, pow-suc}
use native.Mathlib.Omega.{arith}
use mathlib.Core.Path.{◌≡◌, refl}
use mathlib.Core.Bool.{Bool, true, ◌&&◌}

-- The recursion on digits does not depend on its fuel, once that is enough.
abbrev xor_digits : ℕ → ℕ → ℕ → ℕ
xor_digits fuel a b = digits (λ y. y) differ fuel a b

xor_fuel : (more less a b : ℕ) → a ≤ more → a ≤ less → xor_digits more a b ≡ xor_digits less a b
xor_fuel (suc more) (suc less) (suc a) b enough also =
    rw (xor_fuel more less (suc a / 2) (b / 2) (omega arith) (omega arith))
xor_fuel (suc more) (suc less) zero b enough also = refl
xor_fuel (suc more) zero (suc a) b enough also = absurd (omega arith)
xor_fuel (suc more) zero zero b enough also = refl
xor_fuel zero (suc less) (suc a) b enough also = absurd (omega arith)
xor_fuel zero (suc less) zero b enough also = refl
xor_fuel zero zero a b enough also = refl

differ_digits : (d e : ℕ) → d < 2 → e < 2 → differ d e ≡ (d + e) % 2
differ_digits zero e h k = omega arith
differ_digits (suc zero) zero h k = omega arith
differ_digits (suc zero) (suc zero) h k = omega arith
differ_digits (suc zero) (suc (suc e)) h k = absurd (omega arith)
differ_digits (suc (suc d)) e h k = absurd (omega arith)

pub bit_xor_step : (a b : ℕ) → bit_xor a b ≡ bit_xor (a / 2) (b / 2) * 2 + (a + b) % 2
bit_xor_step zero b = omega (arith, bit_xor-bitwise 0 b, bit_xor-bitwise (0 / 2) (b / 2))
bit_xor_step (suc a) b = omega (
  arith,
  bit_xor-bitwise (suc a) b,
  bit_xor-bitwise (suc a / 2) (b / 2),
  xor_fuel a (suc a / 2) (suc a / 2) (b / 2) (omega arith) (le_refl _),
  differ_digits (suc a % 2) (b % 2) (omega arith) (omega arith),
)

xor_cancel_fuel : (n a b : ℕ) → a ≤ n → b ≤ n → bit_xor (bit_xor a b) b ≡ a
xor_cancel_fuel zero zero zero p q = refl
xor_cancel_fuel zero zero (suc b) p q = absurd (omega arith)
xor_cancel_fuel zero (suc a) b p q = absurd (omega arith)
xor_cancel_fuel (suc n) a b p q =
    let half : bit_xor a b / 2 ≡ bit_xor (a / 2) (b / 2) = omega (arith, bit_xor_step a b) in
    rw (bit_xor_step (bit_xor a b) b) (
      rw half (
        omega
          (arith, bit_xor_step a b, xor_cancel_fuel n (a / 2) (b / 2) (omega arith) (omega arith))))

-- An exclusive or is undone by another.
pub bit_xor_cancel : (a b : ℕ) → bit_xor (bit_xor a b) b ≡ a
bit_xor_cancel a b = xor_cancel_fuel (a + b) a b (omega arith) (omega arith)

bit_xor_comm_fuel : (n a b : ℕ) → a ≤ n → b ≤ n → bit_xor a b ≡ bit_xor b a
bit_xor_comm_fuel zero zero zero p q = refl
bit_xor_comm_fuel zero zero (suc b) p q = absurd (omega arith)
bit_xor_comm_fuel zero (suc a) b p q = absurd (omega arith)
bit_xor_comm_fuel (suc n) a b p q = omega (
  arith,
  bit_xor_step a b,
  bit_xor_step b a,
  bit_xor_comm_fuel n (a / 2) (b / 2) (omega arith) (omega arith),
)

pub bit_xor_comm : (a b : ℕ) → bit_xor a b ≡ bit_xor b a
bit_xor_comm a b = bit_xor_comm_fuel (a + b) a b (omega arith) (omega arith)

pub bit_xor-lt : (k a b : ℕ) → a < 2 ^ k → b < 2 ^ k → bit_xor a b < 2 ^ k
bit_xor-lt zero zero zero p q = omega arith
bit_xor-lt zero zero (suc b) p q = absurd (omega arith)
bit_xor-lt zero (suc a) b p q = absurd (omega arith)
bit_xor-lt (suc k) a b p q = omega (
  arith,
  pow-suc 2 k,
  bit_xor_step a b,
  bit_xor-lt k (a / 2) (b / 2) (omega (arith, pow-suc 2 k)) (omega (arith, pow-suc 2 k)),
)

-- A table of tests at the numbers below a bound.
unfoldable pub true_below : ℕ → (ℕ → Bool) → Bool
true_below (suc bound) test = test bound && true_below bound test
true_below zero test = true

pub true_below_sound :
    (bound : ℕ) (test : ℕ → Bool) (i : ℕ) → true_below bound test ≡ true → i < bound → test i ≡ true
unfolding true_below
true_below_sound (suc bound) test i table low = ground (arith, true_below_sound bound test i)
true_below_sound zero test i table low = absurd (omega arith)
