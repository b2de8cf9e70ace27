-- ===== src/Protocol/Struct.antt =====
-- Python's `struct` for the formats that the protocol uses: unsigned big-endian integers of 1, 2, 4
-- and 8 bytes. `struct.pack` raises `struct.error` where the number does not fit.
use native.Mathlib.Nat.{pow-suc}
use solmesh.Prelude.{
  ℕ, zero, suc, ◌+◌, ◌*◌, ◌/◌, ◌%◌, ◌^◌, ◌<◌, ◌≡◌, refl, [], ◌∷◌, ◌++◌, arith, ltb, if◌then◌else◌,
  Result, ok, err, struct_error, length, length-append, All, All-append,
}
use solmesh.Constants.{Bytes}

abbrev pub IsBytes : Bytes → Type 0
IsBytes = All (λ (b : ℕ). b < 256)

-- The `w` low bytes of `n`, the highest first.
abbrev pub be : ℕ → ℕ → Bytes
be zero n = []
be (suc w) n = be w (n / 256) ++ (n % 256) ∷ []

abbrev pub pack_be : ℕ → ℕ → Result Bytes
pack_be w n = if ltb n (256 ^ w) then ok (be w n) else err struct_error

abbrev pub u8 : ℕ → Result Bytes
u8 = pack_be 1

abbrev pub u16 : ℕ → Result Bytes
u16 = pack_be 2

abbrev pub u32 : ℕ → Result Bytes
u32 = pack_be 4

abbrev pub u64 : ℕ → Result Bytes
u64 = pack_be 8

-- The same bytes, the lowest first: `struct.pack` with `<`.
abbrev pub le : ℕ → ℕ → Bytes
le zero n = []
le (suc w) n = (n % 256) ∷ le w (n / 256)

abbrev pub pack_le : ℕ → ℕ → Result Bytes
pack_le w n = if ltb n (256 ^ w) then ok (le w n) else err struct_error

abbrev pub from_be_acc : ℕ → Bytes → ℕ
from_be_acc acc [] = acc
from_be_acc acc (b ∷ bs) = from_be_acc (acc * 256 + b) bs

-- `struct.unpack` of one integer.
abbrev pub from_be : Bytes → ℕ
from_be = from_be_acc 0

from_be_acc-append :
    (acc : ℕ) (xs ys : Bytes) → from_be_acc acc (xs ++ ys) ≡ from_be_acc (from_be_acc acc xs) ys
from_be_acc-append acc [] ys = refl
from_be_acc-append acc (x ∷ xs) ys = from_be_acc-append (acc * 256 + x) xs ys

pub length-be : (w n : ℕ) → length (be w n) ≡ w
length-be zero n = refl
length-be (suc w) n =
    omega (arith, length-append {0} (be w (n / 256)) ((n % 256) ∷ []), length-be w (n / 256))

-- Reading what was written gives the number back, if it fits.
pub from_be-be : (w n : ℕ) → n < 256 ^ w → from_be (be w n) ≡ n
from_be-be zero n h = omega arith
from_be-be (suc w) n h = omega (
  arith,
  from_be_acc-append 0 (be w (n / 256)) ((n % 256) ∷ []),
  from_be-be w (n / 256) (omega (arith, pow-suc 256 w)),
)

pub be-IsBytes : (w n : ℕ) → IsBytes (be w n)
be-IsBytes zero n = tt
be-IsBytes (suc w) n =
    All-append (λ (b : ℕ). b < 256) (be w (n / 256)) ((n % 256) ∷ []) (be-IsBytes w (n / 256))
      (omega arith, tt)
