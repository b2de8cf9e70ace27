-- ===== src/Prelude/Results.antt =====
-- Python's exceptions as values. An error message is kept as the values that it is made of: one
-- constructor of `Reason` for each `raise` in the source.
use Prim.Native.Nat.{ℕ}
use Prim.Native.String.{String}
use mathlib.Core.Path.{◌≡◌, refl}
use mathlib.Core.Logic.{◌⊎◌, inl, inr}
use mathlib.Core.Bool.{Bool, true, false}

-- What a `ValueError` of the source says.
pub data Reason : Type 0 where
  payload_too_large : ℕ → Reason
  message_too_short : ℕ → Reason
  invalid_magic : Reason
  unsupported_version : ℕ → Reason
  length_mismatch : ℕ → ℕ → Reason
  checksum_mismatch : ℕ → ℕ → Reason
  bad_length : Reason
  too_short : ℕ → ℕ → Reason
  mint_flag_too_short : ℕ → Reason
  not_utf8 : Reason
  data_too_large : ℕ → Reason
  missing_chunks : Reason
  duplicate_intent : Reason
  invalid_mode : ℕ → Reason
  gateway_not_set : Reason
  unsupported_mode : ℕ → Reason
  invalid_mnemonic : Reason
  wallet_not_encrypted : Reason
  passphrase_required : Reason
  api_key_required : Reason
  conflicting_tokens : Reason
  no_usdc_mint : String → Reason
  fxn_only_on_mainnet : Reason

pub data Exn : Type 0 where
  value_error : Reason → Exn
  struct_error key_error runtime_error timeout_error : Exn
  file_exists_error file_not_found_error : Exn
  usage_error : Reason → Exn
  keyboard_interrupt attribute_error : Exn
  -- `sys.exit`
  system_exit : ℕ → Exn
  -- an exception that code outside the source raised
  other_error invalid_tag : Exn

pub data Result {ℓ} (Value : Type ℓ) : Type ℓ where
  err : Exn → Result Value
  ok : Value → Result Value

-- The first exception ends a chain.
infixl 5 ◌>>=◌
abbrev pub ◌>>=◌ {ℓ κ} : {A : Type ℓ} {B : Type κ} → Result A → (A → Result B) → Result B
err raised >>= next = err raised
ok value >>= next = next value

infixl 5 ◌>>◌
abbrev pub ◌>>◌ {κ} : {B : Type κ} → Result (Unit {0}) → Result B → Result B
first >> second = first >>= λ u. second

-- `if test: raise e`
abbrev pub raise_if : Bool → Exn → Result (Unit {0})
raise_if true e = err e
raise_if false e = ok tt

pub Result-cases {ℓ} :
    {A : Type ℓ} (r : Result A) → ((a : A) × (r ≡ ok a)) ⊎ ((e : Exn) × (r ≡ err e))
Result-cases (ok a) = inl (a, refl)
Result-cases (err e) = inr (e, refl)
