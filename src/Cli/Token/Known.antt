-- ===== src/Cli/Token/Known.antt =====
-- What a token flag resolves to agrees with the table of known tokens, which the gateway reads.
use solmesh.Prelude.{
  ℕ, ◌+◌, ◌≡◌, ◌⊎◌, inl, inr, refl, subst, Bool, true, false, Bool-cases, Option-cases, Option,
  none, some, String, Result, ok, err,
}
use solmesh.Prelude.Eq.{string_eq}
use solmesh.Constants.{Str, utf8, known_token}
use solmesh.Mesh.{truthy}
use solmesh.Cli.Token.{
  Token, count, is_set, resolve_token, usdc_flag, fxn_flag, token_flag, raw_mint,
}

abbrev pub flags_set : Option String → Bool → Bool → ℕ
flags_set token usdc fxn = count usdc + count fxn + count (is_set token)

-- A mint with the symbol and the decimals that the table has for it, or with 6 decimals if it is not
-- in the table; SOL with 9.
abbrev pub Fits : ℕ → Token → Type 0
Fits flags (none, decimals, symbol) = (flags ≡ 0) × (decimals ≡ 9) × (symbol ≡ utf8 "SOL")
Fits flags (some mint, decimals, symbol) =
    (flags ≡ 1)
    × ((known_token mint ≡ some (symbol, decimals)) ⊎ ((known_token mint ≡ none) × (decimals ≡ 6)))

abbrev AllFit : ℕ → Result Token → Type 0
AllFit flags (err e) = Unit
AllFit flags (ok t) = Fits flags t

raw_mint-Fits :
    (token : String) (o : Option (Str × ℕ)) → known_token token ≡ o → Fits 1 (raw_mint token o)
raw_mint-Fits token none e = (refl, inr (e, refl))
raw_mint-Fits token (some (symbol, decimals)) e = (refl, inl e)

fxn_flag-Fit : (network : String) → AllFit 1 (fxn_flag network)
unfolding fxn_flag
fxn_flag-Fit network = elim (Bool-cases (string_eq.beq network "mainnet-beta")) [
  | inl main ↦ rw main (refl, inl refl)
  | inr other ↦ rw other tt
]

usdc_flag-Fit : (network : String) → AllFit 1 (usdc_flag network)
unfolding usdc_flag
usdc_flag-Fit network = elim (Bool-cases (string_eq.beq network "mainnet-beta")) [
  | inl main ↦ rw main (refl, inl refl)
  | inr other ↦ elim (Bool-cases (string_eq.beq network "devnet")) [
    | inl dev ↦ rw (other, dev) (refl, inl refl)
    | inr not_dev ↦ elim (Bool-cases (string_eq.beq network "testnet")) [
      | inl test ↦ rw (other, not_dev, test) (refl, inl refl)
      | inr none_of_them ↦ rw (other, not_dev, none_of_them) tt
    ]
  ]
]

token_flag-Fit :
    (upper : String → String) (token network : String) → AllFit 1 (token_flag upper token network)
unfolding token_flag
token_flag-Fit upper token network = elim (Bool-cases (string_eq.beq (upper token) "USDC")) [
  | inl usdc ↦ elim (Bool-cases (string_eq.beq network "mainnet-beta")) [
    | inl main ↦ rw (usdc, main) (refl, inl refl)
    | inr other ↦ rw (usdc, other) (refl, inl refl)
  ]
  | inr not_usdc ↦ elim (Bool-cases (string_eq.beq (upper token) "FXN")) [
    | inl fxn ↦ rw (not_usdc, fxn) (fxn_flag-Fit network)
    | inr neither ↦ rw (not_usdc, neither) (raw_mint-Fits token (known_token token) refl)
  ]
]

resolve_token-Fit :
    (upper : String → String) (token : Option String) (usdc fxn : Bool) (network : String)
    → AllFit (flags_set token usdc fxn) (resolve_token upper token usdc fxn network)
unfolding resolve_token
resolve_token-Fit upper token true true network = elim (Option-cases (truthy token)) [
  | inl unset ↦ rw (unset, is_set) tt
  | inr (name, set) ↦ rw (set, is_set) tt
]
resolve_token-Fit upper token true false network = elim (Option-cases (truthy token)) [
  | inl unset ↦ rw (unset, is_set) (usdc_flag-Fit network)
  | inr (name, set) ↦ rw (set, is_set) tt
]
resolve_token-Fit upper token false true network = elim (Option-cases (truthy token)) [
  | inl unset ↦ rw (unset, is_set) (fxn_flag-Fit network)
  | inr (name, set) ↦ rw (set, is_set) tt
]
resolve_token-Fit upper token false false network = elim (Option-cases (truthy token)) [
  | inl unset ↦ rw (unset, is_set) (refl, refl, refl)
  | inr (name, set) ↦ rw (set, is_set) (token_flag-Fit upper name network)
]

-- Whatever the flags resolve to agrees with the table of known tokens that the gateway reads: a mint
-- has the symbol and the decimals of its entry, or 6 decimals if it has none, and comes of exactly
-- one flag; SOL, with 9 decimals, comes of no flag.
pub resolve_token-known :
    (upper : String → String) (token : Option String) (usdc fxn : Bool) (network : String)
    (resolved : Token)
    → resolve_token upper token usdc fxn network ≡ ok resolved
    → Fits (flags_set token usdc fxn) resolved
resolve_token-known upper token usdc fxn network resolved e =
    subst (AllFit (flags_set token usdc fxn)) e (resolve_token-Fit upper token usdc fxn network)
