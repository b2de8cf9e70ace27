-- ===== src/Cli/Token.antt =====
-- `_resolve_token`: the token flags. A symbol is its text's bytes.
pub mod Known
use solmesh.Prelude.{
  ℕ, ◌+◌, Bool, true, false, ◌++◌, ◌||◌, Option, none, some, String, ltb, if◌then◌else◌, Result, ok,
  err, usage_error, conflicting_tokens, no_usdc_mint, fxn_only_on_mainnet, take,
}
use solmesh.Prelude.Eq.{string_eq}
use solmesh.Constants.{
  Str, utf8, known_token, usdc_mint_mainnet, usdc_mint_devnet, fxn_mint_mainnet, usdc_decimals,
  fxn_decimals,
}
use solmesh.Mesh.{truthy}

abbrev pub count : Bool → ℕ
count true = 1
count false = 0

abbrev pub is_set : Option String → Bool
is_set o = elim (truthy o) [ none ↦ false | some _ ↦ true ]

-- Mint, decimals and symbol. No mint is SOL.
abbrev pub Token : Type 0
Token = Option String × ℕ × Str

abbrev pub on_mainnet : String → Bool
on_mainnet network = string_eq.beq network "mainnet-beta"

abbrev pub usdc_on : String → Token
usdc_on mint = (some mint, usdc_decimals, utf8 "USDC")

abbrev pub fxn_token : Token
fxn_token = (some fxn_mint_mainnet, fxn_decimals, utf8 "FXN")

-- `--usdc`
unfoldable pub usdc_flag : String → Result Token
usdc_flag network =
    if on_mainnet network
    then ok (usdc_on usdc_mint_mainnet)
    else if string_eq.beq network "devnet" || string_eq.beq network "testnet"
    then ok (usdc_on usdc_mint_devnet)
    else err (usage_error (no_usdc_mint network))

-- `--fxn`
unfoldable pub fxn_flag : String → Result Token
fxn_flag network =
    if on_mainnet network then ok fxn_token else err (usage_error fxn_only_on_mainnet)

abbrev pub raw_mint : String → Option (Str × ℕ) → Token
raw_mint token none = (some token, 6, utf8 "TOKEN(" ++ (take 8 (utf8 token) ++ utf8 "...)"))
raw_mint token (some (symbol, decimals)) = (some token, decimals, symbol)

-- `--token`: the name of a token or a mint address.
unfoldable pub token_flag : (String → String) → String → String → Result Token
unfolding fxn_flag
token_flag upper token network =
    if string_eq.beq (upper token) "USDC"
    then ok (usdc_on (if on_mainnet network then usdc_mint_mainnet else usdc_mint_devnet))
    else if string_eq.beq (upper token) "FXN"
    then fxn_flag network
    else ok (raw_mint token (known_token token))

unfoldable pub resolve_token :
    (String → String) → Option String → Bool → Bool → String → Result Token
unfolding usdc_flag fxn_flag token_flag
resolve_token upper token usdc fxn network =
    if ltb 1 (count usdc + count fxn + count (is_set token))
    then err (usage_error conflicting_tokens)
    else if usdc
    then usdc_flag network
    else if fxn
    then fxn_flag network
    else elim (truthy token) [
      | some name ↦ token_flag upper name network
      | none ↦ ok (none, 9, utf8 "SOL")
    ]
