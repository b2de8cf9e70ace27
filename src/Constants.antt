-- ===== src/Constants.antt =====
-- The constants of src/solmesh/constants.py that the other modules use.
pub mod MsgType
pub mod ErrorCode
use Prim.Native.Char.{code}
use solmesh.Prelude.{
  ℕ, ◌+◌, ◌-◌, ◌/◌, ◌%◌, ltb, ◌++◌, String, List, [], ◌∷◌, Option, none, some, if◌then◌else◌,
}
use solmesh.Prelude.Eq.{string_eq}

abbrev pub Bytes : Type 0
Bytes = List ℕ

-- A Python `str` that is sent over the air is represented by its UTF-8 bytes, so that `encode` is
-- the identity.
abbrev pub Str : Type 0
Str = Bytes

-- The bytes of a character, by its code point.
abbrev utf8_char : ℕ → Str
utf8_char c =
    if ltb c 0x80
    then c ∷ []
    else if ltb c 0x800
    then (0xc0 + c / 0x40) ∷ (0x80 + c % 0x40) ∷ []
    else if ltb c 0x10000
    then (0xe0 + c / 0x1000) ∷ (0x80 + c / 0x40 % 0x40) ∷ (0x80 + c % 0x40) ∷ []
    else (0xf0 + c / 0x40000)
      ∷ (0x80 + c / 0x1000 % 0x40)
      ∷ (0x80 + c / 0x40 % 0x40)
      ∷ (0x80 + c % 0x40)
      ∷ []

-- `encode("utf-8")`
abbrev pub utf8 : String → Str
utf8 String.[] = []
utf8 (String.◌∷◌ c s) = utf8_char (code c) ++ utf8 s

abbrev pub magic : Bytes
magic = 0x53 ∷ 0x4d ∷ []

abbrev pub protocol_version : ℕ
protocol_version = 1

abbrev pub header_size : ℕ
header_size = 10

abbrev pub safe_lora_payload : ℕ
safe_lora_payload = 220

abbrev pub max_chunk_data : ℕ
max_chunk_data = safe_lora_payload - header_size

-- Seconds.
abbrev pub chunk_reassembly_timeout : ℕ
chunk_reassembly_timeout = 120

-- Seconds.
abbrev pub ack_timeout : ℕ
ack_timeout = 30

abbrev pub max_retries : ℕ
max_retries = 3

abbrev pub max_flush_attempts : ℕ
max_flush_attempts = 3

abbrev pub lamports_per_sol : ℕ
lamports_per_sol = 1_000_000_000

abbrev pub default_rpc_url : String
default_rpc_url = "https://api.mainnet-beta.solana.com"

abbrev pub devnet_rpc_url : String
devnet_rpc_url = "https://api.devnet.solana.com"

abbrev pub testnet_rpc_url : String
testnet_rpc_url = "https://api.testnet.solana.com"

abbrev pub usdc_decimals : ℕ
usdc_decimals = 6

abbrev pub fxn_decimals : ℕ
fxn_decimals = 6

abbrev pub usdc_mint_mainnet : String
usdc_mint_mainnet = "EPjFWdd5AufqSSqeM2qN1xzybapC8G4wEGGkZwyTDt1v"

abbrev pub usdc_mint_devnet : String
usdc_mint_devnet = "4zMMC9srt5Ri5X14GAgXhaHii3GnPAEERYPJgZJDncDU"

abbrev pub fxn_mint_mainnet : String
fxn_mint_mainnet = "92cRC6kV5D7TiHX1j56AbkPbffo9jwcXxSDQZ8Mopump"

abbrev pub token_program_id : String
token_program_id = "TokenkegQfeZyiNwAJbNbGKPFXCWuBvf9Ss623VQ5DA"

abbrev pub associated_token_program_id : String
associated_token_program_id = "ATokenGPvbdGVxr1b2hvZbsiqW5xWH25efTNsLJA8knL"

-- Mint address, symbol and decimals.
abbrev pub known_tokens : List (String × Str × ℕ)
known_tokens =
    (usdc_mint_mainnet, utf8 "USDC", 6)
    ∷ (usdc_mint_devnet, utf8 "USDC", 6)
    ∷ (fxn_mint_mainnet, utf8 "FXN", 6)
    ∷ []

-- `KNOWN_TOKENS.get(mint)`
abbrev pub find_token : String → List (String × Str × ℕ) → Option (Str × ℕ)
find_token mint [] = none
find_token mint ((address, symbol, decimals) ∷ rest) =
    let later = find_token mint rest in
    if string_eq.beq mint address then some (symbol, decimals) else later

abbrev pub known_token : String → Option (Str × ℕ)
known_token mint = find_token mint known_tokens
