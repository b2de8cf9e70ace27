-- ===== src/Solana.antt =====
-- src/solmesh/spl.py, src/solmesh/crypto.py and the transfers of src/solmesh/wallet.py, over the
-- `solders` library, which is a parameter. Keys, hashes, messages and transactions are byte strings.
use solmesh.Prelude.{
  ℕ, Bool, true, false, List, [], ◌∷◌, ◌++◌, String, if◌then◌else◌, Result, ok, err, ◌>>=◌,
}
use solmesh.Constants.{Bytes}
use solmesh.Protocol.Struct.{pack_le}

pub record Keypair : Type 0 where
  pub secret : Bytes
  pub pubkey : Bytes

pub record AccountMeta : Type 0 where
  pub pubkey : Bytes
  pub is_signer : Bool
  pub is_writable : Bool

pub record Instruction : Type 0 where
  pub program_id : Bytes
  pub accounts : List AccountMeta
  pub contents : Bytes

-- What the source calls of `solders`.
pub record Solders : Type 0 where
  pub pubkey_from_string : String → Result Bytes
  pub base58 : Bytes → String
  pub find_program_address : List Bytes → Bytes → Bytes
  pub system_transfer : Bytes → Bytes → ℕ → Result Instruction
  pub try_compile : Bytes → List Instruction → Bytes → Result Bytes
  pub versioned_transaction : Bytes → Keypair → Result Bytes
  pub transaction_from_bytes : Bytes → Result (Unit {0})
  pub sign_message : Keypair → Bytes → Bytes
  pub verify_signature : Bytes → Bytes → Bytes → Result Bool
  pub spl_token_program : Bytes
  pub associated_token_program : Bytes
  pub system_program : Bytes

unfoldable pub sign_payload : Solders → Keypair → Bytes → Bytes
sign_payload lib keypair payload = lib.sign_message keypair payload

unfoldable pub verify_payload : Solders → Bytes → Bytes → Bytes → Bool
verify_payload lib pubkey payload signature = elim (lib.verify_signature pubkey payload signature) [
  | ok valid ↦ valid
  | err _ ↦ false
]

unfoldable pub find_associated_token_address : Solders → Bytes → Bytes → Bytes
find_associated_token_address lib wallet mint =
    lib.find_program_address (wallet ∷ lib.spl_token_program ∷ mint ∷ [])
      lib.associated_token_program

abbrev pub meta : Bytes → Bool → Bool → AccountMeta
meta pubkey is_signer is_writable = record {
  pubkey = pubkey;
  is_signer = is_signer;
  is_writable = is_writable;
}

unfoldable pub create_associated_token_account_instruction :
    Solders → Bytes → Bytes → Bytes → Instruction
create_associated_token_account_instruction lib payer wallet mint = record {
  program_id = lib.associated_token_program;
  accounts =
      meta payer true true
      ∷ meta (find_associated_token_address lib wallet mint) false true
      ∷ meta wallet false false
      ∷ meta mint false false
      ∷ meta lib.system_program false false
      ∷ meta lib.spl_token_program false false
      ∷ [];
  contents = [];
}

unfoldable pub transfer_checked_instruction :
    Solders → Bytes → Bytes → Bytes → Bytes → ℕ → ℕ → Result Instruction
transfer_checked_instruction lib source_ata mint dest_ata owner amount decimals = do
  index_byte ← pack_le 1 12
  amount_bytes ← pack_le 8 amount
  decimals_byte ← pack_le 1 decimals
  ok (record {
    program_id = lib.spl_token_program;
    accounts =
        meta source_ata false true
        ∷ meta mint false false
        ∷ meta dest_ata false true
        ∷ meta owner true false
        ∷ [];
    contents = index_byte ++ (amount_bytes ++ decimals_byte);
  })

unfoldable pub create_spl_transfer :
    Solders → Keypair → Bytes → Bytes → ℕ → ℕ → Bytes → Bool → Result Bytes
unfolding transfer_checked_instruction create_associated_token_account_instruction
create_spl_transfer lib sender recipient mint amount decimals recent_blockhash create_ata = do
  let sender_ata = find_associated_token_address lib sender.pubkey mint
  let recipient_ata = find_associated_token_address lib recipient mint
  let create_ix = create_associated_token_account_instruction lib sender.pubkey recipient mint
  transfer_ix ←
      transfer_checked_instruction lib sender_ata mint recipient_ata sender.pubkey amount decimals
  let instructions = (if create_ata then create_ix ∷ [] else []) ++ transfer_ix ∷ []
  msg ← lib.try_compile sender.pubkey instructions recent_blockhash
  lib.versioned_transaction msg sender

unfoldable pub create_sol_transfer : Solders → Keypair → Bytes → ℕ → Bytes → Result Bytes
create_sol_transfer lib sender recipient lamports recent_blockhash = do
  ix ← lib.system_transfer sender.pubkey recipient lamports
  msg ← lib.try_compile sender.pubkey (ix ∷ []) recent_blockhash
  lib.versioned_transaction msg sender

unfoldable pub deserialize_transaction : Solders → Bytes → Result (Unit {0})
deserialize_transaction lib raw = lib.transaction_from_bytes raw

-- `sha256` is `hashlib`'s.
unfoldable pub compute_payload_hash : (sha256 : Bytes → Bytes) → Bytes → Bytes
compute_payload_hash sha256 payload = sha256 payload
