-- ===== src/Wallet/Tests.antt =====
-- The key store with a small cipher, and its theorems there.
use solmesh.Prelude.{◌≡◌, refl, true, [], ◌∷◌, none, ok, err, Exn, file_exists_error, true}
use solmesh.Prelude.Eq.{string_eq, ne_of_beq}
use solmesh.Prelude.Dict.{lookup}
use solmesh.Solana.{Solders}
use solmesh.Wallet.{
  derive_solana_keypair_from_mnemonic, add_wallet, create_wallet_with_mnemonic, recover_wallet,
  load_keypair, get_pubkey,
}
use solmesh.Wallet.Toy.{key_7, toy_crypto, empty}
use solmesh.Wallet.RoundTrip.{Restores, add_wallet-loads}
use solmesh.Wallet.Mnemonic.{GivesKeypair, recover-create_with_mnemonic}

abbrev toy_solders : Solders
toy_solders = record {
  pubkey_from_string = λ s. ok (8 ∷ []);
  base58 = λ key. "8";
  find_program_address = λ seeds program. program;
  system_transfer = λ from to lamports. err Exn.other_error;
  try_compile = λ payer instructions blockhash. err Exn.other_error;
  versioned_transaction = λ msg keypair. err Exn.other_error;
  transaction_from_bytes = λ raw. ok tt;
  sign_message = λ keypair msg. msg;
  verify_signature = λ key msg signature. ok true;
  spl_token_program = [];
  associated_token_program = [];
  system_program = [];
}

abbrev toy_Restores : Restores toy_crypto toy_solders key_7
toy_Restores = record { decrypts = λ key nonce plain. refl; parses = refl; reads = refl }

add_wallet-loads_example :
    let s' = (add_wallet toy_crypto toy_solders "main" (ok key_7) "secret" empty).1 in
    ((add_wallet toy_crypto toy_solders "main" (ok key_7) "secret" empty).0 ≡ ok (8 ∷ []))
    × (load_keypair toy_crypto "main" "secret" s' ≡ ok key_7)
    × (get_pubkey toy_solders "main" s' ≡ ok (8 ∷ []))
    × (lookup "other" s'.files ≡ none)
    × (add_wallet toy_crypto toy_solders "main" (ok key_7) "other" s' ≡ (err file_exists_error, s'))
add_wallet-loads_example =
    add_wallet-loads toy_crypto toy_solders "main" "other" "secret" "other" key_7 (ok key_7) empty
      toy_Restores refl (ne_of_beq "secret" "" refl) (ne_of_beq "other" "main" refl)

phrase_gives : GivesKeypair toy_crypto 0 key_7
unfolding derive_solana_keypair_from_mnemonic
phrase_gives = refl

recover-create_with_mnemonic_example :
    let (r, s') = create_wallet_with_mnemonic toy_crypto toy_solders "main" "secret" empty in
    let (r', s'') = recover_wallet toy_crypto toy_solders "copy" "zoo" "other" s' in
    (r ≡ ok (8 ∷ [], "zoo"))
    × (r' ≡ ok (8 ∷ []))
    × (load_keypair toy_crypto "main" "secret" s'' ≡ ok key_7)
    × (load_keypair toy_crypto "copy" "other" s'' ≡ ok key_7)
recover-create_with_mnemonic_example =
    recover-create_with_mnemonic toy_crypto toy_solders "main" "copy" "secret" "other" key_7 empty
      toy_Restores phrase_gives refl refl (ne_of_beq "copy" "main" refl)
      (ne_of_beq "secret" "" refl) (ne_of_beq "other" "" refl)
