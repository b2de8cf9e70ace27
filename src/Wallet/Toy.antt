-- ===== src/Wallet/Toy.antt =====
-- A small cipher and an empty key store, for the tests.
use solmesh.Prelude.{true, [], ◌∷◌, ◌++◌, ok, err, Exn, replicate}
use solmesh.Solana.{Keypair}
use solmesh.Wallet.{Crypto, Wallets}

abbrev pub key_7 : Keypair
key_7 = record { secret = 7 ∷ []; pubkey = 8 ∷ [] }

-- A cipher that only puts the nonce in front.
abbrev pub toy_crypto : Crypto
toy_crypto = record {
  pbkdf2_sha256 = λ size salt iterations passphrase. salt;
  aes_encrypt = λ key nonce plain. 0 ∷ plain;
  aes_decrypt = λ key nonce box. elim box [ [] ↦ err Exn.invalid_tag | n ∷ plain ↦ ok plain ];
  urandom = λ k size. replicate size k;
  new_keypair = λ k. key_7;
  keypair_bytes = λ kp. kp.secret ++ kp.pubkey;
  keypair_from_bytes = λ raw. ok key_7;
  keypair_from_seed = λ seed. ok key_7;
  check_mnemonic = λ phrase. true;
  generate_mnemonic = λ k. "zoo";
  pbkdf2_sha512 = λ phrase salt rounds. phrase;
  hmac_sha512 = λ key contents. contents;
}

abbrev pub empty : Wallets
empty = record { files = []; drawn = 0 }
