-- ===== src/Wallet.antt =====
-- src/solmesh/wallet.py: the key store: wallets in files, their encryption, and mnemonics.
-- A file stands as the record that its JSON holds, a hexadecimal text as its bytes, and the directory
-- as a dictionary from names to files. File permissions are not modelled.
pub mod RoundTrip
pub mod Mnemonic
pub mod Toy
mod Tests
use solmesh.Prelude.{
  ℕ, suc, ◌+◌, Bool, true, false, not, List, [], ◌∷◌, ◌++◌, Option, none, some, String, ◌>>=◌, ◌>>◌,
  raise_if, if◌then◌else◌, Result, ok, err, Exn, value_error, file_exists_error,
  file_not_found_error, invalid_mnemonic, wallet_not_encrypted, passphrase_required, take, drop,
  map,
}
use solmesh.Prelude.Eq.{string_eq}
use solmesh.Prelude.Dict.{Dict, lookup, insert, erase}
use solmesh.Constants.{Bytes, Str, utf8}
use solmesh.Protocol.Struct.{be}
use solmesh.Solana.{Keypair, Solders}

-- What the key store calls of `cryptography`, `hashlib`, `hmac`, `mnemonic` and `solders`. Random
-- values are numbered by their draw.
pub record Crypto : Type 0 where
  -- the length, the salt, the iterations and the passphrase
  pub pbkdf2_sha256 : ℕ → Bytes → ℕ → Bytes → Bytes
  pub aes_encrypt : Bytes → Bytes → Bytes → Bytes
  pub aes_decrypt : Bytes → Bytes → Bytes → Result Bytes
  pub urandom : ℕ → ℕ → Bytes
  pub new_keypair : ℕ → Keypair
  pub keypair_bytes : Keypair → Bytes
  pub keypair_from_bytes : Bytes → Result Keypair
  pub keypair_from_seed : Bytes → Result Keypair
  pub check_mnemonic : String → Bool
  pub generate_mnemonic : ℕ → String
  pub pbkdf2_sha512 : Bytes → Bytes → ℕ → Bytes
  pub hmac_sha512 : Bytes → Bytes → Bytes

pub record SecretBox : Type 0 where
  pub salt : Bytes
  pub nonce : Bytes
  pub ciphertext : Bytes

pub record WalletFile : Type 0 where
  pub pubkey : String
  pub encrypted : Bool
  pub secret : SecretBox

pub record Wallets : Type 0 where
  pub files : Dict String WalletFile
  pub drawn : ℕ

abbrev pub pbkdf2_iterations : ℕ
pbkdf2_iterations = 480_000

abbrev pub derive_key : Crypto → String → Bytes → Bytes
derive_key w passphrase salt = w.pbkdf2_sha256 32 salt pbkdf2_iterations (utf8 passphrase)

unfoldable pub encrypt_secret : Crypto → Bytes → String → ℕ → SecretBox
encrypt_secret w secret_bytes passphrase drawn =
    let salt = w.urandom drawn 16 in
    let nonce = w.urandom (suc drawn) 12 in
    let key = derive_key w passphrase salt in
    record { salt = salt; nonce = nonce; ciphertext = w.aes_encrypt key nonce secret_bytes }

unfoldable pub decrypt_secret : Crypto → SecretBox → String → Result Bytes
decrypt_secret w box passphrase =
    w.aes_decrypt (derive_key w passphrase box.salt) box.nonce box.ciphertext

-- One hardened child key: the key and the chain code.
abbrev pub derive_child : Crypto → Bytes × Bytes → ℕ → Bytes × Bytes
derive_child w (key, chain_code) index =
    let digest = w.hmac_sha512 chain_code (0 ∷ (key ++ be 4 (0x80000000 + index))) in
    (take 32 digest, drop 32 digest)

pub derive_path : Crypto → Bytes × Bytes → List ℕ → Bytes × Bytes
derive_path w parent [] = parent
derive_path w parent (index ∷ rest) = derive_path w (derive_child w parent index) rest

abbrev pub solana_derivation_path : List ℕ
solana_derivation_path = 44 ∷ 501 ∷ 0 ∷ 0 ∷ []

unfoldable pub derive_solana_keypair_from_mnemonic : Crypto → String → Str → Result Keypair
unfolding derive_path
derive_solana_keypair_from_mnemonic w mnemonic_phrase bip39_passphrase =
    let seed = w.pbkdf2_sha512 (utf8 mnemonic_phrase) (utf8 "mnemonic" ++ bip39_passphrase) 2048 in
    let master = w.hmac_sha512 (utf8 "ed25519 seed") seed in
    if w.check_mnemonic mnemonic_phrase
    then w.keypair_from_seed
        (derive_path w (take 32 master, drop 32 master) solana_derivation_path).0
    else err (value_error invalid_mnemonic)

-- The state after a raise is kept.
abbrev pub Method : Type 0 → Type 0
Method A = Wallets → Result A × Wallets

unfoldable pub save_keypair : Crypto → Solders → String → Keypair → String → Method (Unit {0})
unfolding encrypt_secret
save_keypair w lib name kp passphrase s =
    let file : WalletFile = record {
      pubkey = lib.base58 kp.pubkey;
      encrypted = true;
      secret = encrypt_secret w (w.keypair_bytes kp) passphrase s.drawn;
    } in
    if string_eq.beq passphrase ""
    then (err (value_error passphrase_required), s)
    else (ok tt, record { files = insert name file s.files; drawn = suc (suc s.drawn) })

-- The steps that all the ways to make a wallet share: a name that is taken is refused before the
-- keypair is made. The public key is returned.
unfoldable pub add_wallet : Crypto → Solders → String → Result Keypair → String → Method Bytes
unfolding save_keypair
add_wallet w lib name made passphrase s = elim (lookup name s.files) [
  | some file ↦ (err file_exists_error, s)
  | none ↦ elim made [
    | err e ↦ (err e, s)
    | ok kp ↦ let (r, s') = save_keypair w lib name kp passphrase s in (r >> ok kp.pubkey, s')
  ]
]

unfoldable pub create_wallet : Crypto → Solders → String → String → Method Bytes
unfolding add_wallet
create_wallet w lib name passphrase s =
    add_wallet w lib name (ok (w.new_keypair s.drawn)) passphrase s

-- The phrase is returned with the key.
unfoldable pub create_wallet_with_mnemonic :
    Crypto → Solders → String → String → Wallets → Result (Bytes × String) × Wallets
unfolding add_wallet derive_solana_keypair_from_mnemonic
create_wallet_with_mnemonic w lib name passphrase s =
    let phrase = w.generate_mnemonic s.drawn in
    let (r, s') =
      add_wallet w lib name (derive_solana_keypair_from_mnemonic w phrase []) passphrase s in
    (r >>= λ pubkey. ok (pubkey, phrase), s')

unfoldable pub recover_wallet : Crypto → Solders → String → String → String → Method Bytes
unfolding add_wallet derive_solana_keypair_from_mnemonic
recover_wallet w lib name mnemonic_phrase passphrase =
    add_wallet w lib name (derive_solana_keypair_from_mnemonic w mnemonic_phrase []) passphrase

unfoldable pub import_wallet : Crypto → Solders → String → Bytes → String → Method Bytes
unfolding add_wallet
import_wallet w lib name secret_key passphrase =
    add_wallet w lib name (w.keypair_from_bytes secret_key) passphrase

unfoldable pub load_keypair : Crypto → String → String → Wallets → Result Keypair
unfolding decrypt_secret
load_keypair w name passphrase s = elim (lookup name s.files) [
  | none ↦ err file_not_found_error
  | some file ↦ (do
    raise_if (not file.encrypted) (value_error wallet_not_encrypted)
    secret_bytes ← decrypt_secret w file.secret passphrase
    w.keypair_from_bytes secret_bytes)
]

unfoldable pub get_pubkey : Solders → String → Wallets → Result Bytes
get_pubkey lib name s = elim (lookup name s.files) [
  | none ↦ err file_not_found_error
  | some file ↦ lib.pubkey_from_string file.pubkey
]

-- Name, public key and whether the file is encrypted; the order by name is left out.
unfoldable pub list_wallets : Wallets → List (String × String × Bool)
list_wallets s =
    map (λ (entry : String × WalletFile). (entry.0, entry.1.pubkey, entry.1.encrypted)) s.files

unfoldable pub delete_wallet : String → Method (Unit {0})
delete_wallet name s = elim (lookup name s.files) [
  | none ↦ (err file_not_found_error, s)
  | some file ↦ (ok tt, record s { files = erase name s.files })
]
