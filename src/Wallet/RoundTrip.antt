-- ===== src/Wallet/RoundTrip.antt =====
-- A wallet that is made can be loaded with its passphrase.
use solmesh.Prelude.{
  suc, ◌≡◌, ◌≢◌, refl, true, none, some, String, Result, ok, err, file_exists_error,
}
use solmesh.Prelude.Eq.{string_eq, beq_ne}
use solmesh.Prelude.Dict.{lookup, insert, lookup-insert_self, lookup-insert_ne}
use solmesh.Constants.{Bytes}
use solmesh.Solana.{Keypair, Solders}
use solmesh.Wallet.{
  Crypto, WalletFile, Wallets, encrypt_secret, decrypt_secret, save_keypair, add_wallet,
  load_keypair, get_pubkey,
}

-- What a wallet's maker relies on of the libraries, for one keypair.
pub record Restores (w : Crypto) (lib : Solders) (kp : Keypair) : Type 0 where
  -- what AES-GCM encrypted is decrypted with the same key and nonce
  pub decrypts :
      (key nonce plain : Bytes) → w.aes_decrypt key nonce (w.aes_encrypt key nonce plain) ≡ ok plain
  pub parses : w.keypair_from_bytes (w.keypair_bytes kp) ≡ ok kp
  pub reads : lib.pubkey_from_string (lib.base58 kp.pubkey) ≡ ok kp.pubkey

taken :
    (w : Crypto) (lib : Solders) (name : String) (made : Result Keypair) (passphrase : String)
    (s : Wallets) (f : WalletFile)
    → lookup name s.files ≡ some f
    → add_wallet w lib name made passphrase s ≡ (err file_exists_error, s)
unfolding add_wallet
taken w lib name made passphrase s f found = rw (found, add_wallet) refl

module _ (w : Crypto) (lib : Solders) (name : String) (passphrase : String) (kp : Keypair)
    (s : Wallets) where
  abbrev pub file : WalletFile
  file = record {
    pubkey = lib.base58 kp.pubkey;
    encrypted = true;
    secret = encrypt_secret w (w.keypair_bytes kp) passphrase s.drawn;
  }

  pub add_wallet-new :
      lookup name s.files ≡ none
      → passphrase ≢ ""
      → add_wallet w lib name (ok kp) passphrase s
        ≡ (ok kp.pubkey, record { files = insert name file s.files; drawn = suc (suc s.drawn) })
  unfolding add_wallet
  add_wallet-new free given =
      rw (free, add_wallet) (rw (beq_ne passphrase "" given, save_keypair) refl)

  pub load-file :
      (t : Wallets)
      → Restores w lib kp
      → lookup name t.files ≡ some file
      → load_keypair w name passphrase t ≡ ok kp
  unfolding load_keypair encrypt_secret decrypt_secret
  load-file t lawful found =
      rw (found, load_keypair) (rw (lawful.decrypts _ _ (w.keypair_bytes kp)) lawful.parses)

-- A name that is free and a passphrase make a wallet: the public key is returned, and with the
-- passphrase the keypair is loaded from the file again, and without it the public key; every other
-- name finds the file that it found before; and a second wallet of that name is refused and changes
-- nothing. It holds where the libraries restore the keypair from what was made of it.
pub add_wallet-loads :
    (w : Crypto) (lib : Solders) (name other passphrase p : String) (kp : Keypair)
    (again : Result Keypair) (s : Wallets)
    → Restores w lib kp
    → lookup name s.files ≡ none
    → passphrase ≢ ""
    → other ≢ name
    → let (r, s') = add_wallet w lib name (ok kp) passphrase s in
      (r ≡ ok kp.pubkey)
      × (load_keypair w name passphrase s' ≡ ok kp)
      × (get_pubkey lib name s' ≡ ok kp.pubkey)
      × (lookup other s'.files ≡ lookup other s.files)
      × (add_wallet w lib name again p s' ≡ (err file_exists_error, s'))
unfolding get_pubkey
add_wallet-loads w lib name other passphrase p kp again s lawful free given ne =
    let f = file w lib name passphrase kp s in
    let s' : Wallets = record { files = insert name f s.files; drawn = suc (suc s.drawn) } in
    let found : lookup name s'.files ≡ some f = lookup-insert_self name f s.files in
    rw (add_wallet-new w lib name passphrase kp s free given) (
      refl,
      load-file w lib name passphrase kp s s' lawful found,
      rw (found, get_pubkey) lawful.reads,
      lookup-insert_ne name other f s.files ne,
      taken w lib name again p s' f found,
    )
