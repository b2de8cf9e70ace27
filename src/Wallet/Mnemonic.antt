-- ===== src/Wallet/Mnemonic.antt =====
-- A wallet made with a mnemonic is recovered from it.
use solmesh.Prelude.{ℕ, suc, ◌≡◌, ◌≢◌, refl, sym, ◌∙◌, [], none, some, String, ok}
use solmesh.Prelude.Eq.{string_eq}
use solmesh.Prelude.Dict.{lookup, insert, lookup-insert_self, lookup-insert_ne}
use solmesh.Solana.{Keypair, Solders}
use solmesh.Wallet.{
  Crypto, Wallets, create_wallet_with_mnemonic, recover_wallet, load_keypair,
  derive_solana_keypair_from_mnemonic,
}
use solmesh.Wallet.RoundTrip.{Restores, file, add_wallet-new, load-file}

-- What a phrase of the generator gives: it passes its check, and its key is a keypair.
abbrev pub GivesKeypair : Crypto → ℕ → Keypair → Type 0
GivesKeypair w drawn kp =
    derive_solana_keypair_from_mnemonic w (w.generate_mnemonic drawn) [] ≡ ok kp

-- The phrase that `create_wallet_with_mnemonic` returns recovers the wallet, under another name and
-- with another passphrase: the same public key is returned, and both wallets load as one keypair.
-- It holds for free names and passphrases that are not empty, where the phrase gives a keypair that
-- the libraries restore.
pub recover-create_with_mnemonic :
    (w : Crypto) (lib : Solders) (name copy passphrase passphrase' : String) (kp : Keypair)
    (s : Wallets)
    → Restores w lib kp
    → GivesKeypair w s.drawn kp
    → lookup name s.files ≡ none
    → lookup copy s.files ≡ none
    → copy ≢ name
    → passphrase ≢ ""
    → passphrase' ≢ ""
    → let (r, s') = create_wallet_with_mnemonic w lib name passphrase s in
      let (r', s'') = recover_wallet w lib copy (w.generate_mnemonic s.drawn) passphrase' s' in
      (r ≡ ok (kp.pubkey, w.generate_mnemonic s.drawn))
      × (r' ≡ ok kp.pubkey)
      × (load_keypair w name passphrase s'' ≡ ok kp)
      × (load_keypair w copy passphrase' s'' ≡ ok kp)
unfolding create_wallet_with_mnemonic recover_wallet
recover-create_with_mnemonic w lib name copy passphrase passphrase' kp s lawful gives free copy_free
      ne given given' =
    let f = file w lib name passphrase kp s in
    let s' : Wallets = record { files = insert name f s.files; drawn = suc (suc s.drawn) } in
    let f' = file w lib copy passphrase' kp s' in
    let s'' : Wallets = record { files = insert copy f' s'.files; drawn = suc (suc s'.drawn) } in
    let still_free : lookup copy s'.files ≡ none =
      lookup-insert_ne name copy f s.files ne ∙ copy_free in
    let kept : lookup name s''.files ≡ some f =
      lookup-insert_ne copy name f' s'.files (λ same. ne (sym same))
      ∙ lookup-insert_self name f s.files in
    rw gives (
      rw (add_wallet-new w lib name passphrase kp s free given) (
        rw (add_wallet-new w lib copy passphrase' kp s' still_free given') (
          refl,
          refl,
          load-file w lib name passphrase kp s s'' lawful kept,
          load-file w lib copy passphrase' kp s' s'' lawful (lookup-insert_self copy f' s'.files),
        )))
