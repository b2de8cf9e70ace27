-- ===== src/Cli/Keys/Protected.antt =====
-- The wallets that the commands make are protected by a passphrase, and load with it.
use solmesh.Prelude.{
  ap, suc, ◌≡◌, ◌≢◌, refl, ◌∙◌, sym, subst, Bool, inl, inr, Option-cases, none, String, Result,
  Result-cases, ok, err, Exn, system_exit, file_exists_error, value_error, passphrase_required,
  arith,
}
use solmesh.Prelude.Eq.{string_eq}
use solmesh.Prelude.Dict.{lookup, insert, lookup-insert_self, lookup-insert_ne}
use solmesh.Prelude.Stateful.{◌>>=◌, bind_ok, lift}
use solmesh.Constants.{Bytes}
use solmesh.Solana.{Keypair, Solders}
use solmesh.Wallet.{Crypto, Wallets, load_keypair, add_wallet, import_wallet, save_keypair}
use solmesh.Wallet.RoundTrip.{Restores, file, add_wallet-new, load-file}
use solmesh.Cli.{Session, Host, Command, on_wallets}
use solmesh.Cli.Keys.{
  wallet_create, wallet_recover, wallet_import, imported, import_failed, key_bytes_of,
}

-- The command exits with 1, and the key store is as it was.
abbrev pub Refused : Session → Result (Unit {0}) × Session → Type 0
Refused s n = (n.0 ≡ err (system_exit 1)) × (n.1.wallets ≡ s.wallets)

import_failed-Refused :
    (h : Host) (name : String) (e : Exn) (s : Session) → Refused s (import_failed h name e s)
unfolding import_failed
import_failed-Refused h name file_exists_error s = (refl, refl)
import_failed-Refused h name e s = ground arith

-- Without a passphrase nothing is added.
add_wallet-unprotected :
    (w : Crypto) (lib : Solders) (name : String) (made : Result Keypair) (s : Wallets)
    → (e : Exn) × (add_wallet w lib name made "" s ≡ (err e, s))
unfolding add_wallet save_keypair
add_wallet-unprotected w lib name made s = elim (Option-cases (lookup name s.files)) [
  | inr (f, found) ↦ (file_exists_error, rw (found, add_wallet) refl)
  | inl free ↦ elim (Result-cases made) [
    | inr (e, failed) ↦ (e, rw (free, add_wallet) (rw failed refl))
    | inl (kp, ready) ↦ (value_error passphrase_required, rw (free, add_wallet) (rw ready refl))
  ]
]

after_import :
    (h : Host) (name : String) (s : Session) (n : Result Bytes × Wallets) (e : Exn)
    → n ≡ (err e, s.wallets)
    → Refused s (imported h name n.0 (record s { wallets = n.1 }))
unfolding imported
after_import h name s n e same =
    subst
      (λ (n : Result Bytes × Wallets). Refused s (imported h name n.0 (record s { wallets = n.1 })))
      (sym same) (import_failed-Refused h name e s)

-- What is done with the key that was decoded.
abbrev import_bytes : Host → String → String → Bytes → Command Bytes
import_bytes h name passphrase key_bytes =
    on_wallets (import_wallet h.world.crypto h.world.lib name key_bytes passphrase)

decoded-Refused :
    (h : Host) (name : String) (r : Result Bytes) (s : Session)
    → let n = (lift r >>= import_bytes h name "") s in Refused s (imported h name n.0 n.1)
unfolding imported import_wallet
decoded-Refused h name (err e) s = import_failed-Refused h name e s
decoded-Refused h name (ok raw) s =
    let made = h.world.crypto.keypair_from_bytes raw in
    let (e, same) = add_wallet-unprotected h.world.crypto h.world.lib name made s.wallets in
    after_import h name s (add_wallet h.world.crypto h.world.lib name made "" s.wallets) e same

-- With an empty passphrase, `wallet create`, `wallet recover` and `wallet import` exit with 1 and
-- leave the key store as it was, whatever key or phrase is given.
pub unprotected-Refused :
    (h : Host) (name secret_key phrase : String) (no_mnemonic : Bool) (s : Session)
    → Refused s (wallet_create h name no_mnemonic "" s)
      × Refused s (wallet_recover h name phrase "" s)
      × Refused s (wallet_import h name secret_key "" s)
unfolding wallet_create wallet_recover wallet_import
unprotected-Refused h name secret_key phrase no_mnemonic s =
    ((refl, refl), (refl, refl), decoded-Refused h name (key_bytes_of h secret_key) s)

-- A key that is imported under a free name with a passphrase is there: the command ends normally,
-- the passphrase loads the keypair, and every other name finds the file that it found before; where
-- the text decodes to the bytes of the keypair, and the libraries restore it.
pub wallet_import-loads :
    (h : Host) (name other secret_key passphrase : String) (raw : Bytes) (kp : Keypair)
    (s : Session)
    → key_bytes_of h secret_key ≡ ok raw
    → h.world.crypto.keypair_from_bytes raw ≡ ok kp
    → Restores h.world.crypto h.world.lib kp
    → lookup name s.wallets.files ≡ none
    → passphrase ≢ ""
    → other ≢ name
    → let (r, s') = wallet_import h name secret_key passphrase s in
      (r ≡ ok tt)
      × (load_keypair h.world.crypto name passphrase s'.wallets ≡ ok kp)
      × (lookup other s'.wallets.files ≡ lookup other s.wallets.files)
unfolding wallet_import import_wallet imported
wallet_import-loads h name other secret_key passphrase raw kp s decoded parsed lawful free given
      ne =
    let w = h.world.crypto in
    let f = file w h.world.lib name passphrase kp s.wallets in
    let t : Wallets = record {
      files = insert name f s.wallets.files;
      drawn = suc (suc s.wallets.drawn);
    } in
    let n : Result Bytes × Session =
      (lift (key_bytes_of h secret_key) >>= import_bytes h name passphrase) s in
    let added : n ≡ (ok kp.pubkey, record s { wallets = t }) =
      bind_ok (lift (key_bytes_of h secret_key)) (import_bytes h name passphrase) s raw s
        (ap (λ (r : Result Bytes). (r, s)) decoded)
      ∙ ap
          (λ (r : Result Keypair).
            let m = add_wallet w h.world.lib name r passphrase s.wallets in
            let q : Result Bytes × Session = (m.0, record s { wallets = m.1 }) in q)
          parsed
      ∙ ap
          (λ (m : Result Bytes × Wallets).
            let q : Result Bytes × Session = (m.0, record s { wallets = m.1 }) in q)
          (add_wallet-new w h.world.lib name passphrase kp s.wallets free given) in
    subst
      (λ (n : Result Bytes × Session).
        let (r, s') = imported h name n.0 n.1 in
        (r ≡ ok tt)
        × (load_keypair w name passphrase s'.wallets ≡ ok kp)
        × (lookup other s'.wallets.files ≡ lookup other s.wallets.files))
      (sym added)
      (
        refl,
        load-file w h.world.lib name passphrase kp s.wallets t lawful
            (lookup-insert_self name f s.wallets.files),
        lookup-insert_ne name other f s.wallets.files ne,
      )
