-- ===== src/Cli/Keys.antt =====
-- The `wallet` commands.
pub mod Protected
use solmesh.Prelude.{
  ℕ, Bool, true, false, List, [], ◌∷◌, String, if◌then◌else◌, Result, ok, err, Exn, system_exit,
  file_exists_error, file_not_found_error, value_error,
}
use solmesh.Prelude.Eq.{string_eq}
use solmesh.Prelude.Stateful.{◌>>=◌, ◌>>◌, lift, gets, finished, attempt}
use solmesh.Constants.{Bytes, utf8}
use solmesh.Wallet.{
  create_wallet, create_wallet_with_mnemonic, recover_wallet, import_wallet, list_wallets,
  delete_wallet,
}
use solmesh.Cli.{
  Part, text, raw, padded, rule, Line, Session, Host, Command, echo, refuse, on_wallets,
}

abbrev pub key_text : Host → Bytes → Part
key_text h pubkey = text (h.world.lib.base58 pubkey)

abbrev pub already_exists : String → Command (Unit {0})
already_exists name = refuse (text "Error: Wallet '" ∷ text name ∷ text "' already exists." ∷ [])

abbrev pub not_found : String → Command (Unit {0})
not_found name = refuse (text "Error: Wallet '" ∷ text name ∷ text "' not found." ∷ [])

-- `Error: {e}`
abbrev pub error_text : Host → Exn → Command (Unit {0})
error_text h e = refuse (text "Error: " ∷ raw (h.world.text_of e) ∷ [])

-- `if not passphrase: ...`
abbrev pub need_passphrase : String → Command (Unit {0})
need_passphrase passphrase =
    if string_eq.beq passphrase ""
    then refuse (text "Error: A passphrase is required to protect your private key." ∷ [])
    else finished

-- `except FileExistsError`; what else is raised goes on.
pub create_failed : String → Exn → Command (Unit {0})
create_failed name file_exists_error = already_exists name
create_failed name e = lift (err e)

unfoldable pub created : Host → String → Result Bytes → Command (Unit {0})
unfolding create_failed
created h name (err e) = create_failed name e
created h name (ok pubkey) = do
  echo (text "Wallet created: " ∷ text name ∷ [])
  echo (text "Public key:     " ∷ key_text h pubkey ∷ [])

unfoldable pub created_with_mnemonic : Host → String → Result (Bytes × String) → Command (Unit {0})
unfolding create_failed
created_with_mnemonic h name (err e) = create_failed name e
created_with_mnemonic h name (ok (pubkey, mnemonic)) = do
  echo (text "Wallet created: " ∷ text name ∷ [])
  echo (text "Public key:     " ∷ key_text h pubkey ∷ [])
  echo []
  echo (text "RECOVERY PHRASE (write this down and store securely!):" ∷ [])
  echo (text "  " ∷ text mnemonic ∷ [])
  echo []
  echo (text "WARNING: This phrase will NOT be shown again." ∷ [])
  echo (text "         Anyone with this phrase can access your funds." ∷ [])

unfoldable pub wallet_create : Host → String → Bool → String → Command (Unit {0})
unfolding created created_with_mnemonic
wallet_create h name no_mnemonic passphrase =
    let random : Command (Unit {0}) = (do
      r ← attempt (on_wallets (create_wallet h.world.crypto h.world.lib name passphrase))
      created h name r) in
    let phrase : Command (Unit {0}) = (do
      r ←
          attempt
            (on_wallets (create_wallet_with_mnemonic h.world.crypto h.world.lib name passphrase))
      created_with_mnemonic h name r) in
    need_passphrase passphrase >> (if no_mnemonic then random else phrase)

pub recover_failed : Host → String → Exn → Command (Unit {0})
recover_failed h name file_exists_error = already_exists name
recover_failed h name (value_error reason) = error_text h (value_error reason)
recover_failed h name e = lift (err e)

unfoldable pub recovered : Host → String → Result Bytes → Command (Unit {0})
unfolding recover_failed
recovered h name (err e) = recover_failed h name e
recovered h name (ok pubkey) = do
  echo (text "Wallet recovered: " ∷ text name ∷ [])
  echo (text "Public key:       " ∷ key_text h pubkey ∷ [])

unfoldable pub wallet_recover : Host → String → String → String → Command (Unit {0})
unfolding recovered
wallet_recover h name mnemonic_phrase passphrase = do
  need_passphrase passphrase
  r ←
      attempt
        (on_wallets (recover_wallet h.world.crypto h.world.lib name mnemonic_phrase passphrase))
  recovered h name r

-- Base58 first, then hexadecimal digits.
abbrev pub key_bytes_of : Host → String → Result Bytes
key_bytes_of h secret_key = elim (h.b58decode secret_key) [
  | ok key_bytes ↦ ok key_bytes
  | err _ ↦ h.from_hex secret_key
]

pub import_failed : Host → String → Exn → Command (Unit {0})
import_failed h name file_exists_error = already_exists name
import_failed h name e = error_text h e

unfoldable pub imported : Host → String → Result Bytes → Command (Unit {0})
unfolding import_failed
imported h name (err e) = import_failed h name e
imported h name (ok pubkey) = do
  echo (text "Wallet imported: " ∷ text name ∷ [])
  echo (text "Public key:      " ∷ key_text h pubkey ∷ [])

unfoldable pub wallet_import : Host → String → String → String → Command (Unit {0})
unfolding imported
wallet_import h name secret_key passphrase = do
  r ← attempt (do
    key_bytes ← lift (key_bytes_of h secret_key)
    on_wallets (import_wallet h.world.crypto h.world.lib name key_bytes passphrase))
  imported h name r

abbrev pub print_wallet : String × String × Bool → Command (Unit {0})
print_wallet (name, pubkey, encrypted) = echo (
    padded 20 (utf8 name)
    ∷ text " "
    ∷ padded 50 (utf8 pubkey)
    ∷ text " "
    ∷ text (if encrypted then "yes" else "no")
    ∷ [])

pub print_wallets : List (String × String × Bool) → Command (Unit {0})
print_wallets [] = finished
print_wallets (w ∷ rest) = print_wallet w >> print_wallets rest

unfoldable pub wallet_list : Command (Unit {0})
unfolding print_wallets
wallet_list s = elim (list_wallets s.wallets) [
  | [] ↦ echo (text "No wallets found. Create one with: solmesh wallet create --name <name>" ∷ []) s
  | w ∷ rest ↦
      (do
        echo (
            padded 20 (utf8 "Name")
            ∷ text " "
            ∷ padded 50 (utf8 "Public Key")
            ∷ text " Encrypted"
            ∷ [])
        echo (rule 80 ∷ [])
        print_wallets (w ∷ rest))
        s
]

pub delete_failed : String → Exn → Command (Unit {0})
delete_failed name file_not_found_error = not_found name
delete_failed name e = lift (err e)

unfoldable pub deleted : String → Result (Unit {0}) → Command (Unit {0})
unfolding delete_failed
deleted name (err e) = delete_failed name e
deleted name (ok _) = echo (text "Wallet '" ∷ text name ∷ text "' deleted." ∷ [])

-- Once the user has confirmed.
unfoldable pub wallet_delete : String → Command (Unit {0})
unfolding deleted
wallet_delete name = do r ← attempt (on_wallets (delete_wallet name)); deleted name r
