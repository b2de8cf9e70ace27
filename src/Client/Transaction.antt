-- ===== src/Client/Transaction.antt =====
-- The transactions that mode 1 signs, from the keypair and the blockhash on.
use solmesh.Prelude.{ℕ, Bool, String, Result, ◌>>=◌}
use solmesh.Constants.{Bytes}
use solmesh.Solana.{Keypair, create_sol_transfer, create_spl_transfer}
use solmesh.Client.World.{ClientWorld}

unfoldable pub sol_transfer : ClientWorld → String → ℕ → Keypair → Bytes → Result Bytes
sol_transfer w recipient amount_sol kp recent_blockhash = do
  recipient_pubkey ← w.lib.pubkey_from_string recipient
  let lamports = w.to_units amount_sol 9
  create_sol_transfer w.lib kp recipient_pubkey lamports recent_blockhash

unfoldable pub token_transfer :
    ClientWorld → String → String → ℕ → ℕ → Bool → Keypair → Bytes → Result Bytes
token_transfer w recipient mint_address amount decimals create_recipient_ata kp recent_blockhash =
    do
      recipient_pubkey ← w.lib.pubkey_from_string recipient
      mint_pubkey ← w.lib.pubkey_from_string mint_address
      let base_units = w.to_units amount decimals
      create_spl_transfer w.lib kp recipient_pubkey mint_pubkey base_units decimals recent_blockhash
          create_recipient_ata
