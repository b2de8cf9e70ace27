-- ===== src/Client/Relay.antt =====
-- Mode 1: signing a transaction, and relaying it in chunks that are acknowledged.
use solmesh.Prelude.{
  ◌+◌, ℕ, zero, suc, Bool, true, false, List, [], ◌∷◌, ◌++◌, Option, none, some, String, Result, ok,
  err, value_error, gateway_not_set, timeout_error, any, ◌==◌,
}
use solmesh.Prelude.Eq.{nat_eq}
use solmesh.Prelude.Dict.{lookup, insert}
use solmesh.Prelude.Stateful.{◌>>=◌, ◌>>◌, pure, lift, gets}
use solmesh.Constants.{Bytes, Str, max_retries}
use solmesh.Constants.MsgType
use solmesh.Protocol.Frame.{pack_message}
use solmesh.Protocol.Messages.{encode_addr_share, encode_blockhash_req}
use solmesh.Chunker.{generate_msg_id, chunk_payload}
use solmesh.Mesh.{truthy}
use solmesh.Mesh
use solmesh.Solana.{Keypair}
use solmesh.Wallet.{load_keypair, get_pubkey}
use solmesh.Client.{ClientNode}
use solmesh.Client.World.{ClientWorld, Method}
use solmesh.Client.Transaction.{sol_transfer, token_transfer}
use solmesh.Client.Wait.{wait_for, sleep}

unfoldable pub new_msg_id : ClientWorld → Method ℕ
unfolding generate_msg_id
new_msg_id w c = (ok (generate_msg_id (w.urandom c.drawn)), record c { drawn = suc c.drawn })

unfoldable pub mesh_send : ClientWorld → Bytes → Option String → Method Bool
mesh_send w msg destination_id c =
    let (r, mesh') = Mesh.send w.radio msg destination_id true c.mesh in
    (r, record c { mesh = mesh' })

abbrev pub clear_blockhash : Method (Unit {0})
clear_blockhash c = (ok tt, record c { blockhash = none })

-- Up to 60 seconds where the source names no time-out.
unfoldable pub fetch_blockhash : ClientWorld → ℕ → Method (Option Bytes)
unfolding new_msg_id mesh_send wait_for encode_blockhash_req
fetch_blockhash w timeout c = elim (truthy c.gateway_id) [
  | none ↦ (err (value_error gateway_not_set), c)
  | some gateway_id ↦
      (do
        msg_id ← new_msg_id w
        msg ← lift (pack_message MsgType.blockhash_req msg_id 0 1 encode_blockhash_req)
        clear_blockhash
        mesh_send w msg (some gateway_id)
        wait_for w (λ c'. elim c'.blockhash [ none ↦ false | some _ ↦ true ]) timeout
        gets (λ c'. c'.blockhash))
        c
]

-- The blockhash that is given, or else the gateway's.
abbrev pub fetched : ClientWorld → Option Bytes → Result Bytes
fetched w none = err timeout_error
fetched w (some bh_bytes) = w.hash_from_bytes bh_bytes

unfoldable pub choose_blockhash : ClientWorld → Option String → Method Bytes
unfolding fetch_blockhash
choose_blockhash w (some blockhash) = lift (w.hash_from_string blockhash)
choose_blockhash w none = fetch_blockhash w 60 >>= λ bh_bytes. lift (fetched w bh_bytes)

abbrev pub track : ℕ → Method (Unit {0})
track msg_id c = (ok tt, record c { acked_chunks = insert msg_id [] c.acked_chunks })

abbrev pub start_retry : List Bytes → ℕ → Method (Unit {0})
start_retry chunks msg_id c = (ok tt, record c { threads = c.threads ++ (chunks, msg_id) ∷ [] })

unfoldable pub relay_raw_tx : ClientWorld → Bytes → Method ℕ
unfolding new_msg_id
relay_raw_tx w tx_bytes = do
  msg_id ← new_msg_id w
  chunks ← lift (chunk_payload [] tx_bytes MsgType.tx_chunk (some msg_id))
  track msg_id
  start_retry chunks msg_id
  pure msg_id

-- The steps that the relays of both kinds share; `build` signs the transaction.
unfoldable pub relay_built :
    ClientWorld → String → Option String → String → (Keypair → Bytes → Result Bytes) → Method ℕ
unfolding choose_blockhash relay_raw_tx
relay_built w wallet_name blockhash passphrase build = do
  wallets ← gets (λ c. c.wallet_mgr)
  kp ← lift (load_keypair w.crypto wallet_name passphrase wallets)
  recent_blockhash ← choose_blockhash w blockhash
  tx_bytes ← lift (build kp recent_blockhash)
  relay_raw_tx w tx_bytes

unfoldable pub relay_signed_tx :
    ClientWorld → String → String → ℕ → Option String → String → Method ℕ
unfolding relay_built sol_transfer
relay_signed_tx w wallet_name recipient amount_sol blockhash passphrase =
    relay_built w wallet_name blockhash passphrase (sol_transfer w recipient amount_sol)

unfoldable pub relay_signed_token_tx :
    ClientWorld → String → String → String → ℕ → ℕ → Option String → String → Bool → Method ℕ
unfolding relay_built token_transfer
relay_signed_token_tx w wallet_name recipient mint_address amount decimals blockhash passphrase
      create_recipient_ata =
    relay_built w wallet_name blockhash passphrase
      (token_transfer w recipient mint_address amount decimals create_recipient_ata)

abbrev pub acked_of : ℕ → ClientNode → List ℕ
acked_of msg_id c = elim (lookup msg_id c.acked_chunks) [ none ↦ [] | some acked ↦ acked ]

-- `n in acked`
abbrev pub is_acked : List ℕ → ℕ → Bool
is_acked acked n = any (λ m. m == n) acked

-- The rounds of `share_address` that are left.
pub share_rounds : ClientWorld → Bytes → ℕ → ℕ → Method Bool
unfolding mesh_send
share_rounds w msg msg_id zero = pure false
share_rounds w msg msg_id (suc rounds) = do
  mesh_send w msg none
  sleep w
  acked ← gets (acked_of msg_id)
  elim (is_acked acked 0) [ true ↦ pure true | false ↦ share_rounds w msg msg_id rounds ]

unfoldable pub share_address : ClientWorld → String → Str → Method Bool
unfolding share_rounds new_msg_id
share_address w wallet_name label = do
  wallets ← gets (λ c. c.wallet_mgr)
  pubkey ← lift (get_pubkey w.lib wallet_name wallets)
  payload ← lift (encode_addr_share pubkey label)
  msg_id ← new_msg_id w
  msg ← lift (pack_message MsgType.addr_share msg_id 0 1 payload)
  track msg_id
  share_rounds w msg msg_id (max_retries + 1)
