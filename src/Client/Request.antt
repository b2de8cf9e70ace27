-- ===== src/Client/Request.antt =====
-- The signed requests for a transfer (mode 3), and the balance requests.
use solmesh.Prelude.{
  ◌>>=◌, ℕ, suc, true, [], ◌++◌, none, some, String, Result, ok, err, value_error, gateway_not_set,
}
use solmesh.Constants.{Bytes}
use solmesh.Constants.MsgType
use solmesh.Protocol.Struct.{u8, u64}
use solmesh.Protocol.Frame.{pack_message}
use solmesh.Protocol.Request.{encode_tx_request}
use solmesh.Protocol.Messages.{encode_balance_req}
use solmesh.Chunker.{generate_msg_id}
use solmesh.Mesh.{Mesh, Radio, truthy}
use solmesh.Mesh
use solmesh.Solana.{sign_payload}
use solmesh.Wallet.{Wallets, load_keypair}
use solmesh.Client.World.{ClientWorld, Method}

-- A message of one frame to the gateway; its id is returned.
unfoldable pub send_request : ClientWorld → String → ℕ → Bytes → Method ℕ
unfolding generate_msg_id
send_request w gateway_id msg_type payload c =
    let msg_id = generate_msg_id (w.urandom c.drawn) in
    let c' = record c { drawn = suc c.drawn } in
    elim (pack_message msg_type msg_id 0 1 payload) [
      | err e ↦ (err e, c')
      | ok msg ↦
          let (r, mesh') = Mesh.send w.radio msg (some gateway_id) true c.mesh in
          let c'' = record c' { mesh = mesh' } in
          elim r [ err e ↦ (err e, c'') | ok sent ↦ (ok msg_id, c'') ]
    ]

-- The test for a gateway comes first, so that without one its exception is the one raised.
unfoldable pub to_gateway : ClientWorld → ℕ → Result Bytes → Method ℕ
unfolding send_request
to_gateway w msg_type payload c = elim (truthy c.gateway_id) [
  | none ↦ (err (value_error gateway_not_set), c)
  | some gateway_id ↦ elim payload [
    | err e ↦ (err e, c)
    | ok p ↦ send_request w gateway_id msg_type p c
  ]
]

unfoldable pub transfer_payload :
    ClientWorld → Wallets → String → String → ℕ → String → Result Bytes
transfer_payload w wallets wallet_name destination amount_sol passphrase = do
  kp ← load_keypair w.crypto wallet_name passphrase wallets
  dest ← w.lib.pubkey_from_string destination
  let lamports = w.to_units amount_sol 9
  amount_bytes ← u64 lamports
  let signed_data = kp.pubkey ++ (dest ++ amount_bytes)
  encode_tx_request kp.pubkey dest lamports (sign_payload w.lib kp signed_data) [] []

unfoldable pub request_transfer : ClientWorld → String → String → ℕ → String → Method ℕ
unfolding transfer_payload to_gateway
request_transfer w wallet_name destination amount_sol passphrase c =
    to_gateway w MsgType.tx_request
      (transfer_payload w c.wallet_mgr wallet_name destination amount_sol passphrase) c

unfoldable pub token_payload :
    ClientWorld → Wallets → String → String → String → ℕ → ℕ → String → Result Bytes
token_payload w wallets wallet_name destination mint_address amount decimals passphrase = do
  kp ← load_keypair w.crypto wallet_name passphrase wallets
  dest ← w.lib.pubkey_from_string destination
  mint ← w.lib.pubkey_from_string mint_address
  let base_units = w.to_units amount decimals
  amount_bytes ← u64 base_units
  flag_byte ← u8 1
  let signed_data = kp.pubkey ++ (dest ++ (amount_bytes ++ (flag_byte ++ mint)))
  encode_tx_request kp.pubkey dest base_units (sign_payload w.lib kp signed_data) [] mint

unfoldable pub request_token_transfer :
    ClientWorld → String → String → String → ℕ → ℕ → String → Method ℕ
unfolding token_payload to_gateway
request_token_transfer w wallet_name destination mint_address amount decimals passphrase c =
    to_gateway w MsgType.tx_request
      (token_payload w c.wallet_mgr wallet_name destination mint_address amount decimals passphrase)
      c

unfoldable pub check_balance : ClientWorld → String → Method ℕ
unfolding to_gateway
check_balance w address =
    to_gateway w MsgType.balance_req
      (do pubkey ← w.lib.pubkey_from_string address; encode_balance_req pubkey [])

unfoldable pub check_token_balance : ClientWorld → String → String → Method ℕ
unfolding to_gateway
check_token_balance w address mint_address = to_gateway w MsgType.balance_req (do
  pubkey ← w.lib.pubkey_from_string address
  mint ← w.lib.pubkey_from_string mint_address
  encode_balance_req pubkey mint)
