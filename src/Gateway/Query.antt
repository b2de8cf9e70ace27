-- ===== src/Gateway/Query.antt =====
-- `_handle_balance_req` and `_handle_blockhash_req`.
use solmesh.Prelude.{ℕ, true, ◌++◌, some, String, if◌then◌else◌, ok, err, nonempty}
use solmesh.Constants.{Bytes, utf8}
use solmesh.Constants.MsgType
use solmesh.Constants.ErrorCode
use solmesh.Protocol.Frame.{SolMeshHeader}
use solmesh.Protocol.Messages.{decode_balance_req, encode_balance_resp, encode_blockhash_resp}
use solmesh.Solana.{find_associated_token_address}
use solmesh.Gateway.Node.{World, Method, ◌>>=◌, lift, finished, new_msg_id, mesh_send}
use solmesh.Gateway.Reply.{send_frame, send_nack, check_rate_limit}

-- The amount that is answered: 0 where the RPC raises.
unfoldable pub query_amount : World → ℕ → Bytes → Bytes → ℕ
query_amount w now pubkey mint =
    let asked =
      if nonempty mint
      then w.get_token_account_balance now (find_associated_token_address w.lib pubkey mint)
      else w.get_balance now pubkey in
    elim asked [ ok amount ↦ amount | err _ ↦ 0 ]

unfoldable pub handle_balance_req : World → ℕ → SolMeshHeader → Bytes → String → Method (Unit {0})
unfolding query_amount new_msg_id mesh_send
handle_balance_req w now header payload sender_id = do
  allowed ← check_rate_limit w now sender_id header.msg_id
  if allowed
      then elim (decode_balance_req payload) [
        | err _ ↦ finished
        | ok req ↦ (do
          resp_payload ←
              lift
                (encode_balance_resp req.pubkey (query_amount w now req.pubkey req.mint) req.mint)
          send_frame w MsgType.balance_resp resp_payload (some sender_id) true)
      ]
      else finished

unfoldable pub handle_blockhash_req : World → ℕ → SolMeshHeader → Bytes → String → Method (Unit {0})
unfolding new_msg_id mesh_send
handle_blockhash_req w now header payload sender_id = do
  allowed ← check_rate_limit w now sender_id header.msg_id
  if allowed
      then elim (w.get_latest_blockhash now) [
        | err e ↦
            send_nack w header.msg_id ErrorCode.rpc_error
              (utf8 "Blockhash fetch failed: " ++ w.text_of e) sender_id
        | ok blockhash ↦ (do
          resp_payload ← lift (encode_blockhash_resp blockhash)
          send_frame w MsgType.blockhash_resp resp_payload (some sender_id) true)
      ]
      else finished
