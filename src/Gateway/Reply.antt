-- ===== src/Gateway/Reply.antt =====
-- The messages that the gateway sends back, and its rate limit.
pub mod Effects
pub mod Limits
use solmesh.Prelude.{
  ℕ, Bool, true, false, List, [], ◌∷◌, ◌++◌, Option, none, some, String, if◌then◌else◌, Result, ok,
  err,
}
use solmesh.Constants.{Bytes, Str, utf8}
use solmesh.Constants.MsgType
use solmesh.Constants.ErrorCode
use solmesh.Protocol.Frame.{pack_message}
use solmesh.Protocol.Messages.{encode_nack, encode_tx_result, encode_ack}
use solmesh.RateLimiter.{is_allowed}
use solmesh.Solana.{deserialize_transaction}
use solmesh.Gateway.Node.{
  World, GatewayNode, Method, ◌>>=◌, ◌>>◌, pure, lift, gets, finished, new_msg_id, mesh_send,
}

-- A message in one frame of its own.
abbrev pub send_frame : World → ℕ → Bytes → Option String → Bool → Method (Unit {0})
send_frame w msg_type payload destination_id want_ack = do
  id ← new_msg_id w
  msg ← lift (pack_message msg_type id 0 1 payload)
  mesh_send w msg destination_id want_ack
  finished

unfoldable pub send_nack : World → ℕ → ℕ → Str → String → Method (Unit {0})
unfolding new_msg_id mesh_send
send_nack w original_msg_id error_code error_msg destination_id = do
  nack_payload ← lift (encode_nack original_msg_id error_code error_msg)
  send_frame w MsgType.nack nack_payload (some destination_id) true

-- Both branches of the source encode the text alike.
unfoldable pub send_tx_result : World → ℕ → Bool → Str → String → Method (Unit {0})
unfolding new_msg_id mesh_send
send_tx_result w original_msg_id success sig_or_error destination_id = do
  result_payload ← lift (encode_tx_result original_msg_id success sig_or_error)
  send_frame w MsgType.tx_result result_payload (some destination_id) true

-- The acknowledgement of a chunk or of an address.
unfoldable pub send_ack : World → ℕ → ℕ → String → Method (Unit {0})
unfolding new_msg_id mesh_send
send_ack w msg_id chunk_num sender_id = do
  ack_payload ← lift (encode_ack msg_id chunk_num 0)
  send_frame w MsgType.ack ack_payload (some sender_id) false

abbrev pub limiter_step : World → ℕ → String → Method Bool
limiter_step w now sender_id g =
    let (limiter, allowed) = is_allowed w.clock_rate now sender_id g.rate_limiter in
    (ok allowed, record g { rate_limiter = limiter })

unfoldable pub check_rate_limit : World → ℕ → String → ℕ → Method Bool
unfolding send_nack
check_rate_limit w now sender_id msg_id = do
  allowed ← limiter_step w now sender_id
  if allowed then pure true else (do
    send_nack w msg_id ErrorCode.rate_limited (utf8 "Rate limited") sender_id
    pure false)

-- `_broadcast_to_solana`: whatever is raised becomes a failure with its text.
unfoldable pub broadcast_to_solana : World → ℕ → Bytes → Method (Bool × Str)
unfolding deserialize_transaction
broadcast_to_solana w now tx_bytes g = elim (deserialize_transaction w.lib tx_bytes) [
  | err e ↦ (ok (false, w.text_of e), g)
  | ok _ ↦
      let g' = record g { submitted = g.submitted ++ tx_bytes ∷ [] } in
      elim (w.send_raw_transaction now tx_bytes) [
        | ok sig ↦ (ok (true, sig), g')
        | err e ↦ (ok (false, w.text_of e), g')
      ]
]
