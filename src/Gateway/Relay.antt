-- ===== src/Gateway/Relay.antt =====
-- `_handle_tx_chunk` (mode 1) and `_handle_addr_share` (mode 2).
use solmesh.Prelude.{ℕ, ◌/◌, Option, none, some, String, if◌then◌else◌, ok, err}
use solmesh.Prelude.Eq.{string_eq}
use solmesh.Prelude.Dict.{insert}
use solmesh.Constants.{Bytes}
use solmesh.Protocol.Frame.{SolMeshHeader}
use solmesh.Protocol.Messages.{decode_addr_share}
use solmesh.Chunker.{receive_chunk}
use solmesh.Gateway.Node.{World, Method, ◌>>=◌, ◌>>◌, finished}
use solmesh.Gateway.Reply.{send_ack, check_rate_limit, broadcast_to_solana, send_tx_result}

-- `self._reassembler.receive_chunk(...)`, by a clock of whole seconds.
abbrev pub reassembler_step : ℕ → String → SolMeshHeader → Bytes → Method (Option Bytes)
reassembler_step now sender_id header payload g =
    let (r, buffers) =
      receive_chunk now sender_id header.msg_id header.chunk_num header.total_chunks payload
        g.reassembler in
    (r, record g { reassembler = buffers })

-- What is done with a transaction that is complete.
unfoldable pub relay_complete : World → ℕ → ℕ → String → Option Bytes → Method (Unit {0})
relay_complete w now msg_id sender_id none = finished
relay_complete w now msg_id sender_id (some complete_data) = do
  (success, result) ← broadcast_to_solana w now complete_data
  send_tx_result w msg_id success result sender_id

unfoldable pub handle_tx_chunk : World → ℕ → SolMeshHeader → Bytes → String → Method (Unit {0})
unfolding relay_complete
handle_tx_chunk w now header payload sender_id = do
  allowed ← check_rate_limit w now sender_id header.msg_id
  if allowed
      then (do
        send_ack w header.msg_id header.chunk_num sender_id
        complete ← reassembler_step (now / w.clock_rate) sender_id header payload
        relay_complete w now header.msg_id sender_id complete)
      else finished

abbrev pub remember : String → Bytes → Method (Unit {0})
remember sender_id pubkey g =
    (ok tt, record g { known_addresses = insert sender_id pubkey g.known_addresses })

-- There is no rate limit here. A payload that does not decode is dropped.
unfoldable pub handle_addr_share : World → ℕ → SolMeshHeader → Bytes → String → Method (Unit {0})
handle_addr_share w now header payload sender_id = elim (decode_addr_share w.valid_utf8 payload) [
  | err _ ↦ finished
  | ok address ↦ (do remember sender_id address.pubkey; send_ack w header.msg_id 0 sender_id)
]
