-- ===== src/Gateway/Reply/Limits.antt =====
-- Replies that do not fit a frame.
use solmesh.Prelude.{
  ℕ, suc, ◌+◌, ◌<◌, ◌≡◌, arith, String, err, value_error, payload_too_large, length,
}
use solmesh.Constants.{Str}
use solmesh.Protocol.Frame.{pack_message}
use solmesh.Protocol.Messages.{encode_nack}
use solmesh.Gateway.Node.{World, GatewayNode, new_msg_id}
use solmesh.Gateway.Reply.{send_nack}

-- A NACK with an id and a code that fit their fields, whose text is longer than 207 bytes, is not
-- sent: `_send_nack` raises `ValueError`, and the only thing that changes is that a message id was
-- drawn.
pub send_nack_too_long :
    (w : World) (id code : ℕ) (text : Str) (destination : String) (g : GatewayNode)
    → id < 65536
    → code < 256
    → 207 < length text
    → send_nack w id code text destination g
      ≡ (err (value_error (payload_too_large (3 + length text))), record g { drawn = suc g.drawn })
unfolding send_nack encode_nack pack_message new_msg_id
send_nack_too_long w id code text destination g id_fits code_fits long = ground arith
