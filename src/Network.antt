-- ===== src/Network.antt =====
-- A client and a gateway together (src/solmesh/client.py, src/solmesh/mesh.py and
-- src/solmesh/gateway.py): a frame that one sends comes to the other as a packet.
pub mod Request
pub mod Command
mod Tests
use solmesh.Prelude.{none, some, String}
use solmesh.Constants.{Bytes}
use solmesh.Mesh.{Packet}

-- As Meshtastic delivers what was sent on the private port.
abbrev pub packet_of : Bytes → String → Packet
packet_of frame sender_id = record {
  portnum = some "PRIVATE_APP";
  payload = frame;
  from_id = some sender_id;
  from = none;
}
