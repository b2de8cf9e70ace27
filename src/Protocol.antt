-- ===== src/Protocol.antt =====
-- The binary message protocol of src/solmesh/protocol.py: the checksum, the frame with its header
-- of ten bytes, and the payload of each message type.
pub mod Struct
pub mod Crc
pub mod Frame
pub mod Request
pub mod Messages
mod Tests
