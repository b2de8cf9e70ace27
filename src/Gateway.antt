-- ===== src/Gateway.antt =====
-- src/solmesh/gateway.py: the gateway between the mesh and the Solana RPC.
pub mod Node
pub mod Reply
pub mod Relay
pub mod Transfer
pub mod Query
pub mod Start
pub mod Toy
mod Tests
