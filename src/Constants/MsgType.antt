-- ===== src/Constants/MsgType.antt =====
-- `class MsgType` of src/solmesh/constants.py: the message types, one byte each.
use solmesh.Prelude.{ℕ}

abbrev pub tx_chunk : ℕ
tx_chunk = 0x01

abbrev pub tx_request : ℕ
tx_request = 0x02

abbrev pub addr_share : ℕ
addr_share = 0x03

abbrev pub ack : ℕ
ack = 0x10

abbrev pub nack : ℕ
nack = 0x11

abbrev pub balance_req : ℕ
balance_req = 0x20

abbrev pub balance_resp : ℕ
balance_resp = 0x21

abbrev pub blockhash_req : ℕ
blockhash_req = 0x22

abbrev pub blockhash_resp : ℕ
blockhash_resp = 0x23

abbrev pub tx_result : ℕ
tx_result = 0x30

abbrev pub gateway_beacon : ℕ
gateway_beacon = 0x40
