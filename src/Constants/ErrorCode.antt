-- ===== src/Constants/ErrorCode.antt =====
-- `class ErrorCode` of src/solmesh/constants.py: the error codes of a NACK that are sent.
use solmesh.Prelude.{ℕ}

abbrev pub invalid_tx : ℕ
invalid_tx = 0x03

abbrev pub rpc_error : ℕ
rpc_error = 0x04

abbrev pub unauthorized : ℕ
unauthorized = 0x05

abbrev pub amount_exceeded : ℕ
amount_exceeded = 0x06

abbrev pub rate_limited : ℕ
rate_limited = 0x08

abbrev pub unsupported_token : ℕ
unsupported_token = 0x09
