-- ===== src/Protocol/Messages.antt =====
-- The other payloads of src/solmesh/protocol.py: addresses, acknowledgements, balances, blockhashes,
-- beacons and results.
pub mod RoundTrip
use solmesh.Prelude.{
  ℕ, ◌+◌, Bool, true, false, List, [], ◌∷◌, ◌++◌, not, ltb, leb, ◌==◌, if◌then◌else◌, Result, ok,
  err, value_error, bad_length, ◌>>=◌, ◌>>◌, raise_if, length, nonempty, slice, drop,
}
use solmesh.Constants.{Bytes, Str}
use solmesh.Protocol.Struct.{u8, u16, u32, u64, from_be}
use solmesh.Protocol.Request.{decode_rest, require_length, require_mint, require_at_least}

pub record AddrShare : Type 0 where
  pub pubkey : Bytes
  pub label : Str

unfoldable pub encode_addr_share : Bytes → Str → Result Bytes
encode_addr_share pubkey label = do
  require_length 32 pubkey
  ok (if nonempty label then pubkey ++ label else pubkey)

unfoldable pub decode_addr_share : (Bytes → Bool) → Bytes → Result AddrShare
decode_addr_share valid payload = do
  require_at_least 32 payload
  label ← decode_rest valid 32 payload
  ok (record { pubkey = slice 0 32 payload; label = label })

pub record Ack : Type 0 where
  pub acked_msg_id : ℕ
  pub acked_chunk : ℕ
  pub status : ℕ

unfoldable pub encode_ack : ℕ → ℕ → ℕ → Result Bytes
encode_ack acked_msg_id acked_chunk status = do
  i ← u16 acked_msg_id
  c ← u8 acked_chunk
  s ← u8 status
  ok (i ++ (c ++ s))

unfoldable pub decode_ack : Bytes → Result Ack
decode_ack payload = do
  require_at_least 4 payload
  ok (record {
    acked_msg_id = from_be (slice 0 2 payload);
    acked_chunk = from_be (slice 2 3 payload);
    status = from_be (slice 3 4 payload);
  })

pub record Nack : Type 0 where
  pub nacked_msg_id : ℕ
  pub error_code : ℕ
  pub error_msg : Str

unfoldable pub encode_nack : ℕ → ℕ → Str → Result Bytes
encode_nack nacked_msg_id error_code error_msg = do
  i ← u16 nacked_msg_id
  c ← u8 error_code
  ok (i ++ (c ++ (if nonempty error_msg then error_msg else [])))

unfoldable pub decode_nack : (Bytes → Bool) → Bytes → Result Nack
decode_nack valid payload = do
  require_at_least 3 payload
  error_msg ← decode_rest valid 3 payload
  ok (record {
    nacked_msg_id = from_be (slice 0 2 payload);
    error_code = from_be (slice 2 3 payload);
    error_msg = error_msg;
  })

pub record BalanceReq : Type 0 where
  pub pubkey : Bytes
  pub mint : Bytes

unfoldable pub encode_balance_req : Bytes → Bytes → Result Bytes
encode_balance_req pubkey mint = do
  require_length 32 pubkey
  require_mint mint
  ok (if nonempty mint then pubkey ++ mint else pubkey)

unfoldable pub decode_balance_req : Bytes → Result BalanceReq
decode_balance_req payload = do
  require_at_least 32 payload
  ok (record {
    pubkey = slice 0 32 payload;
    mint = if leb 64 (length payload) then slice 32 64 payload else [];
  })

pub record BalanceResp : Type 0 where
  pub pubkey : Bytes
  pub lamports : ℕ
  pub amount : ℕ
  pub mint : Bytes

unfoldable pub encode_balance_resp : Bytes → ℕ → Bytes → Result Bytes
encode_balance_resp pubkey amount mint = do
  require_length 32 pubkey
  require_mint mint
  amount_bytes ← u64 amount
  ok (pubkey ++ (amount_bytes ++ (if nonempty mint then mint else [])))

unfoldable pub decode_balance_resp : Bytes → Result BalanceResp
decode_balance_resp payload = do
  require_at_least 40 payload
  let amount = from_be (slice 32 40 payload)
  ok (record {
    pubkey = slice 0 32 payload;
    lamports = amount;
    amount = amount;
    mint = if leb 72 (length payload) then slice 40 72 payload else [];
  })

unfoldable pub encode_blockhash_req : Bytes
encode_blockhash_req = []

unfoldable pub encode_blockhash_resp : Bytes → Result Bytes
encode_blockhash_resp blockhash = do require_length 32 blockhash; ok blockhash

unfoldable pub decode_blockhash_resp : Bytes → Result Bytes
decode_blockhash_resp payload = do require_at_least 32 payload; ok (slice 0 32 payload)

pub record Beacon : Type 0 where
  pub version : ℕ
  pub capabilities : ℕ
  pub uptime_seconds : ℕ
  pub hot_wallet_pubkey : Bytes

unfoldable pub encode_gateway_beacon : ℕ → ℕ → Bytes → ℕ → Result Bytes
encode_gateway_beacon version capabilities hot_wallet_pubkey uptime_seconds = do
  v ← u8 version
  c ← u8 capabilities
  t ← u32 uptime_seconds
  let payload = v ++ (c ++ t)
  if nonempty hot_wallet_pubkey
      then (do require_length 32 hot_wallet_pubkey; ok (payload ++ hot_wallet_pubkey))
      else ok payload

unfoldable pub decode_gateway_beacon : Bytes → Result Beacon
decode_gateway_beacon payload = do
  require_at_least 6 payload
  ok (record {
    version = from_be (slice 0 1 payload);
    capabilities = from_be (slice 1 2 payload);
    uptime_seconds = from_be (slice 2 6 payload);
    hot_wallet_pubkey = if leb 38 (length payload) then slice 6 38 payload else [];
  })

pub record TxResult : Type 0 where
  pub orig_msg_id : ℕ
  pub success : Bool
  pub contents : Bytes

unfoldable pub encode_tx_result : ℕ → Bool → Bytes → Result Bytes
encode_tx_result orig_msg_id success contents = do
  i ← u16 orig_msg_id
  s ← u8 (if success then 1 else 0)
  ok (i ++ (s ++ contents))

unfoldable pub decode_tx_result : Bytes → Result TxResult
decode_tx_result payload = do
  require_at_least 3 payload
  ok (record {
    orig_msg_id = from_be (slice 0 2 payload);
    success = from_be (slice 2 3 payload) == 1;
    contents = drop 3 payload;
  })
