-- ===== src/Protocol/Request.antt =====
-- The TX_REQUEST payload of src/solmesh/protocol.py, and the text decoding that the payloads share.
pub mod RoundTrip
use solmesh.Prelude.{
  ℕ, ◌+◌, Bool, List, [], ◌∷◌, ◌++◌, not, ◌&&◌, ltb, ◌==◌, if◌then◌else◌, bit_and, bit_or, Result,
  ok, err, value_error, bad_length, too_short, mint_flag_too_short, not_utf8, ◌>>=◌, ◌>>◌, raise_if,
  length, nonempty, get_or, slice, drop,
}
use solmesh.Constants.{Bytes, Str}
use solmesh.Protocol.Struct.{u8, u64, from_be}

-- `raw.decode("utf-8")`: `valid` tells which byte strings are UTF-8. What it raises is a
-- `UnicodeDecodeError`, which is a `ValueError`.
abbrev pub decode_utf8 : (Bytes → Bool) → Bytes → Result Str
decode_utf8 valid raw = if valid raw then ok raw else err (value_error not_utf8)

-- `payload[k:].decode("utf-8") if len(payload) > k else ""`
abbrev pub decode_rest : (Bytes → Bool) → ℕ → Bytes → Result Str
decode_rest valid k payload =
    if ltb k (length payload) then decode_utf8 valid (drop k payload) else ok []

-- `if len(xs) != n: raise ValueError(...)`
abbrev pub require_length : ℕ → Bytes → Result (Unit {0})
require_length n xs = raise_if (not (length xs == n)) (value_error bad_length)

-- `if mint and len(mint) != 32: raise ValueError(...)`
abbrev pub require_mint : Bytes → Result (Unit {0})
require_mint mint = raise_if (nonempty mint && not (length mint == 32)) (value_error bad_length)

-- `if len(payload) < n: raise ValueError(...)`
abbrev pub require_at_least : ℕ → Bytes → Result (Unit {0})
require_at_least n payload =
    raise_if (ltb (length payload) n) (value_error (too_short (length payload) n))

-- The dict that `decode_tx_request` returns.
pub record TxRequest : Type 0 where
  pub signature : Bytes
  pub sender_pubkey : Bytes
  pub dest_pubkey : Bytes
  pub amount : ℕ
  pub lamports : ℕ
  pub flags : ℕ
  pub mint : Bytes
  pub memo : Str

unfoldable pub encode_tx_request : Bytes → Bytes → ℕ → Bytes → Str → Bytes → Result Bytes
encode_tx_request sender_pubkey dest_pubkey amount signature memo mint = do
  require_length 64 signature
  require_length 32 sender_pubkey
  require_length 32 dest_pubkey
  require_mint mint
  let flags = if nonempty mint then bit_or 0 1 else 0
  amount_bytes ← u64 amount
  flag_byte ← u8 flags
  let tail = (if nonempty mint then mint else []) ++ (if nonempty memo then memo else [])
  ok (signature ++ (sender_pubkey ++ (dest_pubkey ++ (amount_bytes ++ (flag_byte ++ tail)))))

-- The flags, the mint, and where the memo begins.
unfoldable pub decode_mint : Bytes → Result (ℕ × Bytes × ℕ)
decode_mint payload =
    if ltb 136 (length payload)
    then (let flags = get_or payload 136 0 in
        if bit_and flags 1 == 0
        then ok (flags, [], 137)
        else if ltb (length payload) 169
        then err (value_error (mint_flag_too_short (length payload)))
        else ok (flags, slice 137 169 payload, 169))
    else ok (0, [], 136)

unfoldable pub decode_tx_request : (Bytes → Bool) → Bytes → Result TxRequest
unfolding decode_mint
decode_tx_request valid payload = do
  require_at_least 136 payload
  let amount = from_be (slice 128 136 payload)
  (flags, mint, memo_offset) ← decode_mint payload
  memo ← decode_rest valid memo_offset payload
  ok (record {
    signature = slice 0 64 payload;
    sender_pubkey = slice 64 96 payload;
    dest_pubkey = slice 96 128 payload;
    amount = amount;
    lamports = amount;
    flags = flags;
    mint = mint;
    memo = memo;
  })
