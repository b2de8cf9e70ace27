-- ===== src/Protocol/Messages/RoundTrip.antt =====
-- Each payload is decoded to what was encoded.
use solmesh.Prelude.{
  ℕ, suc, ◌+◌, ◌^◌, ◌≤◌, ◌<◌, ◌≡◌, refl, ap, sym, ◌⊎◌, Bool, true, false, [], ◌∷◌, ◌++◌, arith, leb,
  lt→ltb, ltb-false, if◌then◌else◌, ok, ◌>>=◌, length, length-append, nonempty_or, nonempty_append,
  append_assoc, drop, take, take_all, take_field, take-append_left, drop-append_left,
}
use solmesh.Constants.{Bytes, Str}
use solmesh.Protocol.Struct.{be, length-be, from_be-be}
use solmesh.Protocol.Request.RoundTrip.{IsText, decode_rest-eq, require_mint-eq}
use solmesh.Protocol.Messages.{
  encode_addr_share, decode_addr_share, encode_ack, decode_ack, encode_nack, decode_nack,
  encode_balance_req, decode_balance_req, encode_balance_resp, decode_balance_resp,
  encode_blockhash_resp, decode_blockhash_resp, encode_gateway_beacon, decode_gateway_beacon,
  encode_tx_result, decode_tx_result,
}

-- A shared address, of 32 bytes with any label in UTF-8, is decoded as it was encoded.
pub decode-encode_addr_share :
    (valid : Bytes → Bool) (pubkey : Bytes) (label : Str)
    → length pubkey ≡ 32
    → IsText valid label
    → (encode_addr_share pubkey label >>= decode_addr_share valid)
      ≡ ok (record { pubkey = pubkey; label = label })
unfolding encode_addr_share decode_addr_share
decode-encode_addr_share valid pubkey label size t =
    let long : 32 ≤ length (pubkey ++ label) = omega (arith, length-append {0} pubkey label) in
    simp (
      size,
      nonempty_append pubkey label,
      ltb-false (length (pubkey ++ label)) 32 long,
      take-append_left 32 pubkey label size,
      decode_rest-eq valid 32 (pubkey ++ label) label (drop-append_left 32 pubkey label size) t,
    )

-- An ACK is decoded as it was encoded, for every message id, chunk and status that fit their
-- fields.
pub decode-encode_ack :
    (msg_id chunk status : ℕ)
    → msg_id < 65536
    → chunk < 256
    → status < 256
    → (encode_ack msg_id chunk status >>= decode_ack)
      ≡ ok (record { acked_msg_id = msg_id; acked_chunk = chunk; status = status })
unfolding encode_ack decode_ack
decode-encode_ack msg_id chunk status hi hc hs = ground arith

-- A NACK with an id below 2 ^ 16, a code below 256 and a text in UTF-8 is decoded as it was
-- encoded.
pub decode-encode_nack :
    (valid : Bytes → Bool) (msg_id code : ℕ) (error_msg : Str)
    → msg_id < 65536
    → code < 256
    → IsText valid error_msg
    → (encode_nack msg_id code error_msg >>= decode_nack valid)
      ≡ ok (record { nacked_msg_id = msg_id; error_code = code; error_msg = error_msg })
unfolding encode_nack decode_nack
decode-encode_nack valid msg_id code error_msg hi hc t =
    let p = be 2 msg_id ++ (be 1 code ++ error_msg) in
    simp
      (
        lt→ltb msg_id 65536 hi,
        lt→ltb code 256 hc,
        nonempty_or error_msg,
        decode_rest-eq valid 3 p error_msg refl t,
        ltb-false (length p) 3 (omega arith),
      )
      (ground arith)

-- The result of a transaction, with an id below 2 ^ 16 and any contents, is decoded as it was
-- encoded.
pub decode-encode_tx_result :
    (msg_id : ℕ) (success : Bool) (contents : Bytes)
    → msg_id < 65536
    → (encode_tx_result msg_id success contents >>= decode_tx_result)
      ≡ ok (record { orig_msg_id = msg_id; success = success; contents = contents })
unfolding encode_tx_result decode_tx_result
decode-encode_tx_result msg_id true contents hi = ground arith
decode-encode_tx_result msg_id false contents hi = ground arith

-- A blockhash of 32 bytes is decoded as it was encoded.
pub decode-encode_blockhash_resp :
    (blockhash : Bytes)
    → length blockhash ≡ 32
    → (encode_blockhash_resp blockhash >>= decode_blockhash_resp) ≡ ok blockhash
unfolding encode_blockhash_resp decode_blockhash_resp
decode-encode_blockhash_resp blockhash size = simp (size, take_all 32 blockhash (omega arith))

optional_mint :
    (n : ℕ) (head mint : Bytes)
    → length head ≡ n
    → (mint ≡ []) ⊎ (length mint ≡ 32)
    → (if leb (n + 32) (length (head ++ mint)) then take 32 (drop n (head ++ mint)) else []) ≡ mint
optional_mint n head mint size m = ground (
  arith,
  length-append {0} head mint,
  drop-append_left n head mint size,
  take_all {0} 32 mint,
  ap length (drop-append_left n head mint size),
)

-- A balance request is decoded as it was encoded: a key of 32 bytes, and no mint or one of 32
-- bytes.
pub decode-encode_balance_req :
    (pubkey mint : Bytes)
    → length pubkey ≡ 32
    → (mint ≡ []) ⊎ (length mint ≡ 32)
    → (encode_balance_req pubkey mint >>= decode_balance_req)
      ≡ ok (record { pubkey = pubkey; mint = mint })
unfolding encode_balance_req decode_balance_req
decode-encode_balance_req pubkey mint size m = simp (
  size,
  require_mint-eq mint m,
  nonempty_append pubkey mint,
  ltb-false (length (pubkey ++ mint)) 32 (omega (arith, length-append {0} pubkey mint)),
  take-append_left 32 pubkey mint size,
  optional_mint 32 pubkey mint size m,
)

-- A balance response is decoded as it was encoded: a key of 32 bytes, an amount below 2 ^ 64, and
-- no mint or one of 32 bytes.
pub decode-encode_balance_resp :
    (pubkey : Bytes) (amount : ℕ) (mint : Bytes)
    → length pubkey ≡ 32
    → amount < 2 ^ 64
    → (mint ≡ []) ⊎ (length mint ≡ 32)
    → (encode_balance_resp pubkey amount mint >>= decode_balance_resp)
      ≡ ok (record { pubkey = pubkey; lamports = amount; amount = amount; mint = mint })
unfolding encode_balance_resp decode_balance_resp
decode-encode_balance_resp pubkey amount mint size fits m =
    let p = pubkey ++ (be 8 amount ++ mint) in
    let head_size : length (pubkey ++ be 8 amount) ≡ 40 =
      omega (arith, length-append {0} pubkey (be 8 amount), length-be 8 amount) in
    let joined : pubkey ++ (be 8 amount ++ mint) ≡ (pubkey ++ be 8 amount) ++ mint =
      sym (append_assoc pubkey (be 8 amount) mint) in
    let mint_read : (if leb 72 (length p) then take 32 (drop 40 p) else []) ≡ mint =
      rw joined (optional_mint 40 (pubkey ++ be 8 amount) mint head_size m) in
    let d32 : drop 32 p ≡ be 8 amount ++ mint =
      drop-append_left 32 pubkey (be 8 amount ++ mint) size in
    let long : 40 ≤ length p =
      omega (arith, ap length joined, length-append {0} (pubkey ++ be 8 amount) mint) in
    simp (
      size,
      require_mint-eq mint m,
      lt→ltb amount (2 ^ 64) fits,
      nonempty_or mint,
      ltb-false (length p) 40 long,
      take-append_left 32 pubkey (be 8 amount ++ mint) size,
      take_field 32 8 p (be 8 amount) mint d32 (length-be 8 amount),
      from_be-be 8 amount fits,
      mint_read,
    )

-- A beacon whose numbers fit their fields, with no hot wallet's key or one of 32 bytes, is decoded
-- as it was encoded.
pub decode-encode_gateway_beacon :
    (version capabilities uptime : ℕ) (pubkey : Bytes)
    → version < 256
    → capabilities < 256
    → uptime < 2 ^ 32
    → (pubkey ≡ []) ⊎ (length pubkey ≡ 32)
    → (encode_gateway_beacon version capabilities pubkey uptime >>= decode_gateway_beacon)
      ≡ ok (record {
        version = version;
        capabilities = capabilities;
        uptime_seconds = uptime;
        hot_wallet_pubkey = pubkey;
      })
unfolding encode_gateway_beacon decode_gateway_beacon
decode-encode_gateway_beacon version capabilities uptime [] hv hc hu m =
    simp (lt→ltb version 256 hv, lt→ltb capabilities 256 hc, lt→ltb uptime (2 ^ 32) hu)
      (ground arith)
decode-encode_gateway_beacon version capabilities uptime (k ∷ pubkey) hv hc hu m =
    let size : suc (length pubkey) ≡ 32 = ground (arith, m) in
    simp
      (
        lt→ltb version 256 hv,
        lt→ltb capabilities 256 hc,
        lt→ltb uptime (2 ^ 32) hu,
        size,
        take_all 32 (k ∷ pubkey) (omega arith),
      )
      (ground arith)
