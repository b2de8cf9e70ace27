-- ===== src/Protocol/Request/RoundTrip.antt =====
-- An encoded TX_REQUEST is decoded to what was encoded.
use solmesh.Prelude.{
  ℕ, ◌+◌, ◌^◌, ◌≤◌, ◌<◌, ◌≡◌, refl, ap, ◌∙◌, ◌⊎◌, Bool, true, [], ◌∷◌, ◌++◌, arith, lt→ltb,
  ltb-false, if◌then◌else◌, ok, ◌>>=◌, length, length-append, length-drop, drop_all, nonempty,
  get_or, drop, take, drop_past, take_field, nonempty_or, bit_or, get_or-drop, take-append_left,
  drop-append_left,
}
use solmesh.Constants.{Bytes}
use solmesh.Protocol.Struct.{u8, be, length-be, from_be-be}
use solmesh.Protocol.Request.{
  encode_tx_request, decode_tx_request, decode_mint, decode_rest, require_mint,
}

-- The bytes of a request whose fields have their sizes.
abbrev pub layout : Bytes → Bytes → Bytes → ℕ → ℕ → Bytes → Bytes
layout sig sender dest amount flag tail =
    sig ++ (sender ++ (dest ++ (be 8 amount ++ (flag ∷ tail))))

-- What the text decoder accepts: nothing at all, or UTF-8.
abbrev pub IsText : (Bytes → Bool) → Bytes → Type 0
IsText valid memo = (memo ≡ []) ⊎ (valid memo ≡ true)

-- The sizes that a request needs.
pub record IsRequest (sender dest : Bytes) (amount : ℕ) (sig mint : Bytes) : Type 0 where
  pub sig_size : length sig ≡ 64
  pub sender_size : length sender ≡ 32
  pub dest_size : length dest ≡ 32
  pub amount_fits : amount < 2 ^ 64
  pub mint_size : (mint ≡ []) ⊎ (length mint ≡ 32)

abbrev pub flag_of : Bytes → ℕ
flag_of mint = if nonempty mint then 1 else 0

pub require_mint-eq : (mint : Bytes) → (mint ≡ []) ⊎ (length mint ≡ 32) → require_mint mint ≡ ok tt
require_mint-eq [] h = refl
require_mint-eq (m ∷ mint) h = ground arith

pub flag_byte-eq :
    (mint : Bytes) → u8 (if nonempty mint then bit_or 0 1 else 0) ≡ ok (flag_of mint ∷ [])
flag_byte-eq [] = refl
flag_byte-eq (m ∷ mint) = refl

pub encode-eq :
    (sender dest : Bytes) (amount : ℕ) (sig memo mint : Bytes)
    → IsRequest sender dest amount sig mint
    → encode_tx_request sender dest amount sig memo mint
      ≡ ok (layout sig sender dest amount (flag_of mint) (mint ++ memo))
unfolding encode_tx_request
encode-eq sender dest amount sig memo mint v = simp (
  v.sig_size,
  v.sender_size,
  v.dest_size,
  require_mint-eq mint v.mint_size,
  lt→ltb amount (2 ^ 64) v.amount_fits,
  flag_byte-eq mint,
  nonempty_or mint,
  nonempty_or memo,
)

pub decode_rest-eq :
    (valid : Bytes → Bool) (k : ℕ) (payload memo : Bytes)
    → drop k payload ≡ memo
    → IsText valid memo
    → decode_rest valid k payload ≡ ok memo
decode_rest-eq valid k payload memo e t =
    ground (arith, length-drop {0} k payload, drop_all {0} k payload, ap length e)

-- Reading the flags and the mint of any payload that has them from byte 136 on.
decode_mint-eq :
    (payload memo mint : Bytes)
    → drop 136 payload ≡ flag_of mint ∷ (mint ++ memo)
    → (mint ≡ []) ⊎ (length mint ≡ 32)
    → decode_mint payload ≡ ok (flag_of mint, mint, 137 + length mint)
unfolding decode_mint
decode_mint-eq payload memo [] e size =
    let flag : get_or payload 136 0 ≡ 0 = get_or-drop 136 payload 0 ∙ ap (λ t. get_or t 0 0) e in
    let long : 137 ≤ length payload = omega (arith, ap length e, length-drop {0} 136 payload) in
    simp (lt→ltb 136 (length payload) long, flag)
decode_mint-eq payload memo (m ∷ mint) e size =
    let flag : get_or payload 136 0 ≡ 1 = get_or-drop 136 payload 0 ∙ ap (λ t. get_or t 0 0) e in
    let size' : length (m ∷ mint) ≡ 32 = ground (arith, size) in
    let field : take 32 (drop 137 payload) ≡ m ∷ mint =
      take_field 137 32 payload (m ∷ mint) memo
        (drop_past 136 1 payload (1 ∷ []) ((m ∷ mint) ++ memo) e refl) size' in
    let long : 169 ≤ length payload =
      omega (arith, ap length e, length-append {0} mint memo, length-drop {0} 136 payload) in
    let past : 137 + length (m ∷ mint) ≡ 169 = omega arith in
    simp (
      lt→ltb 136 (length payload) (omega arith),
      ltb-false (length payload) 169 long,
      flag,
      field,
      past,
    )

decode-eq :
    (valid : Bytes → Bool) (sender dest : Bytes) (amount : ℕ) (sig memo mint : Bytes)
    → IsRequest sender dest amount sig mint
    → IsText valid memo
    → decode_tx_request valid (layout sig sender dest amount (flag_of mint) (mint ++ memo))
      ≡ ok (record {
        signature = sig;
        sender_pubkey = sender;
        dest_pubkey = dest;
        amount = amount;
        lamports = amount;
        flags = flag_of mint;
        mint = mint;
        memo = memo;
      })
unfolding decode_tx_request
decode-eq valid sender dest amount sig memo mint v t =
    let rest = flag_of mint ∷ (mint ++ memo) in
    let p = layout sig sender dest amount (flag_of mint) (mint ++ memo) in
    let d64 : drop 64 p ≡ sender ++ (dest ++ (be 8 amount ++ rest)) =
      drop-append_left 64 sig (sender ++ (dest ++ (be 8 amount ++ rest))) v.sig_size in
    let d96 : drop 96 p ≡ dest ++ (be 8 amount ++ rest) =
      drop_past 64 32 p sender (dest ++ (be 8 amount ++ rest)) d64 v.sender_size in
    let d128 : drop 128 p ≡ be 8 amount ++ rest =
      drop_past 96 32 p dest (be 8 amount ++ rest) d96 v.dest_size in
    let d136 : drop 136 p ≡ rest = drop_past 128 8 p (be 8 amount) rest d128 (length-be 8 amount) in
    let long : 137 ≤ length p = omega (arith, ap length d136, length-drop {0} 136 p) in
    let d137 : drop (137 + length mint) p ≡ memo =
      drop_past 137 (length mint) p mint memo
        (drop_past 136 1 p (flag_of mint ∷ []) (mint ++ memo) d136 refl) refl in
    simp (
      ltb-false (length p) 136 (omega arith),
      decode_mint-eq p memo mint d136 v.mint_size,
      decode_rest-eq valid (137 + length mint) p memo d137 t,
      take-append_left 64 sig (sender ++ (dest ++ (be 8 amount ++ rest))) v.sig_size,
      take_field 64 32 p sender (dest ++ (be 8 amount ++ rest)) d64 v.sender_size,
      take_field 96 32 p dest (be 8 amount ++ rest) d96 v.dest_size,
      take_field 128 8 p (be 8 amount) rest d128 (length-be 8 amount),
      from_be-be 8 amount v.amount_fits,
    )

-- A request whose fields have their sizes (a signature of 64 bytes, keys of 32, no mint or one of 32,
-- an amount below 2 ^ 64) and whose memo is UTF-8 is encoded, and decoding gives every field back,
-- with the mint flag set exactly when there is a mint.
pub decode-encode_tx_request :
    (valid : Bytes → Bool) (sender dest : Bytes) (amount : ℕ) (sig memo mint : Bytes)
    → IsRequest sender dest amount sig mint
    → IsText valid memo
    → (encode_tx_request sender dest amount sig memo mint >>= decode_tx_request valid)
      ≡ ok (record {
        signature = sig;
        sender_pubkey = sender;
        dest_pubkey = dest;
        amount = amount;
        lamports = amount;
        flags = flag_of mint;
        mint = mint;
        memo = memo;
      })
decode-encode_tx_request valid sender dest amount sig memo mint v t =
    rw (encode-eq sender dest amount sig memo mint v)
      (decode-eq valid sender dest amount sig memo mint v t)

-- An encoded request is 137 bytes, and the mint and the memo.
pub length-encode_tx_request :
    (sender dest : Bytes) (amount : ℕ) (sig memo mint : Bytes) {payload : Bytes}
    → IsRequest sender dest amount sig mint
    → encode_tx_request sender dest amount sig memo mint ≡ ok payload
    → length payload ≡ 137 + length mint + length memo
length-encode_tx_request sender dest amount sig memo mint {payload} v e =
    let rest = flag_of mint ∷ (mint ++ memo) in
    let same : layout sig sender dest amount (flag_of mint) (mint ++ memo) ≡ payload =
      cc (encode-eq sender dest amount sig memo mint v) in
    rw (← same) (
      omega (
        arith,
        length-append {0} sig (sender ++ (dest ++ (be 8 amount ++ rest))),
        length-append {0} sender (dest ++ (be 8 amount ++ rest)),
        length-append {0} dest (be 8 amount ++ rest),
        length-append {0} (be 8 amount) rest,
        length-append {0} mint memo,
        length-be 8 amount,
        v.sig_size,
        v.sender_size,
        v.dest_size,
      ))
