-- ===== src/Protocol/Crc.antt =====
-- `crc8` of src/solmesh/protocol.py, and what it detects.
use solmesh.Prelude.{
  ℕ, zero, suc, ◌+◌, ◌*◌, ◌/◌, ◌%◌, ◌<◌, bit_and, bit_xor, ◌≡◌, refl, ap, ◌≢◌, sym, ◌∙◌, true, ◌&&◌,
  [], ◌∷◌, arith, ltb, ◌==◌, if◌then◌else◌, length, get_or, set,
}
use solmesh.Prelude.Bits.{true_below, true_below_sound, bit_xor_cancel, bit_xor_comm, bit_xor-lt}
use solmesh.Constants.{Bytes}
use solmesh.Protocol.Struct.{IsBytes}

-- One round of the inner loop: shift left by one bit, and reduce by the polynomial 0x31.
crc_bit : ℕ → ℕ
crc_bit crc = bit_and (if bit_and crc 0x80 == 0 then crc * 2 else bit_xor (crc * 2) 0x31) 0xff

-- `for _ in range(8)`.
crc_rounds : ℕ → ℕ → ℕ
crc_rounds zero crc = crc
crc_rounds (suc n) crc = crc_rounds n (crc_bit crc)

crc_byte : ℕ → ℕ → ℕ
crc_byte crc byte = crc_rounds 8 (bit_xor crc byte)

-- The outer loop, from a running checksum.
pub crc_from : ℕ → Bytes → ℕ
crc_from crc [] = crc
crc_from crc (byte ∷ rest) = crc_from (crc_byte crc byte) rest

unfoldable pub crc8 : Bytes → ℕ
unfolding crc_from crc_byte crc_rounds crc_bit
crc8 bytes = crc_from 0 bytes

-- A round run backwards: the lowest bit tells whether the polynomial was applied.
unround : ℕ → ℕ → ℕ
unround zero y = y
unround (suc n) y = let z = unround n y in if z % 2 == 0 then z / 2 else bit_xor z 0x31 / 2 + 128

rounds_table :
    true_below 256 (λ x. ltb (crc_rounds 8 x) 256 && unround 8 (crc_rounds 8 x) == x) ≡ true
unfolding true_below crc_rounds crc_bit unround
rounds_table = refl

rounds_facts : (x : ℕ) → x < 256 → (crc_rounds 8 x < 256) × (unround 8 (crc_rounds 8 x) ≡ x)
rounds_facts x h =
    let p = λ (n : ℕ). ltb (crc_rounds 8 n) 256 && unround 8 (crc_rounds 8 n) == n in
    let both : p x ≡ true = true_below_sound 256 p x rounds_table h in ground (arith, both)

crc_byte-lt : (c b : ℕ) → c < 256 → b < 256 → crc_byte c b < 256
unfolding crc_byte
crc_byte-lt c b h k = (rounds_facts (bit_xor c b) (bit_xor-lt 8 c b h k)).0

-- The checksum of bytes is a byte.
crc_from-lt : (c : ℕ) (xs : Bytes) → c < 256 → IsBytes xs → crc_from c xs < 256
unfolding crc_from
crc_from-lt c [] h k = h
crc_from-lt c (x ∷ xs) h k = crc_from-lt (crc_byte c x) xs (crc_byte-lt c x h k.0) k.1

pub crc8-lt : (xs : Bytes) → IsBytes xs → crc8 xs < 256
unfolding crc8
crc8-lt xs h = crc_from-lt 0 xs (omega arith) h

-- The eight rounds are injective on bytes.
rounds_injective : (x y : ℕ) → x < 256 → y < 256 → crc_rounds 8 x ≡ crc_rounds 8 y → x ≡ y
rounds_injective x y h k e = sym (rounds_facts x h).1 ∙ (ap (unround 8) e ∙ (rounds_facts y k).1)

crc_byte-injective_byte :
    (c x y : ℕ) → c < 256 → x < 256 → y < 256 → crc_byte c x ≡ crc_byte c y → x ≡ y
unfolding crc_byte
crc_byte-injective_byte c x y h p q e =
    let same : bit_xor c x ≡ bit_xor c y =
      rounds_injective (bit_xor c x) (bit_xor c y) (bit_xor-lt 8 c x h p) (bit_xor-lt 8 c y h q)
        e in
    sym (bit_xor_cancel x c)
    ∙ (ap (λ t. bit_xor t c) (bit_xor_comm x c ∙ (same ∙ bit_xor_comm c y)) ∙ bit_xor_cancel y c)

crc_byte-injective_state :
    (c d x : ℕ) → c < 256 → d < 256 → x < 256 → crc_byte c x ≡ crc_byte d x → c ≡ d
unfolding crc_byte
crc_byte-injective_state c d x h k p e =
    let same : bit_xor c x ≡ bit_xor d x =
      rounds_injective (bit_xor c x) (bit_xor d x) (bit_xor-lt 8 c x h p) (bit_xor-lt 8 d x k p)
        e in
    sym (bit_xor_cancel c x) ∙ (ap (λ t. bit_xor t x) same ∙ bit_xor_cancel d x)

crc_from-injective :
    (c d : ℕ) (xs : Bytes) → c < 256 → d < 256 → IsBytes xs → crc_from c xs ≡ crc_from d xs → c ≡ d
unfolding crc_from
crc_from-injective c d [] h k b e = e
crc_from-injective c d (x ∷ xs) h k b e = crc_byte-injective_state c d x h k b.0 (
    crc_from-injective (crc_byte c x) (crc_byte d x) xs (crc_byte-lt c x h b.0)
      (crc_byte-lt d x k b.0) b.1 e)

crc_from-set :
    (c : ℕ) (xs : Bytes) (k y : ℕ)
    → c < 256
    → IsBytes xs
    → k < length xs
    → y < 256
    → crc_from c (set xs k y) ≡ crc_from c xs
    → get_or xs k 0 ≡ y
unfolding crc_from
crc_from-set c [] k y h b lt q e = absurd (omega arith)
crc_from-set c (x ∷ xs) zero y h b lt q e = crc_byte-injective_byte c x y h b.0 q (
    sym (
      crc_from-injective (crc_byte c y) (crc_byte c x) xs (crc_byte-lt c y h q)
        (crc_byte-lt c x h b.0) b.1 e))
crc_from-set c (x ∷ xs) (suc k) y h b lt q e =
    crc_from-set (crc_byte c x) xs k y (crc_byte-lt c x h b.0) b.1 (omega arith) q e

-- Bytes that differ in exactly one place have different checksums.
pub crc8-set :
    (xs : Bytes) (k y : ℕ)
    → IsBytes xs
    → k < length xs
    → y < 256
    → get_or xs k 0 ≢ y
    → crc8 (set xs k y) ≢ crc8 xs
unfolding crc8
crc8-set xs k y b lt q ne e = ne (crc_from-set 0 xs k y (omega arith) b lt q e)
