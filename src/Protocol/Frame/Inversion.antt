-- ===== src/Protocol/Frame/Inversion.antt =====
-- What an accepted frame looks like, byte by byte.
use solmesh.Prelude.{
  ℕ, ◌+◌, ◌-◌, ◌*◌, ◌≤◌, ◌≡◌, ◌∷◌, arith, ok, err, Exn, value_error, Reason, length, take,
}
use solmesh.Constants.{Bytes}
use solmesh.Protocol.Crc.{crc8}
use solmesh.Protocol.Frame.{SolMeshHeader, unpack_message}

-- The first ten bytes, and the rest.
pub data Ten : Bytes → Type 0 where
  ten :
      (a0 a1 a2 a3 a4 a5 a6 a7 a8 a9 : ℕ) (rest : Bytes)
      → Ten (a0 ∷ a1 ∷ a2 ∷ a3 ∷ a4 ∷ a5 ∷ a6 ∷ a7 ∷ a8 ∷ a9 ∷ rest)

pub view : (raw : Bytes) → 10 ≤ length raw → Ten raw
view (a0 ∷ a1 ∷ a2 ∷ a3 ∷ a4 ∷ a5 ∷ a6 ∷ a7 ∷ a8 ∷ a9 ∷ rest) h =
    ten a0 a1 a2 a3 a4 a5 a6 a7 a8 a9 rest
view _ h = absurd (omega arith)

-- What `unpack_message` has checked, and what it returns.
pub record Accepted (a0 a1 a2 a3 a4 a5 a6 a7 a8 a9 : ℕ) (rest : Bytes) (h : SolMeshHeader)
    (p : Bytes) : Type 0 where
  pub magic_0 : a0 ≡ 0x53
  pub magic_1 : a1 ≡ 0x4d
  pub version : a2 ≡ 1
  pub payload_eq : p ≡ take a8 rest
  pub payload_length : length (take a8 rest) ≡ a8
  pub crc : a9 ≡ crc8 (a0 ∷ a1 ∷ a2 ∷ a3 ∷ a4 ∷ a5 ∷ a6 ∷ a7 ∷ a8 ∷ take a8 rest)
  pub type_eq : h.msg_type ≡ a3
  pub id_eq : h.msg_id ≡ a4 * 256 + a5
  pub chunk_eq : h.chunk_num ≡ a6
  pub total_eq : h.total_chunks ≡ a7
  pub len_eq : h.payload_len ≡ a8
  pub checksum_eq : h.checksum ≡ a9

pub unpack-length :
    (raw : Bytes) {h : SolMeshHeader} {p : Bytes} → unpack_message raw ≡ ok (h, p) → 10 ≤ length raw
unfolding unpack_message
unpack-length raw e = ground arith

pub accepted :
    (a0 a1 a2 a3 a4 a5 a6 a7 a8 a9 : ℕ) (rest : Bytes) {h : SolMeshHeader} {p : Bytes}
    → unpack_message (a0 ∷ a1 ∷ a2 ∷ a3 ∷ a4 ∷ a5 ∷ a6 ∷ a7 ∷ a8 ∷ a9 ∷ rest) ≡ ok (h, p)
    → Accepted a0 a1 a2 a3 a4 a5 a6 a7 a8 a9 rest h p
unfolding unpack_message
accepted a0 a1 a2 a3 a4 a5 a6 a7 a8 a9 rest e =
    let cut : 10 + a8 - 10 ≡ a8 = omega arith in ground arith

-- `unpack_message` raises nothing but `ValueError`.
pub unpack_raises :
    (raw : Bytes) {e : Exn} → unpack_message raw ≡ err e → (r : Reason) × (e ≡ value_error r)
unfolding unpack_message
unpack_raises raw h = ground arith
