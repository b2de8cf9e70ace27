-- ===== src/Protocol/Frame/RoundTrip.antt =====
-- Packing and unpacking a frame are inverse.
use solmesh.Prelude.{
  ℕ, suc, ◌+◌, ◌-◌, ◌*◌, ◌/◌, ◌%◌, ◌≤◌, ◌<◌, ◌≡◌, refl, ap, ◌∙◌, ◌↔◌, ◌⊎◌, [], ◌∷◌, ◌++◌, arith,
  ltb, ltb-false, lt→ltb, leb, Bool-cases, inl, inr, ==_refl, ok, err, value_error, struct_error,
  payload_too_large, ◌>>=◌, length, All-take, take, take-append_left, if◌then◌else◌,
}
use solmesh.Constants.{Bytes}
use solmesh.Protocol.Struct.{IsBytes, u8, u16}
use solmesh.Protocol.Crc.{crc8, crc8-lt}
use solmesh.Protocol.Frame.Inversion.{Ten, ten, view, unpack-length, accepted}
use solmesh.Protocol.Frame.{SolMeshHeader, pack_message, unpack_message}

-- What a sender may put into a frame.
pub record IsSendable (msg_type msg_id chunk_num total_chunks : ℕ) (payload : Bytes) : Type 0 where
  pub type_fits : msg_type < 256
  pub id_fits : msg_id < 65536
  pub chunk_fits : chunk_num < 256
  pub total_fits : total_chunks < 256
  pub payload_fits : length payload ≤ 210
  pub payload_bytes : IsBytes payload

-- The nine bytes that the checksum covers besides the payload.
abbrev pub covered : ℕ → ℕ → ℕ → ℕ → Bytes → Bytes
covered t i c n payload =
    0x53 ∷ 0x4d ∷ 1 ∷ t ∷ (i / 256) ∷ (i % 256) ∷ c ∷ n ∷ length payload ∷ payload

abbrev pub frame_of : ℕ → ℕ → ℕ → ℕ → Bytes → Bytes
frame_of t i c n payload =
    0x53
    ∷ 0x4d
    ∷ 1
    ∷ t
    ∷ (i / 256)
    ∷ (i % 256)
    ∷ c
    ∷ n
    ∷ length payload
    ∷ crc8 (covered t i c n payload)
    ∷ payload

u8-eq : (n : ℕ) → n < 256 → u8 n ≡ ok (n ∷ [])
u8-eq n h = ground arith

u16-eq : (n : ℕ) → n < 65536 → u16 n ≡ ok ((n / 256) ∷ (n % 256) ∷ [])
u16-eq n h = ground arith

covered-IsBytes :
    (t i c n : ℕ) (payload : Bytes) → IsSendable t i c n payload → IsBytes (covered t i c n payload)
covered-IsBytes t i c n payload v =
    let nums : (t < 256)
        × (i / 256 < 256)
        × (i % 256 < 256)
        × (c < 256)
        × (n < 256)
        × (length payload < 256) =
      omega arith in
    (
      omega arith,
      (
        omega arith,
        (omega arith, (nums.0, (nums.1, (nums.2, (nums.3, (nums.4, (nums.5, v.payload_bytes))))))),
      ),
    )

pub pack_message-eq :
    (t i c n : ℕ) (payload : Bytes)
    → IsSendable t i c n payload
    → pack_message t i c n payload ≡ ok (frame_of t i c n payload)
unfolding pack_message
pack_message-eq t i c n payload v =
    let check : crc8 (covered t i c n payload) < 256 =
      crc8-lt (covered t i c n payload) (covered-IsBytes t i c n payload v) in
    simp (
      ltb-false 210 (length payload) v.payload_fits,
      u8-eq t v.type_fits,
      u16-eq i v.id_fits,
      u8-eq c v.chunk_fits,
      u8-eq n v.total_fits,
      u8-eq (length payload) (omega arith),
      u8-eq (crc8 (covered t i c n payload)) check,
    )

pub unpack-frame_of :
    (t i c n : ℕ) (payload rest : Bytes)
    → unpack_message (frame_of t i c n payload ++ rest)
      ≡ ok (
        record {
          msg_type = t;
          msg_id = i;
          chunk_num = c;
          total_chunks = n;
          payload_len = length payload;
          checksum = crc8 (covered t i c n payload);
        },
        payload,
      )
unfolding unpack_message
unpack-frame_of t i c n payload rest =
    simp
      (
        take-append_left (10 + length payload - 10) payload rest (omega arith),
        ltb-false (length (frame_of t i c n payload ++ rest)) 10 (omega arith),
        ==_refl,
      )
      (let id : (0 + i / 256) * 256 + i % 256 ≡ i = omega arith in rw id)

-- What fits a frame is packed, and the frame is read back as it was packed, whatever bytes follow it
-- in the buffer: every header field, the payload, and the checksum over header and payload.
pub unpack-pack :
    (t i c n : ℕ) (payload rest : Bytes)
    → IsSendable t i c n payload
    → (pack_message t i c n payload >>= λ raw. unpack_message (raw ++ rest))
      ≡ ok (
        record {
          msg_type = t;
          msg_id = i;
          chunk_num = c;
          total_chunks = n;
          payload_len = length payload;
          checksum = crc8 (covered t i c n payload);
        },
        payload,
      )
unpack-pack t i c n payload rest v =
    rw (pack_message-eq t i c n payload v) (unpack-frame_of t i c n payload rest)

-- Of a payload of bytes, `pack_message` makes a frame exactly when every number fits its field and
-- the payload is no longer than 210 bytes.
pub pack_message_iff :
    (t i c n : ℕ) (payload : Bytes)
    → IsBytes payload
    → ((raw : Bytes) × (pack_message t i c n payload ≡ ok raw)) ↔ IsSendable t i c n payload
unfolding pack_message
pack_message_iff t i c n payload b =
    (λ h. ground arith, λ v. (frame_of t i c n payload, pack_message-eq t i c n payload v))

-- With a payload of more than 210 bytes or a number that does not fit its field, `pack_message`
-- raises: `ValueError` for the long payload, whatever the other arguments are, else `struct.error`.
pub pack_message_raises :
    (t i c n : ℕ) (payload : Bytes)
    → (210 < length payload) ⊎ (256 ≤ t) ⊎ (65536 ≤ i) ⊎ (256 ≤ c) ⊎ (256 ≤ n)
    → pack_message t i c n payload
      ≡ err (
          if ltb 210 (length payload)
          then value_error (payload_too_large (length payload))
          else struct_error)
unfolding pack_message
pack_message_raises t i c n payload h = ground arith

repack-Ten :
    (raw : Bytes)
    → Ten raw
    → {h : SolMeshHeader} {p : Bytes} → IsBytes raw
    → unpack_message raw ≡ ok (h, p)
    → length p ≤ 210
    → pack_message h.msg_type h.msg_id h.chunk_num h.total_chunks p ≡ ok (take (10 + length p) raw)
repack-Ten raw (ten a0 a1 a2 a3 a4 a5 a6 a7 a8 a9 rest) {h} {p} b e small =
    let v = accepted a0 a1 a2 a3 a4 a5 a6 a7 a8 a9 rest e in
    let in_rest : IsBytes (take a8 rest) =
      All-take (λ (x : ℕ). x < 256) a8 rest b.1.1.1.1.1.1.1.1.1.1 in
    let p_bytes : IsBytes p = rw v.payload_eq in_rest in
    let p_len : length p ≡ a8 = ap length v.payload_eq ∙ v.payload_length in
    let nums : (a3 < 256) × (a4 < 256) × (a5 < 256) × (a6 < 256) × (a7 < 256) =
      (b.1.1.1.0, b.1.1.1.1.0, b.1.1.1.1.1.0, b.1.1.1.1.1.1.0, b.1.1.1.1.1.1.1.0) in
    let sendable : IsSendable h.msg_type h.msg_id h.chunk_num h.total_chunks p = record {
      type_fits = omega (arith, v.type_eq);
      id_fits = omega (arith, v.id_eq);
      chunk_fits = omega (arith, v.chunk_eq);
      total_fits = omega (arith, v.total_eq);
      payload_fits = small;
      payload_bytes = p_bytes;
    } in
    let high : h.msg_id / 256 ≡ a4 = omega (arith, v.id_eq) in
    let low : h.msg_id % 256 ≡ a5 = omega (arith, v.id_eq) in
    let cut : take (10 + length p) (a0 ∷ a1 ∷ a2 ∷ a3 ∷ a4 ∷ a5 ∷ a6 ∷ a7 ∷ a8 ∷ a9 ∷ rest)
        ≡ a0 ∷ a1 ∷ a2 ∷ a3 ∷ a4 ∷ a5 ∷ a6 ∷ a7 ∷ a8 ∷ a9 ∷ take a8 rest =
      let ten_more : 10 + length p ≡ suc (suc (suc (suc (suc (suc (suc (suc (suc (suc a8))))))))) =
        omega arith in
      rw ten_more in
    pack_message-eq h.msg_type h.msg_id h.chunk_num h.total_chunks p sendable
    ∙ ap ok (ground (arith, cut, v.crc, v.payload_eq))

-- Reading determines the frame: of a buffer of bytes that `unpack_message` accepts, packing what
-- was read gives back the very bytes that were read, without what followed them, where the payload
-- has at most 210 bytes; with a longer one `pack_message` raises `ValueError`.
pub pack-unpack :
    (raw : Bytes) {h : SolMeshHeader} {p : Bytes}
    → IsBytes raw
    → unpack_message raw ≡ ok (h, p)
    → pack_message h.msg_type h.msg_id h.chunk_num h.total_chunks p ≡ (
        if leb (length p) 210
        then ok (take (10 + length p) raw)
        else err (value_error (payload_too_large (length p))))
pack-unpack raw {h} {p} b e = elim (Bool-cases (leb (length p) 210)) [
  | inl small ↦
      rw small (repack-Ten raw (view raw (unpack-length raw e)) b e (ground (arith, small)))
  | inr large ↦
      let over : 210 < length p = ground (arith, large) in
      rw large (
        pack_message_raises h.msg_type h.msg_id h.chunk_num h.total_chunks p (inl over)
        ∙ rw (lt→ltb 210 (length p) over) refl)
]
