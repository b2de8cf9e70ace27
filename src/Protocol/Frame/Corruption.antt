-- ===== src/Protocol/Frame/Corruption.antt =====
-- What the checks of `unpack_message` detect.
use solmesh.Prelude.{
  Reason, value_error, err, Result-cases, inl, inr, ◌∙◌, ℕ, zero, suc, ◌+◌, ◌<◌, ◌≡◌, refl, ap, sym,
  ◌≢◌, ◌∷◌, arith, ok, length, get_or, set, take, All-take, take-set, get_or-take,
}
use solmesh.Constants.{Bytes}
use solmesh.Protocol.Struct.{IsBytes}
use solmesh.Protocol.Crc.{crc8, crc8-set}
use solmesh.Protocol.Frame.{SolMeshHeader, unpack_message}
use solmesh.Protocol.Frame.Inversion.{
  Ten, ten, view, unpack_raises, unpack-length, accepted, Accepted,
}

-- The checksummed part, with another byte in one place, does not have the same checksum.
detected :
    (a0 a1 a2 a3 a4 a5 a6 a7 a8 a9 : ℕ) (rest : Bytes) (k y : ℕ)
    → k < 9 + length (take a8 rest)
    → y < 256
    → IsBytes (a0 ∷ a1 ∷ a2 ∷ a3 ∷ a4 ∷ a5 ∷ a6 ∷ a7 ∷ a8 ∷ a9 ∷ rest)
    → get_or (a0 ∷ a1 ∷ a2 ∷ a3 ∷ a4 ∷ a5 ∷ a6 ∷ a7 ∷ a8 ∷ take a8 rest) k 0 ≢ y
    → a9 ≡ crc8 (a0 ∷ a1 ∷ a2 ∷ a3 ∷ a4 ∷ a5 ∷ a6 ∷ a7 ∷ a8 ∷ take a8 rest)
    → a9 ≡ crc8 (set (a0 ∷ a1 ∷ a2 ∷ a3 ∷ a4 ∷ a5 ∷ a6 ∷ a7 ∷ a8 ∷ take a8 rest) k y)
    → ⊥
detected a0 a1 a2 a3 a4 a5 a6 a7 a8 a9 rest k y lt q b ne e f =
    let (b0, b1, b2, b3, b4, b5, b6, b7, b8, b9, br) = flat b in
    crc8-set (a0 ∷ a1 ∷ a2 ∷ a3 ∷ a4 ∷ a5 ∷ a6 ∷ a7 ∷ a8 ∷ take a8 rest) k y
      (b0, (b1, (b2, (b3, (b4, (b5, (b6, (b7, (b8, All-take (λ (x : ℕ). x < 256) a8 rest br)))))))))
      (omega arith) q ne (sym f ∙ e)
  where
    flat :
        IsBytes (a0 ∷ a1 ∷ a2 ∷ a3 ∷ a4 ∷ a5 ∷ a6 ∷ a7 ∷ a8 ∷ a9 ∷ rest)
        → (a0 < 256)
          × (a1 < 256)
          × (a2 < 256)
          × (a3 < 256)
          × (a4 < 256)
          × (a5 < 256)
          × (a6 < 256)
          × (a7 < 256)
          × (a8 < 256)
          × (a9 < 256)
          × IsBytes rest
    flat (p0, (p1, (p2, (p3, (p4, (p5, (p6, (p7, (p8, (p9, r)))))))))) =
        (p0, p1, p2, p3, p4, p5, p6, p7, p8, p9, r)

module _ (a0 a1 a2 a3 a4 a5 a6 a7 a8 a9 : ℕ) (rest : Bytes) (y : ℕ) {h h' : SolMeshHeader}
    {p p' : Bytes} (v : Accepted a0 a1 a2 a3 a4 a5 a6 a7 a8 a9 rest h p) (y_fits : y < 256)
    (b : IsBytes (a0 ∷ a1 ∷ a2 ∷ a3 ∷ a4 ∷ a5 ∷ a6 ∷ a7 ∷ a8 ∷ a9 ∷ rest)) where
  -- The change, place by place.
  changed :
      (k : ℕ)
      → unpack_message (set (a0 ∷ a1 ∷ a2 ∷ a3 ∷ a4 ∷ a5 ∷ a6 ∷ a7 ∷ a8 ∷ a9 ∷ rest) k y)
        ≡ ok (h', p')
      → k ≢ 8
      → k < 10 + length (take a8 rest)
      → get_or (a0 ∷ a1 ∷ a2 ∷ a3 ∷ a4 ∷ a5 ∷ a6 ∷ a7 ∷ a8 ∷ a9 ∷ rest) k 0 ≢ y
      → ⊥
  changed zero f n8 lt ne =
      let w = accepted y a1 a2 a3 a4 a5 a6 a7 a8 a9 rest f in ne (v.magic_0 ∙ sym w.magic_0)
  changed (suc zero) f n8 lt ne =
      let w = accepted a0 y a2 a3 a4 a5 a6 a7 a8 a9 rest f in ne (v.magic_1 ∙ sym w.magic_1)
  changed (suc (suc zero)) f n8 lt ne =
      let w = accepted a0 a1 y a3 a4 a5 a6 a7 a8 a9 rest f in ne (v.version ∙ sym w.version)
  changed (suc (suc (suc zero))) f n8 lt ne =
      let w = accepted a0 a1 a2 y a4 a5 a6 a7 a8 a9 rest f in
      detected a0 a1 a2 a3 a4 a5 a6 a7 a8 a9 rest 3 y (omega arith) y_fits b ne v.crc w.crc
  changed (suc (suc (suc (suc zero)))) f n8 lt ne =
      let w = accepted a0 a1 a2 a3 y a5 a6 a7 a8 a9 rest f in
      detected a0 a1 a2 a3 a4 a5 a6 a7 a8 a9 rest 4 y (omega arith) y_fits b ne v.crc w.crc
  changed (suc (suc (suc (suc (suc zero))))) f n8 lt ne =
      let w = accepted a0 a1 a2 a3 a4 y a6 a7 a8 a9 rest f in
      detected a0 a1 a2 a3 a4 a5 a6 a7 a8 a9 rest 5 y (omega arith) y_fits b ne v.crc w.crc
  changed (suc (suc (suc (suc (suc (suc zero)))))) f n8 lt ne =
      let w = accepted a0 a1 a2 a3 a4 a5 y a7 a8 a9 rest f in
      detected a0 a1 a2 a3 a4 a5 a6 a7 a8 a9 rest 6 y (omega arith) y_fits b ne v.crc w.crc
  changed (suc (suc (suc (suc (suc (suc (suc zero))))))) f n8 lt ne =
      let w = accepted a0 a1 a2 a3 a4 a5 a6 y a8 a9 rest f in
      detected a0 a1 a2 a3 a4 a5 a6 a7 a8 a9 rest 7 y (omega arith) y_fits b ne v.crc w.crc
  changed (suc (suc (suc (suc (suc (suc (suc (suc zero)))))))) f n8 lt ne = absurd (n8 refl)
  changed (suc (suc (suc (suc (suc (suc (suc (suc (suc zero))))))))) f n8 lt ne =
      let w = accepted a0 a1 a2 a3 a4 a5 a6 a7 a8 y rest f in ne (v.crc ∙ sym w.crc)
  changed (suc (suc (suc (suc (suc (suc (suc (suc (suc (suc j)))))))))) f n8 lt ne =
      let w = accepted a0 a1 a2 a3 a4 a5 a6 a7 a8 a9 (set rest j y) f in
      let near : j < a8 = omega (arith, v.payload_length) in
      detected a0 a1 a2 a3 a4 a5 a6 a7 a8 a9 rest
        (suc (suc (suc (suc (suc (suc (suc (suc (suc j))))))))) y (omega arith) y_fits b
        (λ e. ne (sym (get_or-take a8 rest j 0 near) ∙ e)) v.crc (rw (← take-set a8 rest j y) w.crc)

changed-Ten :
    (raw : Bytes) (k y : ℕ) {h h' : SolMeshHeader} {p p' : Bytes}
    → Ten raw
    → IsBytes raw
    → unpack_message raw ≡ ok (h, p)
    → unpack_message (set raw k y) ≡ ok (h', p')
    → k ≢ 8
    → k < 10 + length p
    → y < 256
    → get_or raw k 0 ≢ y
    → ⊥
changed-Ten raw k y (ten a0 a1 a2 a3 a4 a5 a6 a7 a8 a9 rest) b e f n8 lt q ne =
    let v = accepted a0 a1 a2 a3 a4 a5 a6 a7 a8 a9 rest e in
    changed a0 a1 a2 a3 a4 a5 a6 a7 a8 a9 rest y v q b k f n8
      (omega (arith, ap length v.payload_eq)) ne

-- A frame that is accepted is refused with `ValueError` after any one of its bytes is replaced by
-- another byte, in the header (the length byte at place 8 excepted) or in the payload.
pub corrupt_refused :
    (raw : Bytes) (k y : ℕ) {h : SolMeshHeader} {p : Bytes}
    → IsBytes raw
    → unpack_message raw ≡ ok (h, p)
    → k ≢ 8
    → k < 10 + length p
    → y < 256
    → get_or raw k 0 ≢ y
    → (r : Reason) × (unpack_message (set raw k y) ≡ err (value_error r))
corrupt_refused raw k y b e n8 lt q ne = elim (Result-cases (unpack_message (set raw k y))) [
  | inl ((h', p'), f) ↦
      absurd (changed-Ten raw k y (view raw (unpack-length raw e)) b e f n8 lt q ne)
  | inr (x, refused) ↦
      let (r, same) = unpack_raises (set raw k y) refused in (r, refused ∙ ap err same)
]
