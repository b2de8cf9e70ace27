-- ===== src/Chunker/Split.antt =====
-- What `chunk_payload` makes of a payload.
use solmesh.Prelude.{
  ℕ, zero, suc, ◌+◌, ◌-◌, ◌*◌, ◌≤◌, ◌<◌, ◌≡◌, refl, ap, ap₂, sym, ◌∙◌, min, false, List, [], ◌∷◌,
  map, arith, some, ltb-false, ◌==◌, ok, length, length-take, length-drop, take, drop, take-min,
  drop-drop, drop_all, All-take, All-drop, take-append-drop, append-nil,
}
use mathlib.Core.Path.{fun_ext}
use solmesh.Constants.{Bytes}
use solmesh.Protocol.Struct.{IsBytes}
use solmesh.Protocol.Crc.{crc8}
use solmesh.Protocol.Frame.{SolMeshHeader, unpack_message}
use solmesh.Protocol.Frame.RoundTrip.{
  IsSendable, covered, frame_of, pack_message-eq, unpack-frame_of,
}
use solmesh.Chunker.Parts.{concat_from}
use solmesh.Chunker.{chunk_data, chunks_from, chunk_total, chunk_payload, range_from}

-- A piece is what is left of the data from its start on, cut at 210 bytes.
chunk_data-eq :
    (contents : Bytes) (i : ℕ) → chunk_data contents i ≡ take 210 (drop (i * 210) contents)
chunk_data-eq contents i =
    take-min _ 210 (drop (i * 210) contents) (omega (arith, length-drop {0} (i * 210) contents))

pub length-chunk_data :
    (contents : Bytes) (i : ℕ)
    → length (chunk_data contents i) ≡ min 210 (length contents - i * 210)
length-chunk_data contents i = omega (
  arith,
  length-take {0} (min (i * 210 + 210) (length contents) - i * 210) (drop (i * 210) contents),
  length-drop {0} (i * 210) contents,
)

pub chunk_data-IsBytes :
    (contents : Bytes) (i : ℕ) → IsBytes contents → IsBytes (chunk_data contents i)
chunk_data-IsBytes contents i b =
    All-take (λ (x : ℕ). x < 256) _ (drop (i * 210) contents)
      (All-drop (λ (x : ℕ). x < 256) (i * 210) contents b)

pieces-eq :
    (contents : Bytes) (i n : ℕ)
    → length contents ≤ (i + n) * 210
    → concat_from (chunk_data contents) i n ≡ drop (i * 210) contents
pieces-eq contents i zero h = sym (drop_all (i * 210) contents (omega arith))
pieces-eq contents i (suc n) h =
    let next : (i + 1) * 210 ≡ i * 210 + 210 = omega arith in
    rw
      (
        chunk_data-eq contents i,
        pieces-eq contents (i + 1) n (omega arith),
        next,
        drop-drop (i * 210) 210 contents,
      )
      (take-append-drop 210 (drop (i * 210) contents))

-- The pieces that `chunk_payload` cuts make up the payload, one after the other: nothing is lost,
-- repeated or moved.
pub pieces_whole :
    (contents : Bytes) → concat_from (chunk_data contents) 0 (chunk_total contents) ≡ contents
pieces_whole contents = pieces-eq contents 0 (chunk_total contents) (omega arith)

-- The frame of piece `i`, and what a receiver reads from it.
abbrev pub frame_at : Bytes → ℕ → ℕ → ℕ → Bytes
frame_at contents t id i = frame_of t id i (chunk_total contents) (chunk_data contents i)

abbrev pub header_at : Bytes → ℕ → ℕ → ℕ → SolMeshHeader
header_at contents t id i = record {
  msg_type = t;
  msg_id = id;
  chunk_num = i;
  total_chunks = chunk_total contents;
  payload_len = length (chunk_data contents i);
  checksum = crc8 (covered t id i (chunk_total contents) (chunk_data contents i));
}

module _ (contents : Bytes) (t id : ℕ) (bytes : IsBytes contents) (type_fits : t < 256)
    (id_fits : id < 65536) where
  piece-IsSendable :
      (i : ℕ)
      → i < 256
      → chunk_total contents < 256
      → IsSendable t id i (chunk_total contents) (chunk_data contents i)
  piece-IsSendable i h k = record {
    type_fits = type_fits;
    id_fits = id_fits;
    chunk_fits = h;
    total_fits = k;
    payload_fits = omega (arith, length-chunk_data contents i);
    payload_bytes = chunk_data-IsBytes contents i bytes;
  }

  chunks_from-eq :
      (n i : ℕ)
      → i + n ≤ chunk_total contents
      → chunk_total contents < 256
      → chunks_from n i contents t id (chunk_total contents)
        ≡ ok (map (frame_at contents t id) (range_from i n))
  unfolding chunks_from
  chunks_from-eq zero i h k = refl
  chunks_from-eq (suc n) i h k = rw (
    pack_message-eq t id i (chunk_total contents) (chunk_data contents i)
        (piece-IsSendable i (omega arith) k),
    chunks_from-eq n (i + 1) (omega arith) k,
  )

  chunk_payload-eq :
      (random : Bytes)
      → 0 < length contents
      → length contents ≤ 53550
      → chunk_payload random contents t (some id)
        ≡ ok (map (frame_at contents t id) (range_from 0 (chunk_total contents)))
  unfolding chunk_payload
  chunk_payload-eq random h k =
      let some_data : (length contents == 0) ≡ false = ground arith in
      simp (
        some_data,
        ltb-false 255 (chunk_total contents) (omega arith),
        chunks_from-eq (chunk_total contents) 0 (omega arith) (omega arith),
      )

  unpack-frames :
      (n i : ℕ)
      → map unpack_message (map (frame_at contents t id) (range_from i n))
        ≡ map (λ j. ok (header_at contents t id j, chunk_data contents j)) (range_from i n)
  unpack-frames zero i = refl
  unpack-frames (suc n) i =
      ap₂ (λ x xs. x ∷ xs)
        (ap unpack_message (sym (append-nil (frame_at contents t id i)))
          ∙ unpack-frame_of t id i (chunk_total contents) (chunk_data contents i) [])
        (unpack-frames n (i + 1))

  -- A payload of 1 to 53550 bytes, with a type and an id that fit their fields, is split into
  -- frames that all unpack: frame number `i` carries the message's type and id, the number `i`, the
  -- total, and the 210 bytes, or as many as are left, from `210 * i` on.
  pub unpack-chunk_payload :
      (random : Bytes)
      → 0 < length contents
      → length contents ≤ 53550
      → (chunks : List Bytes) × (chunk_payload random contents t (some id) ≡ ok chunks)
        × (map unpack_message chunks
            ≡ map
                (λ j. ok (header_at contents t id j, take 210 (drop (j * 210) contents)))
                (range_from 0 (chunk_total contents)))
  unpack-chunk_payload random h k = (
    map (frame_at contents t id) (range_from 0 (chunk_total contents)),
    chunk_payload-eq random h k,
    unpack-frames (chunk_total contents) 0
        ∙ ap
            (λ f.
              map (λ j. ok (header_at contents t id j, f j)) (range_from 0 (chunk_total contents)))
            (fun_ext (chunk_data-eq contents)),
  )
