-- ===== src/Chunker/Tests.antt =====
-- Runs of the chunker, and its theorems at concrete payloads.
use solmesh.Prelude.{
  ◌*◌, ◌≡◌, refl, List, [], ◌∷◌, arith, none, some, ok, err, key_error, take, drop, map, replicate,
}
use solmesh.Prelude.Eq.{pair_eq, string_eq, nat_eq}
use solmesh.Prelude.Dict.{lookup}
use solmesh.Constants.{Bytes}
use solmesh.Protocol.Frame.{unpack_message}
use solmesh.Chunker.{
  chunk_total, chunk_data, chunk_payload, range_from, Key, Buffers, is_expired, cleanup_expired,
  receive_chunk,
}
use solmesh.Chunker.Split.{header_at, unpack-chunk_payload}
use solmesh.Chunker.Cleanup.{cleanup_expired-lookup}
use solmesh.Chunker.Stray.{stray_chunk-raises}
use solmesh.Chunker.Receive.{deliver, deliver-chunks}

abbrev two_chunks : Bytes
two_chunks = replicate 211 7

abbrev key : Key
key = ("!node", 0x1234)

abbrev other_key : Key
other_key = ("!other", 5)

abbrev old_and_young : Buffers
old_and_young =
    (key, record { msg_id = 0x1234; total_chunks = 2; chunks = []; created_at = 0 })
    ∷ (other_key, record { msg_id = 5; total_chunks = 3; chunks = []; created_at = 100 })
    ∷ []

-- Chunk 5 of 2 completes the count, but piece 1 is missing.
stray_chunk :
    (receive_chunk 10 "!node" 0x1234 5 2
      (9 ∷ [])
      (receive_chunk 9 "!node" 0x1234 0 2 (8 ∷ []) []).1).0
    ≡ err key_error
unfolding receive_chunk
stray_chunk = refl

unpack-chunk_payload_example :
    (chunks : List Bytes) × (chunk_payload [] two_chunks 3 (some 0x1234) ≡ ok chunks)
    × (map unpack_message chunks
        ≡ map
            (λ j. ok (header_at two_chunks 3 0x1234 j, take 210 (drop (j * 210) two_chunks)))
            (range_from 0 (chunk_total two_chunks)))
unpack-chunk_payload_example =
    unpack-chunk_payload two_chunks 3 0x1234 (omega arith) (omega arith) (omega arith) []
      (omega arith) (omega arith)

cleanup_expired-lookup_example : lookup key (cleanup_expired 150 old_and_young).1 ≡ none
unfolding is_expired
cleanup_expired-lookup_example = cleanup_expired-lookup 150 old_and_young key (refl, (refl, tt))

deliver-chunks_example :
    (deliver 5 2 (chunk_data two_chunks) key ((5, 1) ∷ (6, 1) ∷ (7, 0) ∷ []) []).0
    ≡ ok (some two_chunks)
deliver-chunks_example =
    (deliver-chunks two_chunks 5 key ((5, 1) ∷ (6, 1) ∷ (7, 0) ∷ []) [] (omega arith) tt refl
      (omega arith) (λ j below. ground arith)).0

stray_chunk-raises_example :
    ((receive_chunk 10 "!node" 0x1234 3 1 (9 ∷ []) []).0 ≡ err key_error)
    × (lookup key (receive_chunk 10 "!node" 0x1234 3 1 (9 ∷ []) []).1
        ≡ some (record {
          msg_id = 0x1234;
          total_chunks = 1;
          chunks = (3, 9 ∷ []) ∷ [];
          created_at = 10;
        }))
stray_chunk-raises_example =
    stray_chunk-raises 10 0x1234 3 "!node" (9 ∷ []) [] tt refl (λ e. absurd (omega arith))
