-- ===== src/Chunker.antt =====
-- src/solmesh/chunker.py: splitting a payload into frames, and putting the chunks together again.
pub mod Split
pub mod Parts
pub mod Cleanup
pub mod Receive
pub mod Stray
mod Tests
use solmesh.Prelude.{
  ℕ, zero, suc, ◌+◌, ◌-◌, ◌*◌, ◌/◌, min, Bool, true, false, not, List, [], ◌∷◌, ◌++◌, Option, none,
  some, String, ltb, ◌==◌, if◌then◌else◌, Result, ok, err, value_error, key_error, data_too_large,
  missing_chunks as missing, ◌>>=◌, ◌>>◌, raise_if, length, slice, keep_if,
}
use solmesh.Prelude.Eq.{pair_eq, nat_eq}
use solmesh.Prelude.Dict.{Dict, lookup, insert, erase, contains}
use solmesh.Constants.{Bytes, max_chunk_data, chunk_reassembly_timeout}
use solmesh.Protocol.Struct.{from_be}
use solmesh.Protocol.Frame.{pack_message}

-- `int.from_bytes(os.urandom(2), "big")`, of the two bytes that the system gave.
unfoldable pub generate_msg_id : Bytes → ℕ
generate_msg_id random = from_be random

-- The body of the loop at `i`: `data[start:end]`.
abbrev pub chunk_data : Bytes → ℕ → Bytes
chunk_data contents i =
    let start = i * max_chunk_data in
    slice start (min (start + max_chunk_data) (length contents)) contents

-- `for i in range(total)`, with the rounds that are left.
pub chunks_from : ℕ → ℕ → Bytes → ℕ → ℕ → ℕ → Result (List Bytes)
chunks_from zero i contents msg_type msg_id total = ok []
chunks_from (suc rounds) i contents msg_type msg_id total = do
  chunk ← pack_message msg_type msg_id i total (chunk_data contents i)
  rest ← chunks_from rounds (i + 1) contents msg_type msg_id total
  ok (chunk ∷ rest)

abbrev pub chunk_total : Bytes → ℕ
chunk_total contents = (length contents + max_chunk_data - 1) / max_chunk_data

-- The optional message id of the source is `msg_id`; `random` is used where it is `None`.
unfoldable pub chunk_payload : Bytes → Bytes → ℕ → Option ℕ → Result (List Bytes)
unfolding chunks_from generate_msg_id
chunk_payload random contents msg_type msg_id =
    let id : ℕ = elim msg_id [ none ↦ generate_msg_id random | some given ↦ given ] in
    let total = chunk_total contents in
    if length contents == 0
    then (do message ← pack_message msg_type id 0 1 []; ok (message ∷ []))
    else (do
      raise_if (ltb 255 total) (value_error (data_too_large (length contents)))
      chunks_from total 0 contents msg_type id total)

-- Times are whole ticks of the clock, in the unit of the timeout.
pub record ReassemblyBuffer : Type 0 where
  pub msg_id : ℕ
  pub total_chunks : ℕ
  pub chunks : Dict ℕ Bytes
  pub created_at : ℕ

unfoldable pub is_complete : ReassemblyBuffer → Bool
is_complete buf = length buf.chunks == buf.total_chunks

-- A clock that was set back gives a difference of 0 here, below the timeout as the negative one.
unfoldable pub is_expired : ℕ → ReassemblyBuffer → Bool
is_expired now buf = ltb chunk_reassembly_timeout (now - buf.created_at)

unfoldable pub add_chunk : ℕ → Bytes → ReassemblyBuffer → ReassemblyBuffer × Bool
unfolding is_complete
add_chunk chunk_num payload buf =
    let buf' = record buf { chunks = insert chunk_num payload buf.chunks } in
    (buf', is_complete buf')

-- `range(i, i + n)`
abbrev pub range_from : ℕ → ℕ → List ℕ
range_from i zero = []
range_from i (suc n) = i ∷ range_from (i + 1) n

unfoldable pub missing_chunks : ReassemblyBuffer → List ℕ
missing_chunks buf = keep_if (λ i. not (contains i buf.chunks)) (range_from 0 buf.total_chunks)

-- `b"".join(self.chunks[i] for i in ...)`: a number that is not there is a `KeyError`.
pub join : Dict ℕ Bytes → List ℕ → Result Bytes
join chunks [] = ok []
join chunks (i ∷ rest) = do
  piece ← (elim (lookup i chunks) [ none ↦ err key_error | some p ↦ ok p ])
  others ← join chunks rest
  ok (piece ++ others)

unfoldable pub reassemble : ReassemblyBuffer → Result Bytes
unfolding is_complete join
reassemble buf = do
  raise_if (not (is_complete buf)) (value_error missing)
  join buf.chunks (range_from 0 buf.total_chunks)

abbrev pub Key : Type 0
Key = String × ℕ

-- `ChunkReassembler._buffers`.
abbrev pub Buffers : Type 0
Buffers = Dict Key ReassemblyBuffer

unfoldable pub expired_keys : ℕ → Buffers → List Key
expired_keys now [] = []
expired_keys now ((key, buf) ∷ rest) =
    let keys = expired_keys now rest in if is_expired now buf then key ∷ keys else keys

-- `for key in expired: del self._buffers[key]`
unfoldable pub erase_all : List Key → Buffers → Buffers
erase_all [] buffers = buffers
erase_all (key ∷ keys) buffers = erase_all keys (erase key buffers)

unfoldable pub cleanup_expired : ℕ → Buffers → List Key × Buffers
unfolding expired_keys erase_all is_expired
cleanup_expired now buffers =
    let expired = expired_keys now buffers in (expired, erase_all expired buffers)

-- `self._buffers[key]`, made new where it is missing.
abbrev pub buffer_for : ℕ → Key → ℕ → Buffers → ReassemblyBuffer
buffer_for now key total_chunks buffers = elim (lookup key buffers) [
  | none ↦ record { msg_id = key.1; total_chunks = total_chunks; chunks = []; created_at = now }
  | some buf ↦ buf
]

-- The chunks are stored also where `reassemble` raises. One reading of the clock serves the call.
unfoldable pub receive_chunk :
    ℕ → String → ℕ → ℕ → ℕ → Bytes → Buffers → Result (Option Bytes) × Buffers
unfolding cleanup_expired add_chunk reassemble
receive_chunk now sender_id msg_id chunk_num total_chunks payload buffers =
    let key : Key = (sender_id, msg_id) in
    let live = (cleanup_expired now buffers).1 in
    let (buf, completed) = add_chunk chunk_num payload (buffer_for now key total_chunks live) in
    let stored = insert key buf live in
    if completed
    then elim (reassemble buf) [
      | ok whole ↦ (ok (some whole), erase key stored)
      | err e ↦ (err e, stored)
    ]
    else (ok none, stored)

unfoldable pub get_missing : String → ℕ → Buffers → List ℕ
unfolding missing_chunks
get_missing sender_id msg_id buffers = elim (lookup (sender_id, msg_id) buffers) [
  | none ↦ []
  | some buf ↦ missing_chunks buf
]
