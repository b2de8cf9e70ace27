-- ===== src/Chunker/Stray.antt =====
-- A chunk whose number lies outside its message.
use solmesh.Prelude.{
  ℕ, ◌≡◌, ◌≢◌, refl, sym, ap, ◌∙◌, false, [], ◌∷◌, none, some, String, err, key_error,
}
use solmesh.Prelude.Eq.{pair_eq, nat_eq, beq_ne}
use solmesh.Prelude.Dict.{lookup, Distinct, lookup-insert_self}
use solmesh.Constants.{Bytes}
use solmesh.Chunker.{Buffers, cleanup_expired, buffer_for, add_chunk, reassemble, receive_chunk}
use solmesh.Chunker.Cleanup.{cleanup_expired-lookup}

-- A first chunk that is announced as the only one of its message, but has another number than 0,
-- makes `receive_chunk` raise `KeyError`, and the buffer with the chunk stays.
pub stray_chunk-raises :
    (now id k : ℕ) (sender : String) (piece : Bytes) (buffers : Buffers)
    → Distinct buffers
    → lookup (sender, id) buffers ≡ none
    → k ≢ 0
    → let (r, buffers') = receive_chunk now sender id k 1 piece buffers in
      (r ≡ err key_error)
      × (lookup (sender, id) buffers'
          ≡ some (record {
            msg_id = id;
            total_chunks = 1;
            chunks = (k, piece) ∷ [];
            created_at = now;
          }))
unfolding receive_chunk
stray_chunk-raises now id k sender piece buffers distinct absent ne =
    let gone : lookup (sender, id) (cleanup_expired now buffers).1 ≡ none =
      cleanup_expired-lookup now buffers (sender, id) distinct ∙ rw absent refl in
    let other : nat_eq.beq 0 k ≡ false = beq_ne 0 k (λ same. ne (sym same)) in
    let live = (cleanup_expired now buffers).1 in
    let made : buffer_for now (sender, id) 1 live
        ≡ record { msg_id = id; total_chunks = 1; chunks = []; created_at = now } =
      rw (gone, buffer_for) refl in
    let found =
      lookup-insert_self (sender, id) (add_chunk k piece (buffer_for now (sender, id) 1 live)).0
        live in
    rw (gone, receive_chunk, buffer_for)
      (rw (other, reassemble) (refl, found ∙ ap (λ b. some (add_chunk k piece b).0) made))
