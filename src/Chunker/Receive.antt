-- ===== src/Chunker/Receive.antt =====
-- Chunks that arrive in any order, with repetitions, among those of other messages.
use solmesh.Prelude.{
  ℕ, ◌+◌, ◌-◌, ◌≤◌, ◌<◌, ◌≡◌, ◌≢◌, refl, ap, sym, ◌∙◌, ◌⊎◌, inl, inr, true, false, List, [], ◌∷◌,
  arith, Option, none, some, ltb-false, ◌==◌, ==_iff, Bool-cases, Result, ok, err, length, any, All,
}
use solmesh.Prelude.Eq.{pair_eq, nat_eq}
use solmesh.Prelude.Dict.{
  Dict, lookup, insert, erase, lookup-insert, lookup-insert_self, Distinct, insert-Distinct,
  erase-Distinct, lookup-erase_self,
}
use solmesh.Constants.{Bytes}
use solmesh.Chunker.{
  ReassemblyBuffer, is_expired, Key, Buffers, cleanup_expired, join, receive_chunk, buffer_for,
  range_from, chunk_data, chunk_total,
}
use solmesh.Chunker.Parts.{
  Parts, concat_from, insert-Parts, length-Parts, covered-length, full-lookup, join-pieces,
}
use solmesh.Chunker.Split.{pieces_whole}
use solmesh.Chunker.Cleanup.{cleanup_expired-lookup, cleanup_expired-Distinct}

-- The buffer as `receive_chunk` stores it.
abbrev stored_buffer : ℕ → Key → ℕ → ℕ → Bytes → Buffers → ReassemblyBuffer
stored_buffer now key i total payload live =
    let b = buffer_for now key total live in
    record {
      msg_id = b.msg_id;
      total_chunks = b.total_chunks;
      chunks = insert i payload b.chunks;
      created_at = b.created_at;
    }

module _ (now : ℕ) (key : Key) (i total : ℕ) (payload : Bytes) (buffers : Buffers) where
  abbrev live_buffers : Buffers
  live_buffers = (cleanup_expired now buffers).1

  abbrev found_buffer : ReassemblyBuffer
  found_buffer = buffer_for now key total live_buffers

  receive-partial :
      (length (insert i payload found_buffer.chunks) == found_buffer.total_chunks) ≡ false
      → receive_chunk now key.0 key.1 i total payload buffers
        ≡ (ok none, insert key (stored_buffer now key i total payload live_buffers) live_buffers)
  unfolding receive_chunk
  receive-partial e = rw e

  receive-whole :
      {whole : Bytes}
      → (length (insert i payload found_buffer.chunks) == found_buffer.total_chunks) ≡ true
      → join (insert i payload found_buffer.chunks) (range_from 0 found_buffer.total_chunks)
        ≡ ok whole
      → receive_chunk now key.0 key.1 i total payload buffers ≡ (
        ok (some whole),
        erase key (insert key (stored_buffer now key i total payload live_buffers) live_buffers),
      )
  unfolding receive_chunk
  receive-whole e j = rw (e, j)

module _ (start n : ℕ) (piece : ℕ → Bytes) (key : Key) where
  -- The reassembler holds the pieces `d` of the message, begun not before `start`.
  pub data Stored (d : Dict ℕ Bytes) (buffers : Buffers) : Type 0 where
    fresh : d ≡ [] → lookup key buffers ≡ none → Stored d buffers
    begun :
        (b : ReassemblyBuffer)
        → lookup key buffers ≡ some b
        → b.chunks ≡ d
        → b.total_chunks ≡ n
        → start ≤ b.created_at
        → Stored d buffers

  -- What `receive_chunk` finds under the key after its cleanup, while the message is young.
  found :
      (now : ℕ) (d : Dict ℕ Bytes) (buffers : Buffers)
      → Stored d buffers
      → Distinct buffers
      → start ≤ now
      → now ≤ start + 120
      → let b = buffer_for now key n (cleanup_expired now buffers).1 in
        (b.chunks ≡ d) × (b.total_chunks ≡ n) × (start ≤ b.created_at)
  unfolding is_expired
  found now d buffers (fresh e absent) distinct lo hi =
      let q : lookup key (cleanup_expired now buffers).1 ≡ none =
        rw (cleanup_expired-lookup now buffers key distinct, absent) refl in
      rw (q, buffer_for) (sym e, refl, lo)
  found now d buffers (begun b e c t s) distinct lo hi =
      let q : lookup key (cleanup_expired now buffers).1 ≡ some b =
        rw
          (
            cleanup_expired-lookup now buffers key distinct,
            e,
            ltb-false 120 (now - b.created_at) (omega arith),
          )
          refl in
      rw (q, buffer_for) (c, t, s)

  -- One more piece: either the message is not yet whole, and is stored with the piece, or it is
  -- whole, is returned, and its buffer is gone.
  receive_piece :
      (now i : ℕ) (d : Dict ℕ Bytes) (buffers : Buffers)
      → Stored d buffers
      → Distinct buffers
      → start ≤ now
      → now ≤ start + 120
      → i < n
      → Parts n piece d
      → let (r, buffers') = receive_chunk now key.0 key.1 i n (piece i) buffers in
        Distinct buffers'
        × ((length (insert i (piece i) d) ≡ n)
              × (r ≡ ok (some (concat_from piece 0 n)))
              × (lookup key buffers' ≡ none)
            ⊎ (length (insert i (piece i) d) ≢ n)
              × (r ≡ ok none)
              × Stored (insert i (piece i) d) buffers')
  receive_piece now i d buffers s distinct lo hi lt parts =
      let live = (cleanup_expired now buffers).1 in
      let b = buffer_for now key n live in
      let (same_chunks, same_total, young) = found now d buffers s distinct lo hi in
      let live_distinct : Distinct live = cleanup_expired-Distinct now buffers distinct in
      let kept : Distinct (insert key (stored_buffer now key i n (piece i) live) live) =
        insert-Distinct key (stored_buffer now key i n (piece i) live) live live_distinct in
      let total_eq : (length (insert i (piece i) b.chunks) == b.total_chunks)
          ≡ (length (insert i (piece i) d) == n) =
        rw (same_chunks, same_total) refl in
      elim (Bool-cases (length (insert i (piece i) d) == n)) [
        | inl full ↦
            let count : length (insert i (piece i) d) ≡ n = (==_iff _ n).0 full in
            let whole_found =
              full-lookup n piece (insert i (piece i) d) (insert-Parts n piece i d lt parts)
                count in
            let joined : join (insert i (piece i) b.chunks) (range_from 0 b.total_chunks)
                ≡ ok (concat_from piece 0 n) =
              rw (same_chunks, same_total)
                (join-pieces n piece (insert i (piece i) d) whole_found n 0 (omega arith)) in
            rw (receive-whole now key i n (piece i) buffers (total_eq ∙ full) joined) (
              erase-Distinct key (insert key (stored_buffer now key i n (piece i) live) live) kept,
              inl (
                count,
                refl,
                lookup-erase_self key (insert key (stored_buffer now key i n (piece i) live) live)
                    kept,
              ),
            )
        | inr part ↦ rw (receive-partial now key i n (piece i) buffers (total_eq ∙ part)) (
          kept,
          inr (
            (λ same. cc ((==_iff (length (insert i (piece i) d)) n).1 same)),
            refl,
            begun (stored_buffer now key i n (piece i) live)
                (lookup-insert_self key (stored_buffer now key i n (piece i) live) live)
                (ap (insert i (piece i)) same_chunks) same_total young,
          ),
        )
      ]

  -- The arrivals, as pairs of a time and a chunk number, up to the one that completes the message.
  pub deliver : List (ℕ × ℕ) → Buffers → Result (Option Bytes) × Buffers
  deliver [] buffers = (ok none, buffers)
  deliver ((now, i) ∷ rest) buffers =
      let (r, buffers') = receive_chunk now key.0 key.1 i n (piece i) buffers in
      elim r [
        | ok w ↦ elim w [ none ↦ deliver rest buffers' | some whole ↦ (ok (some whole), buffers') ]
        | err e ↦ (err e, buffers')
      ]

  abbrev pub OnTime : List (ℕ × ℕ) → Type 0
  OnTime = All (λ (a : ℕ × ℕ). (start ≤ a.0) × (a.0 ≤ start + 120) × (a.1 < n))

  deliver-whole :
      (arrivals : List (ℕ × ℕ)) (d : Dict ℕ Bytes) (buffers : Buffers)
      → Stored d buffers
      → Distinct buffers
      → Parts n piece d
      → length d < n
      → OnTime arrivals
      → ((j : ℕ) → j < n → (lookup j d ≢ none) ⊎ (any (λ (a : ℕ × ℕ). a.1 == j) arrivals ≡ true))
      → ((deliver arrivals buffers).0 ≡ ok (some (concat_from piece 0 n)))
        × (lookup key (deliver arrivals buffers).1 ≡ none)
  unfolding deliver
  deliver-whole [] d buffers s distinct parts short times cover =
      let all_there : n ≤ length d =
        covered-length n d (λ j lt. elim (cover j lt) [ inl there ↦ there | inr never ↦ cc ]) in
      absurd (omega arith)
  deliver-whole ((now, i) ∷ rest) d buffers s distinct parts short times cover =
      let (lo, hi, lt) = times.0 in
      let d' = insert i (piece i) d in
      let buffers' = (receive_chunk now key.0 key.1 i n (piece i) buffers).1 in
      let (distinct', outcome) = receive_piece now i d buffers s distinct lo hi lt parts in
      let parts' = insert-Parts n piece i d lt parts in
      elim outcome [
        | inl (full, r, gone) ↦ rw (r, deliver) (refl, gone)
        | inr (partial, r, s') ↦
            rw (r, deliver)
              (deliver-whole rest d' buffers' s' distinct' parts'
                (omega (arith, length-Parts n piece d' parts')) times.1
                (λ j below. ground (arith, cover j below, lookup-insert i j (piece i) d)))
      ]

-- A payload of one byte or more that was split is put together again from its chunks, in any order
-- and with repetitions, whatever other messages are under way: if every chunk number arrives, all
-- arrivals lie within 120 seconds from `start` on and have numbers below the total, and no buffer
-- stands under the key before, then feeding them to `receive_chunk` until it returns a payload
-- returns this payload, and its buffer is removed.
pub deliver-chunks :
    (contents : Bytes) (start : ℕ) (key : Key) (arrivals : List (ℕ × ℕ)) (buffers : Buffers)
    → 0 < length contents
    → Distinct buffers
    → lookup key buffers ≡ none
    → OnTime start (chunk_total contents) (chunk_data contents) key arrivals
    → ((j : ℕ) → j < chunk_total contents → any (λ (a : ℕ × ℕ). a.1 == j) arrivals ≡ true)
    → let (r, buffers') =
        deliver start (chunk_total contents) (chunk_data contents) key arrivals buffers in
      (r ≡ ok (some contents)) × (lookup key buffers' ≡ none)
deliver-chunks contents start key arrivals buffers size distinct absent times cover =
    let (whole, gone) =
      deliver-whole start (chunk_total contents) (chunk_data contents) key arrivals [] buffers
        (fresh refl absent) distinct tt (omega arith) times (λ j lt. inr (cover j lt)) in
    (rw (pieces_whole contents) at whole, gone)
