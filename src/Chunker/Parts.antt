-- ===== src/Chunker/Parts.antt =====
-- A reassembly buffer that holds only pieces of one payload: it is complete exactly when it holds
-- them all, and then they are joined in order.
use solmesh.Prelude.{
  ℕ, zero, suc, ◌+◌, ◌≤◌, ◌<◌, ◌≡◌, ◌≢◌, refl, ap, sym, ◌∙◌, inl, inr, [], ◌∷◌, ◌++◌, arith, none,
  some, Option-cases, ok, length,
}
use solmesh.Prelude.Eq.{nat_eq}
use solmesh.Prelude.Dict.{Dict, lookup, insert, erase, lookup-insert_ne, lookup-erase_ne}
use solmesh.Constants.{Bytes}
use solmesh.Chunker.{join, range_from}

-- The pieces `i`, `i + 1`, ... one after the other.
abbrev pub concat_from : (ℕ → Bytes) → ℕ → ℕ → Bytes
concat_from piece i zero = []
concat_from piece i (suc n) = piece i ++ concat_from piece (i + 1) n

-- The entries have distinct numbers below `n`, and entry `k` is `piece k`.
abbrev pub Parts : ℕ → (ℕ → Bytes) → Dict ℕ Bytes → Type 0
Parts n piece [] = Unit
Parts n piece ((k, v) ∷ d) = (k < n) × (v ≡ piece k) × (lookup k d ≡ none) × Parts n piece d

pub insert-Parts :
    (n : ℕ) (piece : ℕ → Bytes) (k : ℕ) (d : Dict ℕ Bytes)
    → k < n
    → Parts n piece d
    → Parts n piece (insert k (piece k) d)
insert-Parts n piece k [] h p = (h, refl, refl, tt)
insert-Parts n piece k ((j, v) ∷ d) h p =
    ground (arith, ap piece, insert-Parts n piece k d h p.3, lookup-insert_ne k j (piece k) d)

lookup-Parts :
    (n : ℕ) (piece : ℕ → Bytes) (k : ℕ) (d : Dict ℕ Bytes) (v : Bytes)
    → Parts n piece d
    → lookup k d ≡ some v
    → v ≡ piece k
lookup-Parts n piece k [] v p e = cc
lookup-Parts n piece k ((j, w) ∷ d) v p e = ground (arith, ap piece, lookup-Parts n piece k d v p.3)

without_top :
    (n : ℕ) (piece : ℕ → Bytes) (d : Dict ℕ Bytes)
    → Parts (suc n) piece d
    → lookup n d ≡ none
    → Parts n piece d
without_top n piece [] p e = tt
without_top n piece ((k, v) ∷ d) p e = ground (arith, without_top n piece d p.3)

erase_top :
    (n : ℕ) (piece : ℕ → Bytes) (d : Dict ℕ Bytes)
    → Parts (suc n) piece d
    → Parts n piece (erase n d)
erase_top n piece [] p = tt
erase_top n piece ((k, v) ∷ d) p =
    ground (arith, erase_top n piece d p.3, without_top n piece d p.3, lookup-erase_ne n k d)

length-erase_le : (k : ℕ) (d : Dict ℕ Bytes) → length d ≤ suc (length (erase k d))
length-erase_le k [] = omega arith
length-erase_le k ((j, v) ∷ d) = ground (arith, length-erase_le k d)

length-erase_found :
    (k : ℕ) (d : Dict ℕ Bytes) → lookup k d ≢ none → length d ≡ suc (length (erase k d))
length-erase_found k [] h = absurd (h refl)
length-erase_found k ((j, v) ∷ d) h = ground (arith, length-erase_found k d)

length-insert_new :
    (k : ℕ) (v : Bytes) (d : Dict ℕ Bytes)
    → lookup k d ≡ none
    → length (insert k v d) ≡ suc (length d)
length-insert_new k v [] h = refl
length-insert_new k v ((j, w) ∷ d) h = ground (arith, length-insert_new k v d)

-- There are no more entries than numbers.
pub length-Parts : (n : ℕ) (piece : ℕ → Bytes) (d : Dict ℕ Bytes) → Parts n piece d → length d ≤ n
length-Parts zero piece [] p = omega arith
length-Parts zero piece ((k, v) ∷ d) p = absurd (omega arith)
length-Parts (suc n) piece d p =
    omega (arith, length-Parts n piece (erase n d) (erase_top n piece d p), length-erase_le n d)

-- If every number is there, there are at least as many entries.
pub covered-length :
    (n : ℕ) (d : Dict ℕ Bytes) → ((i : ℕ) → i < n → lookup i d ≢ none) → n ≤ length d
covered-length zero d h = omega arith
covered-length (suc n) d h =
    let found : length d ≡ suc (length (erase n d)) = length-erase_found n d (h n (omega arith)) in
    let below : n ≤ length (erase n d) = covered-length n (erase n d) (λ i lt e.
      h i (omega arith) (sym (lookup-erase_ne n i d (λ same. absurd (omega arith))) ∙ e)) in
    omega arith

-- A full buffer has every number, with its piece.
pub full-lookup :
    (n : ℕ) (piece : ℕ → Bytes) (d : Dict ℕ Bytes)
    → Parts n piece d
    → length d ≡ n
    → (i : ℕ) → i < n
    → lookup i d ≡ some (piece i)
full-lookup n piece d p full i lt = elim (Option-cases (lookup i d)) [
  | inl absent ↦ absurd (
      omega (
        arith,
        length-insert_new i (piece i) d absent,
        length-Parts n piece (insert i (piece i) d) (insert-Parts n piece i d lt p),
      ))
  | inr (v, e) ↦ e ∙ ap some (lookup-Parts n piece i d v p e)
]

pub join-pieces :
    (n : ℕ) (piece : ℕ → Bytes) (d : Dict ℕ Bytes)
    → ((i : ℕ) → i < n → lookup i d ≡ some (piece i))
    → (rounds i : ℕ) → i + rounds ≤ n
    → join d (range_from i rounds) ≡ ok (concat_from piece i rounds)
unfolding join
join-pieces n piece d h zero i le = refl
join-pieces n piece d h (suc rounds) i le =
    rw (h i (omega arith), join-pieces n piece d h rounds (i + 1) (omega arith))
