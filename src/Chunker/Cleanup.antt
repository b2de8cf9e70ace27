-- ===== src/Chunker/Cleanup.antt =====
-- `cleanup_expired` removes exactly the expired buffers.
use solmesh.Prelude.{
  ℕ, ◌≡◌, ◌≢◌, refl, ◌∙◌, inl, inr, true, false, List, [], ◌∷◌, arith, none, some, if◌then◌else◌,
  Bool-cases, Option-cases, All,
}
use solmesh.Prelude.Eq.{pair_eq}
use solmesh.Prelude.Dict.{
  lookup, erase, Distinct, erase-Distinct, lookup-erase_self, lookup-erase_ne,
  lookup-erase_keeps_none,
}
use solmesh.Chunker.{
  ReassemblyBuffer, is_expired, Key, Buffers, expired_keys, erase_all, cleanup_expired,
}

pub erase_all-Distinct : (keys : List Key) (d : Buffers) → Distinct d → Distinct (erase_all keys d)
unfolding erase_all
erase_all-Distinct [] d h = h
erase_all-Distinct (k ∷ keys) d h = erase_all-Distinct keys (erase k d) (erase-Distinct k d h)

erase_all-none :
    (keys : List Key) (d : Buffers) (k : Key)
    → lookup k d ≡ none
    → lookup k (erase_all keys d) ≡ none
unfolding erase_all
erase_all-none [] d k h = h
erase_all-none (j ∷ keys) d k h =
    erase_all-none keys (erase j d) k (lookup-erase_keeps_none j k d h)

erase_all-other :
    (keys : List Key) (d : Buffers) (k : Key)
    → All (λ j. k ≢ j) keys
    → lookup k (erase_all keys d) ≡ lookup k d
unfolding erase_all
erase_all-other [] d k h = refl
erase_all-other (j ∷ keys) d k h =
    erase_all-other keys (erase j d) k h.1 ∙ lookup-erase_ne j k d h.0

absent-expired :
    (now : ℕ) (d : Buffers) (k : Key) → lookup k d ≡ none → All (λ j. k ≢ j) (expired_keys now d)
unfolding expired_keys
absent-expired now [] k h = tt
absent-expired now ((j, b) ∷ d) k h = ground (arith, pair_eq.beq_iff k j, absent-expired now d k)

live-expired :
    (now : ℕ) (d : Buffers) (k : Key) (b : ReassemblyBuffer)
    → Distinct d
    → lookup k d ≡ some b
    → is_expired now b ≡ false
    → All (λ j. k ≢ j) (expired_keys now d)
unfolding expired_keys
live-expired now [] k b h e f = tt
live-expired now ((j, c) ∷ d) k b h e f =
    ground (arith, pair_eq.beq_iff k j, absent-expired now d k, live-expired now d k b h.1)

gone :
    (now : ℕ) (d rest : Buffers) (k : Key) (b : ReassemblyBuffer)
    → Distinct d
    → lookup k d ≡ some b
    → is_expired now b ≡ true
    → Distinct rest
    → lookup k (erase_all (expired_keys now d) rest) ≡ none
unfolding expired_keys erase_all
gone now [] rest k b h e f g = cc
gone now ((j, c) ∷ d) rest k b h e f g = ground (
  arith,
  pair_eq.beq_iff k j,
  lookup-erase_self k rest,
  erase_all-none (expired_keys now d) (erase j rest) k,
  erase-Distinct j rest,
  gone now d (erase j rest) k b h.1,
  gone now d rest k b h.1,
)

-- After a cleanup of buffers with distinct keys, a key is found exactly if it was found before with
-- a buffer that has not expired; its buffer is unchanged.
pub cleanup_expired-lookup :
    (now : ℕ) (d : Buffers) (k : Key)
    → Distinct d
    → lookup k (cleanup_expired now d).1
      ≡ (elim (lookup k d) [ none ↦ none | some b ↦ if is_expired now b then none else some b ])
unfolding cleanup_expired
cleanup_expired-lookup now d k h = elim (Option-cases (lookup k d)) [
  | inl absent ↦ rw absent (erase_all-none (expired_keys now d) d k absent)
  | inr (b, found) ↦ elim (Bool-cases (is_expired now b)) [
    | inl old ↦ rw (found, old) (gone now d d k b h found old h)
    | inr young ↦
        rw (found, young)
          (erase_all-other (expired_keys now d) d k (live-expired now d k b h found young) ∙ found)
  ]
]

pub cleanup_expired-Distinct :
    (now : ℕ) (d : Buffers) → Distinct d → Distinct (cleanup_expired now d).1
unfolding cleanup_expired
cleanup_expired-Distinct now d h = erase_all-Distinct (expired_keys now d) d h
