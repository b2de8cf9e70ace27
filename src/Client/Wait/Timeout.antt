-- ===== src/Client/Wait/Timeout.antt =====
-- Waiting ends: with what is waited for, or when the time is over.
use solmesh.Prelude.{
  ap, ◌+◌, ◌≤◌, ◌<◌, ℕ, zero, suc, ◌≡◌, refl, ◌⊎◌, inl, inr, Bool, Bool-cases, Option-cases, true,
  arith, Option, none, some, leb, ok,
}
use solmesh.Prelude.Eq.{nat_eq}
use solmesh.Prelude.Dict.{lookup, erase, contains}
use solmesh.Client.{ClientNode, Outcome}
use solmesh.Client.World.{ClientWorld, now}
use solmesh.Client.Wait.{listen, wait_rounds, wait_for, pop_result, wait_for_result}
use solmesh.Client.Wait.Keeps.{listen-waits}

-- Each wait takes a second or more.
abbrev pub Advances : ClientWorld → Type 0
Advances w = (k : ℕ) → w.clock k < w.clock (suc k)

module _ (w : ClientWorld) (ready : ClientNode → Bool) (deadline : ℕ) (advances : Advances w) where
  wait_rounds-ends :
      (rounds : ℕ) (c : ClientNode)
      → deadline ≤ now w c + rounds
      → let c' = wait_rounds w ready deadline rounds c in (ready c' ≡ true) ⊎ (deadline ≤ now w c')
  unfolding wait_rounds
  wait_rounds-ends zero c enough = inr (omega arith)
  wait_rounds-ends (suc rounds) c enough = elim (Bool-cases (ready c)) [
    | inl yet ↦ rw (yet, wait_rounds) (inl yet)
    | inr not_yet ↦ elim (Bool-cases (leb deadline (now w c))) [
      | inl over ↦ rw (not_yet, wait_rounds) (rw (over, wait_rounds) (inr (ground arith)))
      | inr early ↦
          let later : deadline ≤ now w (listen w c) + rounds =
            omega (arith, advances c.waits, ap w.clock (listen-waits w c)) in
          rw (not_yet, wait_rounds)
            (rw (early, wait_rounds) (wait_rounds-ends rounds (listen w c) later))
    ]
  ]

-- The result is taken out, or there is none and the time is over.
abbrev pub TakenOrLate : ClientWorld → ℕ → ℕ → ClientNode → Option Outcome → ClientNode → Type 0
TakenOrLate w msg_id deadline c (some outcome) c' =
    (lookup msg_id c.results ≡ some outcome) × (c'.results ≡ erase msg_id c.results)
TakenOrLate w msg_id deadline c none c' = (lookup msg_id c'.results ≡ none) × (deadline ≤ now w c')

pop_result-ends :
    (w : ClientWorld) (msg_id deadline : ℕ) (c : ClientNode)
    → (contains msg_id c.results ≡ true) ⊎ (deadline ≤ now w c)
    → let (r, c') = pop_result msg_id c in
      (result : Option Outcome) × (r ≡ ok result) × TakenOrLate w msg_id deadline c result c'
pop_result-ends w msg_id deadline c h = elim (Option-cases (lookup msg_id c.results)) [
  | inr (outcome, found) ↦
      (some outcome, rw (found, pop_result) refl, rw (found, pop_result) (refl, refl))
  | inl absent ↦
      (none, rw (absent, pop_result) refl, rw (absent, pop_result) (absent, ground (arith, absent)))
]

-- With a clock that advances by a second or more in each wait, `wait_for_result` returns, whatever
-- arrives: with the result that the message has when the waiting ends, which it takes out; or
-- without one, and then the message has none and the time-out has passed.
pub wait_for_result_lem :
    (w : ClientWorld) (msg_id timeout : ℕ) (c : ClientNode)
    → Advances w
    → let c' = (wait_for w (λ n. contains msg_id n.results) timeout c).1 in
      let (r, c'') = wait_for_result w msg_id timeout c in
      (result : Option Outcome) × (r ≡ ok result)
      × TakenOrLate w msg_id (now w c + timeout) c' result c''
unfolding wait_for wait_for_result
wait_for_result_lem w msg_id timeout c advances =
    pop_result-ends w msg_id (now w c + timeout)
      (wait_for w (λ n. contains msg_id n.results) timeout c).1
      (wait_rounds-ends w (λ n. contains msg_id n.results) (now w c + timeout) advances timeout c
        (omega arith))
