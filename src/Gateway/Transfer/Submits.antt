-- ===== src/Gateway/Transfer/Submits.antt =====
-- What building and broadcasting a transfer adds to the submitted transactions.
use solmesh.Prelude.{
  ℕ, ◌≡◌, refl, ap, ◌∙◌, ◌⊎◌, inl, inr, Bool, true, false, [], ◌∷◌, ◌++◌, String, Result,
  Result-cases, Exn, ok, err,
}
use solmesh.Prelude.Eq.{string_eq}
use solmesh.Constants.{Bytes, Str}
use solmesh.Protocol.Request.{TxRequest}
use solmesh.Solana.{Keypair, deserialize_transaction}
use solmesh.Gateway.Node.{World, GatewayNode}
use solmesh.Gateway.Reply.{send_tx_result, broadcast_to_solana}
use solmesh.Gateway.Reply.Effects.{send_nack-Keeps, send_tx_result-Keeps}
use solmesh.Gateway.Transfer.{build_transfer, submit_built, execute_transfer}

broadcast-broken :
    (w : World) (now : ℕ) (tx : Bytes) (e : Exn) (g : GatewayNode)
    → deserialize_transaction w.lib tx ≡ err e
    → broadcast_to_solana w now tx g ≡ (ok (false, w.text_of e), g)
unfolding broadcast_to_solana
broadcast-broken w now tx e g broken = rw (broken, broadcast_to_solana) refl

pub broadcast-sent :
    (w : World) (now : ℕ) (tx : Bytes) (u : Unit {0}) (g : GatewayNode)
    → deserialize_transaction w.lib tx ≡ ok u
    → (r : Bool × Str) × (broadcast_to_solana w now tx g
        ≡ (ok r, record g { submitted = g.submitted ++ tx ∷ [] }))
unfolding broadcast_to_solana
broadcast-sent w now tx u g parsed = elim (Result-cases (w.send_raw_transaction now tx)) [
  | inl (sig, done) ↦ ((true, sig), rw (parsed, broadcast_to_solana) (rw done refl))
  | inr (e, failed) ↦ ((false, w.text_of e), rw (parsed, broadcast_to_solana) (rw failed refl))
]

pub broadcast-submits :
    (w : World) (now : ℕ) (tx : Bytes) (g : GatewayNode)
    → (r : Bool × Str) × (g' : GatewayNode) × (broadcast_to_solana w now tx g ≡ (ok r, g'))
      × ((g'.submitted ≡ g.submitted) ⊎ (g'.submitted ≡ g.submitted ++ tx ∷ []))
broadcast-submits w now tx g = elim (Result-cases (deserialize_transaction w.lib tx)) [
  | inr (e, broken) ↦ ((false, w.text_of e), g, broadcast-broken w now tx e g broken, inl refl)
  | inl (u, parsed) ↦
      let (r, eq) = broadcast-sent w now tx u g parsed in
      (r, record g { submitted = g.submitted ++ tx ∷ [] }, eq, inr refl)
]

answered :
    (w : World) (id : ℕ) (sender : String) (r : Result (Bool × Str)) (g : GatewayNode)
    → let next : Result (Unit {0}) × GatewayNode = elim r [
      | ok a ↦ send_tx_result w id a.0 a.1 sender g
      | err e ↦ (err e, g)
    ] in
      next.1.submitted ≡ g.submitted
answered w id sender (ok (success, text)) g =
    ap (λ c. c.0) (send_tx_result-Keeps w id success text sender g)
answered w id sender (err e) g = refl

submit_built-submits :
    (w : World) (now id : ℕ) (sender : String) (built : Result Bytes) (g : GatewayNode)
    → let g' = (submit_built w now id sender built g).1 in
      (g'.submitted ≡ g.submitted)
      ⊎ ((tx : Bytes) × (built ≡ ok tx) × (g'.submitted ≡ g.submitted ++ tx ∷ []))
unfolding submit_built
submit_built-submits w now id sender (err e) g =
    inl (ap (λ c. c.0) (send_nack-Keeps w id _ _ sender g))
submit_built-submits w now id sender (ok tx) g =
    let next = broadcast_to_solana w now tx g in
    let (r, g', eq, s) = broadcast-submits w now tx g in
    let reached : next.1 ≡ g' = ap (λ n. n.1) eq in
    let kept : (submit_built w now id sender (ok tx) g).1.submitted ≡ g'.submitted =
      answered w id sender next.0 next.1 ∙ ap (λ n. n.submitted) reached in
    elim s [ inl same ↦ inl (kept ∙ same) | inr more ↦ inr (tx, refl, kept ∙ more) ]

module _ (w : World) (now id : ℕ) (sender : String) (hot : Keypair) (req : TxRequest)
    (g : GatewayNode) where
  execute_transfer-fetched :
      (recent_blockhash : Bytes)
      → w.get_latest_blockhash now ≡ ok recent_blockhash
      → execute_transfer w now id sender hot req g
        ≡ submit_built w now id sender (build_transfer w now hot req recent_blockhash) g
  unfolding execute_transfer
  execute_transfer-fetched recent_blockhash fetched = rw (fetched, execute_transfer) refl

  execute_transfer-failed :
      (e : Exn)
      → w.get_latest_blockhash now ≡ err e
      → (execute_transfer w now id sender hot req g).1.submitted ≡ g.submitted
  unfolding execute_transfer
  execute_transfer-failed e failed =
      rw (failed, execute_transfer) (ap (λ c. c.0) (send_nack-Keeps w id _ _ sender g))

  pub execute_transfer-submits :
      let g' = (execute_transfer w now id sender hot req g).1 in
      (g'.submitted ≡ g.submitted)
      ⊎ ((recent_blockhash : Bytes) × (tx : Bytes) × (w.get_latest_blockhash now
            ≡ ok recent_blockhash)
          × (build_transfer w now hot req recent_blockhash ≡ ok tx)
          × (g'.submitted ≡ g.submitted ++ tx ∷ []))
  execute_transfer-submits = elim (Result-cases (w.get_latest_blockhash now)) [
    | inr (e, failed) ↦ inl (execute_transfer-failed e failed)
    | inl (recent_blockhash, fetched) ↦
        let built = build_transfer w now hot req recent_blockhash in
        rw (execute_transfer-fetched recent_blockhash fetched)
          (elim (submit_built-submits w now id sender built g) [
            | inl same ↦ inl same
            | inr (tx, is_built, more) ↦ inr (recent_blockhash, tx, fetched, is_built, more)
          ])
  ]
