-- ===== src/Gateway/Reply/Effects.antt =====
-- What the gateway's replies leave alone.
use solmesh.Prelude.{
  ℕ, ◌≡◌, refl, ap, ◌∙◌, Bool, true, false, List, arith, Option, some, String, inl, inr, Result,
  Result-cases, ok, err, Exn, ◌⊎◌,
}
use solmesh.Prelude.Stateful
use solmesh.Constants.{Bytes, Str, utf8}
use solmesh.Config.{GatewayConfig}
use solmesh.Protocol.Messages.{encode_nack, encode_tx_result}
use solmesh.Constants.MsgType
use solmesh.Constants.ErrorCode
use solmesh.RateLimiter.{is_allowed}
use solmesh.Solana.{Keypair}
use solmesh.Gateway.Node.{World, GatewayNode, Method, ◌>>=◌, ◌>>◌, new_msg_id, mesh_send, pure}
use solmesh.Gateway.Reply.{send_frame, send_nack, send_tx_result, check_rate_limit}

-- What replies leave alone.
abbrev pub core : GatewayNode → List Bytes × Option Keypair × GatewayConfig
core g = (g.submitted, g.hot_keypair, g.config)

abbrev pub Keeps : {A : Type 0} → Method A → Type 0
Keeps m = Stateful.Keeps core m

send_frame-Keeps :
    (w : World) (t : ℕ) (p : Bytes) (d : Option String) (a : Bool) → Keeps (send_frame w t p d a)
unfolding new_msg_id mesh_send
send_frame-Keeps w t p d a g = ground arith

pub send_nack-Keeps :
    (w : World) (id code : ℕ) (text : Str) (d : String) → Keeps (send_nack w id code text d)
unfolding send_nack
send_nack-Keeps w id code text d = elim (Result-cases (encode_nack id code text)) [
  | inl (p, packed) ↦ rw packed (send_frame-Keeps w MsgType.nack p (some d) true)
  | inr (e, raised) ↦ rw raised (λ g. refl)
]

pub send_tx_result-Keeps :
    (w : World) (id : ℕ) (success : Bool) (text : Str) (d : String)
    → Keeps (send_tx_result w id success text d)
unfolding send_tx_result
send_tx_result-Keeps w id success text d = elim (Result-cases (encode_tx_result id success text)) [
  | inl (p, packed) ↦ rw packed (send_frame-Keeps w MsgType.tx_result p (some d) true)
  | inr (e, raised) ↦ rw raised (λ g. refl)
]

pub check_rate_limit-allowed :
    (w : World) (now : ℕ) (sender : String) (id : ℕ) (g : GatewayNode)
    → (is_allowed w.clock_rate now sender g.rate_limiter).1 ≡ true
    → check_rate_limit w now sender id g
      ≡ (ok true, record g { rate_limiter = (is_allowed w.clock_rate now sender g.rate_limiter).0 })
unfolding check_rate_limit
check_rate_limit-allowed w now sender id g passes = rw passes refl

settled :
    (r : Result (Unit {0})) (g : GatewayNode)
    → let next : Result Bool × GatewayNode = elim r [ ok u ↦ pure false g | err e ↦ (err e, g) ] in
      ((next.0 ≡ ok false) ⊎ ((e : Exn) × (next.0 ≡ err e))) × (next.1 ≡ g)
settled (ok u) g = (inl refl, refl)
settled (err e) g = (inr (e, refl), refl)

then_false :
    (m : Method (Unit {0})) (g : GatewayNode)
    → (((m >> pure false) g).0 ≡ ok false ⊎ ((e : Exn) × (((m >> pure false) g).0 ≡ err e)))
      × (((m >> pure false) g).1 ≡ (m g).1)
then_false m g = settled (m g).0 (m g).1

-- A refusal is answered, and the answer may raise.
pub check_rate_limit-refused :
    (w : World) (now : ℕ) (sender : String) (id : ℕ) (g : GatewayNode)
    → (is_allowed w.clock_rate now sender g.rate_limiter).1 ≡ false
    → (((check_rate_limit w now sender id g).0 ≡ ok false)
        ⊎ ((e : Exn) × ((check_rate_limit w now sender id g).0 ≡ err e)))
      × (core (check_rate_limit w now sender id g).1 ≡ core g)
unfolding check_rate_limit
check_rate_limit-refused w now sender id g refused =
    let nack : Method (Unit {0}) =
      send_nack w id ErrorCode.rate_limited (utf8 "Rate limited") sender in
    let g' = record g { rate_limiter = (is_allowed w.clock_rate now sender g.rate_limiter).0 } in
    let (outcome, state) = then_false nack g' in
    rw refused (
      outcome,
      ap core state ∙ send_nack-Keeps w id ErrorCode.rate_limited (utf8 "Rate limited") sender g',
    )

stop :
    (f : Bool → Method (Unit {0})) (r : Result Bool) (g : GatewayNode)
    → (r ≡ ok false) ⊎ ((e : Exn) × (r ≡ err e))
    → (f false g).1.submitted ≡ g.submitted
    → let next : Result (Unit {0}) × GatewayNode = elim r [ ok a ↦ f a g | err e ↦ (err e, g) ] in
      next.1.submitted ≡ g.submitted
stop f r g (inl denied) same = rw denied same
stop f r g (inr (e, raised)) same = rw raised refl

pub bind_stops :
    (m : Method Bool) (f : Bool → Method (Unit {0})) (g : GatewayNode)
    → ((m g).0 ≡ ok false) ⊎ ((e : Exn) × ((m g).0 ≡ err e))
    → ((n : GatewayNode) → (f false n).1.submitted ≡ n.submitted)
    → ((m >>= f) g).1.submitted ≡ (m g).1.submitted
bind_stops m f g outcome same = stop f (m g).0 (m g).1 outcome (same (m g).1)
