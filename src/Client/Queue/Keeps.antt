-- ===== src/Client/Queue/Keeps.antt =====
-- Sending an intent leaves the queue alone.
use solmesh.Client.Transaction.{sol_transfer, token_transfer}
use solmesh.Prelude.{
  ap, suc, ℕ, refl, inl, inr, Bool, Bool-cases, Option-cases, true, false, arith, Option, none,
  some, String, Result, Result-cases, ◌==◌,
}
use solmesh.Prelude.Stateful.{◌>>=◌, ◌>>◌, Keeps, bind-Keeps, lift, gets}
use solmesh.Constants.{Bytes}
use solmesh.Constants.MsgType
use solmesh.Protocol.Frame.{pack_message}
use solmesh.Protocol.Messages.{encode_blockhash_req}
use solmesh.Chunker.{generate_msg_id}
use solmesh.Mesh.{truthy}
use solmesh.Store.{QueueFile, Intent}
use solmesh.Solana.{Keypair}
use solmesh.Wallet.{load_keypair}
use solmesh.Client.{ClientNode}
use solmesh.Client.World.{ClientWorld, Method}
use solmesh.Client.Wait.{wait_for, wait_for_result}
use solmesh.Client.Wait.Keeps.{own, wait_for-own, wait_for_result-own}
use solmesh.Client.Request.{send_request, to_gateway, request_transfer, request_token_transfer}
use solmesh.Client.Relay.{
  new_msg_id, mesh_send, clear_blockhash, fetch_blockhash, fetched, choose_blockhash, relay_raw_tx,
  relay_built, relay_signed_tx, relay_signed_token_tx,
}
use solmesh.Client.Queue.{dispatch}

abbrev pub store : ClientNode → Option QueueFile
store c = c.intent_store

lift-store : {A : Type 0} (r : Result A) → Keeps store (lift r)
lift-store r c = refl

gets-store : {A : Type 0} (f : ClientNode → A) → Keeps store (gets f)
gets-store f c = refl

own-store : {A : Type 0} (m : Method A) → Keeps own m → Keeps store m
own-store m h c = ap (λ o. o.3) (h c)

pub wait_for_result-store :
    (w : ClientWorld) (msg_id timeout : ℕ) → Keeps store (wait_for_result w msg_id timeout)
wait_for_result-store w msg_id timeout =
    own-store (wait_for_result w msg_id timeout) (wait_for_result-own w msg_id timeout)

send_request-store :
    (w : ClientWorld) (g : String) (t : ℕ) (p : Bytes) → Keeps store (send_request w g t p)
unfolding send_request
send_request-store w g t p c = ground arith

to_gateway-store : (w : ClientWorld) (t : ℕ) (p : Result Bytes) → Keeps store (to_gateway w t p)
unfolding to_gateway
to_gateway-store w t p c = elim (Option-cases (truthy c.gateway_id)) [
  | inl unset ↦ rw (unset, to_gateway) refl
  | inr (g, set) ↦ elim (Result-cases p) [
    | inl (b, built) ↦ rw (set, to_gateway) (rw (built, to_gateway) (send_request-store w g t b c))
    | inr (e, raised) ↦ rw (set, to_gateway) (rw (raised, to_gateway) refl)
  ]
]

request_transfer-store :
    (w : ClientWorld) (name to : String) (amount : ℕ) (pass : String)
    → Keeps store (request_transfer w name to amount pass)
unfolding request_transfer
request_transfer-store w name to amount pass c = to_gateway-store w MsgType.tx_request _ c

request_token_transfer-store :
    (w : ClientWorld) (name to mint : String) (amount decimals : ℕ) (pass : String)
    → Keeps store (request_token_transfer w name to mint amount decimals pass)
unfolding request_token_transfer
request_token_transfer-store w name to mint amount decimals pass c =
    to_gateway-store w MsgType.tx_request _ c

mesh_send-store :
    (w : ClientWorld) (msg : Bytes) (to : Option String) → Keeps store (mesh_send w msg to)
unfolding mesh_send
mesh_send-store w msg to c = refl

new_msg_id-store : (w : ClientWorld) → Keeps store (new_msg_id w)
unfolding new_msg_id
new_msg_id-store w c = refl

relay_raw_tx-store : (w : ClientWorld) (tx : Bytes) → Keeps store (relay_raw_tx w tx)
unfolding relay_raw_tx new_msg_id
relay_raw_tx-store w tx c = ground arith

abbrev has_blockhash : ClientNode → Bool
has_blockhash c = elim c.blockhash [ none ↦ false | some _ ↦ true ]

-- From the message of `fetch_blockhash` on.
abbrev ask_blockhash : ClientWorld → ℕ → String → Bytes → Method (Option Bytes)
ask_blockhash w timeout g msg = do
  clear_blockhash
  mesh_send w msg (some g)
  wait_for w has_blockhash timeout
  gets (λ c. c.blockhash)

ask_blockhash-store :
    (w : ClientWorld) (timeout : ℕ) (g : String) (msg : Bytes)
    → Keeps store (ask_blockhash w timeout g msg)
ask_blockhash-store w timeout g msg c =
    bind-Keeps store (mesh_send w msg (some g))
      (λ u. wait_for w has_blockhash timeout >> gets (λ c. c.blockhash))
      (mesh_send-store w msg (some g))
      (λ u.
        bind-Keeps store (wait_for w has_blockhash timeout) (λ u. gets (λ c. c.blockhash))
          (own-store (wait_for w has_blockhash timeout) (wait_for-own w has_blockhash timeout))
          (λ u. gets-store (λ c. c.blockhash)))
      (record c { blockhash = none })

fetch_blockhash-store : (w : ClientWorld) (timeout : ℕ) → Keeps store (fetch_blockhash w timeout)
unfolding fetch_blockhash new_msg_id
fetch_blockhash-store w timeout c = elim (Option-cases (truthy c.gateway_id)) [
  | inl unset ↦ rw (unset, fetch_blockhash) refl
  | inr (g, set) ↦
      let packed =
        pack_message MsgType.blockhash_req (generate_msg_id (w.urandom c.drawn)) 0 1
          encode_blockhash_req in
      rw (set, fetch_blockhash)
        (bind-Keeps store (lift packed) (ask_blockhash w timeout g) (lift-store packed)
          (ask_blockhash-store w timeout g) (record c { drawn = suc c.drawn }))
]

choose_blockhash-store :
    (w : ClientWorld) (blockhash : Option String) → Keeps store (choose_blockhash w blockhash)
unfolding choose_blockhash
choose_blockhash-store w (some hash) c = refl
choose_blockhash-store w none c =
    bind-Keeps store (fetch_blockhash w 60) (λ bytes. lift (fetched w bytes))
      (fetch_blockhash-store w 60) (λ bytes. lift-store (fetched w bytes)) c

module _ (w : ClientWorld) (name : String) (blockhash : Option String) (pass : String)
    (build : Keypair → Bytes → Result Bytes) where
  sign-store :
      (kp : Keypair) (hash : Bytes) → Keeps store (lift (build kp hash) >>= λ tx. relay_raw_tx w tx)
  sign-store kp hash =
      bind-Keeps store (lift (build kp hash)) (λ tx. relay_raw_tx w tx) (lift-store (build kp hash))
        (relay_raw_tx-store w)

  built-store :
      (kp : Keypair)
      → Keeps store (
          choose_blockhash w blockhash >>= λ hash. lift (build kp hash) >>= λ tx. relay_raw_tx w tx)
  built-store kp =
      bind-Keeps store (choose_blockhash w blockhash)
        (λ hash. lift (build kp hash) >>= λ tx. relay_raw_tx w tx)
        (choose_blockhash-store w blockhash) (sign-store kp)

  relay_built-store : Keeps store (relay_built w name blockhash pass build)
  unfolding relay_built
  relay_built-store c =
      bind-Keeps store (lift (load_keypair w.crypto name pass c.wallet_mgr))
        (λ kp.
          choose_blockhash w blockhash >>= λ hash. lift (build kp hash) >>= λ tx. relay_raw_tx w tx)
        (lift-store (load_keypair w.crypto name pass c.wallet_mgr)) built-store c

pub dispatch-store :
    (w : ClientWorld) (intent : Intent) (pass : String) → Keeps store (dispatch w intent pass)
unfolding dispatch relay_signed_tx relay_signed_token_tx
dispatch-store w intent pass c = elim (Bool-cases (intent.mode == 3)) [
  | inl third ↦ elim (Option-cases (truthy intent.token_mint)) [
    | inr (mint, token) ↦
        rw (third, token)
          (request_token_transfer-store w intent.wallet_name intent.recipient mint intent.amount
            intent.token_decimals pass c)
    | inl sol ↦
        rw (third, sol)
          (request_transfer-store w intent.wallet_name intent.recipient intent.amount pass c)
  ]
  | inr other ↦ elim (Bool-cases (intent.mode == 1)) [
    | inr neither ↦ rw (other, neither) refl
    | inl first ↦ elim (Option-cases (truthy intent.token_mint)) [
      | inr (mint, token) ↦
          rw (other, first, token)
            (relay_built-store w intent.wallet_name none pass
              (token_transfer w intent.recipient mint intent.amount intent.token_decimals false) c)
      | inl sol ↦
          rw (other, first, sol)
            (relay_built-store w intent.wallet_name none pass
              (sol_transfer w intent.recipient intent.amount) c)
    ]
  ]
]
