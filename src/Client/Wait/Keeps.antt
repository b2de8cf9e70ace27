-- ===== src/Client/Wait/Keeps.antt =====
-- What the messages that a client receives leave alone.
use solmesh.Prelude.{
  ap, ℕ, zero, suc, ◌≡◌, refl, ◌∙◌, inl, inr, Bool, Bool-cases, Option-cases, List, [], ◌∷◌, arith,
  Option, some, String, Result, ok, err, leb,
}
use solmesh.Prelude.Eq.{nat_eq}
use solmesh.Prelude.Dict.{Dict, lookup, contains}
use solmesh.Prelude.Stateful.{Keeps, bind-Keeps}
use solmesh.Constants.{Bytes, Str}
use solmesh.Constants.MsgType
use solmesh.Protocol.Messages.{
  decode_addr_share, decode_ack, decode_nack, decode_balance_resp, decode_blockhash_resp,
  decode_gateway_beacon, decode_tx_result,
}
use solmesh.Mesh.{truthy, register_handler, Mesh, Handlers, Packet, on_receive}
use solmesh.Mesh.Keeps.{HandlerKeeps, EachKeeps, register_handler-keep, on_receive-keep}
use solmesh.Wallet.{Wallets}
use solmesh.Store.{QueueFile}
use solmesh.Client.{
  ClientNode, decoded, handle_ack, handle_nack, handle_tx_result, handle_balance_resp,
  handle_blockhash_resp, handle_gateway_beacon, handle_addr_share, client_handlers, auto_gateway,
}
use solmesh.Client.World.{ClientWorld, now}
use solmesh.Client.Wait.{receive_all, listen, wait_rounds, wait_for, pop_result, wait_for_result}

-- What goes out, the key store, the passphrases, the queue, and the threads that send.
abbrev pub Own : Type 0
Own = Mesh × Wallets × Dict String String × Option QueueFile × List (List Bytes × ℕ) × ℕ

abbrev pub own : ClientNode → Own
own c = (c.mesh, c.wallet_mgr, c.passphrase_cache, c.intent_store, c.threads, c.drawn)

abbrev own_and_waits : ClientNode → Own × ℕ
own_and_waits c = (own c, c.waits)

-- What a message may change is kept, whichever way it decodes.
decoded-keep :
    {A : Type 0} (P : ClientNode → Type 0) (r : Result A) (next : A → ClientNode) (c : ClientNode)
    → ((a : A) → P (next a))
    → P c
    → P (decoded r next c).1
decoded-keep P (err e) next c h p = p
decoded-keep P (ok a) next c h p = h a

-- The handlers of a client keep what no message changes: what holds of a client with another
-- `acked_chunks`, result, balance, blockhash or address, and with what a beacon changes.
record Unchanged (P : ClientNode → Type 0) : Type 1 where
  on_ack : HandlerKeeps P handle_ack
  on_nack : (valid : Bytes → Bool) → HandlerKeeps P (handle_nack valid)
  on_tx_result : (replaced : Bytes → Str) → HandlerKeeps P (handle_tx_result replaced)
  on_balance : HandlerKeeps P handle_balance_resp
  on_blockhash : HandlerKeeps P handle_blockhash_resp
  on_beacon : (t : ℕ) → HandlerKeeps P (handle_gateway_beacon t)
  on_share : (valid : Bytes → Bool) → HandlerKeeps P (handle_addr_share valid)

client_handlers-keep :
    (P : ClientNode → Type 0) (valid : Bytes → Bool) (replaced : Bytes → Str) (t : ℕ)
    → Unchanged P
    → EachKeeps P (client_handlers valid replaced t)
unfolding client_handlers
client_handlers-keep P valid replaced t u =
    let acks = register_handler MsgType.ack handle_ack [] in
    let nacks = register_handler MsgType.nack (handle_nack valid) acks in
    let results = register_handler MsgType.tx_result (handle_tx_result replaced) nacks in
    let balances = register_handler MsgType.balance_resp handle_balance_resp results in
    let hashes = register_handler MsgType.blockhash_resp handle_blockhash_resp balances in
    let beacons = register_handler MsgType.gateway_beacon (handle_gateway_beacon t) hashes in
    register_handler-keep P MsgType.addr_share (handle_addr_share valid) beacons (u.on_share valid)
      (register_handler-keep P MsgType.gateway_beacon (handle_gateway_beacon t) hashes
        (u.on_beacon t)
        (register_handler-keep P MsgType.blockhash_resp handle_blockhash_resp balances
          u.on_blockhash
          (register_handler-keep P MsgType.balance_resp handle_balance_resp results u.on_balance (
            register_handler-keep P MsgType.tx_result (handle_tx_result replaced) nacks
              (u.on_tx_result replaced)
              (register_handler-keep P MsgType.nack (handle_nack valid) acks (u.on_nack valid)
                (register_handler-keep P MsgType.ack handle_ack [] u.on_ack tt))))))

receive_all-keep :
    (P : ClientNode → Type 0) (handlers : Handlers ClientNode) (l : List Packet) (c : ClientNode)
    → EachKeeps P handlers
    → P c
    → P (receive_all handlers l c)
unfolding receive_all
receive_all-keep P handlers [] c h p = p
receive_all-keep P handlers (packet ∷ l) c h p =
    receive_all-keep P handlers l (on_receive handlers packet c) h
      (on_receive-keep P handlers packet c h p)

listen-keep :
    (P : ClientNode → Type 0) (w : ClientWorld) (c : ClientNode)
    → Unchanged P
    → P (record c { waits = suc c.waits })
    → P (listen w c)
unfolding listen
listen-keep P w c u p =
    receive_all-keep P (client_handlers w.valid_utf8 w.replaced (w.clock (suc c.waits)))
      (w.heard c.waits) (record c { waits = suc c.waits })
      (client_handlers-keep P w.valid_utf8 w.replaced (w.clock (suc c.waits)) u) p

abbrev SameOwn : Own × ℕ → ClientNode → Type 0
SameOwn x c = own_and_waits c ≡ x

own-Unchanged : (x : Own × ℕ) → Unchanged (SameOwn x)
unfolding handle_ack handle_nack handle_tx_result handle_balance_resp handle_blockhash_resp
    handle_gateway_beacon handle_addr_share
own-Unchanged x = record {
  on_ack = λ header payload sender c p.
      decoded-keep (SameOwn x) (decode_ack payload) _ c (λ a. ground (arith, p)) p;
  on_nack = λ valid header payload sender c p.
      decoded-keep (SameOwn x) (decode_nack valid payload) _ c (λ a. p) p;
  on_tx_result = λ replaced header payload sender c p.
      decoded-keep (SameOwn x) (decode_tx_result payload) _ c (λ a. p) p;
  on_balance = λ header payload sender c p.
      decoded-keep (SameOwn x) (decode_balance_resp payload) _ c (λ a. p) p;
  on_blockhash = λ header payload sender c p.
      decoded-keep (SameOwn x) (decode_blockhash_resp payload) _ c (λ a. p) p;
  on_beacon = λ t header payload sender c p.
      decoded-keep (SameOwn x) (decode_gateway_beacon payload) _ c (λ a. p) p;
  on_share = λ valid header payload sender c p.
      decoded-keep (SameOwn x) (decode_addr_share valid payload) _ c (λ a. p) p;
}

-- A gateway that is named stays so.
abbrev Names : String → ClientNode → Type 0
Names id c = truthy c.gateway_id ≡ some id

auto_gateway-named :
    (sender id : String) (o : Option String)
    → truthy o ≡ some id
    → truthy (auto_gateway sender o) ≡ some id
auto_gateway-named sender id o e = rw (e, auto_gateway) e

named-Unchanged : (id : String) → Unchanged (Names id)
unfolding handle_ack handle_nack handle_tx_result handle_balance_resp handle_blockhash_resp
    handle_gateway_beacon handle_addr_share
named-Unchanged id = record {
  on_ack = λ header payload sender c p.
      decoded-keep (Names id) (decode_ack payload) _ c (λ a. ground (arith, p)) p;
  on_nack = λ valid header payload sender c p.
      decoded-keep (Names id) (decode_nack valid payload) _ c (λ a. p) p;
  on_tx_result = λ replaced header payload sender c p.
      decoded-keep (Names id) (decode_tx_result payload) _ c (λ a. p) p;
  on_balance = λ header payload sender c p.
      decoded-keep (Names id) (decode_balance_resp payload) _ c (λ a. p) p;
  on_blockhash = λ header payload sender c p.
      decoded-keep (Names id) (decode_blockhash_resp payload) _ c (λ a. p) p;
  on_beacon = λ t header payload sender c p.
      decoded-keep (Names id) (decode_gateway_beacon payload) _ c
        (λ a. auto_gateway-named sender id c.gateway_id p) p;
  on_share = λ valid header payload sender c p.
      decoded-keep (Names id) (decode_addr_share valid payload) _ c (λ a. p) p;
}

pub listen-named :
    (w : ClientWorld) (c : ClientNode) (id : String)
    → truthy c.gateway_id ≡ some id
    → truthy (listen w c).gateway_id ≡ some id
listen-named w c id named = listen-keep (Names id) w c (named-Unchanged id) named

listen-eq :
    (w : ClientWorld) (c : ClientNode)
    → own_and_waits (listen w c) ≡ own_and_waits (record c { waits = suc c.waits })
listen-eq w c =
    let x = own_and_waits (record c { waits = suc c.waits }) in
    listen-keep (SameOwn x) w c (own-Unchanged x) refl

-- No message that arrives during a wait makes the client send anything, draw an id or start to
-- relay, nor changes the key store, the passphrases or the queue.
pub listen-own : (w : ClientWorld) (c : ClientNode) → own (listen w c) ≡ own c
listen-own w c = ap (λ o. o.0) (listen-eq w c)

pub listen-waits : (w : ClientWorld) (c : ClientNode) → (listen w c).waits ≡ suc c.waits
listen-waits w c = ap (λ o. o.1) (listen-eq w c)

pub wait_rounds-own :
    (w : ClientWorld) (ready : ClientNode → Bool) (deadline rounds : ℕ) (c : ClientNode)
    → own (wait_rounds w ready deadline rounds c) ≡ own c
unfolding wait_rounds
wait_rounds-own w ready deadline zero c = refl
wait_rounds-own w ready deadline (suc rounds) c = elim (Bool-cases (ready c)) [
  | inl yet ↦ rw (yet, wait_rounds) refl
  | inr not_yet ↦ elim (Bool-cases (leb deadline (now w c))) [
    | inl over ↦ rw (not_yet, wait_rounds) (rw (over, wait_rounds) refl)
    | inr early ↦
        let rest = wait_rounds-own w ready deadline rounds (listen w c) ∙ listen-own w c in
        rw (not_yet, wait_rounds) (rw (early, wait_rounds) rest)
  ]
]

pub wait_for-own :
    (w : ClientWorld) (ready : ClientNode → Bool) (timeout : ℕ)
    → Keeps own (wait_for w ready timeout)
unfolding wait_for
wait_for-own w ready timeout c = wait_rounds-own w ready _ timeout c

pop_result-own : (msg_id : ℕ) → Keeps own (pop_result msg_id)
pop_result-own msg_id c = elim (Option-cases (lookup msg_id c.results)) [
  | inl absent ↦ rw (absent, pop_result) refl
  | inr (r, found) ↦ rw (found, pop_result) refl
]

pub wait_for_result-own :
    (w : ClientWorld) (msg_id timeout : ℕ) → Keeps own (wait_for_result w msg_id timeout)
unfolding wait_for_result
wait_for_result-own w msg_id timeout =
    bind-Keeps own (wait_for w (λ c. contains msg_id c.results) timeout) (λ u. pop_result msg_id)
      (wait_for-own w (λ c. contains msg_id c.results) timeout) (λ u. pop_result-own msg_id)
