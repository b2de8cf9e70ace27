-- ===== src/Client.antt =====
-- src/solmesh/client.py: the offline client: its state, and the messages that it receives. A thread
-- that it starts is noted in its state; what it runs is a method of its own.
pub mod World
pub mod Request
pub mod Signed
pub mod Wait
pub mod Transaction
pub mod Relay
pub mod Retry
pub mod Queue
pub mod Toy
mod Tests
use solmesh.Prelude.{
  ℕ, ◌+◌, ◌-◌, Bool, true, false, not, ◌&&◌, List, [], ◌∷◌, ◌++◌, Option, none, some, String, ltb,
  ◌==◌, any, if◌then◌else◌, Result, ok, err, Exn, ◌>>=◌, ◌>>◌, nonempty,
}
use solmesh.Prelude.Eq.{nat_eq, string_eq}
use solmesh.Prelude.Dict.{Dict, lookup, insert}
use solmesh.Constants.{Bytes, Str}
use solmesh.Constants.MsgType
use solmesh.Protocol.Frame.{SolMeshHeader}
use solmesh.Protocol.Messages.{
  AddrShare, Ack, Nack, BalanceResp, Beacon, TxResult, decode_addr_share, decode_ack, decode_nack,
  decode_balance_resp, decode_blockhash_resp, decode_gateway_beacon, decode_tx_result,
}
use solmesh.Mesh.{Mesh, Handlers, register_handler, truthy}
use solmesh.Wallet.{Wallets}
use solmesh.Store.{QueueFile, pending_intents}

-- A result: the signature, or the error.
pub data Outcome : Type 0 where
  success : Str → Outcome
  failure : Str → Outcome

-- Of a balance what was answered; its forms for display are left out.
pub record Balance : Type 0 where
  pub pubkey : Bytes
  pub mint : Bytes
  pub amount : ℕ

-- `flushes` counts the threads that a beacon started to flush the queue, and `threads` holds the
-- chunks and the message id of those that were started to retry. `drawn` counts the ids drawn, and
-- `waits` the times that the client waited or slept.
pub record ClientNode : Type 0 where
  pub mesh : Mesh
  pub wallet_mgr : Wallets
  pub gateway_id : Option String
  pub acked_chunks : Dict ℕ (List ℕ)
  pub results : Dict ℕ Outcome
  pub balances : Dict ℕ Balance
  pub received_addresses : Dict String AddrShare
  pub discovered_gateways : Dict String (Beacon × ℕ)
  pub blockhash : Option Bytes
  pub intent_store : Option QueueFile
  pub auto_flush : Bool
  pub passphrase_cache : Dict String String
  pub flushes : ℕ
  pub threads : List (List Bytes × ℕ)
  pub drawn : ℕ
  pub waits : ℕ

unfoldable pub new_client : Mesh → Wallets → Option String → Option QueueFile → Bool → ClientNode
new_client mesh wallet_manager gateway_node_id intent_store auto_flush = record {
  mesh = mesh;
  wallet_mgr = wallet_manager;
  gateway_id = gateway_node_id;
  acked_chunks = [];
  results = [];
  balances = [];
  received_addresses = [];
  discovered_gateways = [];
  blockhash = none;
  intent_store = intent_store;
  auto_flush = auto_flush;
  passphrase_cache = [];
  flushes = 0;
  threads = [];
  drawn = 0;
  waits = 0;
}

-- What a handler does with a payload that it decodes; what the decoding raises goes to the caller.
abbrev pub decoded :
    {A : Type 0} → Result A → (A → ClientNode) → ClientNode → Result (Unit {0}) × ClientNode
decoded (err e) next c = (err e, c)
decoded (ok a) next c = (ok tt, next a)

-- Acknowledgements of messages that are not tracked are dropped.
unfoldable pub handle_ack :
    SolMeshHeader → Bytes → String → ClientNode → Result (Unit {0}) × ClientNode
handle_ack header payload sender_id c =
    decoded (decode_ack payload)
      (λ a. elim (lookup a.acked_msg_id c.acked_chunks) [
        | none ↦ c
        | some acked ↦ record c {
          acked_chunks = insert a.acked_msg_id (a.acked_chunk ∷ acked) c.acked_chunks;
        }
      ])
      c

unfoldable pub handle_nack :
    (Bytes → Bool) → SolMeshHeader → Bytes → String → ClientNode → Result (Unit {0}) × ClientNode
handle_nack valid_utf8 header payload sender_id c =
    decoded (decode_nack valid_utf8 payload)
      (λ n. record c { results = insert n.nacked_msg_id (failure n.error_msg) c.results }) c

-- `replaced` is `bytes.decode("utf-8", errors="replace")`.
unfoldable pub handle_tx_result :
    (Bytes → Str) → SolMeshHeader → Bytes → String → ClientNode → Result (Unit {0}) × ClientNode
handle_tx_result replaced header payload sender_id c =
    decoded (decode_tx_result payload)
      (λ t.
        let outcome =
          if t.success then success (replaced t.contents) else failure (replaced t.contents) in
        record c { results = insert t.orig_msg_id outcome c.results })
      c

-- Balances are kept under the id of the response, not of the request.
unfoldable pub handle_balance_resp :
    SolMeshHeader → Bytes → String → ClientNode → Result (Unit {0}) × ClientNode
handle_balance_resp header payload sender_id c =
    decoded (decode_balance_resp payload)
      (λ b.
        let balance : Balance = record {
          pubkey = b.pubkey;
          mint = b.mint;
          amount = if nonempty b.mint then b.amount else b.lamports;
        } in
        record c { balances = insert header.msg_id balance c.balances })
      c

unfoldable pub handle_blockhash_resp :
    SolMeshHeader → Bytes → String → ClientNode → Result (Unit {0}) × ClientNode
handle_blockhash_resp header payload sender_id c =
    decoded (decode_blockhash_resp payload) (λ hash. record c { blockhash = some hash }) c

-- Whether a beacon starts a flush.
abbrev pub starts_flush : ClientNode → Bool
starts_flush c = elim c.intent_store [
  | none ↦ false
  | some file ↦ c.auto_flush && nonempty (pending_intents file)
]

abbrev pub auto_gateway : String → Option String → Option String
auto_gateway sender_id gateway_id = elim (truthy gateway_id) [
  | none ↦ some sender_id
  | some id ↦ gateway_id
]

unfoldable pub handle_gateway_beacon :
    ℕ → SolMeshHeader → Bytes → String → ClientNode → Result (Unit {0}) × ClientNode
handle_gateway_beacon now header payload sender_id c =
    decoded (decode_gateway_beacon payload)
      (λ beacon. record c {
        discovered_gateways = insert sender_id (beacon, now) c.discovered_gateways;
        gateway_id = auto_gateway sender_id c.gateway_id;
        flushes = if starts_flush c then c.flushes + 1 else c.flushes;
      })
      c

unfoldable pub handle_addr_share :
    (Bytes → Bool) → SolMeshHeader → Bytes → String → ClientNode → Result (Unit {0}) × ClientNode
handle_addr_share valid_utf8 header payload sender_id c =
    decoded (decode_addr_share valid_utf8 payload)
      (λ a. record c { received_addresses = insert sender_id a c.received_addresses }) c

-- What `connect` registers, for messages that are handled at time `now`.
unfoldable pub client_handlers : (Bytes → Bool) → (Bytes → Str) → ℕ → Handlers ClientNode
unfolding register_handler
client_handlers valid_utf8 replaced now =
    register_handler MsgType.addr_share (handle_addr_share valid_utf8) (
      register_handler MsgType.gateway_beacon (handle_gateway_beacon now) (
        register_handler MsgType.blockhash_resp handle_blockhash_resp (
          register_handler MsgType.balance_resp handle_balance_resp (
            register_handler MsgType.tx_result (handle_tx_result replaced) (
              register_handler MsgType.nack (handle_nack valid_utf8)
                (register_handler MsgType.ack handle_ack []))))))

unfoldable pub get_received_addresses : ClientNode → Dict String AddrShare
get_received_addresses c = c.received_addresses

-- A clock that was set back gives a difference of 0 here, below the limit as the negative one.
unfoldable pub is_gateway_online : ℕ → ℕ → ClientNode → Bool
is_gateway_online now max_stale_seconds c = elim (truthy c.gateway_id) [
  | none ↦ false
  | some id ↦ elim (lookup id c.discovered_gateways) [
    | none ↦ false
    | some (beacon, last_seen) ↦ ltb (now - last_seen) max_stale_seconds
  ]
]
