-- ===== src/Client/Queue.antt =====
-- Store and forward: flushing the queue.
pub mod Intake
pub mod Offline
pub mod Keeps
pub mod View
pub mod Changes
pub mod Flushed
pub mod Untouched
pub mod Lives
pub mod Steps
use solmesh.Prelude.{
  ℕ, suc, Bool, true, false, not, ◌||◌, List, [], ◌∷◌, ◌++◌, Option, none, some, String, ◌==◌,
  if◌then◌else◌, Result, ok, err, Exn, value_error, runtime_error, invalid_tag, invalid_mode,
  unsupported_mode,
}
use solmesh.Prelude.Eq.{string_eq}
use solmesh.Prelude.Dict.{Dict, lookup, insert}
use solmesh.Prelude.Stateful.{◌>>=◌, ◌>>◌, pure, lift, gets, finished, attempt, raise_when}
use solmesh.Constants.{Str, utf8, max_flush_attempts, ack_timeout}
use solmesh.Mesh.{truthy}
use solmesh.Wallet.{load_keypair, get_pubkey}
use solmesh.Store.{
  IntentStatus, pending, sending, sent, failed, status_eq, Intent, QueueFile, add, get,
  update_status, increment_attempts, pending_intents,
}
use solmesh.Client.{Outcome, success, failure, ClientNode, is_gateway_online}
use solmesh.Client.World.{ClientWorld, Method, now}
use solmesh.Client.Wait.{wait_for_result}
use solmesh.Client.Request.{request_transfer, request_token_transfer}
use solmesh.Client.Relay.{relay_signed_tx, relay_signed_token_tx}

-- The calls on the store, which `flush_intent` finds configured; what they return is not looked at.
unfoldable pub update_intent :
    ClientWorld → String → IntentStatus → Option Str → Option Str → Method (Unit {0})
update_intent w id status error tx_hash c =
    let change : QueueFile → QueueFile =
      λ file. (update_status (now w c) id status error tx_hash file).1 in
    (
      ok tt,
      record c { intent_store = elim c.intent_store [ none ↦ none | some f ↦ some (change f) ] },
    )

unfoldable pub count_attempt : ClientWorld → String → Method (Unit {0})
count_attempt w id c =
    let change : QueueFile → QueueFile = λ file. (increment_attempts (now w c) id file).1 in
    (
      ok tt,
      record c { intent_store = elim c.intent_store [ none ↦ none | some f ↦ some (change f) ] },
    )

abbrev pub current_intent : String → ClientNode → Option Intent
current_intent id c = elim c.intent_store [ none ↦ none | some file ↦ get id file ]

-- The send of its mode. The blockhash of mode 1 is always fetched, and no account is created.
unfoldable pub dispatch : ClientWorld → Intent → String → Method ℕ
dispatch w intent passphrase =
    if intent.mode == 3
    then elim (truthy intent.token_mint) [
      | some mint ↦
          request_token_transfer w intent.wallet_name intent.recipient mint intent.amount
            intent.token_decimals passphrase
      | none ↦ request_transfer w intent.wallet_name intent.recipient intent.amount passphrase
    ]
    else if intent.mode == 1
    then elim (truthy intent.token_mint) [
      | some mint ↦
          relay_signed_token_tx w intent.wallet_name intent.recipient mint intent.amount
            intent.token_decimals none passphrase false
      | none ↦ relay_signed_tx w intent.wallet_name intent.recipient intent.amount none passphrase
    ]
    else lift (err (value_error (unsupported_mode intent.mode)))

abbrev pub status_or_pending : Option Intent → IntentStatus
status_or_pending none = pending
status_or_pending (some intent) = intent.status

-- An intent that has failed for good stays so.
abbrev pub back_to_pending : ClientWorld → String → Str → Option Intent → Method (Unit {0})
back_to_pending w id error none = finished
back_to_pending w id error (some current) =
    if status_eq current.status failed
    then finished
    else update_intent w id pending (some error) none

unfoldable pub settle : ClientWorld → String → Option Outcome → Method Outcome
unfolding update_intent
settle w id (some (success signature)) =
    update_intent w id sent none (some signature) >> pure (success signature)
settle w id (some (failure error)) = do
  current ← gets (current_intent id)
  back_to_pending w id error current
  pure (failure error)
settle w id none = do
  current ← gets (current_intent id)
  back_to_pending w id (utf8 "Timeout waiting for result") current
  pure (failure (utf8 "Timeout"))

-- `"InvalidTag" in type(e).__name__`
abbrev pub is_invalid_tag : Exn → Bool
is_invalid_tag invalid_tag = true
is_invalid_tag _ = false

unfoldable pub dispatch_raised : ClientWorld → String → Exn → Method Outcome
unfolding update_intent count_attempt
dispatch_raised w id e =
    if is_invalid_tag e
    then update_intent w id pending (some (utf8 "Wrong passphrase: " ++ w.text_of e)) none
      >> lift (err e)
    else (do
      count_attempt w id
      current ← gets (current_intent id)
      update_intent w id (status_or_pending current) (some (w.text_of e)) none
      pure (failure (w.text_of e)))

unfoldable pub dispatched : ClientWorld → String → Result ℕ → Method Outcome
unfolding dispatch_raised settle count_attempt
dispatched w id (err e) = dispatch_raised w id e
dispatched w id (ok msg_id) = do
  count_attempt w id
  result ← wait_for_result w msg_id ack_timeout
  settle w id result

unfoldable pub flush_intent : ClientWorld → Intent → String → Method Outcome
unfolding dispatch dispatched update_intent
flush_intent w intent passphrase c = elim c.intent_store [
  | none ↦ (err runtime_error, c)
  | some file ↦
      (do
        update_intent w intent.id sending none none
        r ← attempt (dispatch w intent passphrase)
        dispatched w intent.id r)
        c
]

abbrev pub choose_passphrase : Dict String String → String → ClientNode → Option String
choose_passphrase passphrase_map wallet_name c = elim (lookup wallet_name passphrase_map) [
  | some passphrase ↦ some passphrase
  | none ↦ lookup wallet_name c.passphrase_cache
]

abbrev pub is_skipped : Option String → Intent → Bool
is_skipped wallet_filter intent = elim (truthy wallet_filter) [
  | none ↦ false
  | some wallet ↦ not (string_eq.beq intent.wallet_name wallet)
]

abbrev pub outcome_of : ClientWorld → Result Outcome → Outcome
outcome_of w (ok outcome) = outcome
outcome_of w (err e) = failure (w.text_of e)

-- One round of the loop: an intent without a passphrase is skipped, a gateway that is gone ends it.
abbrev pub flush_one :
    ClientWorld
    → Intent
    → Bool
    → Option String
    → Bool
    → Method (List (String × Outcome))
    → Method (List (String × Outcome))
flush_one w intent true passphrase online next = next
flush_one w intent false none online next = next
flush_one w intent false (some passphrase) false next = pure []
flush_one w intent false (some passphrase) true next = do
  r ← attempt (flush_intent w intent passphrase)
  more ← next
  pure ((intent.id, outcome_of w r) ∷ more)

-- The loop over the pending intents.
pub flush_each :
    ClientWorld
    → Dict String String
    → Option String
    → List Intent
    → Method (List (String × Outcome))
unfolding flush_intent
flush_each w passphrase_map wallet_filter [] c = (ok [], c)
flush_each w passphrase_map wallet_filter (intent ∷ rest) c =
    flush_one w intent (is_skipped wallet_filter intent)
      (choose_passphrase passphrase_map intent.wallet_name c) (is_gateway_online (now w c) 180 c)
      (flush_each w passphrase_map wallet_filter rest) c

-- Under the file lock, which keeps other processes out.
unfoldable pub flush_all_pending :
    ClientWorld → Dict String String → Option String → Method (List (String × Outcome))
unfolding flush_each
flush_all_pending w passphrase_map wallet_filter c = elim c.intent_store [
  | none ↦ (err runtime_error, c)
  | some file ↦ flush_each w passphrase_map wallet_filter (pending_intents file) c
]

-- `busy`: another flush of this client runs.
unfoldable pub auto_flush_pending : ClientWorld → Bool → Method (Unit {0})
unfolding flush_all_pending
auto_flush_pending w busy = if busy then finished else flush_all_pending w [] none >> finished
