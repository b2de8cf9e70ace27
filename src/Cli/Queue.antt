-- ===== src/Cli/Queue.antt =====
-- The `queue` commands.
pub mod Silent
use solmesh.Prelude.{
  ℕ, Bool, true, false, not, ◌&&◌, List, [], ◌∷◌, Option, none, some, String, if◌then◌else◌, Result,
  ok, err, Exn, system_exit, length, take,
}
use solmesh.Prelude.Eq.{string_eq}
use solmesh.Prelude.Dict.{Dict, insert}
use solmesh.Prelude.Stateful.{◌>>=◌, ◌>>◌, lift, gets, finished}
use solmesh.Constants.{Str, utf8, known_token}
use solmesh.Mesh.{truthy}
use solmesh.Store.{
  IntentStatus, pending, sending, sent, failed, Intent, QueueFile, list_intents, pending_intents,
  remove, clear,
}
use solmesh.Client.{Outcome, success, failure}
use solmesh.Client.Queue.{flush_all_pending}
use solmesh.Cli.{
  Part, text, raw, num, padded, padded_num, padded_float, rule, json, Session, Running, Host,
  Command, Online, echo, say, refuse, on_client, open_store, with_client,
}
use solmesh.Cli.Send.{Route, online}

abbrev pub status_text : IntentStatus → String
status_text pending = "pending"
status_text sending = "sending"
status_text sent = "sent"
status_text failed = "failed"

abbrev pub label_of : Option (Str × ℕ) → Str
label_of none = utf8 " TOKEN"
label_of (some (symbol, decimals)) = 32 ∷ symbol

abbrev pub token_label : Option String → Str
token_label none = utf8 " SOL"
token_label (some mint) = label_of (known_token mint)

unfoldable pub print_intent : Intent → Command (Unit {0})
print_intent i = echo (
    padded 14 (utf8 i.id)
    ∷ text " "
    ∷ padded 10 (utf8 (status_text i.status))
    ∷ text " "
    ∷ padded_num 6 i.mode
    ∷ text " "
    ∷ padded 15 (utf8 i.wallet_name)
    ∷ text " "
    ∷ padded_float 12 i.amount
    ∷ padded 6 (token_label (truthy i.token_mint))
    ∷ text " "
    ∷ padded 44 (take 44 (utf8 i.recipient))
    ∷ text " "
    ∷ num i.attempts
    ∷ text "/"
    ∷ num i.max_attempts
    ∷ [])

pub print_intents : List Intent → Command (Unit {0})
unfolding print_intent
print_intents [] = finished
print_intents (i ∷ rest) = print_intent i >> print_intents rest

unfoldable pub show_intents : List Intent → Command (Unit {0})
unfolding print_intents
show_intents [] = echo (text "No intents found." ∷ [])
show_intents (i ∷ rest) = do
  echo (
      padded 14 (utf8 "ID")
      ∷ text " "
      ∷ padded 10 (utf8 "Status")
      ∷ text " "
      ∷ padded 6 (utf8 "Mode")
      ∷ text " "
      ∷ padded 15 (utf8 "Wallet")
      ∷ text " "
      ∷ padded 12 (utf8 "Amount")
      ∷ text " "
      ∷ padded 44 (utf8 "Recipient")
      ∷ text " Attempts"
      ∷ [])
  echo (rule 110 ∷ [])
  print_intents (i ∷ rest)

unfoldable pub queue_list : Host → Option IntentStatus → Bool → Command (Unit {0})
unfolding show_intents
queue_list h status as_json = do
  open_store h
  intents ← gets (λ s. list_intents status s.queue)
  (if as_json then echo (json intents ∷ []) else show_intents intents)

-- `{w: passphrase for w in wallet_names}`
pub each_wallet : String → List Intent → Dict String String
each_wallet passphrase [] = []
each_wallet passphrase (i ∷ rest) = insert i.wallet_name passphrase (each_wallet passphrase rest)

abbrev pub passphrases : String → Option String → List Intent → Dict String String
passphrases passphrase none waiting = each_wallet passphrase waiting
passphrases passphrase (some wallet) waiting = (wallet, passphrase) ∷ []

pub report_flushed : List (String × Outcome) → Online (Unit {0})
report_flushed [] = finished
report_flushed ((intent_id, success signature) ∷ rest) =
    say (text "  " ∷ text intent_id ∷ text ": OK (tx: " ∷ raw signature ∷ text ")" ∷ [])
    >> report_flushed rest
report_flushed ((intent_id, failure error) ∷ rest) =
    say (text "  " ∷ text intent_id ∷ text ": FAILED (" ∷ raw error ∷ text ")" ∷ [])
    >> report_flushed rest

-- With the client.
unfoldable pub flush_and_report : Host → String → Option String → List Intent → Online (Unit {0})
unfolding each_wallet report_flushed
flush_and_report h passphrase wallet waiting = do
  say (text "Flushing " ∷ num (length waiting) ∷ text " pending intent(s)..." ∷ [])
  results ←
      on_client (flush_all_pending h.world (passphrases passphrase (truthy wallet) waiting) wallet)
  report_flushed results

unfoldable pub flush_pending :
    Host → String → Option String → Route → QueueFile → List Intent → Command (Unit {0})
unfolding with_client online flush_and_report
flush_pending h passphrase wallet route store waiting =
    with_client route.gateway_node (some store) false
      (online h route "No gateway found." (flush_and_report h passphrase wallet waiting))

abbrev pub flush_if_any :
    Host → String → Option String → Route → QueueFile → List Intent → Command (Unit {0})
flush_if_any h passphrase wallet route store [] = echo (text "No pending intents to flush." ∷ [])
flush_if_any h passphrase wallet route store (i ∷ rest) =
    flush_pending h passphrase wallet route store (i ∷ rest)

unfoldable pub queue_flush : Host → String → Option String → Route → Command (Unit {0})
unfolding flush_pending
queue_flush h passphrase wallet route = do
  open_store h
  store ← gets (λ s. s.queue)
  flush_if_any h passphrase wallet route store (pending_intents store)

abbrev pub on_store : {A : Type 0} → (QueueFile → A × QueueFile) → Command A
on_store m s = let (a, file) = m s.queue in (ok a, record s { queue = file })

-- `confirmed`: what the user answers; Click exits with 1 at a no.
unfoldable pub queue_clear : Host → Option IntentStatus → Bool → Bool → Command (Unit {0})
queue_clear h status skip_prompt confirmed = do
  open_store h
  (if not skip_prompt && not confirmed then lift (err (system_exit 1)) else finished)
  count ← on_store (clear status)
  echo (text "Removed " ∷ num count ∷ text " intent(s)." ∷ [])

unfoldable pub queue_remove : Host → String → Command (Unit {0})
queue_remove h intent_id = do
  open_store h
  removed ← on_store (remove intent_id)
  (if removed
      then echo (text "Removed intent " ∷ text intent_id ∷ text "." ∷ [])
      else refuse (text "Intent '" ∷ text intent_id ∷ text "' not found." ∷ []))
