-- ===== src/Store.antt =====
-- src/solmesh/store.py: the queue of transaction intents on disk.
-- A stored dict is an `Intent` record: what `asdict` writes has every key. An amount (a float other
-- than NaN) stands as a number, equal numbers for equal floats. Writes succeed here: what a write
-- does when it fails is in Save.
pub mod Twins
pub mod Queue
pub mod Removal
pub mod Pending
pub mod Recovery
pub mod Waiting
pub mod Save
mod Tests
use solmesh.Prelude.{
  ℕ, ◌+◌, ◌-◌, Bool, true, false, not, ◌&&◌, List, [], ◌∷◌, ◌++◌, Option, none, some, String, ltb,
  leb, ◌==◌, if◌then◌else◌, Result, ok, err, value_error, duplicate_intent, length, keep_if, any,
}
use solmesh.Prelude.Eq.{string_eq}
use solmesh.Constants.{Str}

pub data IntentStatus : Type 0 where
  pending sending sent failed : IntentStatus

abbrev pub status_eq : IntentStatus → IntentStatus → Bool
status_eq pending pending = true
status_eq sending sending = true
status_eq sent sent = true
status_eq failed failed = true
status_eq _ _ = false

pub record Intent : Type 0 where
  pub id : String
  pub mode : ℕ
  pub status : IntentStatus
  pub created_at : ℕ
  pub updated_at : ℕ
  pub wallet_name : String
  pub recipient : String
  pub amount : ℕ
  pub token_mint : Option String
  pub token_decimals : ℕ
  pub attempts : ℕ
  pub max_attempts : ℕ
  pub last_error : Option Str
  pub result_tx_hash : Option Str

-- What the queue file holds.
pub data QueueFile : Type 0 where
  missing corrupt not_a_list : QueueFile
  saved : List Intent → QueueFile

unfoldable pub load : QueueFile → List Intent
load (saved intents) = intents
load _ = []

-- `_recover_sending`: the file is written only if an intent changed.
unfoldable pub recover_intent : ℕ → Intent → Intent
recover_intent now intent =
    if status_eq intent.status sending
    then record intent { status = pending; updated_at = now }
    else intent

pub recover_list : ℕ → List Intent → List Intent
recover_list now [] = []
recover_list now (intent ∷ rest) = recover_intent now intent ∷ recover_list now rest

unfoldable pub recover_sending : ℕ → QueueFile → QueueFile
unfolding load recover_list recover_intent
recover_sending now file =
    let intents = load file in
    if any (λ (i : Intent). status_eq i.status sending) intents
    then saved (recover_list now intents)
    else file

abbrev pub mint_eq : Option String → Option String → Bool
mint_eq none none = true
mint_eq none (some b) = false
mint_eq (some a) none = false
mint_eq (some a) (some b) = string_eq.beq a b

abbrev pub matches : String → String → ℕ → Option String → Intent → Bool
matches wallet_name recipient amount token_mint intent =
    status_eq intent.status pending
    && (string_eq.beq intent.wallet_name wallet_name
        && (string_eq.beq intent.recipient recipient
            && (intent.amount == amount && mint_eq intent.token_mint token_mint)))

unfoldable pub is_duplicate : List Intent → String → String → ℕ → Option String → Bool
is_duplicate intents wallet_name recipient amount token_mint =
    any (matches wallet_name recipient amount token_mint) intents

unfoldable pub add : Intent → QueueFile → Result Intent × QueueFile
unfolding load is_duplicate
add intent file =
    let intents = load file in
    if is_duplicate intents intent.wallet_name intent.recipient intent.amount intent.token_mint
    then (err (value_error duplicate_intent), file)
    else (ok intent, saved (intents ++ intent ∷ []))

abbrev pub has_status : IntentStatus → Intent → Bool
has_status status intent = status_eq intent.status status

unfoldable pub list_intents : Option IntentStatus → QueueFile → List Intent
unfolding load
list_intents none file = load file
list_intents (some status) file = keep_if (has_status status) (load file)

-- The first intent with the id, as the loops find it.
pub find_intent : String → List Intent → Option Intent
find_intent intent_id [] = none
find_intent intent_id (intent ∷ rest) =
    let later = find_intent intent_id rest in
    if string_eq.beq intent.id intent_id then some intent else later

unfoldable pub get : String → QueueFile → Option Intent
unfolding load find_intent
get intent_id file = find_intent intent_id (load file)

-- The loops that change the first intent with the id, save and return.
pub change_first : String → (Intent → Intent) → List Intent → List Intent
change_first intent_id f [] = []
change_first intent_id f (intent ∷ rest) =
    let later = change_first intent_id f rest in
    if string_eq.beq intent.id intent_id then f intent ∷ rest else intent ∷ later

unfoldable pub change : String → (Intent → Intent) → QueueFile → Bool × QueueFile
unfolding load find_intent change_first
change intent_id f file = elim (find_intent intent_id (load file)) [
  | none ↦ (false, file)
  | some intent ↦ (true, saved (change_first intent_id f (load file)))
]

abbrev pub or_else : Option Str → Option Str → Option Str
or_else none old = old
or_else (some new) old = some new

abbrev pub set_status : ℕ → IntentStatus → Option Str → Option Str → Intent → Intent
set_status now status error tx_hash intent = record intent {
  status = status;
  updated_at = now;
  last_error = or_else error intent.last_error;
  result_tx_hash = or_else tx_hash intent.result_tx_hash;
}

unfoldable pub update_status :
    ℕ → String → IntentStatus → Option Str → Option Str → QueueFile → Bool × QueueFile
unfolding change
update_status now intent_id status error tx_hash file =
    change intent_id (set_status now status error tx_hash) file

abbrev pub bump_attempts : ℕ → Intent → Intent
bump_attempts now intent =
    let attempts' = intent.attempts + 1 in
    record intent {
      attempts = attempts';
      updated_at = now;
      status = if leb intent.max_attempts attempts' then failed else intent.status;
    }

unfoldable pub increment_attempts : ℕ → String → QueueFile → Bool × QueueFile
unfolding change
increment_attempts now intent_id file = change intent_id (bump_attempts now) file

unfoldable pub remove : String → QueueFile → Bool × QueueFile
unfolding load
remove intent_id file =
    let intents = load file in
    let others = keep_if (λ (i : Intent). not (string_eq.beq i.id intent_id)) intents in
    if ltb (length others) (length intents) then (true, saved others) else (false, file)

unfoldable pub clear : Option IntentStatus → QueueFile → ℕ × QueueFile
unfolding load
clear none file = (length (load file), saved [])
clear (some status) file =
    let intents = load file in
    let remaining = keep_if (λ (i : Intent). not (has_status status i)) intents in
    (length intents - length remaining, saved remaining)

-- `list.sort` by `created_at`: stable, so that an intent stays in front of its equals behind it.
pub insert_by_age : Intent → List Intent → List Intent
insert_by_age intent [] = intent ∷ []
insert_by_age intent (other ∷ rest) =
    let later = insert_by_age intent rest in
    if leb intent.created_at other.created_at then intent ∷ other ∷ rest else other ∷ later

pub sort_by_age : List Intent → List Intent
sort_by_age [] = []
sort_by_age (intent ∷ rest) = insert_by_age intent (sort_by_age rest)

unfoldable pub pending_intents : QueueFile → List Intent
unfolding list_intents sort_by_age insert_by_age
pending_intents file = sort_by_age (list_intents (some pending) file)
