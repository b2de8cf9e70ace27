-- ===== src/Client/Queue/Flushed.antt =====
-- What `flush_intent` makes of the queue, by what became of the intent.
use solmesh.Prelude.{
  ap, ◌∙◌, runtime_error, ◌+◌, ℕ, ◌≡◌, refl, sym, subst, ◌++◌, inl, inr, Bool-cases, Option-cases,
  Option, none, some, String, leb, if◌then◌else◌, Result, ok, err, Exn,
}
use solmesh.Prelude.Stateful.{◌>>◌, pure}
use mathlib.Core.Option
use solmesh.Prelude.Eq.{string_eq, nat_eq}
use solmesh.Prelude.Dict.{lookup, contains}
use solmesh.Constants.{Str, utf8, ack_timeout}
use solmesh.Store.{
  QueueFile, IntentStatus, pending, sending, sent, failed, status_eq, Intent, QueueFile,
}
use solmesh.Client.{ClientNode, Outcome, success, failure}
use solmesh.Client.World.{ClientWorld}
use solmesh.Client.Wait.{wait_for, pop_result, wait_for_result}
use solmesh.Client.Queue.{
  update_intent, count_attempt, current_intent, dispatch, settle, dispatch_raised, dispatched,
  is_invalid_tag, back_to_pending, flush_intent, status_or_pending,
}
use solmesh.Client.Queue.Keeps.{dispatch-store, wait_for_result-store}
use solmesh.Client.Queue.View.{
  Standing, view, counted, with_status, update_intent-view, count_attempt-view,
}
use solmesh.Client.Queue.Changes.{
  Changes, then-Changes, later_queue-Changes, congr-Changes, unfail, back_to_pending-Changes,
  keep_status-Changes,
}

-- What becomes of an intent that is sent: an exception of the send, or the answer, if one came.
pub data Fate : Type 0 where
  raised : Exn → Fate
  answered : Option Outcome → Fate

-- An exception of the wait would be no answer; there is none.
abbrev pub fate_of : ClientWorld → String → Result ℕ → ClientNode → Fate
fate_of w id (err e) c = raised e
fate_of w id (ok msg_id) c =
    elim (wait_for_result w msg_id ack_timeout (count_attempt w id c).1).0 [
      | ok result ↦ answered result
      | err _ ↦ answered none
    ]

-- The send follows the note that the intent is being sent.
abbrev pub fate : ClientWorld → Intent → String → ClientNode → Fate
fate w intent passphrase c =
    let marked = (update_intent w intent.id sending none none c).1 in
    let (r, c') = dispatch w intent passphrase marked in fate_of w intent.id r c'

-- The last attempt fails the intent.
abbrev pub count_as : IntentStatus → Standing → Standing
count_as status s = record s {
  attempts = s.attempts + 1;
  status = if leb s.max_attempts (s.attempts + 1) then failed else status;
}

abbrev pub after : Fate → Standing → Standing
after (raised e) s = if is_invalid_tag e then with_status pending s else count_as sending s
after (answered none) s = count_as pending s
after (answered (some (failure error))) s = count_as pending s
after (answered (some (success signature))) s = record s {
  attempts = s.attempts + 1;
  status = sent;
}

dispatch_raised-Changes :
    (w : ClientWorld) (id : String) (e : Exn) (c c' : ClientNode)
    → Changes id (with_status sending) c c'
    → Changes id (after (raised e)) c (dispatch_raised w id e c').1
unfolding dispatch_raised
dispatch_raised-Changes w id e c c' h = elim (Bool-cases (is_invalid_tag e)) [
  | inl wrong ↦
      let error = some (utf8 "Wrong passphrase: " ++ w.text_of e) in
      let done = (update_intent w id pending error none c').1 in
      let same : dispatch_raised w id e c' ≡ (err e, done) = rw (wrong, dispatch_raised) refl in
      subst (λ (n : Result Outcome × ClientNode). Changes id (after (raised e)) c n.1) (sym same)
        (congr-Changes id (with_status pending) (after (raised e)) c done
          (λ s _. rw (wrong, after) refl)
          (then-Changes id (with_status sending) (with_status pending) c c' done h
            (λ j. update_intent-view w id j pending error none c')))
  | inr other ↦
      let error = some (w.text_of e) in
      let c'' = (count_attempt w id c').1 in
      let status = status_or_pending (current_intent id c'') in
      let done = (update_intent w id status error none c'').1 in
      let same : dispatch_raised w id e c' ≡ (ok (failure (w.text_of e)), done) =
        rw (other, dispatch_raised) refl in
      subst (λ (n : Result Outcome × ClientNode). Changes id (after (raised e)) c n.1) (sym same)
        (congr-Changes id (count_as sending) (after (raised e)) c done
          (λ s _. rw (other, after) refl)
          (then-Changes id (count_as sending) (λ s. s) c c'' done
            (then-Changes id (with_status sending) counted c c' c'' h
              (λ j. count_attempt-view w id j c'))
            (keep_status-Changes w id error c'')))
]

abbrev attempted : Standing → Standing
attempted s = counted (with_status sending s)

not_sent : (s : Standing) → unfail (attempted s) ≡ count_as pending s
not_sent s = elim (Bool-cases (leb s.max_attempts (s.attempts + 1))) [
  | inl last ↦ rw last refl
  | inr more ↦ rw more refl
]

not_sent-Changes :
    (w : ClientWorld) (id : String) (error : Str) (c c' : ClientNode)
    → Changes id attempted c c'
    → Changes id (count_as pending) c (back_to_pending w id error (current_intent id c') c').1
not_sent-Changes w id error c c' h =
    let done = (back_to_pending w id error (current_intent id c') c').1 in
    congr-Changes id (λ s. unfail (attempted s)) (count_as pending) c done (λ s _. not_sent s)
      (then-Changes id attempted unfail c c' done h (back_to_pending-Changes w id error c'))

back_ok :
    (w : ClientWorld) (id : String) (error : Str) (outcome : Outcome) (o : Option Intent)
    (c : ClientNode)
    → (back_to_pending w id error o >> pure outcome) c
      ≡ (ok outcome, (back_to_pending w id error o c).1)
unfolding update_intent
back_ok w id error outcome none c = refl
back_ok w id error outcome (some i) c = elim (Bool-cases (status_eq i.status failed)) [
  | inl over ↦ rw over refl
  | inr still ↦ rw still refl
]

settle-Changes :
    (w : ClientWorld) (id : String) (result : Option Outcome) (c c' : ClientNode)
    → Changes id attempted c c'
    → Changes id (after (answered result)) c (settle w id result c').1
unfolding settle
settle-Changes w id (some (success signature)) c c' h =
    then-Changes id attempted (with_status sent) c c'
      (update_intent w id sent none (some signature) c').1 h
      (λ j. update_intent-view w id j sent none (some signature) c')
settle-Changes w id (some (failure error)) c c' h =
    subst (λ (n : Result Outcome × ClientNode). Changes id (count_as pending) c n.1)
      (sym (back_ok w id error (failure error) (current_intent id c') c'))
      (not_sent-Changes w id error c c' h)
settle-Changes w id none c c' h =
    let error = utf8 "Timeout waiting for result" in
    subst (λ (n : Result Outcome × ClientNode). Changes id (count_as pending) c n.1)
      (sym (back_ok w id error (failure (utf8 "Timeout")) (current_intent id c') c'))
      (not_sent-Changes w id error c c' h)

pop_result_ok :
    (msg_id : ℕ) (c : ClientNode) → (r : Option Outcome) × ((pop_result msg_id c).0 ≡ ok r)
pop_result_ok msg_id c = elim (Option-cases (lookup msg_id c.results)) [
  | inl absent ↦ (none, rw (absent, pop_result) refl)
  | inr (outcome, found) ↦ (some outcome, rw (found, pop_result) refl)
]

wait_for_result_ok :
    (w : ClientWorld) (msg_id timeout : ℕ) (c : ClientNode)
    → (r : Option Outcome) × ((wait_for_result w msg_id timeout c).0 ≡ ok r)
unfolding wait_for_result wait_for
wait_for_result_ok w msg_id timeout c =
    pop_result_ok msg_id (wait_for w (λ n. contains msg_id n.results) timeout c).1

waited-Changes :
    (w : ClientWorld) (id : String) (c : ClientNode) (n : Result (Option Outcome) × ClientNode)
    (r : Option Outcome)
    → n.0 ≡ ok r
    → Changes id attempted c n.1
    → let fate : Fate = elim n.0 [ ok result ↦ answered result | err _ ↦ answered none ] in
      let next : Result Outcome × ClientNode = elim n.0 [
        | ok result ↦ settle w id result n.1
        | err e ↦ (err e, n.1)
      ] in
      Changes id (after fate) c next.1
waited-Changes w id c n r e h = rw e (settle-Changes w id r c n.1 h)

dispatched-Changes :
    (w : ClientWorld) (id : String) (r : Result ℕ) (c c' : ClientNode)
    → Changes id (with_status sending) c c'
    → Changes id (after (fate_of w id r c')) c (dispatched w id r c').1
unfolding dispatched count_attempt
dispatched-Changes w id (err e) c c' h = dispatch_raised-Changes w id e c c' h
dispatched-Changes w id (ok msg_id) c c' h =
    let counted_c = (count_attempt w id c').1 in
    let waited = wait_for_result w msg_id ack_timeout counted_c in
    let (result, came) = wait_for_result_ok w msg_id ack_timeout counted_c in
    let same : waited.1.intent_store ≡ counted_c.intent_store =
      wait_for_result-store w msg_id ack_timeout counted_c in
    waited-Changes w id c waited result came (
      later_queue-Changes id attempted c counted_c waited.1 same (
        then-Changes id (with_status sending) counted c c' counted_c h
          (λ j. count_attempt-view w id j c')))

configured :
    {A : Type 0} (o : Option QueueFile) (file : QueueFile) (a b : A)
    → o ≡ some file
    → (elim o [ none ↦ a | some _ ↦ b ]) ≡ b
configured o file a b set = rw set refl

-- A client with a queue that flushes an intent leaves every other intent as it stands. The intent
-- with that id, if there is one, becomes sent with one attempt more when a success comes back;
-- pending with one attempt more, or failed if that was the last attempt allowed, on an error or on
-- no answer in time; pending without an attempt on a wrong passphrase; and when the sending raises
-- anything else, it has one attempt more and is failed if that was the last, but else stays marked
-- as being sent.
pub flush_intent_lem :
    (w : ClientWorld) (intent : Intent) (passphrase : String) (file : QueueFile) (c : ClientNode)
    → c.intent_store ≡ some file
    → (j : String)
    → view j (flush_intent w intent passphrase c).1 ≡ (
        if string_eq.beq intent.id j
        then Option.map (after (fate w intent passphrase c)) (view intent.id c)
        else view j c)
unfolding flush_intent update_intent
flush_intent_lem w intent passphrase file c set j =
    let marked = (update_intent w intent.id sending none none c).1 in
    let n = dispatch w intent passphrase marked in
    ap (λ (o : Result Outcome × ClientNode). view j o.1)
      (configured c.intent_store file (err runtime_error, c) (dispatched w intent.id n.0 n.1) set)
    ∙ dispatched-Changes w intent.id n.0 c n.1
        (later_queue-Changes intent.id (with_status sending) c marked n.1
          (dispatch-store w intent passphrase marked)
          (λ i. update_intent-view w intent.id i sending none none c))
        j
