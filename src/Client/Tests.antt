-- ===== src/Client/Tests.antt =====
-- A client in a small world, and the request that it signs there.
use solmesh.Prelude.{
  any, Option, ◌≡◌, refl, inl, true, [], ◌∷◌, arith, false, none, some, ok, replicate,
}
use solmesh.Constants.{Bytes}
use solmesh.Constants.MsgType
use solmesh.Protocol.Frame.{SolMeshHeader, unpack_message}
use solmesh.Protocol.Request.{TxRequest, decode_tx_request}
use solmesh.Gateway.Transfer.{signed_data}
use solmesh.Chunker.{generate_msg_id}
use solmesh.Wallet.{load_keypair}
use solmesh.Store.{pending, sent, pending_intents, Intent, saved, get, load}
use solmesh.Client.{ClientNode, Outcome}
use solmesh.Client.Toy.{toy_solders, wallet_key, toy_world, toy_intent, toy_client}
use solmesh.Client.Request.{request_transfer}
use solmesh.Client.Wait.{wait_for, wait_for_result}
use solmesh.Client.Wait.Timeout.{TakenOrLate, wait_for_result_lem}
use solmesh.Client.Queue.Untouched.{flush_all_pending-view}
use solmesh.Client.Queue.{flush_intent, flush_all_pending}
use solmesh.Client.Queue.View.{view, standing, Standing}
use solmesh.Client.Queue.Lives.{Lives, queued, later, flushed, Sound}
use solmesh.Client.Queue.Steps.{OneStep, flush_all_pending-OneStep, flush_all_pending-Sound}
use solmesh.Store.Waiting.{Apart}
use solmesh.Client.Queue.Flushed.{answered, fate, after, flush_intent_lem}
use solmesh.Prelude.Dict.{contains}
use solmesh.Prelude.Eq.{nat_eq, string_eq}
use solmesh.Client.Signed.{request_transfer-authentic}

loaded : load_keypair toy_world.crypto "main" "secret" toy_client.wallet_mgr ≡ ok wallet_key
unfolding load_keypair
loaded = refl

request_transfer-authentic_example :
    (frame payload : Bytes) × (header : SolMeshHeader) × (req : TxRequest) × ((request_transfer
        toy_world "main" "Bob" 3 "secret" toy_client).1.mesh.air
      ≡ record { contents = frame; destination = some "!gate"; want_ack = true } ∷ [])
    × (unpack_message frame ≡ ok (header, payload))
    × (header.msg_type ≡ MsgType.tx_request)
    × (decode_tx_request (λ _. true) payload ≡ ok req)
    × (req.sender_pubkey ≡ replicate 32 1)
    × (req.dest_pubkey ≡ replicate 32 2)
    × (req.lamports ≡ 3000000000)
    × (req.mint ≡ [])
    × (req.signature ≡ toy_solders.sign_message wallet_key (signed_data req))
unfolding generate_msg_id
request_transfer-authentic_example =
    request_transfer-authentic toy_world toy_client "main" "Bob" "secret" "!gate" 3 wallet_key
      (replicate 32 2) (λ _. true) refl refl loaded refl
      (record {
        sig_size = refl;
        sender_size = refl;
        dest_size = refl;
        amount_fits = omega arith;
        mint_size = inl refl;
      })
      (omega arith) (omega arith) (omega arith) (omega arith)

wait_for_result_lem_example :
    let c' = (wait_for toy_world (λ n. contains 9 n.results) 25 toy_client).1 in
    let (r, c'') = wait_for_result toy_world 9 25 toy_client in
    (result : Option Outcome) × (r ≡ ok result) × TakenOrLate toy_world 9 25 c' result c''
wait_for_result_lem_example = wait_for_result_lem toy_world 9 25 toy_client (λ k. omega arith)

flush_intent_lem_example :
    view "lunch" (flush_intent toy_world toy_intent "secret" toy_client).1
    ≡ some (after (fate toy_world toy_intent "secret" toy_client) (standing toy_intent))
unfolding get
flush_intent_lem_example =
    flush_intent_lem toy_world toy_intent "secret" (saved (toy_intent ∷ [])) toy_client refl "lunch"

-- A frame of two bytes.
abbrev hello : Bytes
hello = 0x53 ∷ 0x4d ∷ 1 ∷ 3 ∷ 0x12 ∷ 0x34 ∷ 0 ∷ 1 ∷ 2 ∷ 0xfe ∷ 0x68 ∷ 0x69 ∷ []

abbrev dinner : Intent
dinner = record toy_intent { id = "dinner"; status = sent }

abbrev two_intents : ClientNode
two_intents = record toy_client { intent_store = some (saved (toy_intent ∷ dinner ∷ [])) }

only_lunch :
    any
      (λ (i : Intent). string_eq.beq i.id "dinner")
      (pending_intents (saved (toy_intent ∷ dinner ∷ [])))
    ≡ false
unfolding pending_intents
only_lunch = refl

flush_all_pending-view_example :
    view "dinner" (flush_all_pending toy_world (("main", "secret") ∷ []) none two_intents).1
    ≡ view "dinner" two_intents
flush_all_pending-view_example =
    flush_all_pending-view toy_world (("main", "secret") ∷ []) none
      (saved (toy_intent ∷ dinner ∷ [])) "dinner" two_intents refl only_lunch

-- Queued, and flushed once without an answer.
tried_once : Lives (record { status = pending; attempts = 1; max_attempts = 3 })
tried_once =
    let start : Standing = record { status = pending; attempts = 0; max_attempts = 3 } in
    later start _ (queued 3 (omega arith)) (flushed start (answered none) refl)

two_Apart : Apart (load (saved (toy_intent ∷ dinner ∷ [])))
unfolding load
two_Apart = (refl, (refl, tt))

flush_all_pending-OneStep_example :
    OneStep
      (view "lunch" two_intents)
      (view "lunch" (flush_all_pending toy_world (("main", "secret") ∷ []) none two_intents).1)
flush_all_pending-OneStep_example =
    flush_all_pending-OneStep toy_world (("main", "secret") ∷ []) none
      (saved (toy_intent ∷ dinner ∷ [])) two_intents "lunch" refl two_Apart

flush_all_pending-Sound_example :
    let c' = (flush_all_pending toy_world (("main", "secret") ∷ []) none two_intents).1 in
    (t : Standing) × (view "lunch" c' ≡ some t) × (t.max_attempts ≡ 3) × Lives t × Sound t
unfolding get
flush_all_pending-Sound_example =
    flush_all_pending-Sound toy_world (("main", "secret") ∷ []) none
      (saved (toy_intent ∷ dinner ∷ [])) two_intents "lunch"
      (record { status = pending; attempts = 1; max_attempts = 3 }) refl two_Apart refl tried_once
