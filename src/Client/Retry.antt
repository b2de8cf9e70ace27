-- ===== src/Client/Retry.antt =====
-- `_retry_loop`, the body of the thread that sends the chunks of a transaction.
pub mod Ran
pub mod Ends
use solmesh.Prelude.{ℕ, zero, suc, Bool, not, List, [], ◌∷◌, ◌++◌, Result, ok, err, length, keep_if}
use solmesh.Prelude.Eq.{nat_eq}
use solmesh.Prelude.Dict.{insert}
use solmesh.Prelude.Stateful.{◌>>=◌, ◌>>◌, lift, gets, finished}
use solmesh.Constants.{Bytes, utf8, max_retries}
use solmesh.Protocol.Frame.{unpack_message}
use solmesh.Mesh
use solmesh.Client.{failure}
use solmesh.Client.World.{ClientWorld, Method}
use solmesh.Client.Wait.{listen, sleep}
use solmesh.Client.Relay.{mesh_send, acked_of, is_acked}

-- The chunks, each with its number.
abbrev pub Numbered : Type 0
Numbered = List (Bytes × ℕ)

abbrev pub with_number : Bytes → Result ℕ → Result Numbered → Result Numbered
with_number chunk (err e) rest = err e
with_number chunk (ok n) (err e) = err e
with_number chunk (ok n) (ok rest) = ok ((chunk, n) ∷ rest)

abbrev pub number_of : Bytes → Result ℕ
number_of chunk = elim (unpack_message chunk) [
  | err e ↦ err e
  | ok (header, payload) ↦ ok header.chunk_num
]

unfoldable pub chunk_info : List Bytes → Result Numbered
chunk_info [] = ok []
chunk_info (chunk ∷ rest) = with_number chunk (number_of chunk) (chunk_info rest)

unfoldable pub unacked : List ℕ → Numbered → Numbered
unacked acked info = keep_if (λ (entry : Bytes × ℕ). not (is_acked acked entry.1)) info

-- Each is sent to the gateway of the moment.
pub resend : ClientWorld → Numbered → Method (Unit {0})
unfolding mesh_send
resend w [] = finished
resend w ((chunk, n) ∷ rest) = do
  gateway_id ← gets (λ c. c.gateway_id)
  mesh_send w chunk gateway_id
  sleep w
  resend w rest

abbrev pub send_chunks : ClientWorld → List Bytes → Method Bool
send_chunks w chunks c =
    let (r, mesh') = Mesh.send_chunks w.radio chunks c.gateway_id c.mesh in
    (r, record c { mesh = mesh' })

-- The final check.
abbrev pub report_lost : ClientWorld → Numbered → Numbered → ℕ → Method (Unit {0})
report_lost w [] info msg_id c = (ok tt, c)
report_lost w (entry ∷ more) info msg_id c =
    let text =
      utf8 "Failed to deliver "
      ++ (w.show (length (entry ∷ more))
          ++ (utf8 "/" ++ (w.show (length info) ++ utf8 " chunks"))) in
    (ok tt, record c { results = insert msg_id (failure text) c.results })

unfoldable pub report : ClientWorld → Numbered → ℕ → Method (Unit {0})
unfolding unacked
report w info msg_id c = report_lost w (unacked (acked_of msg_id c) info) info msg_id c

-- The loop returns early when all is acknowledged.
abbrev pub if_lost : ClientWorld → Numbered → Method (Unit {0}) → Method (Unit {0})
if_lost w [] next = finished
if_lost w (entry ∷ more) next = resend w (entry ∷ more) >> next

-- The rounds of retrying that are left.
pub retry_rounds : ClientWorld → Numbered → ℕ → ℕ → Method (Unit {0})
unfolding resend unacked report
retry_rounds w info msg_id zero c = report w info msg_id c
retry_rounds w info msg_id (suc rounds) c =
    let c' = listen w c in
    if_lost w (unacked (acked_of msg_id c') info) (retry_rounds w info msg_id rounds) c'

unfoldable pub retry_loop : ClientWorld → List Bytes → ℕ → Method (Unit {0})
unfolding chunk_info retry_rounds
retry_loop w chunks msg_id = do
  info ← lift (chunk_info chunks)
  send_chunks w chunks
  retry_rounds w info msg_id max_retries
