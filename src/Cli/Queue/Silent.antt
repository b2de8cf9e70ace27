-- ===== src/Cli/Queue/Silent.antt =====
-- A flush with a gateway that is named: without a beacon that was heard, the gateway counts as offline.
use solmesh.Prelude.{
  ap, ℕ, ◌≡◌, ◌∙◌, true, false, List, [], ◌∷◌, ◌++◌, Option, none, some, String, Result, ok, length,
}
use solmesh.Prelude.Stateful.{◌>>=◌, bind_ok}
use solmesh.Mesh.{truthy}
use solmesh.Store.{Intent, QueueFile, pending_intents, recover_sending}
use solmesh.Client.{ClientNode, Outcome, new_client}
use solmesh.Client.Queue.{flush_all_pending}
use solmesh.Client.Queue.Offline.{flush_all_pending-offline}
use solmesh.Cli.{
  text, num, Line, Session, Running, Host, Online, on_client, with_client, build_mesh, queue_after,
}
use solmesh.Client.Wait.{listen}
use solmesh.Client.Wait.Keeps.{Own, own, listen-own}
use solmesh.Cli.Send.{Route}
use solmesh.Cli.Send.Closing.{closed, closing-quiet}
use solmesh.Cli.Send.Named.{Named, connected, online-Named}
use solmesh.Cli.Queue.{
  queue_flush, flush_pending, flush_and_report, flush_if_any, passphrases, report_flushed,
}

abbrev flushing_line : ℕ → Line
flushing_line n = record {
  to_stderr = false;
  parts = text "Flushing " ∷ num n ∷ text " pending intent(s)..." ∷ [];
}

flushed-nothing :
    (m : Online (List (String × Outcome))) (s : Running)
    → m s ≡ (ok [], s)
    → (m >>= λ results. report_flushed results) s ≡ (ok tt, s)
unfolding report_flushed
flushed-nothing m s e = bind_ok m (λ results. report_flushed results) s [] s e

flush_and_report-offline :
    (h : Host) (passphrase : String) (wallet : Option String) (l : List Intent) (store : QueueFile)
    (s : Running)
    → s.client.discovered_gateways ≡ []
    → s.client.intent_store ≡ some store
    → flush_and_report h passphrase wallet l s
      ≡ (ok tt, record s { out = s.out ++ flushing_line (length l) ∷ [] })
unfolding flush_and_report
flush_and_report-offline h passphrase wallet l store s unheard configured =
    let s' : Running = record s { out = s.out ++ flushing_line (length l) ∷ [] } in
    let map = passphrases passphrase (truthy wallet) l in
    flushed-nothing (on_client (flush_all_pending h.world map wallet)) s' (
      ap
        (λ (n : Result (List (String × Outcome)) × ClientNode).
          let r : Result (List (String × Outcome)) × Running = (n.0, record s' { client = n.1 }) in
          r)
        (flush_all_pending-offline h.world map wallet store s.client unheard configured))

-- The session after a flush that did nothing.
abbrev pub nothing_flushed : Host → ℕ → Session → Session
nothing_flushed h n s = record s {
  queue = recover_sending (h.world.clock 0) s.queue;
  mesh = record s.mesh { connected = false };
  out = s.out ++ flushing_line n ∷ [];
}

-- The client of a flush, before it connects.
abbrev pub flush_client : Route → Session → ClientNode
flush_client route s = new_client (build_mesh s) s.wallets route.gateway_node (some s.queue) false

-- What a command leaves of a client, with its device closed.
abbrev left_by : Session → List Line → Own → Session
left_by s out x = record s {
  wallets = x.1;
  queue = queue_after s.queue x.3;
  mesh = record x.0 { connected = false };
  out = out;
}

-- No beacon is handled while the client connects.
abbrev pub Unheard : Host → Route → Session → Type 0
Unheard h route s = (listen h.world (flush_client route s)).discovered_gateways ≡ []

flush_pending-silent :
    (h : Host) (passphrase : String) (wallet : Option String) (route : Route) (l : List Intent)
    (s : Session)
    → h.device_found ≡ true
    → h.close_raises ≡ none
    → Unheard h route s
    → Named route
    → flush_pending h passphrase wallet route s.queue l s ≡ (
      ok tt,
      record s {
        mesh = record s.mesh { connected = false };
        out = s.out ++ flushing_line (length l) ∷ [];
      },
    )
unfolding flush_pending with_client new_client
flush_pending-silent h passphrase wallet route l s there quiet unheard named =
    let client = flush_client route s in
    let start : Running = record { client = client; out = s.out } in
    let body = flush_and_report h passphrase wallet l in
    let same : own (listen h.world client) ≡ own client = listen-own h.world client in
    let back : Result (Unit {0}) × Running → Result (Unit {0}) × Session = λ n. (
      n.0,
      record s {
        wallets = n.1.client.wallet_mgr;
        queue = queue_after s.queue n.1.client.intent_store;
        mesh = n.1.client.mesh;
        out = n.1.out;
      },
    ) in
    ap back (
      online-Named h route "No gateway found." body start there named
      ∙ closing-quiet h body (connected h start) quiet)
    ∙ ap (λ (n : Result (Unit {0}) × Running). back (n.0, closed n.1))
        (flush_and_report-offline h passphrase wallet l s.queue (connected h start) unheard
          (ap (λ x. x.3) same))
    ∙ ap
        (λ x.
          let r : Result (Unit {0}) × Session =
            (ok tt, left_by s (s.out ++ flushing_line (length l) ∷ []) x) in
          r)
        same

-- With a gateway that is named on the command line, or without a search for one, `queue flush` sends
-- none of the intents that are pending, unless a beacon is handled while the client connects: it
-- prints how many there are, and but for crash recovery everything is as it was, where the device is
-- found and is closed without an exception.
pub queue_flush-silent :
    (h : Host) (passphrase : String) (wallet : Option String) (route : Route) (i : Intent)
    (rest : List Intent) (s : Session)
    → h.device_found ≡ true
    → h.close_raises ≡ none
    → Unheard h route (record s { queue = recover_sending (h.world.clock 0) s.queue })
    → Named route
    → pending_intents (recover_sending (h.world.clock 0) s.queue) ≡ i ∷ rest
    → queue_flush h passphrase wallet route s ≡ (ok tt, nothing_flushed h (length (i ∷ rest)) s)
unfolding queue_flush
queue_flush-silent h passphrase wallet route i rest s there quiet unheard named waiting =
    let s' : Session = record s { queue = recover_sending (h.world.clock 0) s.queue } in
    ap (λ l. flush_if_any h passphrase wallet route s'.queue l s') waiting
    ∙ flush_pending-silent h passphrase wallet route (i ∷ rest) s' there quiet unheard named
