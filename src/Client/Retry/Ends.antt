-- ===== src/Client/Retry/Ends.antt =====
-- The retry loop ends, after a bounded number of sends, and reports what was not acknowledged.
use solmesh.Prelude.{◌+◌, ℕ, zero, suc, ◌≡◌, ◌⊎◌, true, [], some, ok}
use solmesh.Prelude.Eq.{nat_eq}
use solmesh.Prelude.Dict.{lookup}
use solmesh.Constants.{Str}
use solmesh.Client.{ClientNode, failure}
use solmesh.Client.World.{ClientWorld}
use solmesh.Client.World.{Method}
use solmesh.Client.Relay.{acked_of}
use solmesh.Client.Retry.{Numbered, unacked}
use solmesh.Client.Retry.Ran.{Ran}

-- Every chunk is acknowledged, or the message's result is a failure.
abbrev pub Reported : Numbered → ℕ → ClientNode → Type 0
Reported info msg_id c =
    (unacked (acked_of msg_id c) info ≡ [])
    ⊎ ((text : Str) × (lookup msg_id c.results ≡ some (failure text)))

-- A method that reports in the end, with at most so many frames and waits.
abbrev Ends : ClientWorld → Numbered → ℕ → ℕ → ℕ → Method (Unit {0}) → Type 0
Ends w info msg_id frames waits m =
    (c : ClientNode)
    → c.mesh.connected ≡ true
    → (c' : ClientNode) × (m c ≡ (ok tt, c')) × Reported info msg_id c' × Ran frames waits c c'

-- The most that so many rounds send, and the most that they wait.
frames_of : ℕ → ℕ → ℕ
frames_of n zero = 0
frames_of n (suc rounds) = n + frames_of n rounds
