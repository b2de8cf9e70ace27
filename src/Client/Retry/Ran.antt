-- ===== src/Client/Retry/Ran.antt =====
-- How far a client gets that sends and waits: still connected, with so many frames and waits.
use solmesh.Prelude.{
  ap, ◌+◌, ◌≤◌, ℕ, suc, ◌≡◌, refl, ◌∙◌, Bool, true, List, [], ◌∷◌, ◌++◌, arith, Option, String, ok,
  length, length-append, Result,
}
use solmesh.Prelude.Eq.{nat_eq}
use solmesh.Prelude.Stateful.{bind_ok, ◌>>◌}
use solmesh.Constants.{Bytes}
use solmesh.Mesh.{Mesh, Sent, truthy}
use solmesh.Mesh.Sending.{send-connected, send_chunks-connected}
use solmesh.Client.{ClientNode}
use solmesh.Client.World.{ClientWorld}
use solmesh.Client.Wait.{listen, sleep}
use solmesh.Client.Wait.Keeps.{listen-own, listen-waits}
use solmesh.Client.Relay.{mesh_send}
use solmesh.Client.Retry.{Numbered, resend, send_chunks}

-- From `c` the client came to `c'`, still connected, with at most so many frames and waits.
pub record Ran (frames waits : ℕ) (c c' : ClientNode) : Type 0 where
  pub connected : c'.mesh.connected ≡ true
  pub sent_most : length c'.mesh.air ≤ length c.mesh.air + frames
  pub waited_most : c'.waits ≤ c.waits + waits

pub then-Ran :
    (f v f' v' : ℕ) (c c' c'' : ClientNode)
    → Ran f v c c'
    → Ran f' v' c' c''
    → Ran (f + f') (v + v') c c''
then-Ran f v f' v' c c' c'' a b = record {
  connected = b.connected;
  sent_most = omega (arith, a.sent_most, b.sent_most);
  waited_most = omega (arith, a.waited_most, b.waited_most);
}

pub more-Ran : (f v f' v' : ℕ) (c c' : ClientNode) → Ran f v c c' → f ≤ f' → v ≤ v' → Ran f' v' c c'
more-Ran f v f' v' c c' a h k = record {
  connected = a.connected;
  sent_most = omega (arith, a.sent_most);
  waited_most = omega (arith, a.waited_most);
}

pub listen-Ran :
    (w : ClientWorld) (c : ClientNode) → c.mesh.connected ≡ true → Ran 0 1 c (listen w c)
listen-Ran w c connected = record {
  connected = ap (λ o. o.0.connected) (listen-own w c) ∙ connected;
  sent_most = omega (arith, ap (λ o. length o.0.air) (listen-own w c));
  waited_most = omega (arith, listen-waits w c);
}

pub mesh_send-Ran :
    (w : ClientWorld) (msg : Bytes) (to : Option String) (c : ClientNode)
    → c.mesh.connected ≡ true
    → (b : Bool) × (c' : ClientNode) × (mesh_send w msg to c ≡ (ok b, c')) × Ran 1 0 c c'
unfolding mesh_send
mesh_send-Ran w msg to c connected =
    let frame : Sent = record { contents = msg; destination = truthy to; want_ack = true } in
    (
      w.radio c.mesh.air frame,
      record c { mesh = record c.mesh { air = c.mesh.air ++ frame ∷ [] } },
      ap (λ (n : Result Bool × Mesh). (n.0, record c { mesh = n.1 }))
          (send-connected w.radio msg to c.mesh connected),
      record {
        connected = connected;
        sent_most = omega (arith, length-append c.mesh.air (frame ∷ []));
        waited_most = omega arith;
      },
    )

pub resend-Ran :
    (w : ClientWorld) (l : Numbered) (c : ClientNode)
    → c.mesh.connected ≡ true
    → (c' : ClientNode) × (resend w l c ≡ (ok tt, c')) × Ran (length l) (length l) c c'
unfolding resend
resend-Ran w [] c connected =
    (c, refl, record { connected = connected; sent_most = omega arith; waited_most = omega arith })
resend-Ran w ((chunk, n) ∷ rest) c connected =
    let (b, c1, first, ran1) = mesh_send-Ran w chunk c.gateway_id c connected in
    let c2 = listen w c1 in
    let ran2 = listen-Ran w c1 ran1.connected in
    let (c3, done, ran3) = resend-Ran w rest c2 ran2.connected in
    (
      c3,
      bind_ok (mesh_send w chunk c.gateway_id) (λ u. sleep w >> resend w rest) c b c1 first ∙ done,
      more-Ran (1 + length rest) (1 + length rest) (suc (length rest)) (suc (length rest)) c c3
          (then-Ran 1 1 (length rest) (length rest) c c2 c3 (then-Ran 1 0 0 1 c c1 c2 ran1 ran2)
            ran3)
          (omega arith) (omega arith),
    )

pub send_chunks-Ran :
    (w : ClientWorld) (l : List Bytes) (c : ClientNode)
    → c.mesh.connected ≡ true
    → (b : Bool) × (c' : ClientNode) × (send_chunks w l c ≡ (ok b, c')) × Ran (length l) 0 c c'
send_chunks-Ran w l c connected =
    let (b, mesh', all, still, few) =
      send_chunks-connected w.radio l c.gateway_id c.mesh connected in
    (
      b,
      record c { mesh = mesh' },
      ap (λ (n : Result Bool × Mesh). (n.0, record c { mesh = n.1 })) all,
      record { connected = still; sent_most = few; waited_most = omega arith },
    )
