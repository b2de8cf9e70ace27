-- ===== src/Mesh/Sending.antt =====
-- Sending over a connected device.
use solmesh.Prelude.{
  ap, ◌+◌, ◌≤◌, ◌≡◌, refl, ◌∙◌, inl, inr, Bool, Bool-cases, true, false, List, [], ◌∷◌, ◌++◌, arith,
  Option, String, Result, ok, err, length, length-append,
}
use solmesh.Constants.{Bytes}
use solmesh.Mesh.{Sent, Mesh, Radio, truthy, send, send_chunks}

pub send-connected :
    (radio : Radio) (contents : Bytes) (destination : Option String) (mesh : Mesh)
    → mesh.connected ≡ true
    → let frame : Sent = record {
      contents = contents;
      destination = truthy destination;
      want_ack = true;
    } in
      send radio contents destination true mesh
      ≡ (ok (radio mesh.air frame), record mesh { air = mesh.air ++ frame ∷ [] })
unfolding send
send-connected radio contents destination mesh connected = rw connected refl

forwarded :
    (radio : Radio) (l : List Bytes) (to : Option String) (n : Result Bool × Mesh) (b : Bool)
    (mesh : Mesh)
    → n ≡ (ok b, mesh)
    → let next : Result Bool × Mesh = elim n.0 [
      | ok success ↦ elim success [ true ↦ send_chunks radio l to n.1 | false ↦ (ok false, n.1) ]
      | err e ↦ (err e, n.1)
    ] in
      next ≡ (elim b [ true ↦ send_chunks radio l to mesh | false ↦ (ok false, mesh) ])
forwarded radio l to n b mesh e = rw (ap (λ x. x.0) e) (
    ap
      (λ (x : Result Bool × Mesh). elim b as (λ _. Result Bool × Mesh) [
        | true ↦ send_chunks radio l to x.1
        | false ↦ (ok false, x.1)
      ])
      e)

-- The frames are handed over until one is refused.
pub send_chunks-connected :
    (radio : Radio) (l : List Bytes) (destination : Option String) (mesh : Mesh)
    → mesh.connected ≡ true
    → (b : Bool) × (mesh' : Mesh) × (send_chunks radio l destination mesh ≡ (ok b, mesh'))
      × (mesh'.connected ≡ true)
      × (length mesh'.air ≤ length mesh.air + length l)
unfolding send_chunks
send_chunks-connected radio [] to mesh connected = (true, mesh, refl, connected, omega arith)
send_chunks-connected radio (chunk ∷ rest) to mesh connected =
    let frame : Sent = record { contents = chunk; destination = truthy to; want_ack = true } in
    let mesh1 : Mesh = record mesh { air = mesh.air ++ frame ∷ [] } in
    let (b, mesh2, all, still, few) = send_chunks-connected radio rest to mesh1 connected in
    let step =
      forwarded radio rest to (send radio chunk to true mesh) (radio mesh.air frame) mesh1
        (send-connected radio chunk to mesh connected) in
    elim (Bool-cases (radio mesh.air frame)) [
      | inl taken ↦ (
        b,
        mesh2,
        step ∙ rw taken all,
        still,
        omega (arith, few, length-append mesh.air (frame ∷ [])),
      )
      | inr refused ↦ (
        false,
        mesh1,
        step ∙ rw refused refl,
        connected,
        omega (arith, length-append mesh.air (frame ∷ [])),
      )
    ]
