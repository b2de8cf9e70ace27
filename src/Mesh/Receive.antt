-- ===== src/Mesh/Receive.antt =====
-- Which handlers a received packet reaches.
use solmesh.Prelude.{
  ℕ, ◌≡◌, refl, inl, inr, true, false, not, ◌||◌, [], ◌∷◌, ◌++◌, arith, ltb, ◌==◌, if◌then◌else◌,
  Bool-cases, ok, err, value_error, message_too_short, invalid_magic, Exn, length, nonempty, slice,
}
use solmesh.Prelude.Eq.{nat_eq, bytes_eq}
use solmesh.Prelude.Dict.{lookup-insert}
use solmesh.Constants.{Bytes, magic}
use solmesh.Protocol.Frame.{unpack_message}
use solmesh.Mesh.{
  Handler, Handlers, handlers_of, register_handler, run_handlers, Packet, sender_of, is_private_app,
  on_receive,
}

filtered :
    (raw : Bytes)
    → (not (nonempty raw) || (ltb (length raw) 2 || not (bytes_eq (slice 0 2 raw) magic))) ≡ true
    → (e : Exn) × (unpack_message raw ≡ err e)
unfolding unpack_message
filtered raw h = elim (Bool-cases (ltb (length raw) 10)) [
  | inl short ↦ (value_error (message_too_short (length raw)), rw short refl)
  | inr enough ↦
      let other : bytes_eq (slice 0 2 raw) magic ≡ false = ground arith in
      (value_error invalid_magic, rw (enough, other) refl)
]

module _ {S : Type 0} where
  -- `register_handler` adds the callback behind those of its type, and changes no other type's.
  pub register_handler_lem :
      (t t' : ℕ) (callback : Handler S) (handlers : Handlers S)
      → handlers_of t' (register_handler t callback handlers)
        ≡ (if t == t' then handlers_of t handlers ++ callback ∷ [] else handlers_of t' handlers)
  unfolding register_handler
  register_handler_lem t t' callback handlers =
      ground (arith, lookup-insert t t' (handlers_of t handlers ++ callback ∷ []) handlers)

  -- The handlers of its type see a packet exactly if it comes on the private port and
  -- `unpack_message` accepts it: the tests for an empty payload, its length and its magic number,
  -- which come first, drop nothing else. Any other packet changes nothing.
  pub on_receive_lem :
      (handlers : Handlers S) (packet : Packet) (s : S)
      → on_receive handlers packet s ≡ (
          if is_private_app packet.portnum
          then elim (unpack_message packet.payload) [
            | err _ ↦ s
            | ok (header, payload) ↦
                run_handlers
                  (handlers_of header.msg_type handlers)
                  header
                  payload
                  (sender_of packet)
                  s
          ]
          else s)
  unfolding on_receive
  on_receive_lem handlers packet s =
      let raw = packet.payload in
      elim (Bool-cases
        (not (nonempty raw) || (ltb (length raw) 2 || not (bytes_eq (slice 0 2 raw) magic)))) [
          | inl drop ↦ let (e, refused) = filtered raw drop in rw (drop, refused) (ground arith)
          | inr keep ↦ rw keep (ground arith)
        ]
