-- ===== src/Mesh/Keeps.antt =====
-- What every handler keeps true of the node's state, and that a packet then keeps it true too.
use solmesh.Prelude.{
  sym, subst, ℕ, inl, inr, Bool-cases, List, [], ◌∷◌, ◌++◌, String, ◌==◌, All, All-append,
  Result-cases,
}
use solmesh.Prelude.Eq.{nat_eq}
use solmesh.Prelude.Dict.{insert}
use solmesh.Constants.{Bytes}
use solmesh.Protocol.Frame.{SolMeshHeader, unpack_message}
use solmesh.Mesh.{
  Handler, Handlers, handlers_of, register_handler, run_handlers, Packet, sender_of, is_private_app,
  on_receive,
}
use solmesh.Mesh.Receive.{on_receive_lem}

module _ {S : Type 0} (P : S → Type 0) where
  abbrev pub HandlerKeeps : Handler S → Type 0
  HandlerKeeps h =
      (header : SolMeshHeader) (payload : Bytes) (sender : String) (s : S)
      → P s
      → P (h header payload sender s).1

  abbrev pub EachKeeps : Handlers S → Type 0
  EachKeeps [] = Unit
  EachKeeps ((t, l) ∷ rest) = All HandlerKeeps l × EachKeeps rest

  pub handlers_of-keep :
      (t : ℕ) (handlers : Handlers S)
      → EachKeeps handlers
      → All HandlerKeeps (handlers_of t handlers)
  handlers_of-keep t [] h = tt
  handlers_of-keep t ((t', l) ∷ rest) h = elim (Bool-cases (t == t')) [
    | inl same ↦ rw same h.0
    | inr other ↦ rw other (handlers_of-keep t rest h.1)
  ]

  insert-keep :
      (t : ℕ) (l : List (Handler S)) (handlers : Handlers S)
      → All HandlerKeeps l
      → EachKeeps handlers
      → EachKeeps (insert t l handlers)
  insert-keep t l [] k h = (k, tt)
  insert-keep t l ((t', l') ∷ rest) k h = elim (Bool-cases (t == t')) [
    | inl same ↦ rw same (k, h.1)
    | inr other ↦ rw other (h.0, insert-keep t l rest k h.1)
  ]

  pub register_handler-keep :
      (t : ℕ) (callback : Handler S) (handlers : Handlers S)
      → HandlerKeeps callback
      → EachKeeps handlers
      → EachKeeps (register_handler t callback handlers)
  unfolding register_handler
  register_handler-keep t callback handlers k h =
      insert-keep t (handlers_of t handlers ++ callback ∷ []) handlers
        (All-append HandlerKeeps (handlers_of t handlers) (callback ∷ [])
          (handlers_of-keep t handlers h) (k, tt))
        h

  run_handlers-keep :
      (l : List (Handler S)) (header : SolMeshHeader) (payload : Bytes) (sender : String) (s : S)
      → All HandlerKeeps l
      → P s
      → P (run_handlers l header payload sender s)
  unfolding run_handlers
  run_handlers-keep [] header payload sender s h p = p
  run_handlers-keep (x ∷ l) header payload sender s h p =
      run_handlers-keep l header payload sender (x header payload sender s).1 h.1
        (h.0 header payload sender s p)

  pub on_receive-keep :
      (handlers : Handlers S) (packet : Packet) (s : S)
      → EachKeeps handlers
      → P s
      → P (on_receive handlers packet s)
  on_receive-keep handlers packet s h p =
      subst P (sym (on_receive_lem handlers packet s))
        (elim (Bool-cases (is_private_app packet.portnum)) [
          | inr other ↦ rw other p
          | inl ours ↦ elim (Result-cases (unpack_message packet.payload)) [
            | inr (e, refused) ↦ rw (ours, refused) p
            | inl ((header, payload), read) ↦
                rw (ours, read)
                  (run_handlers-keep (handlers_of header.msg_type handlers) header payload
                    (sender_of packet) s (handlers_of-keep header.msg_type handlers h) p)
          ]
        ])
