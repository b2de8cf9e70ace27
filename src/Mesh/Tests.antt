-- ===== src/Mesh/Tests.antt =====
-- The dispatch at concrete handlers and packets.
use solmesh.Prelude.{ℕ, suc, ◌≡◌, [], ◌∷◌, none, some, ok}
use solmesh.Prelude.Eq.{nat_eq}
use solmesh.Mesh.{Handler, Handlers, Packet, run_handlers, on_receive}
use solmesh.Mesh.Receive.{on_receive_lem}
use solmesh.Protocol.Frame.{unpack_message}
use solmesh.Protocol.Crc.{crc8}

-- Handlers that count.
abbrev count_one : Handler ℕ
count_one header payload sender_id n = (ok tt, suc n)

abbrev counters : Handlers ℕ
counters = (3, count_one ∷ []) ∷ []

abbrev hello : Packet
hello = record {
  portnum = some "PRIVATE_APP";
  payload = 0x53 ∷ 0x4d ∷ 1 ∷ 3 ∷ 0x12 ∷ 0x34 ∷ 0 ∷ 1 ∷ 2 ∷ 0xfe ∷ 0x68 ∷ 0x69 ∷ [];
  from_id = some "!a";
  from = none;
}

on_receive_lem_example : on_receive counters hello 5 ≡ 6
unfolding unpack_message crc8 run_handlers
on_receive_lem_example = on_receive_lem counters hello 5
