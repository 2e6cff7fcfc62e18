-- ===== src/Server/Handler/Examples.antt =====
-- Two clients of the server in one room, and the theorems on handler.go applied to them.
use eliaukvpn.Base.{◌≡◌, refl, subst, ◌↔◌, true, none, some, [], ◌∷◌, In}
use eliaukvpn.Base.Str.{Str, text, str_eq}
use eliaukvpn.Base.GoMap.{get, put, delete}
use eliaukvpn.Protocol.{
  Candidate, Request, register, report_endpoint, room_create, room_join, room_update,
}
use eliaukvpn.Server.State.{Client, Room, Registry, new_registry}
use eliaukvpn.Server.Rooms.{room_members_list}
use eliaukvpn.Server.Registry.{
  add, new_client, virtual_ip, alloc_from, alloc_virtual_ip, ip_taken, next_after, decimal,
}
use eliaukvpn.Server.Registry.Invariant.{RegistryOk}
use eliaukvpn.Server.Handler.{Sent, register_client, dispatch, notify_room}
use eliaukvpn.Server.Handler.Notify.{Online, notify_room_iff}
use eliaukvpn.Server.Handler.Serving.{
  Served, registering, serving, started, after, Served-RegistryOk,
}

abbrev hello : Str → Str → Request
hello name fp = register (some (record { name = name; public_key = fp }))

abbrev s1 : Registry
s1 = (register_client (hello (text "alice") (text "A")) (some (text "1")) new_registry).1

abbrev s2 : Registry
s2 = (register_client (hello (text "bob") (text "B")) (some (text "2")) s1).1

abbrev alice : Client
alice = new_client (text "1") (text "alice") (text "A") (text "10.0.0.2") 1

abbrev bob : Client
bob = new_client (text "2") (text "bob") (text "B") (text "10.0.0.3") 2

abbrev s3 : Registry
s3 = (dispatch ((0 ∷ 1 ∷ 2 ∷ 3 ∷ 4 ∷ []) ∷ []) room_create alice s2).1

abbrev s4 : Registry
s4 = (dispatch [] (room_join (some (text "abcde"))) bob s3).1

fresh_2 : (i : Str) → some (text "2") ≡ some i → get i s1.clients ≡ none
unfolding register_client add new_client new_registry get put str_eq alloc_from alloc_virtual_ip
    ip_taken next_after virtual_ip decimal delete
fresh_2 i e = subst (λ o. elim o [ none ↦ Unit | some j ↦ get j s1.clients ≡ none ]) e refl

abbrev served : Served new_registry s4
unfolding new_registry get
served =
    after
      (after
        (after
          (after started
            (registering (hello (text "alice") (text "A")) (some (text "1")) (λ i e. refl)))
          (registering (hello (text "bob") (text "B")) (some (text "2")) fresh_2))
        (serving ((0 ∷ 1 ∷ 2 ∷ 3 ∷ 4 ∷ []) ∷ []) room_create alice (refl, tt)))
      (serving [] (room_join (some (text "abcde"))) bob tt)

Served-RegistryOk_example : RegistryOk s4
Served-RegistryOk_example = Served-RegistryOk served

abbrev the_room : Room
the_room = record {
  code = text "ABCDE";
  host = text "A";
  members = (text "B", true) ∷ (text "A", true) ∷ [];
}

notify_room_iff_example :
    In {A = Sent} (text "1", room_update (room_members_list s4 the_room)) (notify_room s4 the_room)
    ↔ ((fp : Str) × (mc : Client) × Online s4 the_room.members fp mc
        × (◌≡◌ {A = Sent}
            (text "1", room_update (room_members_list s4 the_room))
            (mc.id, room_update (room_members_list s4 the_room))))
notify_room_iff_example =
    notify_room_iff s4 the_room (text "1", room_update (room_members_list s4 the_room))

-- The two after both have reported a candidate.
abbrev lan : Candidate
lan = record { ip = text "192.168.0.7"; port = 4000; type = text "lan" }

abbrev report : Request
report =
    report_endpoint
      (some (record { public_ip = []; public_port = 0; nat_type = []; candidates = lan ∷ [] }))

abbrev s5 : Registry
s5 = (dispatch [] report alice s4).1

abbrev s6 : Registry
s6 = (dispatch [] report bob s5).1
