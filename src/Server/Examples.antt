-- ===== src/Server/Examples.antt =====
-- Two clients in a room of the registry: the theorems on registry.go and rooms.go applied to them.
use eliaukvpn.Base.{All, ℕ, ◌≡◌, ◌≢◌, refl, subst, ◌↔◌, true, false, none, some, [], ◌∷◌}
use eliaukvpn.Base.Str.{Str, text, str_eq}
use eliaukvpn.Base.Trim.{trim_space, to_upper}
use eliaukvpn.Base.GoMap.{get, put, delete}
use eliaukvpn.Server.State.{Client, Room, Registry, new_registry, room_code, client_by_fp}
use eliaukvpn.Server.Rooms.{
  create_room, join_room, remove_from_room, free_code, new_room_code, clean_code,
}
use eliaukvpn.Server.Rooms.Membership.{RoomsOk}
use eliaukvpn.Server.Rooms.Host.{IsOldest, host_succession}
use eliaukvpn.Server.Registry.{
  add, new_client, remove, virtual_ip, alloc_from, alloc_virtual_ip, ip_taken, next_after, decimal,
  visible_to, visible_peers,
}
use eliaukvpn.Server.Registry.Address.{InPool, alloc_virtual_ip_exact}
use eliaukvpn.Server.Registry.Invariant.{
  Reach, added, created, joined, here, next, Reach-RegistryOk,
}
use eliaukvpn.Server.Registry.Visibility.{ShowsOther, SameRoom, visible_to_iff, leaver_hidden}
use eliaukvpn.Server.Registry.Reconnect.{stale_disconnect}

abbrev with_alice : Registry
with_alice = (add (text "alice") (text "A") (some (text "1")) new_registry).1

abbrev with_bob : Registry
with_bob = (add (text "bob") (text "B") (some (text "2")) with_alice).1

abbrev with_room : Registry
with_room = (create_room ((0 ∷ 1 ∷ 2 ∷ 3 ∷ 4 ∷ []) ∷ []) (text "A") with_bob).1

abbrev in_one_room : Registry
in_one_room = (join_room (text "B") (text " abcde ") with_room).1

other_id : (i : Str) → some (text "2") ≡ some i → get i with_alice.clients ≡ none
unfolding add new_client new_registry get put str_eq alloc_from alloc_virtual_ip ip_taken next_after
    virtual_ip decimal delete
other_id i e = subst (λ o. elim o [ none ↦ Unit | some j ↦ get j with_alice.clients ≡ none ]) e refl

third_id : (i : Str) → some (text "3") ≡ some i → get i in_one_room.clients ≡ none
unfolding add new_client new_registry create_room join_room free_code new_room_code clean_code
    trim_space to_upper get put str_eq alloc_from alloc_virtual_ip ip_taken next_after virtual_ip
    decimal delete
third_id i e =
    subst (λ o. elim o [ none ↦ Unit | some j ↦ get j in_one_room.clients ≡ none ]) e refl

abbrev rooms_of_calls : Reach new_registry in_one_room
unfolding new_registry get
rooms_of_calls =
    next
      (next
        (next (next here (added (text "alice") (text "A") (some (text "1")) (λ i e. refl)))
          (added (text "bob") (text "B") (some (text "2")) other_id))
        (created ((0 ∷ 1 ∷ 2 ∷ 3 ∷ 4 ∷ []) ∷ []) (text "A") (refl, tt)))
      (joined (text "B") (text " abcde "))

joined_code : room_code (text "B") in_one_room ≡ text "ABCDE"
unfolding add new_client new_registry create_room join_room free_code new_room_code clean_code
    trim_space to_upper get put str_eq alloc_from alloc_virtual_ip ip_taken next_after virtual_ip
    decimal delete
joined_code = refl

abbrev ok_rooms : RoomsOk in_one_room
ok_rooms = (Reach-RegistryOk rooms_of_calls).rooms_ok

abbrev alice : Client
alice = new_client (text "1") (text "alice") (text "A") (text "10.0.0.2") 1

abbrev bob : Client
bob = new_client (text "2") (text "bob") (text "B") (text "10.0.0.3") 2

abbrev the_room : Room
the_room = record {
  code = text "ABCDE";
  host = text "A";
  members = (text "B", true) ∷ (text "A", true) ∷ [];
}

visible_to_iff_example :
    (visible_to alice bob in_one_room ≡ true)
    ↔ ((alice.id ≢ bob.id) × SameRoom alice.key_fp bob.key_fp in_one_room)
visible_to_iff_example = visible_to_iff in_one_room ok_rooms alice bob

leaver_hidden_example :
    (visible_to bob alice (remove_from_room bob.key_fp in_one_room).1 ≡ false)
    × (visible_to alice bob (remove_from_room bob.key_fp in_one_room).1 ≡ false)
    × (visible_peers bob.id bob.key_fp (remove_from_room bob.key_fp in_one_room).1 ≡ [])
    × All
        (ShowsOther bob.key_fp (remove_from_room bob.key_fp in_one_room).1)
        (visible_peers alice.id alice.key_fp (remove_from_room bob.key_fp in_one_room).1)
leaver_hidden_example = leaver_hidden in_one_room ok_rooms bob alice alice.id alice.key_fp

alloc_virtual_ip_exact_example :
    (((alloc_virtual_ip in_one_room).0 ≡ none)
      ↔ ((n : ℕ) → InPool n → ip_taken (virtual_ip n) in_one_room.clients ≡ true))
    × ((addr : Str)
        → (alloc_virtual_ip in_one_room).0 ≡ some addr
        → (n : ℕ) × InPool n × (addr ≡ virtual_ip n) × (ip_taken addr in_one_room.clients ≡ false))
    × InPool (alloc_virtual_ip in_one_room).1.next_ip
alloc_virtual_ip_exact_example =
    alloc_virtual_ip_exact in_one_room ((Reach-RegistryOk rooms_of_calls).in_pool)

host_succession_example :
    (kept : Room) × ((remove_from_room (text "A") in_one_room).0 ≡ some kept)
    × (get (room_code (text "A") in_one_room) (remove_from_room (text "A") in_one_room).1.rooms
        ≡ some kept)
    × (kept.members ≡ delete (text "A") the_room.members)
    × IsOldest in_one_room kept.members kept.host
unfolding add new_client new_registry create_room join_room free_code new_room_code clean_code
    trim_space to_upper get put str_eq alloc_from alloc_virtual_ip ip_taken next_after virtual_ip
    decimal delete
host_succession_example =
    host_succession in_one_room (text "A") the_room refl (λ e. cc) refl ((λ e. cc), tt) refl

-- Alice again, before her first connection has ended.
abbrev reconnected : Registry
reconnected = (add (text "alice") (text "A") (some (text "3")) in_one_room).1

abbrev ok_reconnected : RoomsOk reconnected
ok_reconnected =
    (Reach-RegistryOk
      (next rooms_of_calls (added (text "alice") (text "A") (some (text "3")) third_id))).rooms_ok

ids_differ : text "1" ≢ text "3"
unfolding str_eq
ids_differ e = subst (λ s. elim (str_eq s (text "1")) [ true ↦ Unit | false ↦ ⊥ ]) e tt

stale_disconnect_example :
    (get (text "3") (remove (text "1") reconnected).clients
      ≡ some (new_client (text "3") (text "alice") (text "A") (text "10.0.0.4") 3))
    × (client_by_fp (text "A") (remove (text "1") reconnected) ≡ none)
    × (room_code (text "A") (remove (text "1") reconnected) ≡ [])
unfolding add new_client new_registry create_room join_room free_code new_room_code clean_code
    trim_space to_upper get put str_eq alloc_from alloc_virtual_ip ip_taken next_after virtual_ip
    decimal delete
stale_disconnect_example =
    stale_disconnect reconnected ok_reconnected (text "1") (text "3") alice
      (new_client (text "3") (text "alice") (text "A") (text "10.0.0.4") 3) refl refl (λ e. cc) refl
      ids_differ
