-- ===== src/Server/Registry/Invariant.antt =====
-- The invariant of the registry, over every sequence of the calls that change it.
use eliaukvpn.Base.{
  ℕ, ◌+◌, ◌≡◌, refl, inl, inr, false, Option, none, some, List, [], arith, Option-cases, Bool-cases,
  All, length,
}
use eliaukvpn.Base.Str.{Str, Bytes, str_eq}
use eliaukvpn.Base.GoMap.{GoMap, get, put, delete}
use eliaukvpn.Protocol.{Candidate}
use eliaukvpn.Base.Net.{UdpAddr}
use eliaukvpn.Server.State.{Client, Registry, new_registry}
use eliaukvpn.Server.Rooms.{create_room, join_room, remove_from_room}
use eliaukvpn.Server.Rooms.Membership.{
  RoomsOk, create_room-RoomsOk, join_room-RoomsOk, remove_from_room-RoomsOk, new_registry-RoomsOk,
}
use eliaukvpn.Server.Registry.{
  ip_taken, alloc_virtual_ip, new_client, add, remove, detach, update_endpoint, set_relay_addr,
}
use eliaukvpn.Server.Registry.Address.{InPool, alloc_virtual_ip_exact}
use eliaukvpn.Server.Registry.Clients.{
  ClientsOk, put_new-ClientsOk, put_same-ClientsOk, delete-ClientsOk,
}

pub record RegistryOk (r : Registry) : Type 0 where
  pub clients_ok : ClientsOk r.clients
  pub rooms_ok : RoomsOk r
  pub in_pool : InPool r.next_ip

-- A call that changes the registry. Random ids are new, and a room code draws five bytes.
pub data Step (r : Registry) : Registry → Type 0 where
  added :
      (name fp : Str) (id : Option Str)
      → ((i : Str) → id ≡ some i → get i r.clients ≡ none)
      → Step r (add name fp id r).1
  removed : (id : Str) → Step r (remove id r)
  updated :
      (id public_ip : Str) (port : ℕ) (nat_type : Str) (candidates : List Candidate)
      → Step r (update_endpoint id public_ip port nat_type candidates r)
  learned : (id : Str) (addr : UdpAddr) → Step r (set_relay_addr id addr r)
  created :
      (draws : List Bytes) (fp : Str)
      → All (λ d. length d ≡ 5) draws
      → Step r (create_room draws fp r).1
  joined : (fp code : Str) → Step r (join_room fp code r).1
  left : (fp : Str) → Step r (remove_from_room fp r).1

pub data Reach (r : Registry) : Registry → Type 0 where
  here : Reach r r
  next : {s t : Registry} → Reach r s → Step s t → Reach r t

-- The calls of rooms.go touch neither clients nor addresses.
pub leave_keeps :
    (fp : Str) (r : Registry)
    → ((remove_from_room fp r).1.clients ≡ r.clients)
      × ((remove_from_room fp r).1.next_ip ≡ r.next_ip)
unfolding remove_from_room
leave_keeps fp r = ground arith

join_keeps :
    (fp code : Str) (r : Registry)
    → ((join_room fp code r).1.clients ≡ r.clients) × ((join_room fp code r).1.next_ip ≡ r.next_ip)
unfolding join_room
join_keeps fp code r = ground arith

create_keeps :
    (draws : List Bytes) (fp : Str) (r : Registry)
    → ((create_room draws fp r).1.clients ≡ r.clients)
      × ((create_room draws fp r).1.next_ip ≡ r.next_ip)
unfolding create_room
create_keeps draws fp r = ground arith

-- Only the rooms and the clients count.
same_state :
    (r s : Registry)
    → RoomsOk s
    → s.clients ≡ r.clients
    → s.next_ip ≡ r.next_ip
    → RegistryOk r
    → RegistryOk s
same_state r s rooms e f v = record {
  clients_ok = rw e v.clients_ok;
  rooms_ok = rooms;
  in_pool = rw f v.in_pool;
}

pub same_rooms :
    (r s : Registry) → s.rooms ≡ r.rooms → s.in_room ≡ r.in_room → RoomsOk r → RoomsOk s
same_rooms r s e f v = record {
  linked = λ fp code. rw (e, f) (v.linked fp code);
  no_empty_code = rw e v.no_empty_code;
  own_code = λ code room h. v.own_code code room (rw (← e) h);
  inhabited = λ code room h. v.inhabited code room (rw (← e) h);
}

leave-RegistryOk : (fp : Str) (r : Registry) → RegistryOk r → RegistryOk (remove_from_room fp r).1
leave-RegistryOk fp r v =
    same_state r (remove_from_room fp r).1 (remove_from_room-RoomsOk r v.rooms_ok fp)
      (leave_keeps fp r).0 (leave_keeps fp r).1 v

detach-RegistryOk : (id : Str) (r : Registry) → RegistryOk r → RegistryOk (detach id r)
unfolding detach
detach-RegistryOk id r v = elim (Option-cases (get id r.clients)) [
  | inl absent ↦ rw (absent, detach) v
  | inr (c, found) ↦ elim (Bool-cases (str_eq c.key_fp [])) [
    | inl nameless ↦ rw (found, detach, nameless) v
    | inr named ↦
        let r' : Registry = record r { by_fp = delete c.key_fp r.by_fp } in
        rw (found, detach, named)
          (leave-RegistryOk c.key_fp r'
            (same_state r r' (same_rooms r r' refl refl v.rooms_ok) refl refl v))
  ]
]

delete_client-RegistryOk :
    (id : Str) (r : Registry)
    → RegistryOk r
    → RegistryOk (record r { clients = delete id r.clients })
delete_client-RegistryOk id r v =
    let r' : Registry = record r { clients = delete id r.clients } in
    record {
      clients_ok = delete-ClientsOk r.clients id v.clients_ok;
      rooms_ok = same_rooms r r' refl refl v.rooms_ok;
      in_pool = v.in_pool;
    }

update-RegistryOk :
    (id public_ip : Str) (port : ℕ) (nat_type : Str) (candidates : List Candidate) (r : Registry)
    → RegistryOk r
    → RegistryOk (update_endpoint id public_ip port nat_type candidates r)
unfolding update_endpoint
update-RegistryOk id public_ip port nat_type candidates r v =
    elim (Option-cases (get id r.clients)) [
      | inl absent ↦ rw (absent, update_endpoint) v
      | inr (c, found) ↦
          rw (found, update_endpoint)
            (record {
              clients_ok = put_same-ClientsOk r.clients id c _ v.clients_ok found refl refl;
              rooms_ok = same_rooms r _ refl refl v.rooms_ok;
              in_pool = v.in_pool;
            })
    ]

alloc_keeps :
    (r : Registry)
    → ((alloc_virtual_ip r).1.clients ≡ r.clients)
      × ((alloc_virtual_ip r).1.rooms ≡ r.rooms)
      × ((alloc_virtual_ip r).1.in_room ≡ r.in_room)
unfolding alloc_virtual_ip
alloc_keeps r = (refl, refl, refl)

alloc-RegistryOk : (r : Registry) → RegistryOk r → RegistryOk (alloc_virtual_ip r).1
alloc-RegistryOk r v =
    let (same_clients, rooms, in_room) = alloc_keeps r in
    record {
      clients_ok = rw same_clients v.clients_ok;
      rooms_ok = same_rooms r _ rooms in_room v.rooms_ok;
      in_pool = (alloc_virtual_ip_exact r v.in_pool).2;
    }

-- A client under a new id and a free address, whatever else the call records.
admit-RegistryOk :
    (r : Registry) (c : Client) (by_fp : GoMap Str) (seq : ℕ)
    → get c.id r.clients ≡ none
    → ip_taken c.virtual_ip r.clients ≡ false
    → RegistryOk r
    → RegistryOk (record r { clients = put c.id c r.clients; by_fp = by_fp; seq = seq })
admit-RegistryOk r c by_fp seq fresh free v = record {
  clients_ok = put_new-ClientsOk r.clients c v.clients_ok fresh free;
  rooms_ok = same_rooms r _ refl refl v.rooms_ok;
  in_pool = v.in_pool;
}

add-RegistryOk :
    (name fp : Str) (id : Option Str) (r : Registry)
    → ((i : Str) → id ≡ some i → get i r.clients ≡ none)
    → RegistryOk r
    → RegistryOk (add name fp id r).1
unfolding add
add-RegistryOk name fp none r fresh v = elim (Option-cases (alloc_virtual_ip r).0) [
  | inl full ↦ rw (full, add) (alloc-RegistryOk r v)
  | inr (addr, e) ↦ rw (e, add) (alloc-RegistryOk r v)
]
add-RegistryOk name fp (some id) r fresh v = elim (Option-cases (alloc_virtual_ip r).0) [
  | inl full ↦ rw (full, add) (alloc-RegistryOk r v)
  | inr (addr, e) ↦
      let (n, inside, same, free) = (alloc_virtual_ip_exact r v.in_pool).1 addr e in
      let (same_clients, rooms, in_room) = alloc_keeps r in
      rw (e, add)
        (admit-RegistryOk (alloc_virtual_ip r).1
          (new_client id name fp addr ((alloc_virtual_ip r).1.seq + 1)) _ _
          (rw same_clients (fresh id refl)) (rw same_clients free) (alloc-RegistryOk r v))
]

-- Every call keeps the invariant.
pub Step-RegistryOk : {r s : Registry} → Step r s → RegistryOk r → RegistryOk s
Step-RegistryOk {r} (added name fp id fresh) v = add-RegistryOk name fp id r fresh v
Step-RegistryOk {r} (removed id) v =
    unfold remove in delete_client-RegistryOk id (detach id r) (detach-RegistryOk id r v)
Step-RegistryOk {r} (updated id public_ip port nat_type candidates) v =
    update-RegistryOk id public_ip port nat_type candidates r v
Step-RegistryOk {r} (learned id addr) v =
    unfold set_relay_addr in same_state r _ (same_rooms r _ refl refl v.rooms_ok) refl refl v
Step-RegistryOk {r} (created draws fp five) v =
    same_state r (create_room draws fp r).1 (create_room-RoomsOk r v.rooms_ok draws fp five)
      (create_keeps draws fp r).0 (create_keeps draws fp r).1 v
Step-RegistryOk {r} (joined fp code) v =
    same_state r (join_room fp code r).1 (join_room-RoomsOk r v.rooms_ok fp code)
      (join_keeps fp code r).0 (join_keeps fp code r).1 v
Step-RegistryOk {r} (left fp) v = leave-RegistryOk fp r v

pub new_registry-RegistryOk : RegistryOk new_registry
unfolding new_registry get
new_registry-RegistryOk = record {
  clients_ok = record { is_map = tt; own_id = λ id c e. cc; distinct_ips = λ i j c d e f same. cc };
  rooms_ok = new_registry-RoomsOk;
  in_pool = omega arith;
}

-- Whatever calls the registry has seen, the two sides of room membership agree, ids and virtual
-- addresses belong to one client each, and nextIP is between 2 and 254.
pub Reach-RegistryOk : {r : Registry} → Reach new_registry r → RegistryOk r
Reach-RegistryOk here = new_registry-RegistryOk
Reach-RegistryOk (next before step) = Step-RegistryOk step (Reach-RegistryOk before)
