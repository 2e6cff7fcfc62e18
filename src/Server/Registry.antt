-- ===== src/Server/Registry.antt =====
-- internal/server/registry.go: clients, their virtual addresses, and who sees whom.
pub mod Visibility
pub mod Address
pub mod Clients
pub mod Invariant
pub mod Reconnect
use eliaukvpn.Base.{
  ℕ, zero, suc, ◌+◌, ◌-◌, ◌/◌, ◌%◌, Bool, true, false, not, ◌&&◌, ◌||◌, Option, none, some, List,
  [], ◌∷◌, ◌++◌, map, ltb, leb, ◌==◌, if◌then◌else◌,
}
use eliaukvpn.Base.Str.{Str, text, str_eq}
use eliaukvpn.Base.GoMap.{GoMap, get, put, delete}
use eliaukvpn.Base.Result.{Result, ok, err}
use eliaukvpn.Protocol.{Candidate, Peer, ErrorText, network_full, no_random_id}
use eliaukvpn.Base.Net.{UdpAddr}
use eliaukvpn.Server.State.{Client, Room, Registry, first_client_ip, room_code, client_by_fp}
use eliaukvpn.Server.Rooms.{remove_from_room}

-- SetRelayAddr
unfoldable pub set_relay_addr : Str → UdpAddr → Registry → Registry
set_relay_addr id addr r = record r { relay_addr = put id addr r.relay_addr }

-- RelayAddr
unfoldable pub relay_addr_of : Str → Registry → Option UdpAddr
relay_addr_of id r = get id r.relay_addr

-- fmt.Sprintf("%d", n) for n below 1000
unfoldable pub decimal : ℕ → Str
decimal n =
    if ltb n 10
    then (48 + n) ∷ []
    else if ltb n 100
    then (48 + n / 10) ∷ (48 + n % 10) ∷ []
    else (48 + n / 100) ∷ (48 + n / 10 % 10) ∷ (48 + n % 10) ∷ []

-- fmt.Sprintf("10.0.0.%d", n)
unfoldable pub virtual_ip : ℕ → Str
unfolding decimal
virtual_ip n = text "10.0.0." ++ decimal n

-- ipTaken
unfoldable pub ip_taken : Str → GoMap Client → Bool
ip_taken addr [] = false
ip_taken addr ((_, c) ∷ clients) = str_eq c.virtual_ip addr || ip_taken addr clients

-- nextIP++, back to the first after 254
unfoldable pub next_after : ℕ → ℕ
next_after n = if ltb 254 (n + 1) then first_client_ip else n + 1

-- allocVirtualIP: the rounds that are left, and nextIP. The result has the new nextIP.
unfoldable pub alloc_from : ℕ → ℕ → GoMap Client → Option Str × ℕ
alloc_from zero next clients = (none, next)
alloc_from (suc rounds) next clients =
    let later = alloc_from rounds (next_after next) clients in
    if ip_taken (virtual_ip next) clients then later else (some (virtual_ip next), next_after next)

unfoldable pub alloc_virtual_ip : Registry → Option Str × Registry
alloc_virtual_ip r =
    let (addr, next) = alloc_from 253 r.next_ip r.clients in (addr, record r { next_ip = next })

unfoldable pub new_client : Str → Str → Str → Str → ℕ → Client
new_client id name fp ip seq = record {
  id = id;
  name = name;
  key_fp = fp;
  virtual_ip = ip;
  public_ip = [];
  public_port = 0;
  nat_type = [];
  candidates = [];
  seq = seq;
}

-- Add, from the outcome of randomID. `seq` is an int64 and is not expected to wrap.
unfoldable pub add : Str → Str → Option Str → Registry → Result ErrorText Client × Registry
unfolding new_client
add name fp random_id r =
    let (addr, r') = alloc_virtual_ip r in
    elim addr [
      | none ↦ (err network_full, r')
      | some ip ↦ elim random_id [
        | none ↦ (err no_random_id, r')
        | some id ↦
            let c = new_client id name fp ip (r'.seq + 1) in
            (
              ok c,
              record r' {
                seq = r'.seq + 1;
                clients = put id c r'.clients;
                by_fp = if str_eq fp [] then r'.by_fp else put fp id r'.by_fp;
              },
            )
      ]
    ]

-- Remove, up to the last line: the fingerprint goes, and leaves its room.
unfoldable pub detach : Str → Registry → Registry
detach id r = elim (get id r.clients) [
  | none ↦ r
  | some c ↦
      if str_eq c.key_fp []
      then r
      else (remove_from_room c.key_fp (record r { by_fp = delete c.key_fp r.by_fp })).1
]

-- Remove
unfoldable pub remove : Str → Registry → Registry
remove id r = let r' = detach id r in record r' { clients = delete id r'.clients }

-- UpdateEndpoint
unfoldable pub update_endpoint : Str → Str → ℕ → Str → List Candidate → Registry → Registry
update_endpoint id public_ip public_port nat_type candidates r = elim (get id r.clients) [
  | none ↦ r
  | some c ↦ record r {
    clients =
        put id
          (record c {
            public_ip = public_ip;
            public_port = public_port;
            nat_type = nat_type;
            candidates = candidates;
          })
          r.clients;
  }
]

unfoldable pub peer_of : Client → Peer
peer_of c = record {
  id = c.id;
  name = c.name;
  virtual_ip = c.virtual_ip;
  public_ip = c.public_ip;
  public_port = c.public_port;
  nat_type = c.nat_type;
  online = true;
}

-- The range over r.clients in peersAllLocked, with the test that keeps a client.
unfoldable pub peers_where : (Client → Bool) → GoMap Client → List Peer
peers_where keep [] = []
peers_where keep ((_, c) ∷ clients) =
    let rest = peers_where keep clients in if keep c then peer_of c ∷ rest else rest

-- Peers
unfoldable pub peers : Str → Registry → List Peer
peers exclude_id r = peers_where (λ c. not (str_eq c.id exclude_id)) r.clients

-- VisiblePeers
unfoldable pub visible_peers : Str → Str → Registry → List Peer
visible_peers exclude_id fp r =
    let code = room_code fp r in
    if str_eq code []
    then []
    else peers_where (λ c. not (str_eq c.id exclude_id) && str_eq (room_code c.key_fp r) code)
        r.clients

-- VisibleTo
unfoldable pub visible_to : Client → Client → Registry → Bool
visible_to src dst r =
    let code = room_code src.key_fp r in
    not (str_eq src.id dst.id) && not (str_eq code []) && str_eq (room_code dst.key_fp r) code

-- Candidates
unfoldable pub candidates_of : Str → Registry → List Candidate
candidates_of id r = elim (get id r.clients) [ none ↦ [] | some c ↦ c.candidates ]
