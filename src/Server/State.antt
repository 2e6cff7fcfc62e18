-- ===== src/Server/State.antt =====
-- internal/server/registry.go and rooms.go: the state under the registry's lock. Clients are
-- shared pointers in the source; here `clients` is the store and an id is the pointer.
use eliaukvpn.Base.{ℕ, Bool, Option, none, some, List, []}
use eliaukvpn.Base.Str.{Str}
use eliaukvpn.Base.GoMap.{GoMap, get, or_empty}
use eliaukvpn.Base.Net.{UdpAddr}
use eliaukvpn.Protocol.{Candidate}

pub record Client : Type 0 where
  pub id : Str
  pub name : Str
  pub key_fp : Str
  pub virtual_ip : Str
  pub public_ip : Str
  pub public_port : ℕ
  pub nat_type : Str
  pub candidates : List Candidate
  pub seq : ℕ

pub record Room : Type 0 where
  pub code : Str
  pub host : Str
  pub members : GoMap Bool

pub record Registry : Type 0 where
  pub clients : GoMap Client
  pub by_fp : GoMap Str
  pub next_ip : ℕ
  pub relay_addr : GoMap UdpAddr
  pub seq : ℕ
  pub rooms : GoMap Room
  pub in_room : GoMap Str

abbrev pub first_client_ip : ℕ
first_client_ip = 2

-- NewRegistry
unfoldable pub new_registry : Registry
new_registry = record {
  clients = [];
  by_fp = [];
  next_ip = first_client_ip;
  relay_addr = [];
  seq = 0;
  rooms = [];
  in_room = [];
}

-- r.inRoom[keyFP], "" where there is no entry
abbrev pub room_code : Str → Registry → Str
room_code fp r = or_empty (get fp r.in_room)

-- r.byFP[fp]
unfoldable pub client_by_fp : Str → Registry → Option Client
client_by_fp fp r = elim (get fp r.by_fp) [ none ↦ none | some id ↦ get id r.clients ]
