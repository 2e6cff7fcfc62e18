-- ===== src/P2p/State.antt =====
-- internal/p2p/tunnel.go: the tunnel's state under its lock, and the calls that set it up. What
-- the tunnel does to the outside is a list of effects.
use eliaukvpn.Base.{
  ℕ, Bool, true, false, Option, none, some, List, [], ◌∷◌, map, length, ◌==◌, if◌then◌else◌,
}
use eliaukvpn.Base.Str.{Str, Bytes}
use eliaukvpn.Base.Net.{UdpAddr}
use eliaukvpn.Base.GoMap.{GoMap, get, put}
use eliaukvpn.Crypto.{Session}
use eliaukvpn.Crypto.Handshake.{Kex, Handshake}

-- State
pub data PeerState : Type 0 where
  idle connecting connected failed : PeerState

abbrev pub is_connected : PeerState → Bool
is_connected connected = true
is_connected _ = false

abbrev pub is_connecting : PeerState → Bool
is_connecting connecting = true
is_connecting _ = false

-- `eph` is the private key of the connection.
pub record Peer : Type 0 where
  pub id : Str
  pub name : Str
  pub state : PeerState
  pub remote : Option UdpAddr
  pub candidates : List UdpAddr
  pub relayed : Bool
  pub last_ping : ℕ
  pub eph : Option Bytes
  pub handshake : Option Handshake
  pub session : Option Session

-- `identity` is the long-term private key; `has_sink` says that a data sink is installed.
pub record Tunnel : Type 0 where
  pub my_id : Str
  pub peers : GoMap Peer
  pub relay_addr : Option UdpAddr
  pub force_relay : Bool
  pub has_sink : Bool
  pub identity : Option Bytes
  pub friends : GoMap Bool

pub data Effect : Type 0 where
  send_to : UdpAddr → Bytes → Effect
  deliver : Bytes → Effect

-- New
unfoldable pub new_tunnel : Str → Tunnel
new_tunnel my_id = record {
  my_id = my_id;
  peers = [];
  relay_addr = none;
  force_relay = false;
  has_sink = false;
  identity = none;
  friends = [];
}

-- SetIdentity
unfoldable pub set_identity : Bytes → Tunnel → Tunnel
set_identity key t = record t { identity = some key }

-- The loop of SetFriends; base64 is the library's.
unfoldable pub friend_set : (Bytes → Str) → GoMap Bool → List Bytes → GoMap Bool
friend_set base64 m [] = m
friend_set base64 m (k ∷ ks) =
    friend_set base64 (if length k == 32 then put (base64 k) true m else m) ks

-- SetFriends
unfoldable pub set_friends : (Bytes → Str) → List Bytes → Tunnel → Tunnel
unfolding friend_set
set_friends base64 keys t = record t { friends = friend_set base64 [] keys }

-- SetRelay, from the outcome of ResolveUDPAddr
unfoldable pub set_relay : Option UdpAddr → Tunnel → Tunnel
set_relay none t = t
set_relay (some a) t = record t { relay_addr = some a }

-- SetForceRelay
unfoldable pub set_force_relay : Bool → Tunnel → Tunnel
set_force_relay v t = record t { force_relay = v }

-- SetDataSink
unfoldable pub set_data_sink : Tunnel → Tunnel
set_data_sink t = record t { has_sink = true }

-- The key of a connection: none in cleartext mode, and none where the generation failed.
abbrev pub conn_key : Option Bytes → Option Bytes → Option Bytes
conn_key none generated = none
conn_key (some identity) generated = generated

-- The handshake message of that key and the identity.
abbrev pub conn_handshake : Kex → Option Bytes → Option Bytes → Option Handshake
conn_handshake k (some identity) (some eph) =
    some (record { eph = k.public_of eph; stat = k.public_of identity })
conn_handshake k _ _ = none

unfoldable pub new_peer : Kex → Str → Str → List UdpAddr → Option Bytes → Tunnel → Peer
new_peer k id name candidates generated t = record {
  id = id;
  name = name;
  state = connecting;
  remote = none;
  candidates = candidates;
  relayed = t.force_relay;
  last_ping = 0;
  eph = conn_key t.identity generated;
  handshake = conn_handshake k t.identity generated;
  session = none;
}

-- BeginConnect, before it starts the punch loop
unfoldable pub begin_connect : Kex → Str → Str → List UdpAddr → Option Bytes → Tunnel → Tunnel
begin_connect k id name candidates generated t = elim (get id t.peers) [
  | some _ ↦ t
  | none ↦ record t { peers = put id (new_peer k id name candidates generated t) t.peers }
]

-- HasPeer
unfoldable pub has_peer : Str → Tunnel → Bool
has_peer id t = elim (get id t.peers) [ none ↦ false | some _ ↦ true ]

-- Snapshot; the remote endpoint is not printed.
pub record Snapshot : Type 0 where
  pub id : Str
  pub name : Str
  pub state : PeerState
  pub remote : Option UdpAddr

unfoldable pub snapshot : Tunnel → List Snapshot
snapshot t =
    map
      (λ e. let p = e.1 in record { id = p.id; name = p.name; state = p.state; remote = p.remote })
      t.peers
