-- ===== src/Agent/State.antt =====
-- internal/agent/agent.go: the agent's state under its lock. What it does to the outside is a list
-- of actions.
use eliaukvpn.Base.{ℕ, ◌≡◌, Bool, Option, none, some, List, [], length, ◌==◌, if◌then◌else◌}
use eliaukvpn.Base.Str.{Str, Bytes}
use eliaukvpn.Base.Trim.{trim_space}
use eliaukvpn.Base.Net.{UdpAddr}
use eliaukvpn.Base.GoMap.{GoMap}
use eliaukvpn.Crypto.Handshake.{Kex}
use eliaukvpn.P2p.State.{Tunnel, Effect}
use eliaukvpn.Protocol.{Peer, RoomMember, Request, ErrorText}
use eliaukvpn.Stun.Detect.{Detected}

-- base64.StdEncoding, net.ParseIP and its String on IPv4 addresses, and net.ResolveUDPAddr. What
-- was encoded decodes, and the text of four bytes parses to them.
pub record Library : Type 0 where
  pub encode : Bytes → Str
  pub decode : Str → Option Bytes
  pub parse_ip : Str → Option Bytes
  pub ip_string : Bytes → Str
  pub resolve : Str → Option UdpAddr
  pub decode-encode : (b : Bytes) → decode (encode b) ≡ some b
  pub parse-string : (b : Bytes) → length b ≡ 4 → parse_ip (ip_string b) ≡ some b

-- RoomState
pub record RoomState : Type 0 where
  pub code : Str
  pub members : List RoomMember

-- `identity` is the private key, `adapter` the virtual adapter's interface index.
pub record Agent : Type 0 where
  pub force_relay : Bool
  pub identity : Bytes
  pub probe : Detected
  pub my_id : Str
  pub my_vip : Str
  pub tunnel : Option Tunnel
  pub adapter : Option ℕ
  pub routes : GoMap Str
  pub attempted : GoMap Bool
  pub by_id : GoMap Peer
  pub by_name : GoMap Peer
  pub friends : List Bytes
  pub room_fp : List Bytes
  pub room : Option RoomState
  pub err_note : Option ErrorText
  pub vnic_err : Str

-- What New returns, once the identity is loaded, the socket probed and the server dialled.
unfoldable pub new_agent : Bool → Bytes → Detected → Agent
new_agent force_relay identity probe = record {
  force_relay = force_relay;
  identity = identity;
  probe = probe;
  my_id = [];
  my_vip = [];
  tunnel = none;
  adapter = none;
  routes = [];
  attempted = [];
  by_id = [];
  by_name = [];
  friends = [];
  room_fp = [];
  room = none;
  err_note = none;
  vnic_err = [];
}

-- A message to the server, the system's route command, what the tunnel sends, the start of a
-- punch loop, and a packet for the virtual adapter.
pub data Action : Type 0 where
  ask : Request → Action
  add_route delete_route : Str → ℕ → Action
  transmit : Effect → Action
  punch : Str → Action
  write_adapter : Bytes → Action

-- identity.Fingerprint()
abbrev pub fingerprint : Kex → Library → Agent → Str
fingerprint k lib a = lib.encode (k.public_of a.identity)

-- crypto.ParseFingerprint
unfoldable pub parse_fingerprint : Library → Str → Option Bytes
parse_fingerprint lib s = elim (lib.decode (trim_space s)) [
  | none ↦ none
  | some b ↦ if length b == 32 then some b else none
]
