-- ===== src/Protocol.antt =====
-- internal/protocol/messages.go: what clients and the coordination server tell each other.
-- The JSON of the envelopes is the standard library's: a message is its decoded payload, and
-- `none` stands for a payload that does not decode.
use eliaukvpn.Base.{ℕ, Option, List}
use eliaukvpn.Base.{Bool}
use eliaukvpn.Base.Str.{Str}

pub record Candidate : Type 0 where
  pub ip : Str
  pub port : ℕ
  pub type : Str

pub record Peer : Type 0 where
  pub id : Str
  pub name : Str
  pub virtual_ip : Str
  pub public_ip : Str
  pub public_port : ℕ
  pub nat_type : Str
  pub online : Bool

pub record RoomMember : Type 0 where
  pub username : Str
  pub key_fp : Str
  pub virtual_ip : Str
  pub host : Bool

pub record RegisterRequest : Type 0 where
  pub name : Str
  pub public_key : Str

pub record ReportEndpoint : Type 0 where
  pub public_ip : Str
  pub public_port : ℕ
  pub nat_type : Str
  pub candidates : List Candidate

-- Client to server. `other` is any type tag that the server does not know.
pub data Request : Type 0 where
  register : Option RegisterRequest → Request
  report_endpoint : Option ReportEndpoint → Request
  list_peers : Request
  connect_request : Option Str → Request
  room_create : Request
  room_join : Option Str → Request
  room_leave : Request
  other : Request

-- The texts of the server's error messages.
pub data ErrorText : Type 0 where
  first_message malformed_register no_name no_public_key network_full no_random_id : ErrorText
  bad_connect_request cannot_connect_to_yourself peer_not_in_room no_candidates : ErrorText
  bad_room_join already_in_room not_in_room no_draws : ErrorText
  peer_not_found no_such_room : Str → ErrorText

-- Server to client.
pub data Message : Type 0 where
  registered : Str → Str → Str → List Peer → Str → Message
  peers_list : List Peer → Message
  connect_candidates : Str → Str → List Candidate → Message
  room_created : Str → Message
  room_joined : Str → List RoomMember → Message
  room_update : List RoomMember → Message
  room_left : Str → Message
  error : ErrorText → Message
