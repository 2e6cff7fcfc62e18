-- ===== src/Agent/Members.antt =====
-- internal/agent/agent.go with internal/p2p/tunnel.go: whose handshakes the agent's tunnel lets in,
-- in every state that the agent can reach.
pub mod Reach
use eliaukvpn.Base.{
  ℕ, ◌≡◌, ◌↔◌, refl, sym, ap, ◌∙◌, subst, Bool, true, false, Option, none, some, List, [], ◌∷◌,
  arith, length, take, is_empty, ◌==◌, if◌then◌else◌, Bool-cases, Option-cases, inl, inr,
}
use eliaukvpn.Base.Str.{Str, Bytes}
use eliaukvpn.Base.Net.{UdpAddr}
use eliaukvpn.Base.GoMap.{GoMap, get}
use eliaukvpn.Base.Result.{Result, ok, err}
use eliaukvpn.Crypto.{Aead}
use eliaukvpn.Crypto.Handshake.{Kex, bad_static, new_public_key}
use eliaukvpn.Stun.Detect.{Detected}
use eliaukvpn.P2p.Frame.{Frame, parse_frame}
use eliaukvpn.P2p.State.{
  Peer, Tunnel, Effect, friend_set, set_friends, set_identity, new_tunnel, set_relay,
  set_force_relay, set_data_sink, begin_connect,
}
use eliaukvpn.P2p.Send.{send_data, send_data_broadcast}
use eliaukvpn.P2p.Tunnel.Gate.{Result-cases}
use eliaukvpn.P2p.Tunnel.{flag, check_peer_static, handle_frame, read_size, receive}
use eliaukvpn.P2p.Punch.{Punch, punch_step, with_peer}
use eliaukvpn.Protocol.{
  RoomMember, Candidate, Message, registered, peers_list, connect_candidates, room_created,
  room_joined, room_update, room_left, error,
}
use eliaukvpn.Protocol
use eliaukvpn.Agent.State.{Library, Agent, Action, RoomState, fingerprint, new_agent}
use eliaukvpn.Agent.Rooms.{
  dedup_from, dedup_fp, member_fps, sync_whitelist, set_room, update_room_members, clear_room,
}
use eliaukvpn.Agent.Rooms.Whitelist.{IsMember, whitelist_iff}
use eliaukvpn.Agent.Routes.{auto_connect, merge_peers}
use eliaukvpn.Agent.Forward.{fan_out, forward_discovery, send_to_owner, forward_from_vnic}
use eliaukvpn.Agent.Loop.{
  Host, Event, open_adapter, join_relay, start_tunnel, set_up, on_registered, on_candidates,
  to_udp_addrs, on_message,
}

-- What decides who is let in stays.
abbrev pub Keeps : Tunnel → Tunnel → Type 0
Keeps t t' = (t'.friends ≡ t.friends) × (t'.identity ≡ t.identity)

begin_connect-Keeps :
    (k : Kex) (id name : Str) (cs : List UdpAddr) (generated : Option Bytes) (t : Tunnel)
    → Keeps t (begin_connect k id name cs generated t)
unfolding begin_connect
begin_connect-Keeps k id name cs generated t = ground arith

module _ (k : Kex) (e : Aead) (base64 : Bytes → Str) where
  handle_frame-Keeps :
      (now : ℕ) (f : Frame) (addr : UdpAddr) (t : Tunnel)
      → Keeps t (handle_frame k e base64 now f addr t).1
  unfolding handle_frame
  handle_frame-Keeps now f addr t = ground arith

  pub receive-Keeps :
      (now : ℕ) (buf : Bytes) (addr : UdpAddr) (t : Tunnel)
      → Keeps t (receive k e base64 now buf addr t).1
  unfolding receive
  receive-Keeps now buf addr t = elim (Result-cases (parse_frame (take read_size buf))) [
    | inl (x, bad) ↦ rw (bad, receive) (refl, refl)
    | inr (f, good) ↦ ground (arith, good, handle_frame-Keeps now f addr t)
  ]

pub send_data-Keeps :
    (e : Aead) (id : Str) (pkt : Bytes) (t : Tunnel) → Keeps t (send_data e id pkt t).1
unfolding send_data
send_data-Keeps e id pkt t = ground arith

pub punch_step-Keeps : (k : Kex) (now : ℕ) (l : Punch) (t : Tunnel) → Keeps t (punch_step now l t).2
unfolding punch_step with_peer
punch_step-Keeps k now l t = ground arith

-- The tunnel, once there is one, has the identity and lets in the agent's friends.
abbrev pub Enforces : Library → List Bytes → Bytes → Option Tunnel → Type 0
Enforces lib friends identity none = Unit
Enforces lib friends identity (some t) =
    (t.friends ≡ friend_set lib.encode [] friends) × (t.identity ≡ some identity)

-- The keys of the room's other members, none outside a room
abbrev pub member_keys : Kex → Library → Bytes → Option RoomState → List Bytes
member_keys k lib identity none = []
member_keys k lib identity (some r) = member_fps lib (lib.encode (k.public_of identity)) r.members

pub record AgentOk (k : Kex) (lib : Library) (a : Agent) : Type 0 where
  pub from_members : a.room_fp ≡ member_keys k lib a.identity a.room
  pub from_room : a.friends ≡ dedup_fp lib.encode (a.room_fp ∷ [])
  pub enforced : Enforces lib a.friends a.identity a.tunnel

module _ (k : Kex) (lib : Library) where
  pub new_agent-AgentOk :
      (force_relay : Bool) (identity : Bytes) (probe : Detected)
      → AgentOk k lib (new_agent force_relay identity probe)
  unfolding new_agent dedup_fp
  new_agent-AgentOk force_relay identity probe = record {
    from_members = refl;
    from_room = refl;
    enforced = tt;
  }

  refresh :
      (fs gs : List Bytes) (identity : Bytes) (o : Option Tunnel)
      → Enforces lib fs identity o
      → Enforces lib gs identity
          (elim o [ none ↦ none | some t ↦ some (set_friends lib.encode gs t) ])
  unfolding set_friends
  refresh fs gs identity none old = tt
  refresh fs gs identity (some t) old = (refl, old.1)

  sync_whitelist-AgentOk :
      (a : Agent)
      → a.room_fp ≡ member_keys k lib a.identity a.room
      → Enforces lib a.friends a.identity a.tunnel
      → AgentOk k lib (sync_whitelist lib a)
  unfolding sync_whitelist
  sync_whitelist-AgentOk a fps old = record {
    from_members = fps;
    from_room = refl;
    enforced = refresh a.friends (dedup_fp lib.encode (a.room_fp ∷ [])) a.identity a.tunnel old;
  }

  -- The tunnel moves on, the rest of the agent's state stays.
  pub swap_tunnel :
      (a : Agent) (t t' : Tunnel)
      → AgentOk k lib a
      → a.tunnel ≡ some t
      → Keeps t t'
      → AgentOk k lib (record a { tunnel = some t' })
  swap_tunnel a t t' v e keeps =
      let old : Enforces lib a.friends a.identity (some t) =
        subst (Enforces lib a.friends a.identity) e v.enforced in
      record {
        from_members = v.from_members;
        from_room = v.from_room;
        enforced = (keeps.0 ∙ old.0, keeps.1 ∙ old.1);
      }

  set_room-AgentOk :
      (code : Str) (members : List RoomMember) (a : Agent)
      → AgentOk k lib a
      → AgentOk k lib (set_room k lib code members a)
  unfolding set_room
  set_room-AgentOk code members a v =
      sync_whitelist-AgentOk
        (record a {
          room = some (record { code = code; members = members });
          room_fp = member_fps lib (fingerprint k lib a) members;
        })
        refl v.enforced

  update-AgentOk :
      (members : List RoomMember) (a : Agent)
      → AgentOk k lib a
      → AgentOk k lib (update_room_members k lib members a)
  unfolding update_room_members
  update-AgentOk members a v = elim (Option-cases a.room) [
    | inl outside ↦ rw (outside, update_room_members) v
    | inr (r, inside) ↦
        rw (inside, update_room_members)
          (sync_whitelist-AgentOk
            (record a {
              room = some (record r { members = members });
              room_fp = member_fps lib (fingerprint k lib a) members;
            })
            refl v.enforced)
  ]

  clear_room-AgentOk : (a : Agent) → AgentOk k lib a → AgentOk k lib (clear_room lib a).1
  unfolding clear_room
  clear_room-AgentOk a v =
      sync_whitelist-AgentOk (record a { room = none; room_fp = []; routes = [] }) refl v.enforced

  auto_connect-AgentOk :
      (ps : List Protocol.Peer) (a : Agent) → AgentOk k lib a → AgentOk k lib (auto_connect ps a).1
  unfolding auto_connect
  auto_connect-AgentOk ps a v = record {
    from_members = v.from_members;
    from_room = v.from_room;
    enforced = v.enforced;
  }

  merge_peers-AgentOk :
      (ps : List Protocol.Peer) (a : Agent) → AgentOk k lib a → AgentOk k lib (merge_peers ps a)
  unfolding merge_peers
  merge_peers-AgentOk ps a v = record {
    from_members = v.from_members;
    from_room = v.from_room;
    enforced = v.enforced;
  }

  open_adapter-AgentOk :
      (o : Option (Result Str ℕ)) (a : Agent) → AgentOk k lib a → AgentOk k lib (open_adapter o a)
  unfolding open_adapter
  open_adapter-AgentOk none a v = v
  open_adapter-AgentOk (some (err x)) a v = record {
    from_members = v.from_members;
    from_room = v.from_room;
    enforced = v.enforced;
  }
  open_adapter-AgentOk (some (ok i)) a v = record {
    from_members = v.from_members;
    from_room = v.from_room;
    enforced = v.enforced;
  }

  start_tunnel-Enforces :
      (addr : Str) (a : Agent)
      → Enforces lib a.friends a.identity (some (start_tunnel lib addr a).1)
  unfolding start_tunnel join_relay set_data_sink set_force_relay set_relay set_friends set_identity
  start_tunnel-Enforces addr a = ground arith

  set_up-AgentOk :
      (h : Host) (client vip addr : Str) (ps : List Protocol.Peer) (a : Agent)
      → AgentOk k lib a
      → AgentOk k lib (set_up lib h client vip addr ps a)
  unfolding set_up
  set_up-AgentOk h client vip addr ps a v =
      let named : Agent = record a { my_id = client; my_vip = vip; err_note = none } in
      let started : Agent = record named { tunnel = some (start_tunnel lib addr named).1 } in
      open_adapter-AgentOk h.opened (merge_peers ps started) (
        merge_peers-AgentOk ps started (record {
          from_members = v.from_members;
          from_room = v.from_room;
          enforced = start_tunnel-Enforces addr named;
        }))

  on_candidates-AgentOk :
      (generated : Option Bytes) (id name : Str) (cs : List Candidate) (a : Agent)
      → AgentOk k lib a
      → AgentOk k lib (on_candidates k lib generated id name cs a).1
  unfolding on_candidates
  on_candidates-AgentOk generated id name cs a v = elim (Option-cases a.tunnel) [
    | inl down ↦ rw (down, on_candidates) v
    | inr (t, up) ↦
        rw (up, on_candidates)
          (swap_tunnel a t (begin_connect k id name (to_udp_addrs lib cs) generated t) v up
            (begin_connect-Keeps k id name (to_udp_addrs lib cs) generated t))
  ]

  -- Every message of the server keeps the agent's whitelist in step with its room.
  pub on_message-AgentOk :
      (h : Host) (generated : Option Bytes) (m : Message) (a : Agent)
      → AgentOk k lib a
      → AgentOk k lib (on_message k lib h generated m a).1
  unfolding on_message on_registered
  on_message-AgentOk h generated (registered client vip addr ps code) a v =
      auto_connect-AgentOk ps (set_up lib h client vip addr ps a)
        (set_up-AgentOk h client vip addr ps a v)
  on_message-AgentOk h generated (peers_list ps) a v =
      auto_connect-AgentOk ps (merge_peers ps a) (merge_peers-AgentOk ps a v)
  on_message-AgentOk h generated (connect_candidates id name cs) a v =
      on_candidates-AgentOk generated id name cs a v
  on_message-AgentOk h generated (room_created code) a v = v
  on_message-AgentOk h generated (room_joined code members) a v = set_room-AgentOk code members a v
  on_message-AgentOk h generated (room_update members) a v = update-AgentOk members a v
  on_message-AgentOk h generated (room_left code) a v = clear_room-AgentOk a v
  on_message-AgentOk h generated (error x) a v = record {
    from_members = v.from_members;
    from_room = v.from_room;
    enforced = v.enforced;
  }
