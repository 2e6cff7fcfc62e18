-- ===== src/Agent/Members/Reach.antt =====
-- Everything that happens to an agent, and whom its tunnel lets in then.
use eliaukvpn.Base.{
  ℕ, ◌≡◌, ◌↔◌, refl, sym, ap, ◌∙◌, subst, Bool, true, false, Option, none, some, [], ◌∷◌, arith,
  length, is_empty, if◌then◌else◌, Bool-cases, Option-cases, inl, inr, ◌||◌,
}
use eliaukvpn.Base.Str.{Str, Bytes}
use eliaukvpn.Base.Net.{UdpAddr}
use eliaukvpn.Base.GoMap.{GoMap, get}
use eliaukvpn.Base.Result.{ok}
use eliaukvpn.Crypto.{Aead}
use eliaukvpn.Crypto.Handshake.{Kex, new_public_key}
use eliaukvpn.Stun.Detect.{Detected}
use eliaukvpn.Lan.{
  in_virtual_subnet, is_discovery, ipv4_src, ipv4_dst, build_discovery, rewrite_source,
}
use eliaukvpn.P2p.State.{Tunnel, friend_set}
use eliaukvpn.P2p.Send.{send_data, send_data_broadcast}
use eliaukvpn.P2p.Tunnel.{flag, check_peer_static, receive}
use eliaukvpn.P2p.Punch.{Punch, punch_step}
use eliaukvpn.Protocol.{Message}
use eliaukvpn.Agent.State.{Library, Agent, RoomState, fingerprint, new_agent}
use eliaukvpn.Agent.Rooms.{dedup_fp, member_fps}
use eliaukvpn.Agent.Rooms.Whitelist.{IsMember, whitelist_iff}
use eliaukvpn.Agent.Forward.{fan_out, forward_discovery, send_to_owner, forward_from_vnic}
use eliaukvpn.Agent.Loop.{Host, on_message}
use eliaukvpn.Agent.Members.{
  Keeps, receive-Keeps, send_data-Keeps, punch_step-Keeps, Enforces, member_keys, AgentOk,
  new_agent-AgentOk, swap_tunnel, on_message-AgentOk,
}

module _ (k : Kex) (e : Aead) (lib : Library) where
  -- A message of the server, a packet on the socket, a round of a punch loop, a packet of the
  -- virtual adapter, and an advertisement that the listener heard.
  pub data Step : Agent → Agent → Type 0 where
    message :
        (h : Host) (generated : Option Bytes) (m : Message) (a : Agent)
        → Step a (on_message k lib h generated m a).1
    packet :
        (now : ℕ) (buf : Bytes) (addr : UdpAddr) (a : Agent) (t : Tunnel)
        → a.tunnel ≡ some t
        → Step a (record a { tunnel = some (receive k e lib.encode now buf addr t).1 })
    punched :
        (now : ℕ) (l : Punch) (a : Agent) (t : Tunnel)
        → a.tunnel ≡ some t
        → Step a (record a { tunnel = some (punch_step now l t).2 })
    outbound : (pkt : Bytes) (a : Agent) → Step a (forward_from_vnic e lib pkt a).1
    heard :
        (src : Option Bytes) (pkt : Bytes) (a : Agent)
        → Step a (forward_discovery e lib true src pkt a).1

  -- The states of an agent that New made.
  pub data Reach : Agent → Type 0 where
    started :
        (force_relay : Bool) (identity : Bytes) (probe : Detected)
        → Reach (new_agent force_relay identity probe)
    next : {a b : Agent} → Reach a → Step a b → Reach b

  broadcast-Keeps : (pkt : Bytes) (t : Tunnel) → Keeps t (send_data_broadcast e pkt t).1
  unfolding send_data_broadcast
  broadcast-Keeps pkt t = (refl, refl)

  fan_out-AgentOk :
      (src : Option Bytes) (build : Option Bytes → Bytes) (a : Agent)
      → AgentOk k lib a
      → AgentOk k lib (fan_out e lib src build a).1
  unfolding fan_out
  fan_out-AgentOk src build a v = elim (Option-cases a.tunnel) [
    | inl down ↦ rw (down, fan_out) v
    | inr (t, up) ↦
        let out : Bytes = build (lib.parse_ip a.my_vip) in
        let sent : AgentOk k lib (record a { tunnel = some (send_data_broadcast e out t).1 }) =
          swap_tunnel k lib a t (send_data_broadcast e out t).1 v up (broadcast-Keeps out t) in
        elim (Bool-cases (is_empty a.my_vip || (in_virtual_subnet src || is_empty out))) [
          | inl stop ↦ rw (up, fan_out, stop) v
          | inr go ↦ rw (up, fan_out, go) sent
        ]
  ]

  forward_discovery-AgentOk :
      (sniffed : Bool) (src : Option Bytes) (pkt : Bytes) (a : Agent)
      → AgentOk k lib a
      → AgentOk k lib (forward_discovery e lib sniffed src pkt a).1
  unfolding forward_discovery
  forward_discovery-AgentOk sniffed src pkt a v =
      fan_out-AgentOk src
        (λ virtual. if sniffed then build_discovery virtual pkt else rewrite_source pkt virtual) a v

  send_to_owner-AgentOk :
      (o : Option Str) (pkt : Bytes) (a : Agent)
      → AgentOk k lib a
      → AgentOk k lib (send_to_owner e lib o pkt a).1
  unfolding send_to_owner
  send_to_owner-AgentOk none pkt a v = v
  send_to_owner-AgentOk (some id) pkt a v = elim (Option-cases a.tunnel) [
    | inl down ↦ rw (down, send_to_owner) v
    | inr (t, up) ↦
        rw (up, send_to_owner)
          (swap_tunnel k lib a t (send_data e id pkt t).1 v up (send_data-Keeps e id pkt t))
  ]

  forward-AgentOk :
      (pkt : Bytes) (a : Agent) → AgentOk k lib a → AgentOk k lib (forward_from_vnic e lib pkt a).1
  unfolding forward_from_vnic
  forward-AgentOk pkt a v = elim (Bool-cases (is_discovery pkt)) [
    | inl group ↦ rw group (forward_discovery-AgentOk false (ipv4_src pkt) pkt a v)
    | inr single ↦ elim (Option-cases (ipv4_dst pkt)) [
      | inl bad ↦ rw (single, bad) v
      | inr (dst, good) ↦
          rw (single, good) (send_to_owner-AgentOk (get (lib.ip_string dst) a.routes) pkt a v)
    ]
  ]

  Step-AgentOk : {a b : Agent} → Step a b → AgentOk k lib a → AgentOk k lib b
  Step-AgentOk (message h generated m a) v = on_message-AgentOk k lib h generated m a v
  Step-AgentOk (packet now buf addr a t up) v =
      swap_tunnel k lib a t (receive k e lib.encode now buf addr t).1 v up
        (receive-Keeps k e lib.encode now buf addr t)
  Step-AgentOk (punched now l a t up) v =
      swap_tunnel k lib a t (punch_step now l t).2 v up (punch_step-Keeps k now l t)
  Step-AgentOk (outbound pkt a) v = forward-AgentOk pkt a v
  Step-AgentOk (heard src pkt a) v = forward_discovery-AgentOk true src pkt a v

  -- In every state, the agent's whitelist is made of the members of its present room, and its
  -- tunnel, once there is one, enforces that list.
  pub Reach-AgentOk : {a : Agent} → Reach a → AgentOk k lib a
  Reach-AgentOk (started force_relay identity probe) =
      new_agent-AgentOk k lib force_relay identity probe
  Reach-AgentOk (next r s) = Step-AgentOk s (Reach-AgentOk r)

  -- checkPeerStatic, on a key of the right length
  check_lem :
      (x : Bytes) (t : Tunnel)
      → length x ≡ 32
      → (check_peer_static k e lib.encode x t ≡ ok tt)
        ↔ ((is_empty t.friends || flag (lib.encode x) t.friends) ≡ true)
  unfolding check_peer_static new_public_key
  check_lem x t h = (λ q. ground arith, λ q. ground arith)

  -- The tunnel's set, from the members
  friends_lem :
      (a : Agent) (t : Tunnel)
      → AgentOk k lib a
      → a.tunnel ≡ some t
      → t.friends
        ≡ friend_set lib.encode [] (dedup_fp lib.encode (member_keys k lib a.identity a.room ∷ []))
  friends_lem a t v up =
      (subst (Enforces lib a.friends a.identity) up v.enforced).0
      ∙ ap (friend_set lib.encode [])
          (v.from_room ∙ ap (λ l. dedup_fp lib.encode (l ∷ [])) v.from_members)

  flagged : (s : Str) (m : GoMap Bool) → flag s m ≡ true → is_empty m ≡ false
  unfolding get
  flagged s [] h = cc
  flagged s (x ∷ m) h = refl

  -- In every state in which the agent is in a room where some other member has a readable
  -- fingerprint, a 32-byte key passes the tunnel's check exactly if it is the key of a member
  -- other than the agent itself.
  pub admitted_iff :
      (a : Agent) (t : Tunnel) (r : RoomState) (x y : Bytes)
      → Reach a
      → a.tunnel ≡ some t
      → a.room ≡ some r
      → IsMember lib (fingerprint k lib a) r.members y
      → length x ≡ 32
      → (check_peer_static k e lib.encode x t ≡ ok tt)
        ↔ IsMember lib (fingerprint k lib a) r.members x
  admitted_iff a t r x y reach up inside someone h =
      let self : Str = fingerprint k lib a in
      let table : t.friends
          ≡ friend_set lib.encode [] (dedup_fp lib.encode (member_fps lib self r.members ∷ [])) =
        friends_lem a t (Reach-AgentOk reach) up
        ∙ ap
            (λ o.
              friend_set lib.encode [] (dedup_fp lib.encode (member_keys k lib a.identity o ∷ [])))
            inside in
      let same : (z : Bytes)
          → (flag (lib.encode z) t.friends ≡ true) ↔ IsMember lib self r.members z =
        λ z.
          subst (λ m. (flag (lib.encode z) m ≡ true) ↔ IsMember lib self r.members z) (sym table)
            (whitelist_iff lib self r.members z) in
      let closed : is_empty t.friends ≡ false =
        flagged (lib.encode y) t.friends ((same y).1 someone) in
      (
        λ passed. (same x).0 (ground (arith, (check_lem x t h).0 passed, closed)),
        λ member. (check_lem x t h).1 (ground (arith, (same x).1 member)),
      )

  -- In every state in which the agent is in no room, or alone in it, or with members whose
  -- fingerprints cannot be read, every 32-byte key passes the tunnel's check.
  pub open_to_all :
      (a : Agent) (t : Tunnel) (x : Bytes)
      → Reach a
      → a.tunnel ≡ some t
      → member_keys k lib a.identity a.room ≡ []
      → length x ≡ 32
      → check_peer_static k e lib.encode x t ≡ ok tt
  open_to_all a t x reach up nobody h =
      let table : t.friends ≡ friend_set lib.encode [] (dedup_fp lib.encode ([] ∷ [])) =
        friends_lem a t (Reach-AgentOk reach) up
        ∙ ap (λ l. friend_set lib.encode [] (dedup_fp lib.encode (l ∷ []))) nobody in
      (check_lem x t h).1 (rw table (unfold dedup_fp friend_set in refl))
