-- ===== src/Server/Handler/Serving.antt =====
-- The whole server: the requests of all connections and the relay's packets, in any order.
use eliaukvpn.Base.{
  ◌≡◌, refl, Option, none, some, List, [], arith, All, length, Bool-cases, inl, inr, ◌||◌, not, ltb,
  take, drop, ◌⊎◌, sym, subst,
}
use eliaukvpn.Base.Str.{Str, Bytes, str_eq}
use eliaukvpn.Base.Net.{UdpAddr}
use eliaukvpn.Base.Hex.{hex_encode}
use eliaukvpn.Base.GoMap.{get}
use eliaukvpn.Protocol.{
  Request, register, report_endpoint, list_peers, connect_request, room_create, room_join,
  room_leave, other,
}
use eliaukvpn.Server.State.{Client, Registry, new_registry}
use eliaukvpn.Server.Registry.{set_relay_addr}
use eliaukvpn.Server.Registry.Invariant.{
  RegistryOk, Step, added, removed, updated, learned, created, joined, left, Reach, here, next,
  Step-RegistryOk, new_registry-RegistryOk,
}
use eliaukvpn.Server.Relay.{handle, forward, relay_magic}
use eliaukvpn.Server.Handler.{
  register_client, dispatch, disconnect, handle_room_create, handle_room_join, handle_room_leave,
}

-- Something that happens to the server. Random ids are new, and a room code draws five bytes.
pub data Serve (r : Registry) : Registry → Type 0 where
  registering :
      (req : Request) (id : Option Str)
      → ((i : Str) → id ≡ some i → get i r.clients ≡ none)
      → Serve r (register_client req id r).1
  serving :
      (draws : List Bytes) (req : Request) (c : Client)
      → All (λ d. length d ≡ 5) draws
      → Serve r (dispatch draws req c r).1
  disconnecting : (c : Client) → Serve r (disconnect c r).1
  relaying : (pkt : Bytes) (src : UdpAddr) → Serve r (handle pkt src r).1

pub data Served (r : Registry) : Registry → Type 0 where
  started : Served r r
  after : {s t : Registry} → Served r s → Serve s t → Served r t

-- A registry that is one step on, or unchanged.
one : {r s : Registry} → Step r s → Reach r s
one step = next here step

registering-Reach :
    (req : Request) (id : Option Str) (r : Registry)
    → ((i : Str) → id ≡ some i → get i r.clients ≡ none)
    → Reach r (register_client req id r).1
unfolding register_client
registering-Reach (register none) id r fresh = here
registering-Reach (register (some req)) id r fresh = elim (Bool-cases (str_eq req.name [])) [
  | inl unnamed ↦ rw (unnamed, register_client) here
  | inr named ↦ elim (Bool-cases (str_eq req.public_key [])) [
    | inl keyless ↦ rw (named, register_client, keyless) here
    | inr keyed ↦ rw (named, register_client, keyed) (one (added req.name req.public_key id fresh))
  ]
]
registering-Reach (report_endpoint ep) id r fresh = here
registering-Reach list_peers id r fresh = here
registering-Reach (connect_request peer) id r fresh = here
registering-Reach room_create id r fresh = here
registering-Reach (room_join code) id r fresh = here
registering-Reach room_leave id r fresh = here
registering-Reach other id r fresh = here

serving-Reach :
    (draws : List Bytes) (req : Request) (c : Client) (r : Registry)
    → All (λ d. length d ≡ 5) draws
    → Reach r (dispatch draws req c r).1
unfolding dispatch handle_room_create handle_room_join handle_room_leave
serving-Reach draws (report_endpoint none) c r five = here
serving-Reach draws (report_endpoint (some ep)) c r five =
    one (updated c.id ep.public_ip ep.public_port ep.nat_type ep.candidates)
serving-Reach draws list_peers c r five = here
serving-Reach draws (connect_request peer) c r five = here
serving-Reach draws room_create c r five = one (created draws c.key_fp five)
serving-Reach draws (room_join none) c r five = here
serving-Reach draws (room_join (some code)) c r five = one (joined c.key_fp code)
serving-Reach draws room_leave c r five = one (left c.key_fp)
serving-Reach draws (register req) c r five = here
serving-Reach draws other c r five = here

forward_lem :
    (sender target : Str) (payload : Bytes) (src : UdpAddr) (r : Registry)
    → (forward sender target payload src r).1 ≡ set_relay_addr sender src r
unfolding forward
forward_lem sender target payload src r = ground arith

handle_cases :
    (pkt : Bytes) (src : UdpAddr) (r : Registry)
    → ((handle pkt src r).1 ≡ r) ⊎ ((id : Str) × ((handle pkt src r).1 ≡ set_relay_addr id src r))
unfolding handle
handle_cases pkt src r =
    elim (Bool-cases (ltb (length pkt) 20 || not (str_eq (take 4 pkt) relay_magic))) [
      | inl bad ↦ inl (rw (bad, handle) refl)
      | inr good ↦ inr (
        hex_encode (take 8 (drop 4 pkt)),
        rw (good, handle)
            (forward_lem (hex_encode (take 8 (drop 4 pkt))) (hex_encode (take 8 (drop 12 pkt)))
              (drop 20 pkt) src r),
      )
    ]

relaying-Reach : (pkt : Bytes) (src : UdpAddr) (r : Registry) → Reach r (handle pkt src r).1
relaying-Reach pkt src r = elim (handle_cases pkt src r) [
  | inl same ↦ subst (Reach r) (sym same) here
  | inr (id, learns) ↦ subst (Reach r) (sym learns) (one (learned id src))
]

-- Each event is a run of the registry's calls.
Serve-Reach : {r s : Registry} → Serve r s → Reach r s
Serve-Reach {r} (registering req id fresh) = registering-Reach req id r fresh
Serve-Reach {r} (serving draws req c five) = serving-Reach draws req c r five
Serve-Reach {r} (disconnecting c) = unfold disconnect in one (removed c.id)
Serve-Reach {r} (relaying pkt src) = relaying-Reach pkt src r

Reach-keeps : {r s : Registry} → Reach r s → RegistryOk r → RegistryOk s
Reach-keeps here v = v
Reach-keeps (next before step) v = Step-RegistryOk step (Reach-keeps before v)

-- Whatever requests, disconnects and relayed packets the server has seen, its registry satisfies
-- the invariant.
pub Served-RegistryOk : {r : Registry} → Served new_registry r → RegistryOk r
Served-RegistryOk started = new_registry-RegistryOk
Served-RegistryOk (after before step) = Reach-keeps (Serve-Reach step) (Served-RegistryOk before)
