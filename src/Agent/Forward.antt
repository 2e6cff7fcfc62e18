-- ===== src/Agent/Forward.antt =====
-- internal/agent/agent.go: packets between the virtual adapter and the tunnel. A packet that the
-- code calls `nil` is the empty one.
pub mod Echo
use eliaukvpn.Base.{
  Bool, false, ◌||◌, ◌&&◌, Option, none, some, List, [], ◌∷◌, map, not, if◌then◌else◌, is_empty,
}
use eliaukvpn.Base.Str.{Str, Bytes}
use eliaukvpn.Base.GoMap.{get}
use eliaukvpn.Base.Result.{ok, err}
use eliaukvpn.Crypto.{Aead}
use eliaukvpn.Lan.{
  is_discovery, ipv4_src, ipv4_dst, rewrite_source, rewrite_dest, in_virtual_subnet,
  build_discovery,
}
use eliaukvpn.P2p.Send.{send_data, send_data_broadcast}
use eliaukvpn.Agent.State.{Library, Agent, Action, transmit, write_adapter}

-- The data sink that onRegistered gives to the tunnel
unfoldable pub sink_data : Library → Bytes → Agent → List Action
sink_data lib pkt a = elim a.adapter [
  | none ↦ []
  | some _ ↦
      if is_discovery pkt && not (is_empty a.my_vip)
      then write_adapter pkt ∷ write_adapter (rewrite_dest pkt (lib.parse_ip a.my_vip)) ∷ []
      else write_adapter pkt ∷ []
]

module _ (e : Aead) (lib : Library) where
  -- forwardDiscovery, with the packet that it makes given the address
  unfoldable pub fan_out : Option Bytes → (Option Bytes → Bytes) → Agent → List Action × Agent
  fan_out src build a = elim a.tunnel [
    | none ↦ ([], a)
    | some t ↦
        let out = build (lib.parse_ip a.my_vip) in
        let (sent, t') = send_data_broadcast e out t in
        if is_empty a.my_vip || (in_virtual_subnet src || is_empty out)
        then ([], a)
        else (map transmit sent, record a { tunnel = some t' })
  ]

  -- forwardDiscovery
  unfoldable pub forward_discovery : Bool → Option Bytes → Bytes → Agent → List Action × Agent
  unfolding fan_out
  forward_discovery sniffed src pkt a =
      fan_out src
        (λ virtual. if sniffed then build_discovery virtual pkt else rewrite_source pkt virtual) a

  -- The packet of forwardFromVnic to the peer that its route names
  unfoldable pub send_to_owner : Option Str → Bytes → Agent → List Action × Agent
  send_to_owner none pkt a = ([], a)
  send_to_owner (some id) pkt a = elim a.tunnel [
    | none ↦ ([], a)
    | some t ↦
        let (r, t') = send_data e id pkt t in
        (elim r [ err _ ↦ [] | ok sent ↦ map transmit sent ], record a { tunnel = some t' })
  ]

  -- forwardFromVnic
  unfoldable pub forward_from_vnic : Bytes → Agent → List Action × Agent
  unfolding send_to_owner
  forward_from_vnic pkt a =
      if is_discovery pkt
      then forward_discovery false (ipv4_src pkt) pkt a
      else (elim (ipv4_dst pkt) [
        | none ↦ ([], a)
        | some dst ↦ send_to_owner (get (lib.ip_string dst) a.routes) pkt a
      ])
