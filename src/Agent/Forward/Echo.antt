-- ===== src/Agent/Forward/Echo.antt =====
-- Advertisements do not go round: what one agent sends to the others, they do not send on.
use eliaukvpn.Base.{
  ℕ, ◌≡◌, ◌⊎◌, inl, inr, refl, ap, ◌∙◌, Bool, true, false, ◌||◌, Option, some, [], ◌∷◌, map, arith,
  is_empty, if◌then◌else◌, Bool-cases,
}
use eliaukvpn.Base.Str.{Bytes}
use eliaukvpn.Crypto.{Aead}
use eliaukvpn.Lan.{is_discovery, ipv4_src, rewrite_source, in_virtual_subnet, build_discovery}
use eliaukvpn.Lan.Discovery.{build_discovery_reads}
use eliaukvpn.Lan.Rewrite.{rewrite_source_reads, rewrite_source-is_discovery, discovery_formed}
use eliaukvpn.P2p.State.{Tunnel}
use eliaukvpn.P2p.Send.{send_data_broadcast}
use eliaukvpn.Agent.State.{Library, Agent, transmit}
use eliaukvpn.Agent.Forward.{fan_out, forward_discovery, forward_from_vnic}

module _ (e : Aead) (lib : Library) where
  -- The loop guard
  guarded :
      (sniffed : Bool) (src : Option Bytes) (pkt : Bytes) (b : Agent)
      → in_virtual_subnet src ≡ true
      → forward_discovery e lib sniffed src pkt b ≡ ([], b)
  unfolding forward_discovery fan_out
  guarded sniffed src pkt b h = ground arith

  stopped :
      (out : Bytes) (b : Agent)
      → is_discovery out ≡ true
      → in_virtual_subnet (ipv4_src out) ≡ true
      → forward_from_vnic e lib out b ≡ ([], b)
  unfolding forward_from_vnic
  stopped out b group virtual =
      rw (group, forward_from_vnic) (guarded false (ipv4_src out) out b virtual)

  module _ (src : Option Bytes) (build : Option Bytes → Bytes) (a : Agent) (t : Tunnel)
      (out : Bytes) (up : a.tunnel ≡ some t) (made : build (lib.parse_ip a.my_vip) ≡ out) where
    fan_out_stop :
        (is_empty a.my_vip || (in_virtual_subnet src || is_empty out)) ≡ true
        → fan_out e lib src build a ≡ ([], a)
    unfolding fan_out
    fan_out_stop h = ground (arith, made, up)

    fan_out_go :
        (is_empty a.my_vip || (in_virtual_subnet src || is_empty out)) ≡ false
        → (fan_out e lib src build a).0 ≡ map transmit (send_data_broadcast e out t).0
    unfolding fan_out
    fan_out_go h = rw (up, fan_out, made, h) refl

  virtual_source : (d : ℕ) → in_virtual_subnet (some (10 ∷ 0 ∷ 0 ∷ d ∷ [])) ≡ true
  unfolding in_virtual_subnet
  virtual_source d = refl

  made_here :
      (sniffed : Bool) (pkt : Bytes) (d : ℕ) (b : Agent)
      → (sniffed ≡ false → is_discovery pkt ≡ true)
      → forward_from_vnic e lib
          (if sniffed
            then build_discovery (some (10 ∷ 0 ∷ 0 ∷ d ∷ [])) pkt
            else rewrite_source pkt (some (10 ∷ 0 ∷ 0 ∷ d ∷ [])))
          b
        ≡ ([], b)
  made_here true pkt d b group =
      let (is, src, rest, virtual) = build_discovery_reads 10 0 0 d pkt in
      stopped (build_discovery (some (10 ∷ 0 ∷ 0 ∷ d ∷ [])) pkt) b is (virtual ∙ virtual_source d)
  made_here false pkt d b group =
      let s : Bytes = 10 ∷ 0 ∷ 0 ∷ d ∷ [] in
      let (src, dst, long, rest) =
        rewrite_source_reads pkt s refl (discovery_formed pkt (group refl)) in
      stopped (rewrite_source pkt (some s)) b (rewrite_source-is_discovery pkt s refl (group refl))
        (ap in_virtual_subnet src ∙ virtual_source d)

  -- What forwardDiscovery sends for an agent with the address 10.0.0.d, be it made of an
  -- advertisement that the listener heard or of a packet of the adapter, no agent sends on when its
  -- adapter hands the packet back: the first agent sends nothing, or one packet `out` that every
  -- agent keeps to itself.
  pub no_echo :
      (sniffed : Bool) (src : Option Bytes) (pkt : Bytes) (d : ℕ) (a b : Agent) (t : Tunnel)
      → a.tunnel ≡ some t
      → lib.parse_ip a.my_vip ≡ some (10 ∷ 0 ∷ 0 ∷ d ∷ [])
      → (sniffed ≡ false → is_discovery pkt ≡ true)
      → (forward_discovery e lib sniffed src pkt a ≡ ([], a))
        ⊎ (out : Bytes) × ((forward_discovery e lib sniffed src pkt a).0
            ≡ map transmit (send_data_broadcast e out t).0)
          × (forward_from_vnic e lib out b ≡ ([], b))
  unfolding forward_discovery
  no_echo sniffed src pkt d a b t up mine group =
      let virtual : Option Bytes = some (10 ∷ 0 ∷ 0 ∷ d ∷ []) in
      let out : Bytes =
        if sniffed then build_discovery virtual pkt else rewrite_source pkt virtual in
      let build : Option Bytes → Bytes =
        λ v. if sniffed then build_discovery v pkt else rewrite_source pkt v in
      elim (Bool-cases (is_empty a.my_vip || (in_virtual_subnet src || is_empty out))) [
        | inl stop ↦ inl (fan_out_stop src build a t out up (ap build mine) stop)
        | inr go ↦ inr (
          out,
          fan_out_go src build a t out up (ap build mine) go,
          made_here sniffed pkt d b group,
        )
      ]
