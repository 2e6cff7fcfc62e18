-- ===== src/Stun/Detect.antt =====
-- internal/stun/detect.go: DetectOn, from what the three probes came to (`none` for an error).
use eliaukvpn.Base.{
  ap, ap₂, Bool-cases, inl, inr, ◌≡◌, ◌≢◌, refl, ◌↔◌, Bool, true, false, not, ◌||◌, Option, none,
  some, ◌==◌, if◌then◌else◌, arith,
}
use eliaukvpn.Base.Str.{str_eq, str_eq_iff, str_eq_refl}
use eliaukvpn.Base.Net.{UdpAddr, addr_eq}
use eliaukvpn.Stun.{MappedAddress}

pub data NatType : Type 0 where
  nat_unknown nat_full_cone nat_restricted_cone nat_symmetric nat_unreachable : NatType

-- response: the mapped address, and where the reply came from.
pub record Response : Type 0 where
  pub mapped : MappedAddress
  pub src : UdpAddr

pub record Detected : Type 0 where
  pub mapped : Option MappedAddress
  pub nat : NatType

-- m2.mapped.Port != m1.mapped.Port || !m2.mapped.IP.Equal(m1.mapped.IP)
abbrev pub remapped : MappedAddress → MappedAddress → Bool
remapped a b = not (a.port == b.port) || not (str_eq a.ip b.ip)

-- The cone refinement
unfoldable pub cone_of : UdpAddr → Option Response → NatType
cone_of primary none = nat_restricted_cone
cone_of primary (some r) = if addr_eq r.src primary then nat_restricted_cone else nat_full_cone

-- DetectOn: `second` is `none` without a second server, and its probe's outcome with one.
unfoldable pub detect_on :
    UdpAddr → Option Response → Option (Option Response) → Option Response → Detected
detect_on primary none second changed = record { mapped = none; nat = nat_unreachable }
detect_on primary (some m1) none changed = record {
  mapped = some m1.mapped;
  nat = cone_of primary changed;
}
detect_on primary (some m1) (some none) changed = record {
  mapped = some m1.mapped;
  nat = cone_of primary changed;
}
detect_on primary (some m1) (some (some m2)) changed =
    if remapped m2.mapped m1.mapped
    then record { mapped = some m1.mapped; nat = nat_symmetric }
    else record { mapped = some m1.mapped; nat = cone_of primary changed }

is_symmetric : NatType → Bool
is_symmetric nat_symmetric = true
is_symmetric _ = false

cone_not_symmetric :
    (primary : UdpAddr) (changed : Option Response) → cone_of primary changed ≢ nat_symmetric
unfolding cone_of is_symmetric
cone_not_symmetric primary none e = cc
cone_not_symmetric primary (some r) e = ground (arith, ap is_symmetric e)

remapped_refl : (m : MappedAddress) → remapped m m ≡ false
remapped_refl m = ground (arith, str_eq_refl m.ip)

not_remapped : (a b : MappedAddress) → remapped a b ≡ false → a ≡ b
not_remapped a b h =
    ap₂ (λ i p. record { ip = i; port = p }) (ground (arith, str_eq_iff a.ip b.ip)) (ground arith)

-- With answers from both servers, the NAT is called symmetric exactly where they saw different
-- addresses or ports, and the address reported is always the first server's.
symmetric_iff :
    (primary : UdpAddr) (m1 m2 : Response) (changed : Option Response)
    → (((detect_on primary (some m1) (some (some m2)) changed).nat ≡ nat_symmetric)
        ↔ (m2.mapped ≢ m1.mapped))
      × ((detect_on primary (some m1) (some (some m2)) changed).mapped ≡ some m1.mapped)
unfolding detect_on
symmetric_iff primary m1 m2 changed = elim (Bool-cases (remapped m2.mapped m1.mapped)) [
  | inl moved ↦
      rw (moved, detect_on)
        (
          (
            (λ e same. cc (ap (λ m. remapped m m1.mapped) same, moved, remapped_refl m1.mapped)),
            (λ n. refl),
          ),
          refl,
        )
  | inr still ↦
      rw (still, detect_on)
        (
          (
            (λ e same. cone_not_symmetric primary changed e),
            (λ n. absurd (n (not_remapped m2.mapped m1.mapped still))),
          ),
          refl,
        )
]
