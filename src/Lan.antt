-- ===== src/Lan.antt =====
-- internal/lan/lan.go: reading, rewriting and building the packets of LAN discovery. Addresses are
-- their four bytes, `none` for "" and for an address that is not IPv4; the sockets are left out.
pub mod Rewrite
pub mod Discovery
mod Examples
use eliaukvpn.Base.{
  ℕ, zero, suc, ◌+◌, ◌-◌, ◌*◌, ◌/◌, ◌%◌, Bool, true, false, not, ◌&&◌, ◌||◌, Option, none, some,
  List, [], ◌∷◌, ◌++◌, length, take, drop, get_or, ltb, ◌==◌, if◌then◌else◌,
}
use eliaukvpn.Base.Str.{Bytes, str_eq}
use eliaukvpn.Base.BigEndian.{be_put}

abbrev pub discovery_port : ℕ
discovery_port = 4445

-- net.ParseIP(DiscoveryGroup).To4()
abbrev pub discovery_group : Bytes
discovery_group = 224 ∷ 0 ∷ 2 ∷ 60 ∷ []

-- int(pkt[0]&0x0f) * 4
abbrev pub header_length : Bytes → ℕ
header_length pkt = get_or pkt 0 0 % 16 * 4

-- len(pkt) < 20 || pkt[0]>>4 != 4
abbrev pub not_ipv4 : Bytes → Bool
not_ipv4 pkt = ltb (length pkt) 20 || not (get_or pkt 0 0 / 16 == 4)

-- The two guards of IPv4Dst, IPv4Src and rewriteIPv4.
unfoldable pub malformed : Bytes → Bool
malformed pkt = not_ipv4 pkt || (ltb (header_length pkt) 20 || ltb (length pkt) (header_length pkt))

-- IPv4Dst
unfoldable pub ipv4_dst : Bytes → Option Bytes
ipv4_dst pkt = if malformed pkt then none else some (take 4 (drop (header_length pkt - 4) pkt))

-- IPv4Src
unfoldable pub ipv4_src : Bytes → Option Bytes
ipv4_src pkt = if malformed pkt then none else some (take 4 (drop (header_length pkt - 8) pkt))

-- UDPDestPort
unfoldable pub udp_dest_port : Bytes → ℕ
udp_dest_port pkt =
    if not_ipv4 pkt
    then 0
    else if ltb (length pkt) (header_length pkt + 8) || not (get_or pkt 9 0 == 17)
    then 0
    else get_or pkt (header_length pkt + 2) 0 * 256 + get_or pkt (header_length pkt + 3) 0

-- IsMulticast, or the limited broadcast address
abbrev pub group_address : Option Bytes → Bool
group_address none = false
group_address (some ip) = (get_or ip 0 0 / 16 == 14) || str_eq ip (255 ∷ 255 ∷ 255 ∷ 255 ∷ [])

-- IsDiscovery
unfoldable pub is_discovery : Bytes → Bool
is_discovery pkt = (udp_dest_port pkt == discovery_port) && group_address (ipv4_dst pkt)

-- Where rewriteIPv4 writes
abbrev pub address_at : Bool → Bytes → ℕ
address_at dest pkt = if dest then header_length pkt - 4 else header_length pkt - 8

-- rewriteIPv4
unfoldable pub rewrite_ipv4 : Bytes → Option Bytes → Bool → Bytes
rewrite_ipv4 pkt ip dest = if malformed pkt then pkt else (elim ip [
  | none ↦ pkt
  | some s ↦ take (address_at dest pkt) pkt ++ s ++ drop (address_at dest pkt + 4) pkt
])

-- RewriteSource
unfoldable pub rewrite_source : Bytes → Option Bytes → Bytes
rewrite_source pkt src = rewrite_ipv4 pkt src false

-- RewriteDest
unfoldable pub rewrite_dest : Bytes → Option Bytes → Bytes
rewrite_dest pkt dst = rewrite_ipv4 pkt dst true

-- InVirtualSubnet
unfoldable pub in_virtual_subnet : Option Bytes → Bool
in_virtual_subnet none = false
in_virtual_subnet (some ip) = (get_or ip 0 0 == 10) && (get_or ip 1 0 == 0) && (get_or ip 2 0 == 0)

-- The loop over the header's words, two bytes at a time
unfoldable pub word_sum : Bytes → ℕ
word_sum [] = 0
word_sum (h ∷ []) = h * 256
word_sum (h ∷ l ∷ bs) = h * 256 + l + word_sum bs

-- The loop that folds the carries. Three rounds are enough for the sum of ten words.
unfoldable pub fold_carries : ℕ → ℕ → ℕ
fold_carries zero sum = sum
fold_carries (suc rounds) sum =
    let folded = fold_carries rounds (sum % 65536 + sum / 65536) in
    if sum / 65536 == 0 then sum else folded

-- The header of BuildDiscovery, with the given checksum
unfoldable pub discovery_header : ℕ → Bytes → ℕ → Bytes
discovery_header total src checksum =
    (69 ∷ 0 ∷ be_put 2 total)
    ++ (0 ∷ 0 ∷ 0 ∷ 0 ∷ 64 ∷ 17 ∷ be_put 2 checksum)
    ++ src
    ++ discovery_group

unfoldable pub checksum_of : ℕ → Bytes → ℕ
checksum_of total src = 65535 - fold_carries 3 (word_sum (discovery_header total src 0)) % 65536

-- BuildDiscovery, from the four bytes of the source
unfoldable pub build_discovery : Option Bytes → Bytes → Bytes
build_discovery none payload = []
build_discovery (some src) payload =
    let total = 28 + length payload in
    discovery_header total src (checksum_of total src)
    ++ be_put 2 discovery_port
    ++ be_put 2 discovery_port
    ++ be_put 2 (8 + length payload)
    ++ 0 ∷ 0 ∷ payload
