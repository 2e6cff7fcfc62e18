-- ===== src/Lan/Discovery.antt =====
-- The packets of BuildDiscovery in lan.go.
use eliaukvpn.Base.{
  ℕ, zero, suc, ◌+◌, ◌-◌, ◌*◌, ◌/◌, ◌%◌, ◌<◌, ◌≡◌, refl, ap, ◌∙◌, true, false, some, [], ◌∷◌, arith,
  length, take, drop, ltb, ◌==◌, Bool-cases, inl, inr,
}
use eliaukvpn.Base.Str.{Bytes, AllBytes}
use eliaukvpn.Base.BigEndian.{be_put}
use eliaukvpn.Lan.{
  malformed, ipv4_src, ipv4_dst, udp_dest_port, is_discovery, in_virtual_subnet, word_sum,
  fold_carries, discovery_header, checksum_of, build_discovery,
}

-- The fold takes a multiple of 65535 away, and never all of a sum.
fold_carries_lem :
    (n s : ℕ) → (0 < s → 0 < fold_carries n s) × ((k : ℕ) × (s ≡ fold_carries n s + 65535 * k))
unfolding fold_carries
fold_carries_lem zero s = ((λ h. h), (0, omega arith))
fold_carries_lem (suc n) s = elim (Bool-cases (s / 65536 == 0)) [
  | inl done ↦ rw (done, fold_carries) ((λ h. h), (0, omega arith))
  | inr carry ↦
      let (positive, (k, e)) = fold_carries_lem n (s % 65536 + s / 65536) in
      rw (carry, fold_carries) ((λ h. positive (ground arith)), (k + s / 65536, omega arith))
]

fold_once : (n s : ℕ) → s < 65536 → fold_carries (suc n) s < 65536
unfolding fold_carries
fold_once n s small = elim (Bool-cases (s / 65536 == 0)) [
  | inl done ↦ rw (done, fold_carries) small
  | inr carry ↦ ground arith
]

fold_twice : (n s : ℕ) → s < 65546 → fold_carries (suc (suc n)) s < 65536
unfolding fold_carries
fold_twice n s small = elim (Bool-cases (s / 65536 == 0)) [
  | inl done ↦ rw (done, fold_carries) (ground arith)
  | inr carry ↦ rw (carry, fold_carries) (fold_once n (s % 65536 + s / 65536) (ground arith))
]

-- Three rounds are enough for ten words.
fold_thrice : (s : ℕ) → s < 655360 → fold_carries 3 s < 65536
unfolding fold_carries
fold_thrice s small = elim (Bool-cases (s / 65536 == 0)) [
  | inl done ↦ rw (done, fold_carries) (ground arith)
  | inr carry ↦ rw (carry, fold_carries) (fold_twice 0 (s % 65536 + s / 65536) (omega arith))
]

-- What BuildDiscovery makes of a source address and a payload is a LAN-discovery packet from that
-- address, its payload stands after the 28 bytes of the headers, and the loop guard stops it where
-- the address is in the virtual subnet.
pub build_discovery_reads :
    (a b c d : ℕ) (payload : Bytes)
    → (is_discovery (build_discovery (some (a ∷ b ∷ c ∷ d ∷ [])) payload) ≡ true)
      × (ipv4_src (build_discovery (some (a ∷ b ∷ c ∷ d ∷ [])) payload) ≡ some (a ∷ b ∷ c ∷ d ∷ []))
      × (drop 28 (build_discovery (some (a ∷ b ∷ c ∷ d ∷ [])) payload) ≡ payload)
      × (in_virtual_subnet (ipv4_src (build_discovery (some (a ∷ b ∷ c ∷ d ∷ [])) payload))
          ≡ in_virtual_subnet (some (a ∷ b ∷ c ∷ d ∷ [])))
unfolding build_discovery discovery_header be_put is_discovery udp_dest_port ipv4_src ipv4_dst
    malformed
build_discovery_reads a b c d payload =
    (ground (arith, long, longer), ground (arith, long), refl, ground (arith, long))
  where
    long : ltb (28 + length payload) 20 ≡ false
    long = ground arith

    longer : ltb (28 + length payload) 28 ≡ false
    longer = ground arith

-- A sum and the complement of its fold make 65535.
complement_lem :
    (s : ℕ) → 0 < s → s < 589824 → fold_carries 3 (s + (65535 - fold_carries 3 s % 65536)) ≡ 65535
complement_lem s positive small =
    let (some_left, (k, e)) = fold_carries_lem 3 s in
    let fits : fold_carries 3 s < 65536 = fold_thrice s (omega arith) in
    let total : ℕ = s + (65535 - fold_carries 3 s % 65536) in
    let (total_left, (m, e')) = fold_carries_lem 3 total in
    let total_fits : fold_carries 3 total < 65536 = fold_thrice total (omega arith) in
    omega (arith, some_left positive, total_left (omega arith))

-- The checksum's two bytes add its value.
header_sum :
    (a b c d total checksum : ℕ)
    → checksum < 65536
    → word_sum (discovery_header total (a ∷ b ∷ c ∷ d ∷ []) checksum)
      ≡ word_sum (discovery_header total (a ∷ b ∷ c ∷ d ∷ []) 0) + checksum
unfolding word_sum discovery_header be_put
header_sum a b c d total checksum h = omega arith

header_bounds :
    (a b c d total : ℕ)
    → AllBytes (a ∷ b ∷ c ∷ d ∷ [])
    → (0 < word_sum (discovery_header total (a ∷ b ∷ c ∷ d ∷ []) 0))
      × (word_sum (discovery_header total (a ∷ b ∷ c ∷ d ∷ []) 0) < 589824)
unfolding word_sum discovery_header be_put
header_bounds a b c d total (ha, (hb, (hc, (hd, u)))) = (omega arith, omega arith)

header_part :
    (a b c d : ℕ) (payload : Bytes)
    → take 20 (build_discovery (some (a ∷ b ∷ c ∷ d ∷ [])) payload)
      ≡ discovery_header
          (28 + length payload)
          (a ∷ b ∷ c ∷ d ∷ [])
          (checksum_of (28 + length payload) (a ∷ b ∷ c ∷ d ∷ []))
unfolding build_discovery discovery_header be_put
header_part a b c d payload = refl

-- The header of a built packet passes the receiver's checksum test: its ten words sum to 65535.
pub build_discovery_checksum :
    (a b c d : ℕ) (payload : Bytes)
    → AllBytes (a ∷ b ∷ c ∷ d ∷ [])
    → fold_carries 3 (word_sum (take 20 (build_discovery (some (a ∷ b ∷ c ∷ d ∷ [])) payload)))
      ≡ 65535
unfolding checksum_of
build_discovery_checksum a b c d payload bytes =
    let total : ℕ = 28 + length payload in
    let src : Bytes = a ∷ b ∷ c ∷ d ∷ [] in
    let (positive, small) = header_bounds a b c d total bytes in
    ap (λ h. fold_carries 3 (word_sum h)) (header_part a b c d payload)
    ∙ ap (fold_carries 3) (header_sum a b c d total (checksum_of total src) (omega arith))
    ∙ complement_lem (word_sum (discovery_header total src 0)) positive small
