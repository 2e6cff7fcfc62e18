-- ===== src/Lan/Rewrite.antt =====
-- What rewriteIPv4 of lan.go changes.
use eliaukvpn.Base.{
  true, ℕ, zero, suc, ◌+◌, ◌-◌, ◌*◌, ◌%◌, ◌≤◌, ◌<◌, ◌≡◌, refl, sym, ap, ◌∙◌, Bool, false, some, [],
  ◌∷◌, ◌++◌, arith, length, take, drop, get_or, length-append, length-take, length-drop, take_exact,
  drop_exact, append_assoc,
}
use eliaukvpn.Base.Str.{Bytes}
use eliaukvpn.Lan.{
  header_length, not_ipv4, malformed, ipv4_src, ipv4_dst, address_at, rewrite_ipv4, rewrite_source,
  is_discovery, udp_dest_port,
}

-- `s` written over the bytes from `lo` on.
abbrev pub splice : Bytes → Bytes → ℕ → Bytes
splice pkt s lo = take lo pkt ++ s ++ drop (lo + length s) pkt

module _ (pkt s : Bytes) (lo : ℕ) (inside : lo + length s ≤ length pkt) where
  pub length-splice : length (splice pkt s lo) ≡ length pkt
  length-splice = omega (
    arith,
    length-append (take lo pkt ++ s) (drop (lo + length s) pkt),
    length-append (take lo pkt) s,
    length-take lo pkt,
    length-drop (lo + length s) pkt,
  )

  pub take-splice : take (length s) (drop lo (splice pkt s lo)) ≡ s
  take-splice =
      rw
        (
          append_assoc (take lo pkt) s (drop (lo + length s) pkt),
          drop_exact lo (take lo pkt) (s ++ drop (lo + length s) pkt)
              (omega (arith, length-take lo pkt)),
        )
        (take_exact (length s) s (drop (lo + length s) pkt) refl)

get_or-take :
    (xs ys : Bytes) (n i : ℕ) → i < n → n ≤ length xs → get_or (take n xs ++ ys) i 0 ≡ get_or xs i 0
get_or-take [] ys n i p q = ground arith
get_or-take (x ∷ xs) ys zero i p q = ground arith
get_or-take (x ∷ xs) ys (suc n) zero p q = refl
get_or-take (x ∷ xs) ys (suc n) (suc i) p q = get_or-take xs ys n i (omega arith) (omega arith)

drop-nil : (k : ℕ) → drop {A = ℕ} k [] ≡ []
drop-nil zero = refl
drop-nil (suc k) = refl

drop-drop : (n m : ℕ) (xs : Bytes) → drop n (drop m xs) ≡ drop (m + n) xs
drop-drop n zero xs = ap (λ k. drop k xs) (omega arith)
drop-drop n (suc m) [] = drop-nil n ∙ sym (drop-nil (suc m + n))
drop-drop n (suc m) (x ∷ xs) =
    let e : suc m + n ≡ suc (m + n) = omega arith in
    drop-drop n m xs ∙ ap (λ k. drop k (x ∷ xs)) (sym e)

-- The header's bounds.
malformed_lem :
    (pkt : Bytes)
    → malformed pkt ≡ false
    → (20 ≤ header_length pkt) × (header_length pkt ≤ length pkt) × (not_ipv4 pkt ≡ false)
unfolding malformed
malformed_lem pkt h = ground arith

-- The first byte and the length decide whether a packet is malformed.
malformed_same :
    (p q : Bytes) → length p ≡ length q → get_or p 0 0 ≡ get_or q 0 0 → malformed p ≡ malformed q
unfolding malformed
malformed_same p q e f = rw (e, f) refl

rewrite_lem :
    (pkt s : Bytes) (dest : Bool)
    → length s ≡ 4
    → malformed pkt ≡ false
    → rewrite_ipv4 pkt (some s) dest ≡ splice pkt s (address_at dest pkt)
unfolding rewrite_ipv4
rewrite_lem pkt s dest four good = rw (good, four) refl

module _ (pkt s : Bytes) (lo : ℕ) (inside : lo + length s ≤ length pkt) (later : 0 < lo) where
  first-splice : get_or (splice pkt s lo) 0 0 ≡ get_or pkt 0 0
  first-splice =
      ap (λ l. get_or l 0 0) (append_assoc (take lo pkt) s (drop (lo + length s) pkt))
      ∙ get_or-take pkt (s ++ drop (lo + length s) pkt) lo 0 later (omega arith)

  header_length-splice : header_length (splice pkt s lo) ≡ header_length pkt
  header_length-splice = ap (λ b. b % 16 * 4) first-splice

  malformed-splice : malformed (splice pkt s lo) ≡ malformed pkt
  malformed-splice =
      malformed_same (splice pkt s lo) pkt (length-splice pkt s lo inside) first-splice

  rest-splice : (n : ℕ) → lo + length s ≤ n → drop n (splice pkt s lo) ≡ drop n pkt
  rest-splice n h =
      ap (λ k. drop k (splice pkt s lo)) (omega arith)
      ∙ sym (drop-drop (n - (lo + length s)) (lo + length s) (splice pkt s lo))
      ∙ ap (drop (n - (lo + length s))) (
          drop_exact (lo + length s) (take lo pkt ++ s) (drop (lo + length s) pkt)
            (omega (arith, length-append (take lo pkt) s, length-take lo pkt)))
      ∙ drop-drop (n - (lo + length s)) (lo + length s) pkt
      ∙ ap (λ k. drop k pkt) (omega arith)

-- RewriteSource on a well-formed packet: the source reads back as the new address, and the length,
-- the destination and everything after the header are as they were.
pub rewrite_source_reads :
    (pkt s : Bytes)
    → length s ≡ 4
    → malformed pkt ≡ false
    → (ipv4_src (rewrite_source pkt (some s)) ≡ some s)
      × (ipv4_dst (rewrite_source pkt (some s)) ≡ ipv4_dst pkt)
      × (length (rewrite_source pkt (some s)) ≡ length pkt)
      × (drop (header_length pkt) (rewrite_source pkt (some s)) ≡ drop (header_length pkt) pkt)
unfolding ipv4_src ipv4_dst rewrite_source
rewrite_source_reads pkt s four good =
    let (long, fits, is_ipv4) = malformed_lem pkt good in
    let lo : ℕ = header_length pkt - 8 in
    let inside : lo + length s ≤ length pkt = omega arith in
    let later : 0 < lo = omega arith in
    rw
      (
        rewrite_lem pkt s false four good,
        malformed-splice pkt s lo inside later,
        header_length-splice pkt s lo inside later,
        good,
      )
      (
        ap some
            (ap (λ n. take n (drop lo (splice pkt s lo))) (sym four) ∙ take-splice pkt s lo inside),
        ap (λ b. some (take 4 b))
            (rest-splice pkt s lo inside later (header_length pkt - 4) (omega arith)),
        length-splice pkt s lo inside,
        rest-splice pkt s lo inside later (header_length pkt) (omega arith),
      )

get_or-drop : (n i : ℕ) (xs : Bytes) → get_or (drop n xs) i 0 ≡ get_or xs (n + i) 0
get_or-drop zero i xs = ap (λ j. get_or xs j 0) (omega arith)
get_or-drop (suc n) i [] = refl
get_or-drop (suc n) i (x ∷ xs) =
    let e : suc n + i ≡ suc (n + i) = omega arith in
    get_or-drop n i xs ∙ ap (λ j. get_or (x ∷ xs) j 0) (sym e)

-- The protocol and the UDP ports stand outside of what is rewritten.
module _ (pkt s : Bytes) (lo : ℕ) (inside : lo + length s ≤ length pkt) (later : 9 < lo)
    (header : lo + length s ≤ header_length pkt) where
  early : (i : ℕ) → i < lo → get_or (splice pkt s lo) i 0 ≡ get_or pkt i 0
  early i h =
      ap (λ l. get_or l i 0) (append_assoc (take lo pkt) s (drop (lo + length s) pkt))
      ∙ get_or-take pkt (s ++ drop (lo + length s) pkt) lo i h (omega arith)

  after :
      (i : ℕ)
      → get_or (splice pkt s lo) (header_length pkt + i) 0 ≡ get_or pkt (header_length pkt + i) 0
  after i =
      sym (get_or-drop (header_length pkt) i (splice pkt s lo))
      ∙ ap (λ l. get_or l i 0)
          (rest-splice pkt s lo inside (omega arith) (header_length pkt) header)
      ∙ get_or-drop (header_length pkt) i pkt

  udp_dest_port-splice : udp_dest_port (splice pkt s lo) ≡ udp_dest_port pkt
  unfolding udp_dest_port
  udp_dest_port-splice =
      rw (length-splice pkt s lo inside, early 0 (omega arith), early 9 later, after 2, after 3)
        refl

pub discovery_formed : (pkt : Bytes) → is_discovery pkt ≡ true → malformed pkt ≡ false
unfolding is_discovery ipv4_dst
discovery_formed pkt h = ground arith

-- A LAN-discovery packet is one whatever its source is rewritten to.
pub rewrite_source-is_discovery :
    (pkt s : Bytes)
    → length s ≡ 4
    → is_discovery pkt ≡ true
    → is_discovery (rewrite_source pkt (some s)) ≡ true
unfolding is_discovery rewrite_source
rewrite_source-is_discovery pkt s four group =
    let good : malformed pkt ≡ false = discovery_formed pkt group in
    let (long, fits, is_ipv4) = malformed_lem pkt good in
    let (src, dst, same, rest) = rewrite_source_reads pkt s four good in
    let port : udp_dest_port (rewrite_source pkt (some s)) ≡ udp_dest_port pkt =
      ap udp_dest_port (rewrite_lem pkt s false four good)
      ∙ udp_dest_port-splice pkt s (header_length pkt - 8) (omega arith) (omega arith)
          (omega arith) in
    rw (port, dst) group
