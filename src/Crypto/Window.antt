-- ===== src/Crypto/Window.antt =====
-- The bitmap of crypto.go's replay window against the history of accepted counters.
use Prim.Native.Nat.{bit_and, bit_or}
use native.Mathlib.Nat.{pow-suc, one-le-pow, pow-le-pow_right}
use eliaukvpn.Base.{
  ℕ, suc, ◌+◌, ◌-◌, ◌*◌, ◌^◌, ◌≤◌, ◌<◌, max, ◌≡◌, refl, inl, inr, ◌∙◌, Bool, true, false, List, [],
  ◌∷◌, arith, ltb, leb, ◌==◌, if◌then◌else◌, Bool-cases, ap, ltb→lt,
}
use eliaukvpn.Base.Bits.{
  bit, bit-lt-two, bit-zero, bit-bit_or, bit-shift_low, bit-shift_high, bit-mod, bit-power,
  bit_and-power,
}
use eliaukvpn.Base.Result.{Result, ok, err}
use eliaukvpn.Crypto.{Session, Error, too_old, duplicate, mask, slide}

unfoldable pub mem : ℕ → List ℕ → Bool
mem c [] = false
mem c (x ∷ xs) = if c == x then true else mem c xs

-- What the window has to know of the counters accepted so far: the highest, and which of the 64
-- counters from the highest downwards were accepted.
pub record Tracks (s : Session) (hist : List ℕ) : Type 0 where
  pub below : (c : ℕ) → mem c hist ≡ true → c ≤ s.recv
  pub recorded :
      (k : ℕ) → k < 64 → k ≤ s.recv → bit k s.seen ≡ (if mem (s.recv - k) hist then 1 else 0)

-- The verdict that a receiver with an unlimited memory would give.
unfoldable pub verdict : List ℕ → ℕ → ℕ → Result Error (Unit {0})
verdict hist recv ctr =
    if ltb (ctr + 64) recv then err too_old else if mem ctr hist then err duplicate else ok tt

power_lt : (d : ℕ) → d < 64 → 2 ^ d < 2 ^ 64
power_lt d h = omega (
  arith,
  pow-suc 2 d,
  one-le-pow d 2 (omega arith),
  pow-le-pow_right {n = 2} (omega arith) {i = suc d} {j = 64} (omega arith),
)

mask_inside : (d : ℕ) → d < 64 → mask d ≡ 2 ^ d
unfolding mask
mask_inside d h = omega (arith, power_lt d h)

pub mask_edge : mask 64 ≡ 0
unfolding mask
mask_edge = refl

shifted : (seen d k : ℕ) → bit k (seen * 2 ^ d) ≡ (if ltb k d then 0 else bit (k - d) seen)
shifted seen d k = elim (Bool-cases (ltb k d)) [
  | inl low ↦ rw low (bit-shift_low d k seen (ltb→lt k d low))
  | inr high ↦
      rw high (ap (λ t. bit t (seen * 2 ^ d)) (restore high) ∙ bit-shift_high d (k - d) seen)
]
  where
    restore : ltb k d ≡ false → k ≡ d + (k - d)
    restore h = ground arith

pub bit-slide :
    (seen d k : ℕ) → k < 64 → bit k (slide seen d) ≡ (if ltb k d then 0 else bit (k - d) seen)
unfolding slide
bit-slide seen d k h = elim (Bool-cases (leb 64 d)) [
  | inl far ↦ rw far (ground (arith, bit-zero k))
  | inr near ↦ rw near (bit-mod 64 k (seen * 2 ^ d) h ∙ shifted seen d k)
]

pub bit-one : (k : ℕ) → bit k 1 ≡ (if k == 0 then 1 else 0)
bit-one k = bit-power 0 k ∙ ground arith

pub mem_back : (n c : ℕ) (hist : List ℕ) → c ≤ n → mem (n - (n - c)) hist ≡ mem c hist
mem_back n c hist h = ap (λ t. mem t hist) (back h)
  where
    back : c ≤ n → n - (n - c) ≡ c
    back p = omega arith

-- What `accept` finds in the bitmap at distance d.
pub probe_inside : (seen d : ℕ) → d < 64 → (bit_and seen (mask d) == 0) ≡ (bit d seen == 0)
probe_inside seen d h =
    rw (mask_inside d h, bit_and-power d seen) (ground (arith, bit-lt-two d seen, one-le-pow d 2))

pub mark_inside :
    (seen d k : ℕ)
    → d < 64
    → bit k (bit_or seen (mask d)) ≡ max (bit k seen) (if d == k then 1 else 0)
mark_inside seen d k h = rw (mask_inside d h, bit-bit_or, bit-power)
