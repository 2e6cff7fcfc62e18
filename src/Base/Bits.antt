-- ===== src/Base/Bits.antt =====
-- The bits of a number, and what the bit operations and shifts do to each of them.
use Prim.Native.Nat.add
use Prim.Native.Nat.{bit_and, bit_or, digits, bit_and-bitwise, bit_or-bitwise}
use Prim.Native.Nat.{ℕ, zero, suc, ◌+◌, ◌*◌, ◌/◌, ◌%◌, ◌^◌, ◌≤◌, ◌<◌, min, max}
use mathlib.Core.Path.{◌≡◌, refl, ap, ◌∙◌}
use native.Mathlib.Omega.{arith}
use native.Mathlib.Nat.{pow-suc, div-add-mod, mod-mod_of_dvd, dvd-mul_left}
use eliaukvpn.Base.Tests.{◌==◌, if◌then◌else◌}

-- bit k of n
pub bit : ℕ → ℕ → ℕ
bit zero n = n % 2
bit (suc k) n = bit k (n / 2)

pub bit-lt-two : (k n : ℕ) → bit k n < 2
unfolding bit
bit-lt-two zero n = omega arith
bit-lt-two (suc k) n = bit-lt-two k (n / 2)

pub bit-zero : (k : ℕ) → bit k 0 ≡ 0
unfolding bit
bit-zero zero = refl
bit-zero (suc k) = bit-zero k

-- The native operations stand for a recursion on digits with fuel, and all fuel that is enough
-- gives one result.
module _ (last : ℕ → ℕ) (digit : ℕ → ℕ → ℕ) where
  pub more_fuel :
      (x y fuel more : ℕ)
      → x ≤ fuel
      → x ≤ more
      → digits last digit fuel x y ≡ digits last digit more x y
  more_fuel zero y zero zero low high = refl
  more_fuel zero y zero (suc more) low high = refl
  more_fuel zero y (suc fuel) zero low high = refl
  more_fuel zero y (suc fuel) (suc more) low high = refl
  more_fuel (suc x) y (suc fuel) (suc more) low high =
      omega (arith, more_fuel (suc x / 2) (y / 2) fuel more (omega arith) (omega arith))
  more_fuel (suc x) y zero more low high = absurd (omega arith)
  more_fuel (suc x) y (suc fuel) zero low high = absurd (omega arith)

pub zero-bit_and : (y : ℕ) → bit_and 0 y ≡ 0
zero-bit_and y = bit_and-bitwise 0 y

zero-bit_or : (y : ℕ) → bit_or 0 y ≡ y
zero-bit_or y = bit_or-bitwise 0 y

-- The lowest digit, and the rest.
bit_and_split : (x y : ℕ) → bit_and x y ≡ min (x % 2) (y % 2) + 2 * bit_and (x / 2) (y / 2)
bit_and_split zero y = omega (arith, zero-bit_and y, zero-bit_and (y / 2))
bit_and_split (suc x) y =
    let half = suc x / 2 in
    let enough = more_fuel (λ y. zero) min half (y / 2) x half (omega arith) (omega arith) in
    omega (arith, enough, bit_and-bitwise (suc x) y, bit_and-bitwise half (y / 2))

bit_or_split : (x y : ℕ) → bit_or x y ≡ max (x % 2) (y % 2) + 2 * bit_or (x / 2) (y / 2)
bit_or_split zero y = omega (arith, zero-bit_or y, zero-bit_or (y / 2))
bit_or_split (suc x) y =
    let half = suc x / 2 in
    let enough = more_fuel (λ y. y) max half (y / 2) x half (omega arith) (omega arith) in
    omega (arith, enough, bit_or-bitwise (suc x) y, bit_or-bitwise half (y / 2))

zero_on_right : (fuel x : ℕ) → x ≤ fuel → (bit_and x 0 ≡ 0) × (bit_or x 0 ≡ x)
zero_on_right fuel zero low = (refl, refl)
zero_on_right zero (suc x) low = absurd (omega arith)
zero_on_right (suc fuel) (suc x) low =
    let (both, either) = zero_on_right fuel (suc x / 2) (omega arith) in
    (omega (arith, both, bit_and_split (suc x) 0), omega (arith, either, bit_or_split (suc x) 0))

pub bit_and-zero : (x : ℕ) → bit_and x 0 ≡ 0
bit_and-zero x = (zero_on_right x x (omega arith)).0

pub bit_or-zero : (x : ℕ) → bit_or x 0 ≡ x
bit_or-zero x = (zero_on_right x x (omega arith)).1

pub bit-bit_or : (k a b : ℕ) → bit k (bit_or a b) ≡ max (bit k a) (bit k b)
unfolding bit
bit-bit_or zero a b = omega (arith, bit_or_split a b)
bit-bit_or (suc k) a b = ap (bit k) half ∙ bit-bit_or k (a / 2) (b / 2)
  where
    half : bit_or a b / 2 ≡ bit_or (a / 2) (b / 2)
    half = omega (arith, bit_or_split a b)

halve_double : (m : ℕ) → m * 2 / 2 ≡ m
halve_double m = omega arith

-- a left shift, before it is cut to a width
halve_shift : (d a : ℕ) → a * 2 ^ suc d / 2 ≡ a * 2 ^ d
halve_shift d a = simp pow-suc (omega arith)

pub bit-shift_low : (d k a : ℕ) → k < d → bit k (a * 2 ^ d) ≡ 0
unfolding bit
bit-shift_low zero k a h = absurd (omega arith)
bit-shift_low (suc d) zero a h = simp pow-suc (omega arith)
bit-shift_low (suc d) (suc k) a h = ap (bit k) (halve_shift d a) ∙ bit-shift_low d k a (omega arith)

pub bit-shift_high : (d k a : ℕ) → bit (d + k) (a * 2 ^ d) ≡ bit k a
unfolding bit
bit-shift_high zero k a = rw (add.zero k) (ap (bit k) unshifted)
  where
    unshifted : a * 2 ^ 0 ≡ a
    unshifted = omega arith
bit-shift_high (suc d) k a =
    rw (add.suc d k) (ap (bit (d + k)) (halve_shift d a) ∙ bit-shift_high d k a)

-- cutting to w bits
halve_mod : (a m : ℕ) → a % (m * 2) / 2 ≡ a / 2 % m
halve_mod a m = grind (arith, div-add-mod a (m * 2), div-add-mod (a / 2) m)

pub bit-mod : (w k a : ℕ) → k < w → bit k (a % 2 ^ w) ≡ bit k a
unfolding bit
bit-mod zero k a h = absurd (omega arith)
bit-mod (suc w) zero a h = rw pow-suc (mod-mod_of_dvd 2 a (dvd-mul_left 2 (2 ^ w)))
bit-mod (suc w) (suc k) a h = rw (pow-suc, halve_mod) (bit-mod w k (a / 2) (omega arith))

-- the mask `1 << j`
halve_power : (j : ℕ) → 2 ^ suc j / 2 ≡ 2 ^ j
halve_power j = rw pow-suc (halve_double (2 ^ j))

pub bit-power : (j k : ℕ) → bit k (2 ^ j) ≡ (if j == k then 1 else 0)
unfolding bit
bit-power zero zero = refl
bit-power zero (suc k) = ground (arith, bit-zero k)
bit-power (suc j) zero = simp pow-suc (ground arith)
bit-power (suc j) (suc k) = ap (bit k) (halve_power j) ∙ bit-power j k ∙ ground arith

pub bit_and-power : (j a : ℕ) → bit_and a (2 ^ j) ≡ bit j a * 2 ^ j
unfolding bit
bit_and-power zero a = omega (arith, bit_and_split a 1, bit_and-zero (a / 2))
bit_and-power (suc j) a = omega (
  arith,
  pow-suc 2 j,
  ap (λ (t : ℕ). bit j (a / 2) * t) (pow-suc 2 j),
  bit_and_split a (2 ^ suc j),
  ap (bit_and (a / 2)) (halve_power j),
  bit_and-power j (a / 2),
)
