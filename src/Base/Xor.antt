-- ===== src/Base/Xor.antt =====
-- Exclusive or: it undoes itself, and it keeps the width.
use Prim.Native.Nat.{bit_xor, bit_xor-bitwise, differ}
use Prim.Native.Nat.{ℕ, zero, suc, ◌+◌, ◌*◌, ◌/◌, ◌%◌, ◌^◌, ◌≤◌, ◌<◌}
use mathlib.Core.Path.{◌≡◌, refl, sym, ap, ap₂, ◌∙◌}
use native.Mathlib.Omega.{arith}
use native.Mathlib.Nat.{pow-suc}
use eliaukvpn.Base.Bits.{more_fuel}

zero-bit_xor : (y : ℕ) → bit_xor 0 y ≡ y
zero-bit_xor y = bit_xor-bitwise 0 y

bit_xor_split : (x y : ℕ) → bit_xor x y ≡ differ (x % 2) (y % 2) + 2 * bit_xor (x / 2) (y / 2)
bit_xor_split zero y = omega (arith, zero-bit_xor y, zero-bit_xor (y / 2))
bit_xor_split (suc x) y =
    let half = suc x / 2 in
    let enough = more_fuel (λ y. y) differ half (y / 2) x half (omega arith) (omega arith) in
    omega (arith, enough, bit_xor-bitwise (suc x) y, bit_xor-bitwise half (y / 2))

differ_bits : (a b : ℕ) → a < 2 → b < 2 → (differ a b < 2) × (differ (differ a b) b ≡ a)
differ_bits zero zero p q = (omega arith, refl)
differ_bits zero (suc zero) p q = (omega arith, refl)
differ_bits (suc zero) zero p q = (omega arith, refl)
differ_bits (suc zero) (suc zero) p q = (omega arith, refl)
differ_bits (suc (suc a)) b p q = absurd (omega arith)
differ_bits a (suc (suc b)) p q = absurd (omega arith)

-- The two halves of an exclusive or.
xor_halves :
    (x y : ℕ)
    → (bit_xor x y % 2 ≡ differ (x % 2) (y % 2)) × (bit_xor x y / 2 ≡ bit_xor (x / 2) (y / 2))
xor_halves x y =
    let (small, back) = differ_bits (x % 2) (y % 2) (omega arith) (omega arith) in
    (omega (arith, bit_xor_split x y, small), omega (arith, bit_xor_split x y, small))

twice_within : (fuel x y : ℕ) → x + y ≤ fuel → bit_xor (bit_xor x y) y ≡ x
twice_within zero x y h =
    let ex : x ≡ 0 = omega arith in
    let ey : y ≡ 0 = omega arith in ap₂ (λ a b. bit_xor (bit_xor a b) b) ex ey ∙ sym ex
twice_within (suc fuel) x y h =
    let (low, high) = xor_halves x y in
    let (small, back) = differ_bits (x % 2) (y % 2) (omega arith) (omega arith) in
    let rest : bit_xor (bit_xor x y / 2) (y / 2) ≡ x / 2 =
      ap (λ z. bit_xor z (y / 2)) high ∙ twice_within fuel (x / 2) (y / 2) (omega arith) in
    let digit : differ (bit_xor x y % 2) (y % 2) ≡ x % 2 = ap (λ z. differ z (y % 2)) low ∙ back in
    omega (arith, bit_xor_split (bit_xor x y) y, rest, digit)

-- (x ^ y) ^ y == x
pub bit_xor_twice : (x y : ℕ) → bit_xor (bit_xor x y) y ≡ x
bit_xor_twice x y = twice_within (x + y) x y (omega arith)

-- The exclusive or of two w-bit numbers has w bits.
pub bit_xor-lt : (w x y : ℕ) → x < 2 ^ w → y < 2 ^ w → bit_xor x y < 2 ^ w
bit_xor-lt zero x y p q =
    let ex : x ≡ 0 = omega arith in
    let ey : y ≡ 0 = omega arith in omega (arith, ap₂ bit_xor ex ey, zero-bit_xor 0)
bit_xor-lt (suc w) x y p q =
    let (small, back) = differ_bits (x % 2) (y % 2) (omega arith) (omega arith) in
    let below : bit_xor (x / 2) (y / 2) < 2 ^ w =
      bit_xor-lt w (x / 2) (y / 2) (omega (arith, pow-suc 2 w)) (omega (arith, pow-suc 2 w)) in
    omega (arith, bit_xor_split x y, below, small, pow-suc 2 w)
