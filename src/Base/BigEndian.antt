-- ===== src/Base/BigEndian.antt =====
-- encoding/binary's big-endian integers of w bytes.
use Prim.Native.Nat.{ℕ, zero, suc, ◌+◌, ◌*◌, ◌/◌, ◌%◌, ◌^◌, ◌<◌}
use mathlib.Core.Path.{◌≡◌, refl, ap}
use mathlib.Core.List.{[], ◌∷◌}
use native.Mathlib.Omega.{arith}
use native.Mathlib.Nat.{pow-suc, div-add-mod, div-div-eq-div-mul, mod-eq_of_lt}
use eliaukvpn.Base.Lists.{length}
use eliaukvpn.Base.Str.{Bytes, AllBytes}

-- PutUint16, PutUint32, PutUint64: the low w bytes, highest first
unfoldable pub be_put : ℕ → ℕ → Bytes
be_put zero n = []
be_put (suc w) n = (n / 256 ^ w % 256) ∷ be_put w n

unfoldable pub be_from : ℕ → Bytes → ℕ
be_from acc [] = acc
be_from acc (b ∷ bs) = be_from (acc * 256 + b) bs

-- Uint16, Uint32, Uint64
unfoldable pub be_get : Bytes → ℕ
unfolding be_from
be_get bs = be_from 0 bs

pub length-be_put : (w n : ℕ) → length (be_put w n) ≡ w
unfolding be_put
length-be_put zero n = refl
length-be_put (suc w) n = ap suc (length-be_put w n)

pub be_put-AllBytes : (w n : ℕ) → AllBytes (be_put w n)
unfolding be_put
be_put-AllBytes zero n = tt
be_put-AllBytes (suc w) n = (omega arith, be_put-AllBytes w n)

mod_split : (n m : ℕ) → n % (m * 256) ≡ n / m % 256 * m + n % m
mod_split n m = omega (
  arith,
  div-add-mod n (m * 256),
  div-add-mod n m,
  ap (λ (t : ℕ). m * t) (div-add-mod (n / m) 256),
  ap (λ (t : ℕ). m * 256 * t) (div-div-eq-div-mul n m 256),
)

be_from-be_put : (w acc n : ℕ) → be_from acc (be_put w n) ≡ acc * 256 ^ w + n % 256 ^ w
unfolding be_from be_put
be_from-be_put zero acc n = omega arith
be_from-be_put (suc w) acc n = omega (
  arith,
  be_from-be_put w (acc * 256 + n / 256 ^ w % 256) n,
  ap (λ (t : ℕ). acc * t) (pow-suc 256 w),
  ap (λ (t : ℕ). n % t) (pow-suc 256 w),
  mod_split n (256 ^ w),
)

-- Reading what was written gives the number back, cut to the width.
pub be_get-be_put : (w n : ℕ) → n < 256 ^ w → be_get (be_put w n) ≡ n
unfolding be_get
be_get-be_put w n h = omega (arith, be_from-be_put w 0 n, mod-eq_of_lt h)

-- The values of two and of four bytes.
pub be_get_two : (h l : ℕ) → be_get (h ∷ l ∷ []) ≡ h * 256 + l
unfolding be_get be_from
be_get_two h l = omega arith
