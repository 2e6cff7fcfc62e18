-- ===== src/Base/Hex.antt =====
-- encoding/hex: EncodeToString and DecodeString.
use Prim.Native.Nat.{ℕ, ◌+◌, ◌-◌, ◌*◌, ◌/◌, ◌%◌, ◌<◌}
use mathlib.Core.Path.{◌≡◌, refl, ap}
use mathlib.Core.Bool.{◌&&◌}
use mathlib.Core.Option.{Option, none, some}
use mathlib.Core.List.{[], ◌∷◌}
use native.Mathlib.Omega.{arith}
use eliaukvpn.Base.Tests.{ltb, leb, if◌then◌else◌}
use eliaukvpn.Base.Str.{Str, Bytes, AllBytes}

abbrev pub hex_char : ℕ → ℕ
hex_char n = if ltb n 10 then 48 + n else 87 + n

-- Both cases of the letters are read.
abbrev pub hex_value : ℕ → Option ℕ
hex_value c =
    if leb 48 c && leb c 57
    then some (c - 48)
    else if leb 97 c && leb c 102
    then some (c - 87)
    else if leb 65 c && leb c 70
    then some (c - 55)
    else none

unfoldable pub hex_encode : Bytes → Str
hex_encode [] = []
hex_encode (b ∷ bs) = hex_char (b / 16) ∷ hex_char (b % 16) ∷ hex_encode bs

abbrev cons_value : Option ℕ → Option ℕ → Option Bytes → Option Bytes
cons_value (some h) (some l) (some bs) = some ((h * 16 + l) ∷ bs)
cons_value _ _ _ = none

unfoldable pub hex_decode : Str → Option Bytes
hex_decode [] = some []
hex_decode (h ∷ []) = none
hex_decode (h ∷ l ∷ s) = cons_value (hex_value h) (hex_value l) (hex_decode s)

hex_value-hex_char : (n : ℕ) → n < 16 → hex_value (hex_char n) ≡ some n
hex_value-hex_char n h = ground arith

-- Reading what was written gives the bytes back.
pub hex_decode-hex_encode : (bs : Bytes) → AllBytes bs → hex_decode (hex_encode bs) ≡ some bs
unfolding hex_decode hex_encode
hex_decode-hex_encode [] h = refl
hex_decode-hex_encode (b ∷ bs) h =
    rw
      (
        hex_value-hex_char (b / 16) (omega (arith, h.0)),
        hex_value-hex_char (b % 16) (omega arith),
        hex_decode-hex_encode bs h.1,
      )
      (ap (λ c. some (c ∷ bs)) (omega arith))
