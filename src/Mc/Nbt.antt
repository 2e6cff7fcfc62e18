-- ===== src/Mc/Nbt.antt =====
-- internal/mc/serversdat.go: the values of NBT and their reader. Integers and floats are their bit
-- patterns, which the code only copies. A read is a function of the bytes that are left. In
-- `return v, binary.Read(r, ..., &v)` the call counts as made before v is read, which Go leaves open
-- and its compiler does.
pub mod Writer
pub mod Primitives
pub mod Payload
pub mod Values
pub mod RoundTrip
pub mod Uses
pub mod Ends
use eliaukvpn.Base.{
  ℕ, zero, suc, ◌+◌, ◌*◌, ◌^◌, Bool, true, false, not, ◌&&◌, ◌||◌, Option, none, some, List, [],
  ◌∷◌, ◌++◌, length, take, drop, ltb, leb, ◌==◌, if◌then◌else◌,
}
use eliaukvpn.Base.Str.{Str, Bytes}
use eliaukvpn.Base.BigEndian.{be_put, be_get}
use eliaukvpn.Base.Result
use eliaukvpn.Base.Result.{Result, ok, err}

-- The tag types
abbrev pub tag_end : ℕ
tag_end = 0

abbrev pub tag_byte : ℕ
tag_byte = 1

abbrev pub tag_short : ℕ
tag_short = 2

abbrev pub tag_int : ℕ
tag_int = 3

abbrev pub tag_long : ℕ
tag_long = 4

abbrev pub tag_float : ℕ
tag_float = 5

abbrev pub tag_double : ℕ
tag_double = 6

abbrev pub tag_byte_array : ℕ
tag_byte_array = 7

abbrev pub tag_string : ℕ
tag_string = 8

abbrev pub tag_list : ℕ
tag_list = 9

abbrev pub tag_compound : ℕ
tag_compound = 10

abbrev pub tag_int_array : ℕ
tag_int_array = 11

abbrev pub tag_long_array : ℕ
tag_long_array = 12

-- nbtNode with its fields in `node`, and the values that `val` holds: int8 to int64, float32 and
-- float64 as `number` with their width in bytes and whether they are floats.
mutual
  pub data Value : Type 0 where
    number : ℕ → Bool → ℕ → Value
    bytes : Bytes → Value
    string : Str → Value
    numbers : ℕ → List ℕ → Value
    nodes : Nodes → Value

  pub data Nodes : Type 0 where
    no_nodes : Nodes
    node : Str → ℕ → Value → Nodes → Nodes

-- `panicked`: a failed type assertion, or a slice of negative length.
pub data NbtError : Type 0 where
  unexpected_end too_long panicked out_of_fuel : NbtError
  unknown_tag : ℕ → NbtError

abbrev pub Reader : Type 0 → Type 0
Reader A = Bytes → Result NbtError (A × Bytes)

infixl 1 ◌>>=◌
abbrev pub ◌>>=◌ : {A B : Type 0} → Reader A → (A → Reader B) → Reader B
◌>>=◌ p f bs = elim (p bs) [ err e ↦ err e | ok (a, rest) ↦ f a rest ]

abbrev pub pure : {A : Type 0} → A → Reader A
pure a bs = ok (a, bs)

abbrev pub fail : {A : Type 0} → NbtError → Reader A
fail e bs = err e

-- io.ReadFull
unfoldable pub read_full : ℕ → Reader Bytes
read_full n bs = if ltb (length bs) n then err unexpected_end else ok (take n bs, drop n bs)

-- binary.Read of w bytes; ReadByte with w = 1
unfoldable pub read_number : ℕ → Reader ℕ
unfolding read_full
read_number w = do b ← read_full w; pure (be_get b)

-- The length of a slice: an int32, with which `make` panics where it is negative.
unfoldable pub read_length : Reader ℕ
unfolding read_number
read_length = do n ← read_number 4; if ltb n (2 ^ 31) then pure n else fail panicked

-- readString
unfoldable pub read_string : Reader Str
unfolding read_number read_full
read_string = do n ← read_number 2; read_full n

-- The loops of the int and long arrays
unfoldable pub read_numbers : ℕ → ℕ → Reader (List ℕ)
unfolding read_number
read_numbers w zero = pure []
read_numbers w (suc n) = do v ← read_number w; vs ← read_numbers w n; pure (v ∷ vs)

-- The width of a number's tag and whether it is a float, none for other tags
abbrev pub number_tag : ℕ → Option (ℕ × Bool)
number_tag typ =
    if typ == tag_byte
    then some (1, false)
    else if typ == tag_short
    then some (2, false)
    else if typ == tag_int
    then some (4, false)
    else if typ == tag_long
    then some (8, false)
    else if typ == tag_float
    then some (4, true)
    else if typ == tag_double
    then some (8, true)
    else none

-- readValue, given the loop over a list's elements and the loop over a compound's children
unfoldable pub read_payload : (ℕ → ℕ → Reader Nodes) → Reader Nodes → ℕ → Reader Value
unfolding read_number read_length read_full read_string read_numbers
read_payload elements children typ = elim (number_tag typ) [
  | some (w, float) ↦ (do v ← read_number w; pure (number w float v))
  | none ↦
      if typ == tag_byte_array
      then (do n ← read_length; b ← read_full n; pure (bytes b))
      else if typ == tag_string
      then (do s ← read_string; pure (string s))
      else if typ == tag_list
      then (do elem ← read_number 1; n ← read_length; ns ← elements n elem; pure (nodes ns))
      else if typ == tag_compound
      then (do ns ← children; pure (nodes ns))
      else if typ == tag_int_array
      then (do n ← read_length; vs ← read_numbers 4 n; pure (numbers 4 vs))
      else if typ == tag_long_array
      then (do n ← read_length; vs ← read_numbers 8 n; pure (numbers 8 vs))
      else fail (unknown_tag typ)
]

-- readNBT of a child once its tag is read, and the children after it
unfoldable pub child_or_end : (ℕ → Reader Value) → Reader Nodes → ℕ → Reader Nodes
unfolding read_string
child_or_end value children typ =
    if typ == tag_end
    then pure no_nodes
    else (do name ← read_string; v ← value typ; ns ← children; pure (node name typ v ns))

-- readValue with its loop over a list, and the loop over a compound's children with the readNBT of
-- each. Each call costs a unit of fuel.
unfoldable mutual
  pub read_value : ℕ → ℕ → Reader Value
  read_value zero typ = fail out_of_fuel
  read_value (suc f) typ = read_payload (read_list f) (read_children f) typ

  pub read_list : ℕ → ℕ → ℕ → Reader Nodes
  read_list zero n typ = fail out_of_fuel
  read_list (suc f) zero typ = pure no_nodes
  read_list (suc f) (suc n) typ = do
    v ← read_value f typ
    ns ← read_list f n typ
    pure (node [] typ v ns)

  pub read_children : ℕ → Reader Nodes
  read_children zero = fail out_of_fuel
  read_children (suc f) = do typ ← read_number 1; child_or_end (read_value f) (read_children f) typ

-- A named value, as the root of a file
pub record Root : Type 0 where
  pub name : Str
  pub typ : ℕ
  pub val : Value

-- readNBT once the tag is read; `none` for TAG_End
unfoldable pub root_or_none : ℕ → ℕ → Reader (Option Root)
unfolding read_string
root_or_none f typ = if typ == tag_end then pure none else (do
  name ← read_string
  v ← read_value f typ
  pure (some (record { name = name; typ = typ; val = v })))

-- readNBT, with fuel by the length of the input
unfoldable pub read_nbt : Reader (Option Root)
unfolding root_or_none read_number
read_nbt bs = (do typ ← read_number 1; root_or_none (2 * length bs + 2) typ) bs
