-- ===== src/Mc/Nbt/Writer.antt =====
-- internal/mc/serversdat.go: the NBT writer, on the values as the reader gives them.
use eliaukvpn.Base.{
  ℕ, suc, Bool, not, ◌&&◌, ◌||◌, List, [], ◌∷◌, ◌++◌, length, ltb, leb, ◌==◌, if◌then◌else◌,
}
use eliaukvpn.Base.Str.{Str, Bytes}
use eliaukvpn.Base.BigEndian.{be_put}
use eliaukvpn.Base.Result.{Result, ok, err}
use eliaukvpn.Mc.Nbt.{
  Value, Nodes, number, bytes, string, numbers, nodes, no_nodes, node, NbtError, panicked, too_long,
  unknown_tag, Root, tag_end, tag_byte, tag_short, tag_int, tag_long, tag_float, tag_double,
  tag_byte_array, tag_string, tag_list, tag_compound, tag_int_array, tag_long_array,
}

abbrev pub known_tag : ℕ → Bool
known_tag typ = leb 1 typ && leb typ 12

-- A value that is not of its tag's Go type: the type assertion panics.
abbrev pub mismatch : ℕ → Result NbtError Bytes
mismatch typ = err (if known_tag typ then panicked else unknown_tag typ)

-- writeString
unfoldable pub write_string : Str → Result NbtError Bytes
write_string s = if ltb 0xFFFF (length s) then err too_long else ok (be_put 2 (length s) ++ s)

abbrev pub put_numbers : ℕ → List ℕ → Bytes
put_numbers w [] = []
put_numbers w (v ∷ vs) = be_put w v ++ put_numbers w vs

abbrev pub is_number : ℕ → Bool → ℕ → Bool
is_number w float typ =
    if typ == tag_byte
    then (w == 1) && not float
    else if typ == tag_short
    then (w == 2) && not float
    else if typ == tag_int
    then (w == 4) && not float
    else if typ == tag_long
    then (w == 8) && not float
    else if typ == tag_float
    then (w == 4) && float
    else (typ == tag_double) && ((w == 8) && float)

abbrev pub count_nodes : Nodes → ℕ
count_nodes no_nodes = 0
count_nodes (node name typ v ns) = suc (count_nodes ns)

abbrev pub first_tag : Nodes → ℕ
first_tag no_nodes = tag_end
first_tag (node name typ v ns) = typ

infixr 5 ◌then_write◌
abbrev pub ◌then_write◌ : Result NbtError Bytes → Result NbtError Bytes → Result NbtError Bytes
ok a then_write ok b = ok (a ++ b)
ok a then_write err e = err e
err e then_write r = err e

-- writeValue with its loop over a list, and the loop over a compound's children with the writeNBT of
-- each
unfoldable mutual
  unfolding write_string

  pub write_value : ℕ → Value → Result NbtError Bytes
  write_value typ (number w float v) =
      if is_number w float typ then ok (be_put w v) else mismatch typ
  write_value typ (bytes b) =
      if typ == tag_byte_array then ok (be_put 4 (length b) ++ b) else mismatch typ
  write_value typ (string s) = if typ == tag_string then write_string s else mismatch typ
  write_value typ (numbers w vs) =
      if ((typ == tag_int_array) && (w == 4)) || ((typ == tag_long_array) && (w == 8))
      then ok (be_put 4 (length vs) ++ put_numbers w vs)
      else mismatch typ
  write_value typ (nodes ns) =
      let elements = write_list ns in
      let children = write_children ns in
      if typ == tag_list
      then ok (first_tag ns ∷ be_put 4 (count_nodes ns)) then_write elements
      else if typ == tag_compound
      then children
      else mismatch typ

  pub write_list : Nodes → Result NbtError Bytes
  write_list no_nodes = ok []
  write_list (node name typ v ns) = write_value typ v then_write write_list ns

  pub write_children : Nodes → Result NbtError Bytes
  write_children no_nodes = ok (tag_end ∷ [])
  write_children (node name typ v ns) =
      ok (typ ∷ [])
      then_write write_string name
      then_write write_value typ v
      then_write write_children ns

-- writeNBT of a root that is there
unfoldable pub write_nbt : Root → Result NbtError Bytes
unfolding write_value
write_nbt r = ok (r.typ ∷ []) then_write write_string r.name then_write write_value r.typ r.val
