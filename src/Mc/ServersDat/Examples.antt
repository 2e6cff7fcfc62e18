-- ===== src/Mc/ServersDat/Examples.antt =====
-- A servers.dat of the launcher, and the theorems on serversdat.go applied to it.
use eliaukvpn.Base.{◌<◌, ◌≡◌, ◌≢◌, refl, inl, inr, true, false, some, [], ◌∷◌, ◌++◌, length, arith}
use eliaukvpn.Base.Str.{Str, Bytes, text, str_eq}
use eliaukvpn.Base.BigEndian.{be_put, be_get}
use eliaukvpn.Base.Result.{ok, err}
use eliaukvpn.Mc.Nbt.{
  Value, Nodes, number, string, nodes, no_nodes, node, out_of_fuel, unknown_tag, Root, read_full,
  read_number, read_length, read_string, read_numbers, read_payload, child_or_end, read_value,
  root_or_none, read_nbt,
}
use eliaukvpn.Mc.Nbt.Writer.{write_string, write_value, write_nbt}
use eliaukvpn.Mc.Nbt.Payload.{AreElements}
use eliaukvpn.Mc.Nbt.RoundTrip.{IsRoot, read_nbt-write_nbt}
use eliaukvpn.Mc.Nbt.Ends.{read_nbt-ends}
use eliaukvpn.Base.Files.{contents}
use eliaukvpn.Mc.ServersDat.{
  find_child, child, string_of, set_child, set, update_entries, append_entry, merged_list, Gzip,
  Written, read_servers_dat, add_server,
}
use eliaukvpn.Mc.ServersDat.Appended.{Merged}
use eliaukvpn.Mc.ServersDat.Merge.{servers_key, ServersOk, server_list, add_server_reload}

abbrev stored : Gzip
stored = record { gzip = λ b. b; gunzip = λ b. some b; gunzip-gzip = λ b. refl }

abbrev entry : Str → Str → Value
entry n a = nodes (node (text "name") 8 (string n) (node (text "ip") 8 (string a) no_nodes))

abbrev one_server : Nodes
one_server = node [] 10 (entry (text "a") (text "1.2.3.4")) no_nodes

one_server-AreElements : AreElements 10 one_server
one_server-AreElements = (
  refl,
  refl,
  inr (refl, (omega arith, (refl, omega arith), (omega arith, (refl, omega arith), tt))),
  tt,
)

-- A root with a byte of its own and one server
abbrev old_root : Root
old_root = record {
  name = [];
  typ = 10;
  val =
      nodes (
        node (text "v") 1 (number 1 false 7) (node (text "servers") 9 (nodes one_server) no_nodes));
}

old_root-IsRoot : IsRoot old_root
old_root-IsRoot = record {
  short_name = omega arith;
  valid = inr (
    refl,
    (
      omega arith,
      (refl, omega arith),
      (omega arith, inl (refl, omega arith, one_server-AreElements), tt),
    ),
  );
}

abbrev old_bytes : Bytes
old_bytes =
    (10 ∷ 0 ∷ 0 ∷ [])
    ++ (1 ∷ 0 ∷ 1 ∷ text "v")
    ++ (7 ∷ [])
    ++ (9 ∷ 0 ∷ 7 ∷ text "servers")
    ++ (10 ∷ 0 ∷ 0 ∷ 0 ∷ 1 ∷ [])
    ++ (8 ∷ 0 ∷ 4 ∷ text "name")
    ++ (0 ∷ 1 ∷ text "a")
    ++ (8 ∷ 0 ∷ 2 ∷ text "ip")
    ++ (0 ∷ 7 ∷ text "1.2.3.4")
    ++ (0 ∷ 0 ∷ [])

old_bytes_written : write_nbt old_root ≡ ok old_bytes
unfolding write_nbt write_value write_string be_put
old_bytes_written = refl

old_bytes_read : read_servers_dat stored (contents old_bytes) ≡ ok (old_root, true)
unfolding read_servers_dat read_nbt root_or_none read_value child_or_end read_payload read_numbers
    read_string read_length read_number read_full be_get
old_bytes_read = refl

-- A tag that NBT does not have
bad_tag : read_nbt (13 ∷ 0 ∷ 0 ∷ []) ≡ err (unknown_tag 13)
unfolding read_nbt root_or_none read_value child_or_end read_payload read_numbers read_string
    read_length read_number read_full be_get
bad_tag = refl

-- The address is in the list under another name: the entry is renamed.
renamed_entry :
    merged_list (text "b") (text "1.2.3.4") one_server
    ≡ ok (node [] 10 (entry (text "b") (text "1.2.3.4")) no_nodes)
unfolding merged_list update_entries append_entry set set_child string_of child find_child str_eq
renamed_entry = refl

read_nbt-write_nbt_example :
    (out : Bytes) × (write_nbt old_root ≡ ok out)
    × (read_nbt (out ++ text "x") ≡ ok (some old_root, text "x"))
read_nbt-write_nbt_example = read_nbt-write_nbt old_root (text "x") old_root-IsRoot

read_nbt-ends_example : read_nbt (10 ∷ 0 ∷ 0 ∷ 9 ∷ []) ≢ err out_of_fuel
read_nbt-ends_example = read_nbt-ends (10 ∷ 0 ∷ 0 ∷ 9 ∷ [])

short_name : length (text "room") < 65536
short_name = omega arith

short_addr : length (text "10.8.0.2") < 65536
short_addr = omega arith

old_root-ServersOk : ServersOk (child servers_key old_root.val)
unfolding child find_child str_eq
old_root-ServersOk = (refl, one_server-AreElements, omega arith)

other_key : str_eq servers_key (text "v") ≡ false
unfolding str_eq
other_key = refl

add_server_reload_example :
    (w : Written) × (r' : Root) × (add_server stored
        (text "room")
        (text "10.8.0.2")
        (contents old_bytes)
      ≡ ok w)
    × (w.backed_up ≡ true)
    × (read_servers_dat stored (contents w.file) ≡ ok (r', true))
    × Merged
        (text "room")
        (text "10.8.0.2")
        short_name
        short_addr
        (server_list (child servers_key old_root.val))
        (server_list (child servers_key r'.val))
    × (child (text "v") r'.val ≡ child (text "v") old_root.val)
add_server_reload_example =
    add_server_reload stored (text "room") (text "10.8.0.2") (text "v") (contents old_bytes)
      old_root true short_name short_addr old_bytes_read old_root-IsRoot refl old_root-ServersOk
      other_key
