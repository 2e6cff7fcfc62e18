-- ===== src/Mc/ServersDat.antt =====
-- internal/mc/serversdat.go: the merge of one server into the launcher's list. A tree has no shared
-- nodes, so a change through a pointer is a change of the tree. The file, and gzip, are what the
-- caller gives: a stream that does not decompress to its end counts as no gzip stream.
pub mod Entries
pub mod Appended
pub mod Merge
mod Examples
use eliaukvpn.Base.{
  ℕ, Bool, true, false, not, ◌&&◌, ◌||◌, ◌≡◌, Option, none, some, ◌∷◌, [], if◌then◌else◌,
}
use eliaukvpn.Base.Str.{Str, Bytes, text, str_eq}
use eliaukvpn.Base.Files.{FileRead, no_file, unreadable, contents}
use eliaukvpn.Base.Result.{Result, ok, err, ◌>>=◌}
use eliaukvpn.Mc.Nbt.{
  Value, Nodes, number, bytes, string, numbers, nodes, no_nodes, node, NbtError, panicked, Root,
  tag_string, tag_list, tag_compound, read_nbt,
}
use eliaukvpn.Mc.Nbt.Writer.{write_nbt}

-- nbtNode.child, on the children
unfoldable pub find_child : Str → Nodes → Option (ℕ × Value)
find_child k no_nodes = none
find_child k (node name typ v ns) =
    let rest = find_child k ns in if str_eq name k then some (typ, v) else rest

abbrev pub children_of : Value → Option Nodes
children_of (nodes ns) = some ns
children_of _ = none

-- nbtNode.child: a value that is no list of nodes has none.
unfoldable pub child : Str → Value → Option (ℕ × Value)
unfolding find_child
child k v = elim (children_of v) [ none ↦ none | some ns ↦ find_child k ns ]

abbrev pub string_value : Option (ℕ × Value) → Str
string_value (some (typ, string s)) = s
string_value _ = []

-- nbtNode.stringOf
unfoldable pub string_of : Str → Value → Str
unfolding child
string_of k v = string_value (child k v)

-- nbtNode.set, on the children
unfoldable pub set_child : Str → ℕ → Value → Nodes → Nodes
set_child k typ v no_nodes = node k typ v no_nodes
set_child k typ v (node name t w ns) =
    let rest = set_child k typ v ns in
    if str_eq name k then node name typ v ns else node name t w rest

-- nbtNode.set
unfoldable pub set : Str → ℕ → Value → Value → Result NbtError Value
unfolding set_child
set k typ v n = elim (children_of n) [
  | none ↦ err panicked
  | some ns ↦ ok (nodes (set_child k typ v ns))
]

-- The loop over the entries: those of the address get the name. Says whether there is one.
unfoldable pub update_entries : Str → Str → Nodes → Result NbtError (Nodes × Bool)
unfolding set string_of
update_entries name addr no_nodes = ok (no_nodes, false)
update_entries name addr (node m typ v ns) =
    let rest = update_entries name addr ns in
    if str_eq (string_of (text "ip") v) addr
    then (do
      v' ← set (text "name") tag_string (string name) v
      r ← rest
      ok (node m typ v' r.0, true))
    else (do r ← rest; ok (node m typ v r.0, r.1))

-- The entry that is appended
unfoldable pub new_entry : Str → Str → Value
new_entry name addr = nodes (
    node (text "name") tag_string (string name)
      (node (text "ip") tag_string (string addr) no_nodes))

-- append(list, entry), an entry of a list
unfoldable pub append_entry : Value → Nodes → Nodes
append_entry v no_nodes = node [] tag_compound v no_nodes
append_entry v (node m typ w ns) = node m typ w (append_entry v ns)

-- The list after the loop, with the entry where the loop found none
unfoldable pub merged_list : Str → Str → Nodes → Result NbtError Nodes
unfolding update_entries append_entry new_entry
merged_list name addr ns = do
  r ← update_entries name addr ns
  ok (if r.1 then r.0 else append_entry (new_entry name addr) r.0)

-- The value of the root with its servers, made where there are none, and the list in them
unfoldable pub merge_servers : Str → Str → Option (ℕ × Value) → Value → Result NbtError Value
unfolding set
merge_servers name addr none root = do
  list ← merged_list name addr no_nodes
  set (text "servers") tag_list (nodes list) root
merge_servers name addr (some (typ, servers)) root = elim (children_of servers) [
  | none ↦ err panicked
  | some ns ↦ (do list ← merged_list name addr ns; set (text "servers") typ (nodes list) root)
]

-- addServerToLauncherIn, between the reading and the writing
unfoldable pub merge_entry : Str → Str → Root → Result NbtError Root
merge_entry name addr r = do
  v ← merge_servers name addr (child (text "servers") r.val) r.val
  ok (record r { val = v })

-- compress/gzip: what was compressed decompresses.
pub record Gzip : Type 0 where
  pub gzip : Bytes → Bytes
  pub gunzip : Bytes → Option Bytes
  pub gunzip-gzip : (b : Bytes) → gunzip (gzip b) ≡ some b

pub data ServersError : Type 0 where
  not_read not_gzip : ServersError
  nbt_failed : NbtError → ServersError

abbrev pub lift {ℓ} : {A : Type ℓ} → Result NbtError A → Result ServersError A
lift (ok a) = ok a
lift (err e) = err (nbt_failed e)

abbrev pub fresh_root : Root
fresh_root = record { name = []; typ = tag_compound; val = nodes no_nodes }

-- The root that was read, or a fresh one where the stream holds none
abbrev root_or_fresh : Option Root → Root
root_or_fresh none = fresh_root
root_or_fresh (some r) = r

-- readServersDat, with whether the file is there
unfoldable pub read_servers_dat : Gzip → FileRead → Result ServersError (Root × Bool)
read_servers_dat g no_file = ok (fresh_root, false)
read_servers_dat g unreadable = err not_read
read_servers_dat g (contents raw) = elim (g.gunzip raw) [
  | none ↦ err not_gzip
  | some bs ↦ (do r ← lift (read_nbt bs); ok (root_or_fresh r.0, true))
]

-- What addServerToLauncherIn writes: servers.dat, and servers.dat.bak where there was a file.
pub record Written : Type 0 where
  pub file : Bytes
  pub backed_up : Bool

-- addServerToLauncherIn
unfoldable pub add_server : Gzip → Str → Str → FileRead → Result ServersError Written
add_server g name addr f = do
  r ← read_servers_dat g f
  root ← lift (merge_entry name addr r.0)
  out ← lift (write_nbt root)
  ok (record { file = g.gzip out; backed_up = r.1 })
