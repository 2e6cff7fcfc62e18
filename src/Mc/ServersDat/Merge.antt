-- ===== src/Mc/ServersDat/Merge.antt =====
-- servers.dat after addServerToLauncherIn, as the next reader finds it.
use eliaukvpn.Base.{
  ℕ, suc, ◌<◌, ◌^◌, ◌≡◌, refl, sym, ap₂, ◌∙◌, subst, inl, inr, Bool, true, false, Option, none,
  some, [], append-nil, length, arith,
}
use eliaukvpn.Base.Str.{Str, Bytes, text, str_eq}
use eliaukvpn.Base.Result.{ok}
use eliaukvpn.Mc.Nbt.{
  Value, Nodes, number, bytes, string, numbers, nodes, no_nodes, node, Root, tag_compound, read_nbt,
}
use eliaukvpn.Mc.Nbt.Writer.{count_nodes, first_tag}
use eliaukvpn.Mc.Nbt.Payload.{IsValue, AreElements, AreChildren}
use eliaukvpn.Mc.Nbt.RoundTrip.{IsRoot, read_nbt-write_nbt}
use eliaukvpn.Base.Files.{FileRead, contents}
use eliaukvpn.Mc.ServersDat.{
  find_child, child, set_child, set, merge_servers, merge_entry, Gzip, Written, read_servers_dat,
  add_server,
}
use eliaukvpn.Mc.ServersDat.Entries.{find_child-set_child, set_child-AreChildren, compound_of}
use eliaukvpn.Mc.ServersDat.Appended.{Merged, merged_list-Merged}

abbrev pub servers_key : Str
servers_key = text "servers"

-- The servers in a root: none, or a list of compounds that has room for one more
abbrev pub ServersOk : Option (ℕ × Value) → Type 0
ServersOk none = Unit
ServersOk (some (typ, nodes list)) =
    (typ ≡ 9) × AreElements 10 list × (suc (count_nodes list) < 2 ^ 31)
ServersOk (some (typ, _)) = ⊥

abbrev pub server_list : Option (ℕ × Value) → Nodes
server_list (some (typ, nodes list)) = list
server_list _ = no_nodes

first_of : (ns : Nodes) → AreElements 10 ns → AreElements (first_tag ns) ns
first_of no_nodes h = tt
first_of (node m typ v ns) h = subst (λ t. AreElements t (node m typ v ns)) (sym h.1) h

module _ (name addr : Str) (short : length name < 65536) (short_addr : length addr < 65536) where
  abbrev MergedRoot : Nodes → Nodes → Value → Type 0
  MergedRoot cs old v =
      (cs' : Nodes) × (v ≡ nodes cs')
      × AreChildren cs'
      × Merged name addr short short_addr old (server_list (find_child servers_key cs'))
      × ((k : Str) → str_eq servers_key k ≡ false → find_child k cs' ≡ find_child k cs)

  -- The root's children with a merged list in them
  with_list :
      (cs old list : Nodes)
      → AreChildren cs
      → suc (count_nodes old) < 2 ^ 31
      → Merged name addr short short_addr old list
      → MergedRoot cs old (nodes (set_child servers_key 9 (nodes list) cs))
  unfolding str_eq
  with_list cs old list h room m = (
    set_child servers_key 9 (nodes list) cs,
    refl,
    set_child-AreChildren servers_key 9 (nodes list) cs (omega arith)
        (inl (refl, omega (arith, m.size), first_of list m.compounds)) h,
    subst (λ o. Merged name addr short short_addr old (server_list o))
        (sym (find_child-set_child servers_key servers_key 9 (nodes list) cs)) m,
    λ k other. find_child-set_child k servers_key 9 (nodes list) cs ∙ rw other refl,
  )

  merge_servers_lem :
      (cs : Nodes) (o : Option (ℕ × Value))
      → AreChildren cs
      → ServersOk o
      → (v : Value) × (merge_servers name addr o (nodes cs) ≡ ok v)
        × MergedRoot cs (server_list o) v
  unfolding merge_servers set
  merge_servers_lem cs none h s =
      let (list, e, m) = merged_list-Merged name addr short short_addr no_nodes tt in
      (
        nodes (set_child servers_key 9 (nodes list) cs),
        rw e refl,
        with_list cs no_nodes list h (omega arith) m,
      )
  merge_servers_lem cs (some (typ, nodes old)) h s =
      let (list, e, m) = merged_list-Merged name addr short short_addr old s.1 in
      (
        nodes (set_child servers_key typ (nodes list) cs),
        rw e refl,
        subst (λ t. MergedRoot cs old (nodes (set_child servers_key t (nodes list) cs))) (sym s.0)
            (with_list cs old list h s.2 m),
      )
  merge_servers_lem cs (some (typ, number w f n)) h s = absurd s
  merge_servers_lem cs (some (typ, bytes b)) h s = absurd s
  merge_servers_lem cs (some (typ, string x)) h s = absurd s
  merge_servers_lem cs (some (typ, numbers w vs)) h s = absurd s

  -- The root after the merge
  abbrev pub MergesTo : Str → Root → Type 0
  MergesTo k r =
      (r' : Root) × (merge_entry name addr r ≡ ok r')
      × IsRoot r'
      × Merged name addr short short_addr (server_list (child servers_key r.val))
          (server_list (child servers_key r'.val))
      × (child k r'.val ≡ child k r.val)

  merge_compound :
      (n k : Str) (cs : Nodes)
      → length n < 65536
      → AreChildren cs
      → ServersOk (find_child servers_key cs)
      → str_eq servers_key k ≡ false
      → MergesTo k (record { name = n; typ = 10; val = nodes cs })
  unfolding merge_entry child
  merge_compound n k cs fits h s other =
      let (v, e, merged) = merge_servers_lem cs (find_child servers_key cs) h s in
      let (cs', is, h', m, kept) = merged in
      (
        record { name = n; typ = 10; val = nodes cs' },
        rw (e, is) refl,
        record { short_name = fits; valid = inr (refl, h') },
        m,
        kept k other,
      )

  pub merge_entry_lem :
      (r : Root) (k : Str)
      → IsRoot r
      → r.typ ≡ 10
      → ServersOk (child servers_key r.val)
      → str_eq servers_key k ≡ false
      → MergesTo k r
  merge_entry_lem r k root typ s other =
      let (cs, e, h) =
        compound_of name addr short r.val (subst (λ t. IsValue t r.val) typ root.valid) in
      let whole : r ≡ record { name = r.name; typ = 10; val = nodes cs } =
        ap₂ (λ t v. record { name = r.name; typ = t; val = v }) typ e in
      let at : ServersOk (find_child servers_key cs) =
        unfold child in subst (λ w. ServersOk (child servers_key w)) e s in
      subst (MergesTo k) (sym whole) (merge_compound r.name k cs root.short_name h at other)

reread :
    (g : Gzip) (out : Bytes) (r : Root)
    → read_nbt out ≡ ok (some r, [])
    → read_servers_dat g (contents (g.gzip out)) ≡ ok (r, true)
unfolding read_servers_dat
reread g out r e = rw (read_servers_dat, g.gunzip-gzip out, e) refl

-- Adding a server to a file that reads as a valid root compound, or to no file at all, where the
-- servers are a list of compounds or missing: the file that is written reads back as a root in which
-- the list of servers holds the name and the address, in one entry where the address had none and in
-- as many as it had otherwise, the entries for other addresses are as they were and in their order,
-- and so is every other child of the root. A file that was there is backed up.
pub add_server_reload :
    (g : Gzip) (name addr k : Str) (f : FileRead) (r : Root) (there : Bool)
    (short : length name < 65536) (short_addr : length addr < 65536)
    → read_servers_dat g f ≡ ok (r, there)
    → IsRoot r
    → r.typ ≡ tag_compound
    → ServersOk (child servers_key r.val)
    → str_eq servers_key k ≡ false
    → (w : Written) × (r' : Root) × (add_server g name addr f ≡ ok w)
      × (w.backed_up ≡ there)
      × (read_servers_dat g (contents w.file) ≡ ok (r', true))
      × Merged name addr short short_addr
          (server_list (child servers_key r.val))
          (server_list (child servers_key r'.val))
      × (child k r'.val ≡ child k r.val)
unfolding add_server
add_server_reload g name addr k f r there short short_addr read root typ s other =
    let (r', merged, root', m, kept) =
      merge_entry_lem name addr short short_addr r k root typ s other in
    let (out, written, back) = read_nbt-write_nbt r' [] root' in
    (
      record { file = g.gzip out; backed_up = there },
      r',
      rw (read, merged, written) refl,
      refl,
      reread g out r' (subst (λ bs. read_nbt bs ≡ ok (some r', [])) (append-nil out) back),
      m,
      kept,
    )
