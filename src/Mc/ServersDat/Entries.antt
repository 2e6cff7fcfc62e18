-- ===== src/Mc/ServersDat/Entries.antt =====
-- The list of servers after the merge of one entry.
use eliaukvpn.Base.{
  ℕ, suc, ◌<◌, ◌≡◌, refl, sym, ap, ◌∙◌, subst, inl, inr, Bool, true, false, ◌&&◌, ◌||◌, some,
  length, arith, if◌then◌else◌, Bool-cases, ◌==◌,
}
use eliaukvpn.Base.Str.{Str, text, str_eq, str_eq_iff, str_eq_refl}
use eliaukvpn.Base.Result.{Result, ok}
use eliaukvpn.Mc.Nbt.{Value, Nodes, number, bytes, string, numbers, nodes, no_nodes, node, NbtError}
use eliaukvpn.Mc.Nbt.Writer.{count_nodes}
use eliaukvpn.Mc.Nbt.Payload.{IsValue, AreElements, AreChildren}
use eliaukvpn.Mc.ServersDat.{
  find_child, child, string_value, string_of, set_child, set, update_entries,
}

-- A child that was set, among the others
pub find_child-set_child :
    (k j : Str) (typ : ℕ) (v : Value) (ns : Nodes)
    → find_child k (set_child j typ v ns) ≡ (if str_eq j k then some (typ, v) else find_child k ns)
unfolding find_child set_child
find_child-set_child k j typ v no_nodes = refl
find_child-set_child k j typ v (node name t w ns) =
    ground (
      arith,
      find_child-set_child k j typ v ns,
      str_eq_iff name j,
      str_eq_iff name k,
      str_eq_iff j k,
    )

pub set_child-AreChildren :
    (k : Str) (typ : ℕ) (v : Value) (ns : Nodes)
    → length k < 65536
    → IsValue typ v
    → AreChildren ns
    → AreChildren (set_child k typ v ns)
unfolding set_child
set_child-AreChildren k typ v no_nodes short valid h = (short, valid, tt)
set_child-AreChildren k typ v (node name t w ns) short valid h = elim (Bool-cases (str_eq name k)) [
  | inl here ↦ rw here (h.0, valid, h.2)
  | inr later ↦ rw later (h.0, h.1, set_child-AreChildren k typ v ns short valid h.2)
]

-- An entry for the address, with the name
abbrev pub is_entry : Str → Str → Value → Bool
is_entry name addr v =
    str_eq (string_of (text "ip") v) addr && str_eq (string_of (text "name") v) name

abbrev pub has_entry : Str → Str → Nodes → Bool
has_entry name addr no_nodes = false
has_entry name addr (node m typ v ns) = is_entry name addr v || has_entry name addr ns

-- The entries for other addresses, in order
abbrev pub others : Str → Nodes → Nodes
others addr no_nodes = no_nodes
others addr (node m typ v ns) =
    if str_eq (string_of (text "ip") v) addr then others addr ns else node m typ v (others addr ns)

-- How many entries there are for the address
abbrev pub count_for : Str → Nodes → ℕ
count_for addr no_nodes = 0
count_for addr (node m typ v ns) =
    if str_eq (string_of (text "ip") v) addr then suc (count_for addr ns) else count_for addr ns

abbrev pub is_zero : ℕ → Bool
is_zero n = n == 0

module _ (name addr : Str) (short : length name < 65536) where
  -- A renamed entry keeps its address and gets the name.
  renamed :
      (cs : Nodes)
      → (string_of (text "ip") (nodes (set_child (text "name") 8 (string name) cs))
          ≡ string_of (text "ip") (nodes cs))
        × (string_of (text "name") (nodes (set_child (text "name") 8 (string name) cs)) ≡ name)
  unfolding string_of child str_eq
  renamed cs = (
    ap string_value (find_child-set_child (text "ip") (text "name") 8 (string name) cs),
    ap string_value (find_child-set_child (text "name") (text "name") 8 (string name) cs),
  )

  -- What the loop makes of a list of compounds.
  pub record Updated (ns : Nodes) (r : Result NbtError (Nodes × Bool)) : Type 0 where
    pub list : Nodes
    pub changed : Bool
    pub is : r ≡ ok (list, changed)
    pub compounds : AreElements 10 list
    pub same_count : count_nodes list ≡ count_nodes ns
    pub same_for : count_for addr list ≡ count_for addr ns
    pub same_others : others addr list ≡ others addr ns
    pub found : changed ≡ true → has_entry name addr list ≡ true
    pub not_found : changed ≡ false → count_for addr ns ≡ 0

  pub compound_of : (v : Value) → IsValue 10 v → (cs : Nodes) × (v ≡ nodes cs) × AreChildren cs
  compound_of (number w float n) h = cc
  compound_of (bytes b) h = absurd (omega arith)
  compound_of (string s) h = absurd (omega arith)
  compound_of (numbers w vs) h = elim h.0 [
    | inl a ↦ absurd (omega (arith, a.0))
    | inr b ↦ absurd (omega (arith, b.0))
  ]
  compound_of (nodes cs) h = elim h [
    | inl l ↦ absurd (omega (arith, l.0))
    | inr c ↦ (cs, refl, c.1)
  ]

  update_here :
      (m : Str) (typ : ℕ) (cs ns : Nodes)
      → str_eq (string_of (text "ip") (nodes cs)) addr ≡ true
      → AreElements 10 (node m typ (nodes cs) ns)
      → AreChildren cs
      → Updated ns (update_entries name addr ns)
      → Updated (node m typ (nodes cs) ns) (update_entries name addr (node m typ (nodes cs) ns))
  unfolding update_entries set
  update_here m typ cs ns here h children u =
      let (ip, named) = renamed cs in
      let v' : Value = nodes (set_child (text "name") 8 (string name) cs) in
      let still : str_eq (string_of (text "ip") v') addr ≡ true =
        ap (λ s. str_eq s addr) ip ∙ here in
      record {
        list = node m typ v' u.list;
        changed = true;
        is = rw (here, u.is) refl;
        compounds = (
          h.0,
          h.1,
          inr (
            refl,
            set_child-AreChildren (text "name") 8 (string name) cs (omega arith) (refl, short)
                children,
          ),
          u.compounds,
        );
        same_count = ap suc u.same_count;
        same_for = rw (here, still) (ap suc u.same_for);
        same_others = rw (here, still) u.same_others;
        found = λ c. rw (still, ap (λ s. str_eq s name) named ∙ str_eq_refl name) refl;
        not_found = λ c. cc;
      }

  pub update_entries-Updated :
      (ns : Nodes) → AreElements 10 ns → Updated ns (update_entries name addr ns)
  unfolding update_entries
  update_entries-Updated no_nodes h = record {
    list = no_nodes;
    changed = false;
    is = refl;
    compounds = tt;
    same_count = refl;
    same_for = refl;
    same_others = refl;
    found = λ e. cc;
    not_found = λ e. refl;
  }
  update_entries-Updated (node m typ v ns) h =
      let u = update_entries-Updated ns h.3 in
      let (cs, e, children) = compound_of v h.2 in
      elim (Bool-cases (str_eq (string_of (text "ip") v) addr)) [
        | inl here ↦
            subst (λ w. Updated (node m typ w ns) (update_entries name addr (node m typ w ns)))
              (sym e)
              (update_here m typ cs ns
                (subst (λ w. str_eq (string_of (text "ip") w) addr ≡ true) e here)
                (subst (λ w. AreElements 10 (node m typ w ns)) e h) children u)
        | inr other ↦ record {
          list = node m typ v u.list;
          changed = u.changed;
          is = rw (other, u.is) refl;
          compounds = (h.0, h.1, h.2, u.compounds);
          same_count = ap suc u.same_count;
          same_for = rw other u.same_for;
          same_others = rw other (ap (λ l. node m typ v l) u.same_others);
          found = λ c. ground (arith, u.found c);
          not_found = λ c. rw other (u.not_found c);
        }
      ]
