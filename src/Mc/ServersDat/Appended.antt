-- ===== src/Mc/ServersDat/Appended.antt =====
-- The list of servers after the merge of one entry: updated, or with the entry appended.
use eliaukvpn.Base.{
  suc, ◌<◌, ◌≡◌, refl, ap, ◌∙◌, inl, inr, true, length, arith, if◌then◌else◌, Bool-cases,
}
use eliaukvpn.Base.Str.{Str, text, str_eq, str_eq_refl}
use eliaukvpn.Base.Result.{ok}
use eliaukvpn.Mc.Nbt.{Nodes, no_nodes, node}
use eliaukvpn.Mc.Nbt.Writer.{count_nodes}
use eliaukvpn.Mc.Nbt.Payload.{IsValue, AreElements}
use eliaukvpn.Mc.ServersDat.{find_child, child, string_of, new_entry, append_entry, merged_list}
use eliaukvpn.Mc.ServersDat.Entries.{has_entry, others, count_for, is_zero, update_entries-Updated}

module _ (name addr : Str) (short : length name < 65536) (short_addr : length addr < 65536) where
  has_entry-count : (ns : Nodes) → has_entry name addr ns ≡ true → 0 < count_for addr ns
  has_entry-count no_nodes h = cc
  has_entry-count (node m typ v ns) h = ground (arith, has_entry-count ns)

  new_entry_is :
      (string_of (text "ip") (new_entry name addr) ≡ addr)
      × (string_of (text "name") (new_entry name addr) ≡ name)
  unfolding string_of child find_child new_entry str_eq
  new_entry_is = (refl, refl)

  new_entry-IsValue : IsValue 10 (new_entry name addr)
  unfolding new_entry
  new_entry-IsValue =
      inr (refl, (omega arith, (refl, short), (omega arith, (refl, short_addr), tt)))

  -- What appending the new entry makes of a list without the address.
  pub record Appended (ns list : Nodes) : Type 0 where
    pub compounds : AreElements 10 list
    pub one_more : count_nodes list ≡ suc (count_nodes ns)
    pub present : has_entry name addr list ≡ true
    pub one_for : count_for addr list ≡ suc (count_for addr ns)
    pub same_others : others addr list ≡ others addr ns

  here : str_eq (string_of (text "ip") (new_entry name addr)) addr ≡ true
  here = ap (λ s. str_eq s addr) new_entry_is.0 ∙ str_eq_refl addr

  append-Appended :
      (ns : Nodes) → AreElements 10 ns → Appended ns (append_entry (new_entry name addr) ns)
  unfolding append_entry
  append-Appended no_nodes h = record {
    compounds = (refl, refl, new_entry-IsValue, tt);
    one_more = refl;
    present = rw (here, ap (λ s. str_eq s name) new_entry_is.1 ∙ str_eq_refl name) refl;
    one_for = rw here refl;
    same_others = rw here refl;
  }
  append-Appended (node m typ v ns) h =
      let r = append-Appended ns h.3 in
      record {
        compounds = (h.0, h.1, h.2, r.compounds);
        one_more = ap suc r.one_more;
        present = ground (arith, r.present);
        one_for = ground (arith, r.one_for);
        same_others =
            ap (λ l. if str_eq (string_of (text "ip") v) addr then l else node m typ v l)
              r.same_others;
      }

  -- The list after the merge: it holds the entry, once where there was none for the address and as
  -- often as before otherwise, and the entries for other addresses are as they were.
  pub record Merged (ns list : Nodes) : Type 0 where
    pub compounds : AreElements 10 list
    pub size : count_nodes list < suc (suc (count_nodes ns))
    pub present : has_entry name addr list ≡ true
    pub how_many :
        count_for addr list ≡ (if is_zero (count_for addr ns) then 1 else count_for addr ns)
    pub same_others : others addr list ≡ others addr ns

  pub merged_list-Merged :
      (ns : Nodes)
      → AreElements 10 ns
      → (list : Nodes) × (merged_list name addr ns ≡ ok list) × Merged ns list
  unfolding merged_list
  merged_list-Merged ns h =
      let u = update_entries-Updated name addr short ns h in
      elim (Bool-cases u.changed) [
        | inl yes' ↦ (
          u.list,
          rw (u.is, yes') refl,
          record {
            compounds = u.compounds;
            size = omega (arith, u.same_count);
            present = u.found yes';
            how_many = ground (arith, u.same_for, has_entry-count u.list (u.found yes'));
            same_others = u.same_others;
          },
        )
        | inr no' ↦
            let r = append-Appended u.list u.compounds in
            (
              append_entry (new_entry name addr) u.list,
              rw (u.is, no') refl,
              record {
                compounds = r.compounds;
                size = omega (arith, r.one_more, u.same_count);
                present = r.present;
                how_many = ground (arith, r.one_for, u.same_for, u.not_found no');
                same_others = r.same_others ∙ u.same_others;
              },
            )
      ]
