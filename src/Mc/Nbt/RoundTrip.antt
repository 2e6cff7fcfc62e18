-- ===== src/Mc/Nbt/RoundTrip.antt =====
-- What the NBT writer wrote, the reader reads back.
use eliaukvpn.Base.{
  ℕ, zero, suc, ◌+◌, ◌*◌, ◌≤◌, ◌<◌, ◌≡◌, refl, sym, ◌∙◌, inl, inr, some, [], ◌∷◌, ◌++◌, length,
  length-append, arith, false, ltb, ◌==◌, subst,
}
use eliaukvpn.Base.Str.{Str, Bytes}
use eliaukvpn.Base.BigEndian.{be_put}
use eliaukvpn.Base.Result.{ok}
use eliaukvpn.Mc.Nbt.{
  Value, Nodes, number, bytes, string, numbers, nodes, no_nodes, node, Reader, pure, ◌>>=◌,
  read_number, read_string, read_value, read_list, child_or_end, read_children, Root, root_or_none,
  read_nbt,
}
use eliaukvpn.Mc.Nbt.Writer.{write_string, write_list, write_children, count_nodes, write_nbt}
use eliaukvpn.Mc.Nbt.Primitives.{Reads, bind_step, then-Reads, read_byte-Reads, read_string-Reads}
use eliaukvpn.Mc.Nbt.Payload.{IsValue}
use eliaukvpn.Mc.Nbt.Values.{
  Returns, Carries, ValueOk, ElementsOk, ChildrenOk, number_ok, bytes_ok, string_ok, numbers_ok,
  tag_range, list_ok, compound_ok,
}

nodes_ok : (ns : Nodes) → ElementsOk ns → ChildrenOk ns → ValueOk (nodes ns)
nodes_ok ns he hc typ h = elim h [
  | inl l ↦ subst (Carries (nodes ns)) (sym l.0) (list_ok ns he l.1 l.2)
  | inr c ↦ subst (Carries (nodes ns)) (sym c.0) (compound_ok ns hc c.1)
]

elements_nil : ElementsOk no_nodes
unfolding write_list
elements_nil t h = record { out = []; written = refl; long = omega arith; read_back = empty_list t }
  where
    empty_list : (t f : ℕ) → 2 ≤ f → Reads (read_list f 0 t) [] no_nodes
    empty_list t zero b = absurd (omega arith)
    empty_list t (suc f) b = λ rest. unfold read_list in refl

list_fuel :
    (t n : ℕ) (v : Value) (ns : Nodes) (x y : Bytes)
    → ((g : ℕ) → 2 * length x + 1 ≤ g → Reads (read_value g t) x v)
    → ((g : ℕ) → 2 * length y + 2 ≤ g → Reads (read_list g n t) y ns)
    → 1 ≤ length x
    → (f : ℕ) → 2 * length (x ++ y) + 2 ≤ f
    → Reads (read_list f (suc n) t) (x ++ y) (node [] t v ns)
unfolding read_list
list_fuel t n v ns x y hx hy long zero b = absurd (omega arith)
list_fuel t n v ns x y hx hy long (suc g) b =
    then-Reads (read_value g t) (λ w. read_list g n t >>= λ ms. pure (node [] t w ms)) x y v
      (node [] t v ns) (hx g (omega (arith, length-append x y)))
      (λ rest.
        bind_step (read_list g n t) (λ ms. pure (node [] t v ms)) (y ++ rest) rest ns
          (hy g (omega (arith, length-append x y)) rest))

elements_cons :
    (name : Str) (typ : ℕ) (v : Value) (ns : Nodes)
    → ValueOk v
    → ElementsOk ns
    → ElementsOk (node name typ v ns)
unfolding write_list
elements_cons name typ v ns hv hns t h =
    let a = hv t h.2 in
    let b = hns t h.3 in
    subst
      (λ m.
        Returns (write_list (node m typ v ns)) (λ f. read_list f (suc (count_nodes ns)) t)
          (λ k. 2 * k + 2) 0 (node m typ v ns))
      (sym h.0)
      (subst
        (λ u.
          Returns (write_list (node [] u v ns)) (λ f. read_list f (suc (count_nodes ns)) t)
            (λ k. 2 * k + 2) 0 (node [] u v ns))
        (sym h.1)
        (record {
          out = a.out ++ b.out;
          written = rw (a.written, b.written) refl;
          long = omega arith;
          read_back = list_fuel t (count_nodes ns) v ns a.out b.out a.read_back b.read_back a.long;
        }))

children_fuel_nil : (f : ℕ) → 2 ≤ f → Reads (read_children f) (0 ∷ []) no_nodes
unfolding read_children
children_fuel_nil zero b = absurd (omega arith)
children_fuel_nil (suc g) b =
    then-Reads (read_number 1) (child_or_end (read_value g) (read_children g)) (0 ∷ []) [] 0
      no_nodes (read_byte-Reads 0 (omega arith)) (λ rest. unfold child_or_end in refl)

children_nil : ChildrenOk no_nodes
unfolding write_children
children_nil h = record {
  out = 0 ∷ [];
  written = refl;
  long = omega arith;
  read_back = children_fuel_nil;
}

module _ (name : Str) (typ : ℕ) (v : Value) (ns : Nodes) (x y : Bytes) where
  abbrev named : Bytes
  named = (be_put 2 (length name) ++ name) ++ (x ++ y)

  child-Reads :
      (value : ℕ → Reader Value) (children : Reader Nodes)
      → length name < 65536
      → 0 < typ
      → Reads (value typ) x v
      → Reads children y ns
      → Reads (child_or_end value children typ) named (node name typ v ns)
  unfolding child_or_end
  child-Reads value children small there hx hy rest =
      let here : (typ == 0) ≡ false = ground arith in
      rw here (
        then-Reads read_string (λ m. value typ >>= λ w. children >>= λ ms. pure (node m typ w ms))
          (be_put 2 (length name) ++ name) (x ++ y) name (node name typ v ns)
          (read_string-Reads name small)
          (then-Reads (value typ) (λ w. children >>= λ ms. pure (node name typ w ms)) x y v
            (node name typ v ns) hx
            (λ left.
              bind_step children (λ ms. pure (node name typ v ms)) (y ++ left) left ns (hy left)))
          rest)

  children_fuel :
      length name < 65536
      → 0 < typ
      → typ < 256
      → ((g : ℕ) → 2 * length x + 1 ≤ g → Reads (read_value g typ) x v)
      → ((g : ℕ) → 2 * length y ≤ g → Reads (read_children g) y ns)
      → (f : ℕ) → 2 * length (typ ∷ named) ≤ f
      → Reads (read_children f) (typ ∷ named) (node name typ v ns)
  unfolding read_children
  children_fuel small there byte hx hy zero b = absurd (omega arith)
  children_fuel small there byte hx hy (suc g) b =
      let long = length-append (be_put 2 (length name) ++ name) (x ++ y) in
      let parts = length-append x y in
      then-Reads (read_number 1) (child_or_end (read_value g) (read_children g)) (typ ∷ []) named
        typ (node name typ v ns) (read_byte-Reads typ byte)
        (child-Reads (read_value g) (read_children g) small there (hx g (omega arith))
          (hy g (omega arith)))

children_cons :
    (name : Str) (typ : ℕ) (v : Value) (ns : Nodes)
    → ValueOk v
    → ChildrenOk ns
    → ChildrenOk (node name typ v ns)
unfolding write_children write_string
children_cons name typ v ns hv hns h =
    let a = hv typ h.1 in
    let b = hns h.2 in
    let range = tag_range typ v h.1 in
    let fits : ltb 65535 (length name) ≡ false = ground arith in
    record {
      out = typ ∷ named name typ v ns a.out b.out;
      written = rw (fits, a.written, b.written) refl;
      long = omega arith;
      read_back =
          children_fuel name typ v ns a.out b.out h.0 range.0 range.1 a.read_back b.read_back;
    }

mutual
  value_ok : (v : Value) → ValueOk v
  value_ok (number w float n) = number_ok w float n
  value_ok (bytes b) = bytes_ok b
  value_ok (string s) = string_ok s
  value_ok (numbers w vs) = numbers_ok w vs
  value_ok (nodes ns) = λ typ h. nodes_ok ns (elements_ok ns) (children_ok ns) typ h

  elements_ok : (ns : Nodes) → ElementsOk ns
  elements_ok no_nodes = elements_nil
  elements_ok (node name typ v ns) = elements_cons name typ v ns (value_ok v) (elements_ok ns)

  children_ok : (ns : Nodes) → ChildrenOk ns
  children_ok no_nodes = children_nil
  children_ok (node name typ v ns) = children_cons name typ v ns (value_ok v) (children_ok ns)

-- The root compound of a file.
pub record IsRoot (r : Root) : Type 0 where
  pub short_name : length r.name < 65536
  pub valid : IsValue r.typ r.val

root-Reads :
    (r : Root) (f : ℕ) (x : Bytes)
    → length r.name < 65536
    → 0 < r.typ
    → Reads (read_value f r.typ) x r.val
    → Reads (root_or_none f r.typ) ((be_put 2 (length r.name) ++ r.name) ++ x) (some r)
unfolding root_or_none
root-Reads r f x small there hx rest =
    let here : (r.typ == 0) ≡ false = ground arith in
    rw here (
      then-Reads read_string
        (λ m. read_value f r.typ >>= λ w. pure (some (record { name = m; typ = r.typ; val = w })))
        (be_put 2 (length r.name) ++ r.name) x r.name (some r) (read_string-Reads r.name small)
        (λ left.
          bind_step (read_value f r.typ)
            (λ w. pure (some (record { name = r.name; typ = r.typ; val = w }))) (x ++ left) left
            r.val (hx left))
        rest)

-- Every root that NBT can hold is written, and its bytes read back as it, with whatever follows
-- them left over.
pub read_nbt-write_nbt :
    (r : Root) (rest : Bytes)
    → IsRoot r
    → (out : Bytes) × (write_nbt r ≡ ok out) × (read_nbt (out ++ rest) ≡ ok (some r, rest))
unfolding write_nbt write_string read_nbt
read_nbt-write_nbt r rest v =
    let body = value_ok r.val r.typ v.valid in
    let range = tag_range r.typ r.val v.valid in
    let named : Bytes = be_put 2 (length r.name) ++ r.name in
    let out : Bytes = r.typ ∷ named ++ body.out in
    let fits : ltb 65535 (length r.name) ≡ false = ground (arith, v.short_name) in
    let f : ℕ = 2 * length (out ++ rest) + 2 in
    let enough : 2 * length body.out + 1 ≤ f =
      omega (arith, length-append (named ++ body.out) rest, length-append named body.out) in
    (
      out,
      rw (fits, body.written) refl,
      bind_step (read_number 1) (root_or_none f) (out ++ rest) ((named ++ body.out) ++ rest) r.typ
            (read_byte-Reads r.typ range.1 ((named ++ body.out) ++ rest))
          ∙ root-Reads r f body.out v.short_name range.0 (body.read_back f enough) rest,
    )
