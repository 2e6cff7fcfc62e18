-- ===== src/Mc/Nbt/Values.antt =====
-- Single NBT values: what is written for each reads back, given that its nodes do.
use eliaukvpn.Base.{
  ℕ, zero, suc, ◌+◌, ◌*◌, ◌^◌, ◌≤◌, ◌<◌, ◌≡◌, refl, sym, inl, inr, List, ◌∷◌, ◌++◌, All, length,
  length-append, arith, true, Bool, subst,
}
use eliaukvpn.Base.Str.{Str, Bytes}
use eliaukvpn.Base.BigEndian.{be_put, length-be_put}
use eliaukvpn.Base.Result.{Result, ok}
use eliaukvpn.Mc.Nbt.{
  Value, Nodes, number, bytes, string, numbers, nodes, no_nodes, node, Reader, read_payload,
  read_value, read_list, read_children, NbtError,
}
use eliaukvpn.Mc.Nbt.Writer.{
  put_numbers, write_string, is_number, write_value, write_list, write_children, count_nodes,
  first_tag,
}
use eliaukvpn.Mc.Nbt.Primitives.{Reads}
use eliaukvpn.Mc.Nbt.Payload.{
  IsValue, AreElements, AreChildren, number-Reads, bytes-Reads, string-Reads, ints-Reads,
  longs-Reads, list-Reads, compound-Reads,
}

-- A writer's result that the reader turns back into `a`, with fuel `bound` of its length or more
pub record Returns {A : Type 0} (w : Result NbtError Bytes) (p : ℕ → Reader A) (bound : ℕ → ℕ)
    (least : ℕ) (a : A) : Type 0 where
  pub out : Bytes
  pub written : w ≡ ok out
  pub long : least ≤ length out
  pub read_back : (f : ℕ) → bound (length out) ≤ f → Reads (p f) out a

abbrev pub Carries : Value → ℕ → Type 0
Carries v typ = Returns (write_value typ v) (λ f. read_value f typ) (λ n. 2 * n + 1) 1 v

abbrev pub ValueOk : Value → Type 0
ValueOk v = (typ : ℕ) → IsValue typ v → Carries v typ

abbrev pub ElementsOk : Nodes → Type 0
ElementsOk ns =
    (t : ℕ)
    → AreElements t ns
    → Returns (write_list ns) (λ f. read_list f (count_nodes ns) t) (λ n. 2 * n + 2) 0 ns

abbrev pub ChildrenOk : Nodes → Type 0
ChildrenOk ns = AreChildren ns → Returns (write_children ns) read_children (λ n. 2 * n) 1 ns

-- Fuel above a bound is a successor.
module _ (typ : ℕ) (out : Bytes) (v : Value) (n : ℕ) where
  value_fuel :
      ((g : ℕ) → n ≤ g → Reads (read_payload (read_list g) (read_children g) typ) out v)
      → (f : ℕ) → suc n ≤ f
      → Reads (read_value f typ) out v
  unfolding read_value
  value_fuel h zero b = absurd (omega arith)
  value_fuel h (suc g) b = h g (omega arith)

-- A value whose reading needs no recursion
leaf :
    (typ : ℕ) (v : Value) (out : Bytes)
    → write_value typ v ≡ ok out
    → 1 ≤ length out
    → ((g : ℕ) → Reads (read_payload (read_list g) (read_children g) typ) out v)
    → Carries v typ
leaf typ v out e long h = record {
  out = out;
  written = e;
  long = long;
  read_back = λ f b. value_fuel typ out v 0 (λ g _. h g) f (omega arith);
}

width_pos : (w typ : ℕ) (float : Bool) → is_number w float typ ≡ true → 1 ≤ w
width_pos w typ float h = ground arith

pub number_ok : (w : ℕ) (float : Bool) (n : ℕ) → ValueOk (number w float n)
unfolding write_value
number_ok w float n typ h =
    leaf typ (number w float n) (be_put w n) (rw h.0 refl)
      (omega (arith, length-be_put w n, width_pos w typ float h.0))
      (λ g. number-Reads (read_list g) (read_children g) w float n typ h.0 h.1)

prefixed : (w n : ℕ) (b : Bytes) → 1 ≤ w → 1 ≤ length (be_put w n ++ b)
prefixed w n b h = omega (arith, length-append (be_put w n) b, length-be_put w n)

pub bytes_ok : (b : Bytes) → ValueOk (bytes b)
unfolding write_value
bytes_ok b typ h = subst (Carries (bytes b)) (sym h.0) (
    leaf 7 (bytes b) (be_put 4 (length b) ++ b) refl (prefixed 4 (length b) b (omega arith))
      (λ g. bytes-Reads (read_list g) (read_children g) b h.1))

pub string_ok : (s : Str) → ValueOk (string s)
unfolding write_value write_string
string_ok s typ h = subst (Carries (string s)) (sym h.0) (
    leaf 8 (string s) (be_put 2 (length s) ++ s) (ground arith)
      (prefixed 2 (length s) s (omega arith))
      (λ g. string-Reads (read_list g) (read_children g) s h.1))

pub numbers_ok : (w : ℕ) (vs : List ℕ) → ValueOk (numbers w vs)
unfolding write_value
numbers_ok w vs typ h = elim h.0 [
  | inl (t, e) ↦
      subst (λ x. Carries (numbers x vs) typ) (sym e)
        (subst (Carries (numbers 4 vs)) (sym t) (
          leaf 11 (numbers 4 vs) (be_put 4 (length vs) ++ put_numbers 4 vs) refl
            (prefixed 4 (length vs) (put_numbers 4 vs) (omega arith))
            (λ g.
              ints-Reads (read_list g) (read_children g) vs h.1
                (subst (λ x. All (λ v. v < 256 ^ x) vs) e h.2))))
  | inr (t, e) ↦
      subst (λ x. Carries (numbers x vs) typ) (sym e)
        (subst (Carries (numbers 8 vs)) (sym t) (
          leaf 12 (numbers 8 vs) (be_put 4 (length vs) ++ put_numbers 8 vs) refl
            (prefixed 4 (length vs) (put_numbers 8 vs) (omega arith))
            (λ g.
              longs-Reads (read_list g) (read_children g) vs h.1
                (subst (λ x. All (λ v. v < 256 ^ x) vs) e h.2))))
]

-- The tag of a value that is there is a byte other than TAG_End.
pub tag_range : (typ : ℕ) (v : Value) → IsValue typ v → (0 < typ) × (typ < 256)
tag_range typ (number w float n) h = ground arith
tag_range typ (bytes b) h = omega arith
tag_range typ (string s) h = omega arith
tag_range typ (numbers w vs) h = ground arith
tag_range typ (nodes ns) h = elim h [
  | inl l ↦ (omega arith, omega arith)
  | inr c ↦ (omega arith, omega arith)
]

first_range : (ns : Nodes) → AreElements (first_tag ns) ns → first_tag ns < 256
first_range no_nodes h = omega arith
first_range (node name typ v ns) h = (tag_range typ v h.2).1

pub list_ok :
    (ns : Nodes)
    → ElementsOk ns
    → count_nodes ns < 2 ^ 31
    → AreElements (first_tag ns) ns
    → Carries (nodes ns) 9
unfolding write_value
list_ok ns ih small h =
    let r = ih (first_tag ns) h in
    let n = count_nodes ns in
    let t = first_tag ns in
    let header : Bytes = t ∷ be_put 4 n in
    record {
      out = header ++ r.out;
      written = rw r.written refl;
      long = omega arith;
      read_back = λ f b.
          value_fuel 9 (header ++ r.out) (nodes ns) (2 * length r.out + 2)
            (λ g enough.
              list-Reads (read_list g) (read_children g) t n ns r.out (first_range ns h) small
                (r.read_back g enough))
            f (omega (arith, length-append (be_put 4 n) r.out, length-be_put 4 n));
    }

pub compound_ok : (ns : Nodes) → ChildrenOk ns → AreChildren ns → Carries (nodes ns) 10
unfolding write_value
compound_ok ns ih h =
    let r = ih h in
    record {
      out = r.out;
      written = r.written;
      long = r.long;
      read_back = λ f b.
          value_fuel 10 r.out (nodes ns) (2 * length r.out)
            (λ g enough.
              compound-Reads (read_list g) (read_children g) ns r.out (r.read_back g enough))
            f (omega arith);
    }
