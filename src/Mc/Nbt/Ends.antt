-- ===== src/Mc/Nbt/Ends.antt =====
-- The NBT reader ends on every input.
use eliaukvpn.Base.{
  ℕ, zero, suc, ◌+◌, ◌*◌, ◌≤◌, ◌≢◌, refl, Option, none, some, [], length, arith, ◌==◌, Bool-cases,
  Option-cases, inl, inr,
}
use eliaukvpn.Base.Str.{Bytes}
use eliaukvpn.Base.Result.{Result, ok, err}
use eliaukvpn.Mc.Nbt.{
  Value, Nodes, number, bytes, string, numbers, nodes, no_nodes, node, NbtError, out_of_fuel,
  Reader, pure, ◌>>=◌, read_full, read_number, read_length, read_string, read_numbers, number_tag,
  read_payload, read_value, child_or_end, read_list, read_children, Root, root_or_none, read_nbt,
}
use eliaukvpn.Mc.Nbt.Uses.{
  Used, Uses, Used-le, bind-Uses, pure-Uses, read_full-Uses, read_number-Uses, read_length-Uses,
  read_string-Uses, read_numbers-Uses, map-Uses, tag_width,
}

module _ (elements : ℕ → ℕ → Reader Nodes) (children : Reader Nodes) where
  array-Uses :
      {A : Type 0} (p : ℕ → Reader A) (f : A → Value) (bs : Bytes)
      → ((n : ℕ) (rest : Bytes) → Uses 0 (p n) rest)
      → Uses 1 (read_length >>= λ n. p n >>= λ a. pure (f a)) bs
  array-Uses p f bs u =
      bind-Uses 4 0 1 read_length (λ n. p n >>= λ a. pure (f a)) bs (omega arith)
        (read_length-Uses bs) (λ n rest h. map-Uses 0 (p n) f rest (u n rest))

  full-Uses : (n : ℕ) (rest : Bytes) → Uses 0 (read_full n) rest
  full-Uses n rest =
      Used-le 0 n (length rest) (read_full n rest) (omega arith) (read_full-Uses n rest)

  list-Uses :
      (bs : Bytes)
      → ((n t : ℕ) (rest : Bytes) → length rest + 5 ≤ length bs → Uses 0 (elements n t) rest)
      → Uses 1 (read_number 1 >>= λ x. read_length >>= λ m. elements m x >>= λ y. pure (nodes y)) bs
  list-Uses bs u =
      bind-Uses 1 0 1 (read_number 1)
        (λ x. read_length >>= λ m. elements m x >>= λ y. pure (nodes y)) bs (omega arith)
        (read_number-Uses 1 bs)
        (λ t rest h.
          bind-Uses 4 0 0 read_length (λ m. elements m t >>= λ y. pure (nodes y)) rest (omega arith)
            (read_length-Uses rest)
            (λ n left k. map-Uses 0 (elements n t) (λ y. nodes y) left (u n t left (omega arith))))

  payload-Uses :
      (typ : ℕ) (bs : Bytes)
      → ((n t : ℕ) (rest : Bytes) → length rest + 5 ≤ length bs → Uses 0 (elements n t) rest)
      → Uses 1 children bs
      → Uses 1 (read_payload elements children typ) bs
  unfolding read_payload
  payload-Uses typ bs he hc = elim (Option-cases (number_tag typ)) [
    | inr (t, e) ↦
        rw (e, read_payload)
          (Used-le 1 t.0 (length bs) ((read_number t.0 >>= λ n. pure (number t.0 t.1 n)) bs)
            (tag_width typ t.0 t.1 e)
            (map-Uses t.0 (read_number t.0) (λ n. number t.0 t.1 n) bs (read_number-Uses t.0 bs)))
    | inl e ↦ elim (Bool-cases (typ == 7)) [
      | inl a ↦ rw (e, read_payload, a) (array-Uses read_full (λ b. bytes b) bs full-Uses)
      | inr na ↦ elim (Bool-cases (typ == 8)) [
        | inl b ↦
            rw (e, read_payload, na, b)
              (Used-le 1 2 (length bs) ((read_string >>= λ s. pure (string s)) bs) (omega arith)
                (map-Uses 2 read_string (λ s. string s) bs (read_string-Uses bs)))
        | inr nb ↦ elim (Bool-cases (typ == 9)) [
          | inl c ↦ rw (e, read_payload, na, nb, c) (list-Uses bs he)
          | inr nc ↦ elim (Bool-cases (typ == 10)) [
            | inl d ↦ rw (e, read_payload, na, nb, nc, d) (map-Uses 1 children (λ y. nodes y) bs hc)
            | inr nd ↦ elim (Bool-cases (typ == 11)) [
              | inl i ↦
                  rw (e, read_payload, na, nb, nc, nd, i)
                    (array-Uses (read_numbers 4) (λ vs. numbers 4 vs) bs (read_numbers-Uses 4))
              | inr ni ↦ elim (Bool-cases (typ == 12)) [
                | inl l ↦
                    rw (e, read_payload, na, nb, nc, nd, ni, l)
                      (array-Uses (read_numbers 8) (λ vs. numbers 8 vs) bs (read_numbers-Uses 8))
                | inr nl ↦ rw (e, read_payload, na, nb, nc, nd, ni, nl) refl
              ]
            ]
          ]
        ]
      ]
    ]
  ]

-- The child whose tag was read, and the children after it
child-Uses :
    (value : ℕ → Reader Value) (children : Reader Nodes) (typ : ℕ) (bs : Bytes)
    → ((rest : Bytes) → length rest + 2 ≤ length bs → Uses 1 (value typ) rest)
    → ((rest : Bytes) → length rest + 3 ≤ length bs → Uses 1 children rest)
    → Uses 0 (child_or_end value children typ) bs
unfolding child_or_end
child-Uses value children typ bs hv hc = elim (Bool-cases (typ == 0)) [
  | inl last ↦ rw last (pure-Uses no_nodes bs)
  | inr more ↦ rw more (
      bind-Uses 2 1 0 read_string
        (λ m. value typ >>= λ w. children >>= λ ms. pure (node m typ w ms)) bs (omega arith)
        (read_string-Uses bs)
        (λ m rest h.
          bind-Uses 1 1 1 (value typ) (λ w. children >>= λ ms. pure (node m typ w ms)) rest
            (omega arith) (hv rest h)
            (λ w left k. map-Uses 1 children (λ ms. node m typ w ms) left (hc left (omega arith)))))
]

mutual
  unfolding read_value

  value-Uses : (f typ : ℕ) (bs : Bytes) → 2 * length bs + 2 ≤ f → Uses 1 (read_value f typ) bs
  value-Uses zero typ bs h = absurd (omega arith)
  value-Uses (suc f) typ bs h =
      payload-Uses (read_list f) (read_children f) typ bs
        (λ n t rest k. elements-Uses f n t rest (omega arith)) (children-Uses f bs (omega arith))

  elements-Uses : (f n t : ℕ) (bs : Bytes) → 2 * length bs + 3 ≤ f → Uses 0 (read_list f n t) bs
  elements-Uses zero n t bs h = absurd (omega arith)
  elements-Uses (suc f) zero t bs h = pure-Uses no_nodes bs
  elements-Uses (suc f) (suc n) t bs h =
      bind-Uses 1 0 0 (read_value f t) (λ w. read_list f n t >>= λ ms. pure (node [] t w ms)) bs
        (omega arith) (value-Uses f t bs (omega arith))
        (λ w rest k.
          map-Uses 0 (read_list f n t) (λ ms. node [] t w ms) rest
            (elements-Uses f n t rest (omega arith)))

  children-Uses : (f : ℕ) (bs : Bytes) → 2 * length bs + 1 ≤ f → Uses 1 (read_children f) bs
  children-Uses zero bs h = absurd (omega arith)
  children-Uses (suc f) bs h =
      bind-Uses 1 0 1 (read_number 1) (child_or_end (read_value f) (read_children f)) bs
        (omega arith) (read_number-Uses 1 bs)
        (λ t rest k.
          child-Uses (read_value f) (read_children f) t rest
            (λ left g. value-Uses f t left (omega arith))
            (λ left g. children-Uses f left (omega arith)))

not_ran_out :
    {A : Type 0} (L : ℕ) (r : Result NbtError (A × Bytes)) → Used 1 L r → r ≢ err out_of_fuel
not_ran_out L (err e) u h = ground arith
not_ran_out L (ok r) u h = cc

root-Uses :
    (f typ : ℕ) (bs : Bytes)
    → ((rest : Bytes) → length rest + 2 ≤ length bs → Uses 1 (read_value f typ) rest)
    → Uses 0 (root_or_none f typ) bs
unfolding root_or_none
root-Uses f typ bs hv = elim (Bool-cases (typ == 0)) [
  | inl last ↦ rw last (pure-Uses {A = Option Root} none bs)
  | inr more ↦ rw more (
      bind-Uses 2 0 0 read_string
        (λ m. read_value f typ >>= λ w. pure (some (record { name = m; typ = typ; val = w }))) bs
        (omega arith) (read_string-Uses bs)
        (λ m rest h.
          Used-le 0 1 (length rest)
            ((read_value f typ >>= λ w. pure (some (record { name = m; typ = typ; val = w }))) rest)
            (omega arith)
            (map-Uses 1 (read_value f typ) (λ w. some (record { name = m; typ = typ; val = w }))
              rest (hv rest h))))
]

-- Whatever bytes a file holds, reading it ends: the fuel of readNBT is enough.
pub read_nbt-ends : (bs : Bytes) → read_nbt bs ≢ err out_of_fuel
unfolding read_nbt
read_nbt-ends bs =
    let f : ℕ = 2 * length bs + 2 in
    not_ran_out (length bs) (read_nbt bs) (
      bind-Uses 1 0 1 (read_number 1) (root_or_none f) bs (omega arith) (read_number-Uses 1 bs)
        (λ t rest k. root-Uses f t rest (λ left g. value-Uses f t left (omega arith))))
