-- ===== src/Mc/Nbt/Uses.antt =====
-- How many bytes a step of the NBT reader uses, and that it does not run out of fuel by itself.
use eliaukvpn.Base.{
  ℕ, zero, suc, ◌+◌, ◌^◌, ◌≤◌, ◌≡◌, refl, some, List, [], ◌∷◌, length, length-drop, arith,
  if◌then◌else◌, true, false, Bool, ltb, Bool-cases, inl, inr,
}
use eliaukvpn.Base.Str.{Bytes}
use eliaukvpn.Base.Result.{Result, ok, err}
use eliaukvpn.Base.BigEndian.{be_get}
use eliaukvpn.Mc.Nbt.{
  NbtError, out_of_fuel, panicked, Reader, pure, fail, ◌>>=◌, read_full, read_number, read_length,
  read_string, read_numbers, number_tag,
}

abbrev pub ran_out : NbtError → Bool
ran_out out_of_fuel = true
ran_out _ = false

-- A result with fuel left over, and with at least k bytes taken off the L that there were.
abbrev pub Used : {A : Type 0} → ℕ → ℕ → Result NbtError (A × Bytes) → Type 0
Used k L (err e) = ran_out e ≡ false
Used k L (ok r) = length r.1 + k ≤ L

abbrev pub Uses : {A : Type 0} → ℕ → Reader A → Bytes → Type 0
Uses k p bs = Used k (length bs) (p bs)

pub Used-le :
    {A : Type 0} (i j L : ℕ) (r : Result NbtError (A × Bytes)) → i ≤ j → Used j L r → Used i L r
Used-le i j L (err e) h u = u
Used-le i j L (ok r) h u = omega arith

-- What is taken off the rest is taken off the whole.
pub Used-rest :
    {A : Type 0} (i j n L : ℕ) (r : Result NbtError (A × Bytes))
    → n + i ≤ L
    → Used j n r
    → Used (i + j) L r
Used-rest i j n L (err e) h u = u
Used-rest i j n L (ok r) h u = omega arith

pub Used-bind :
    {A B : Type 0} (i j L : ℕ) (r : Result NbtError (A × Bytes)) (q : A → Reader B)
    → Used i L r
    → ((a : A) (rest : Bytes) → length rest + i ≤ L → Uses j (q a) rest)
    → Used (i + j) L (elim r [ err e ↦ err e | ok (a, rest) ↦ q a rest ])
Used-bind i j L (err e) q u h = u
Used-bind i j L (ok (a, rest)) q u h = Used-rest i j (length rest) L (q a rest) u (h a rest u)

-- One reader after another, which together take k bytes
pub bind-Uses :
    {A B : Type 0} (i j k : ℕ) (p : Reader A) (q : A → Reader B) (bs : Bytes)
    → k ≤ i + j
    → Uses i p bs
    → ((a : A) (rest : Bytes) → length rest + i ≤ length bs → Uses j (q a) rest)
    → Uses k (p >>= q) bs
bind-Uses i j k p q bs h u v =
    Used-le k (i + j) (length bs) ((p >>= q) bs) h (Used-bind i j (length bs) (p bs) q u v)

pub pure-Uses : {A : Type 0} (a : A) (bs : Bytes) → Uses 0 (pure a) bs
pure-Uses a bs = omega arith

pub read_full-Uses : (n : ℕ) (bs : Bytes) → Uses n (read_full n) bs
unfolding read_full
read_full-Uses n bs = elim (Bool-cases (ltb (length bs) n)) [
  | inl short ↦ rw short refl
  | inr fits ↦ rw fits (ground (arith, length-drop n bs))
]

pub read_number-Uses : (w : ℕ) (bs : Bytes) → Uses w (read_number w) bs
unfolding read_number
read_number-Uses w bs =
    bind-Uses w 0 w (read_full w) (λ b. pure (be_get b)) bs (omega arith) (read_full-Uses w bs)
      (λ b rest h. pure-Uses (be_get b) rest)

pub read_length-Uses : (bs : Bytes) → Uses 4 read_length bs
unfolding read_length
read_length-Uses bs =
    bind-Uses 4 0 4 (read_number 4) (λ n. if ltb n (2 ^ 31) then pure n else fail panicked) bs
      (omega arith) (read_number-Uses 4 bs)
      (λ n rest h. elim (Bool-cases (ltb n (2 ^ 31))) [
        | inl fits ↦ rw fits (pure-Uses n rest)
        | inr negative ↦ rw negative refl
      ])

pub read_string-Uses : (bs : Bytes) → Uses 2 read_string bs
unfolding read_string
read_string-Uses bs =
    bind-Uses 2 0 2 (read_number 2) read_full bs (omega arith) (read_number-Uses 2 bs) (λ n rest h.
      Used-le 0 n (length rest) (read_full n rest) (omega arith) (read_full-Uses n rest))

pub read_numbers-Uses : (w n : ℕ) (bs : Bytes) → Uses 0 (read_numbers w n) bs
unfolding read_numbers
read_numbers-Uses w zero bs = pure-Uses {A = List ℕ} [] bs
read_numbers-Uses w (suc n) bs =
    bind-Uses w 0 0 (read_number w) (λ v. read_numbers w n >>= λ vs. pure (v ∷ vs)) bs (omega arith)
      (read_number-Uses w bs)
      (λ v rest h.
        bind-Uses 0 0 0 (read_numbers w n) (λ vs. pure (v ∷ vs)) rest (omega arith)
          (read_numbers-Uses w n rest) (λ vs left k. pure-Uses (v ∷ vs) left))

-- A reader, then a value made of what it read
pub map-Uses :
    {A B : Type 0} (i : ℕ) (p : Reader A) (f : A → B) (bs : Bytes)
    → Uses i p bs
    → Uses i (p >>= λ a. pure (f a)) bs
map-Uses i p f bs u =
    bind-Uses i 0 i p (λ a. pure (f a)) bs (omega arith) u (λ a rest h. pure-Uses (f a) rest)

pub tag_width : (typ w : ℕ) (float : Bool) → number_tag typ ≡ some (w, float) → 1 ≤ w
tag_width typ w float h = ground arith
