-- ===== src/Mc/Nbt/Primitives.antt =====
-- The parts of the NBT reader without recursion, on what the writer writes.
use eliaukvpn.Base.{
  ℕ, ◌^◌, ◌<◌, ◌≡◌, refl, sym, ap, ◌∙◌, List, [], ◌∷◌, ◌++◌, append_assoc, All, length, ltb,
  take-append, drop-append, length-append, arith, if◌then◌else◌, false, lt→ltb,
}
use eliaukvpn.Base.Str.{Str, Bytes}
use eliaukvpn.Base.BigEndian.{be_put, be_get, length-be_put, be_get-be_put}
use eliaukvpn.Base.Result.{ok}
use eliaukvpn.Mc.Nbt.{
  Reader, pure, fail, panicked, ◌>>=◌, read_full, read_number, read_length, read_string,
  read_numbers,
}
use eliaukvpn.Mc.Nbt.Writer.{put_numbers}

-- The reader reads `a` off what was written and leaves what follows.
abbrev pub Reads : {A : Type 0} → Reader A → Bytes → A → Type 0
Reads p out a = (rest : Bytes) → p (out ++ rest) ≡ ok (a, rest)

pub read_full-Reads : (b : Bytes) → Reads (read_full (length b)) b b
unfolding read_full
read_full-Reads b rest =
    let fits : ltb (length (b ++ rest)) (length b) ≡ false = ground (arith, length-append b rest) in
    rw (fits, take-append b rest, drop-append b rest) refl

-- A bind whose first reader is known
pub bind_step :
    {A B : Type 0} (p : Reader A) (q : A → Reader B) (bs left : Bytes) (a : A)
    → p bs ≡ ok (a, left)
    → (p >>= q) bs ≡ q a left
bind_step p q bs left a e = rw (e, ◌>>=◌) refl

-- One reader after another
pub then-Reads :
    {A B : Type 0} (p : Reader A) (q : A → Reader B) (x y : Bytes) (a : A) (b : B)
    → Reads p x a
    → Reads (q a) y b
    → Reads (p >>= q) (x ++ y) b
then-Reads p q x y a b hp hq rest =
    ap (p >>= q) (append_assoc x y rest)
    ∙ bind_step p q (x ++ (y ++ rest)) (y ++ rest) a (hp (y ++ rest))
    ∙ hq rest

pub read_number-Reads : (w n : ℕ) → n < 256 ^ w → Reads (read_number w) (be_put w n) n
unfolding read_number
read_number-Reads w n h rest =
    let e : read_full w (be_put w n ++ rest) ≡ ok (be_put w n, rest) =
      ap (λ k. read_full k (be_put w n ++ rest)) (sym (length-be_put w n))
      ∙ read_full-Reads (be_put w n) rest in
    bind_step (read_full w) (λ b. pure (be_get b)) (be_put w n ++ rest) rest (be_put w n) e
    ∙ ap (λ m. ok (m, rest)) (be_get-be_put w n h)

pub read_byte-Reads : (b : ℕ) → b < 256 → Reads (read_number 1) (b ∷ []) b
read_byte-Reads b h rest = rw one at (read_number-Reads 1 b (omega arith) rest)
  where
    one : be_put 1 b ≡ b ∷ []
    one = unfold be_put in ap (λ x. x ∷ []) (omega arith)

pub read_length-Reads : (n : ℕ) → n < 2 ^ 31 → Reads read_length (be_put 4 n) n
unfolding read_length
read_length-Reads n h rest =
    bind_step (read_number 4) (λ m. if ltb m (2 ^ 31) then pure m else fail panicked)
      (be_put 4 n ++ rest) rest n (read_number-Reads 4 n (omega arith) rest)
    ∙ rw (lt→ltb n (2 ^ 31) h) refl

pub read_string-Reads :
    (s : Str) → length s < 65536 → Reads read_string (be_put 2 (length s) ++ s) s
unfolding read_string
read_string-Reads s h =
    then-Reads (read_number 2) read_full (be_put 2 (length s)) s (length s) s
      (read_number-Reads 2 (length s) (omega arith)) (read_full-Reads s)

pub read_numbers-Reads :
    (w : ℕ) (vs : List ℕ)
    → All (λ v. v < 256 ^ w) vs
    → Reads (read_numbers w (length vs)) (put_numbers w vs) vs
unfolding read_numbers
read_numbers-Reads w [] h = λ rest. refl
read_numbers-Reads w (v ∷ vs) h =
    then-Reads (read_number w) (λ x. read_numbers w (length vs) >>= λ xs. pure (x ∷ xs))
      (be_put w v) (put_numbers w vs) v (v ∷ vs) (read_number-Reads w v h.0)
      (λ rest.
        bind_step (read_numbers w (length vs)) (λ xs. pure (v ∷ xs)) (put_numbers w vs ++ rest) rest
          vs (read_numbers-Reads w vs h.1 rest))
