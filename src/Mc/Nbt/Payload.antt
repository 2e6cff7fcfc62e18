-- ===== src/Mc/Nbt/Payload.antt =====
-- The cases of the NBT reader, each on what the writer writes for it, and the values that NBT can
-- hold.
use eliaukvpn.Base.{
  ℕ, ◌^◌, ◌<◌, ◌≡◌, ◌⊎◌, some, List, [], ◌∷◌, ◌++◌, All, length, arith, true, Bool,
}
use eliaukvpn.Base.Str.{Str, Bytes}
use eliaukvpn.Base.BigEndian.{be_put}
use eliaukvpn.Mc.Nbt.{
  Value, Nodes, number, bytes, string, numbers, nodes, no_nodes, node, Reader, pure, ◌>>=◌,
  read_full, read_number, read_length, read_string, read_numbers, number_tag, read_payload,
  tag_byte_array, tag_string, tag_list, tag_compound, tag_int_array, tag_long_array,
}
use eliaukvpn.Mc.Nbt.Writer.{put_numbers, is_number, count_nodes, first_tag}
use eliaukvpn.Mc.Nbt.Primitives.{
  Reads, read_full-Reads, bind_step, then-Reads, read_number-Reads, read_byte-Reads,
  read_length-Reads, read_string-Reads, read_numbers-Reads,
}

-- The values that NBT can hold under a tag: lengths and numbers that fit, the Go type that the tag
-- says, and lists whose nodes have one tag and no names.
abbrev mutual
  pub IsValue : ℕ → Value → Type 0
  IsValue typ (number w float v) = (is_number w float typ ≡ true) × (v < 256 ^ w)
  IsValue typ (bytes b) = (typ ≡ tag_byte_array) × (length b < 2 ^ 31)
  IsValue typ (string s) = (typ ≡ tag_string) × (length s < 65536)
  IsValue typ (numbers w vs) =
      (((typ ≡ tag_int_array) × (w ≡ 4)) ⊎ ((typ ≡ tag_long_array) × (w ≡ 8)))
      × (length vs < 2 ^ 31)
      × All (λ v. v < 256 ^ w) vs
  IsValue typ (nodes ns) =
      ((typ ≡ tag_list) × (count_nodes ns < 2 ^ 31) × AreElements (first_tag ns) ns)
      ⊎ ((typ ≡ tag_compound) × AreChildren ns)

  pub AreElements : ℕ → Nodes → Type 0
  AreElements t no_nodes = Unit
  AreElements t (node name typ v ns) = (name ≡ []) × (typ ≡ t) × IsValue t v × AreElements t ns

  pub AreChildren : Nodes → Type 0
  AreChildren no_nodes = Unit
  AreChildren (node name typ v ns) = (length name < 65536) × IsValue typ v × AreChildren ns

module _ (elements : ℕ → ℕ → Reader Nodes) (children : Reader Nodes) where
  abbrev payload : ℕ → Reader Value
  payload = read_payload elements children

  tag_of :
      (w : ℕ) (float : Bool) (typ : ℕ)
      → is_number w float typ ≡ true
      → number_tag typ ≡ some (w, float)
  tag_of w float typ h = ground arith

  pub number-Reads :
      (w : ℕ) (float : Bool) (v typ : ℕ)
      → is_number w float typ ≡ true
      → v < 256 ^ w
      → Reads (payload typ) (be_put w v) (number w float v)
  unfolding read_payload
  number-Reads w float v typ is small rest =
      rw (tag_of w float typ is, read_payload)
        (bind_step (read_number w) (λ n. pure (number w float n)) (be_put w v ++ rest) rest v
          (read_number-Reads w v small rest))

  pub bytes-Reads :
      (b : Bytes) → length b < 2 ^ 31 → Reads (payload 7) (be_put 4 (length b) ++ b) (bytes b)
  unfolding read_payload
  bytes-Reads b small =
      then-Reads read_length (λ n. read_full n >>= λ x. pure (bytes x)) (be_put 4 (length b)) b
        (length b) (bytes b) (read_length-Reads (length b) small)
        (λ rest.
          bind_step (read_full (length b)) (λ x. pure (bytes x)) (b ++ rest) rest b
            (read_full-Reads b rest))

  pub string-Reads :
      (s : Str) → length s < 65536 → Reads (payload 8) (be_put 2 (length s) ++ s) (string s)
  unfolding read_payload
  string-Reads s small rest =
      bind_step read_string (λ x. pure (string x)) ((be_put 2 (length s) ++ s) ++ rest) rest s
        (read_string-Reads s small rest)

  pub ints-Reads :
      (vs : List ℕ)
      → length vs < 2 ^ 31
      → All (λ v. v < 256 ^ 4) vs
      → Reads (payload 11) (be_put 4 (length vs) ++ put_numbers 4 vs) (numbers 4 vs)
  unfolding read_payload
  ints-Reads vs small fits =
      then-Reads read_length (λ n. read_numbers 4 n >>= λ x. pure (numbers 4 x))
        (be_put 4 (length vs)) (put_numbers 4 vs) (length vs) (numbers 4 vs)
        (read_length-Reads (length vs) small)
        (λ rest.
          bind_step (read_numbers 4 (length vs)) (λ x. pure (numbers 4 x))
            (put_numbers 4 vs ++ rest) rest vs (read_numbers-Reads 4 vs fits rest))

  pub longs-Reads :
      (vs : List ℕ)
      → length vs < 2 ^ 31
      → All (λ v. v < 256 ^ 8) vs
      → Reads (payload 12) (be_put 4 (length vs) ++ put_numbers 8 vs) (numbers 8 vs)
  unfolding read_payload
  longs-Reads vs small fits =
      then-Reads read_length (λ n. read_numbers 8 n >>= λ x. pure (numbers 8 x))
        (be_put 4 (length vs)) (put_numbers 8 vs) (length vs) (numbers 8 vs)
        (read_length-Reads (length vs) small)
        (λ rest.
          bind_step (read_numbers 8 (length vs)) (λ x. pure (numbers 8 x))
            (put_numbers 8 vs ++ rest) rest vs (read_numbers-Reads 8 vs fits rest))

  pub list-Reads :
      (t n : ℕ) (ns : Nodes) (out : Bytes)
      → t < 256
      → n < 2 ^ 31
      → Reads (elements n t) out ns
      → Reads (payload 9) ((t ∷ be_put 4 n) ++ out) (nodes ns)
  unfolding read_payload
  list-Reads t n ns out byte small inner =
      then-Reads (read_number 1) (λ x. read_length >>= λ m. elements m x >>= λ y. pure (nodes y))
        (t ∷ []) (be_put 4 n ++ out) t (nodes ns) (read_byte-Reads t byte)
        (then-Reads read_length (λ m. elements m t >>= λ y. pure (nodes y)) (be_put 4 n) out n
          (nodes ns) (read_length-Reads n small)
          (λ rest.
            bind_step (elements n t) (λ y. pure (nodes y)) (out ++ rest) rest ns (inner rest)))

  pub compound-Reads :
      (ns : Nodes) (out : Bytes) → Reads children out ns → Reads (payload 10) out (nodes ns)
  unfolding read_payload
  compound-Reads ns out inner rest =
      bind_step children (λ y. pure (nodes y)) (out ++ rest) rest ns (inner rest)
