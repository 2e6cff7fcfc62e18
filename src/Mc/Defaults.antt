-- ===== src/Mc/Defaults.antt =====
-- What a merged server.properties of mc.go holds.
use eliaukvpn.Base.{
  ◌≡◌, refl, sym, ap, subst, ◌∙◌, inl, inr, true, false, none, some, List, [], ◌∷◌, ◌++◌, map, In,
  Bool-cases, Option-cases, ◌⊎◌,
}
use eliaukvpn.Base.Str.{Str, str_eq, str_eq_iff}
use eliaukvpn.Base.GoMap.{GoMap, get, IsMap, In-get, get-In}
use eliaukvpn.Mc.{key_of, setting, set_line, key_seen, missing, merge_properties}

In-left : (x : Str) (xs ys : List Str) → In x xs → In x (xs ++ ys)
In-left x [] ys i = absurd i.1
In-left x (z ∷ xs) ys (inl e) = inl e
In-left x (z ∷ xs) ys (inr i) = inr (In-left x xs ys i)

In-right : (x : Str) (xs ys : List Str) → In x ys → In x (xs ++ ys)
In-right x [] ys i = i
In-right x (z ∷ xs) ys i = inr (In-right x xs ys i)

In-map : (f : Str → Str) (x : Str) (xs : List Str) → In x xs → In (f x) (map f xs)
In-map f x [] i = absurd i.1
In-map f x (z ∷ xs) (inl e) = inl (ap f e)
In-map f x (z ∷ xs) (inr i) = inr (In-map f x xs i)

-- A line with a key that is seen.
key_seen-In :
    (key : Str) (lines : List Str)
    → key_seen key lines ≡ true
    → (l : Str) × In l lines × (key_of l ≡ key)
unfolding key_seen
key_seen-In key [] h = cc
key_seen-In key (l ∷ lines) h = elim (Bool-cases (str_eq (key_of l) key)) [
  | inl here ↦ (l, inl refl, (str_eq_iff (key_of l) key).0 here)
  | inr other ↦ let (l', i, e) = key_seen-In key lines (rw (key_seen, other) at h) in (l', inr i, e)
]

missing-In :
    (lines : List Str) (defaults : GoMap Str) (k v : Str)
    → In (k, v) defaults
    → key_seen k lines ≡ false
    → In (setting k v) (missing lines defaults)
unfolding missing
missing-In lines [] k v i h = absurd i.1
missing-In lines ((k', v') ∷ defaults) k v (inl e) h =
    rw (missing, ap (λ z. key_seen z.0 lines) (sym e) ∙ h)
      (inl (ap (λ (z : Str × Str). setting z.0 z.1) e))
missing-In lines ((k', v') ∷ defaults) k v (inr i) h = elim (Bool-cases (key_seen k' lines)) [
  | inl there ↦ rw (missing, there) (missing-In lines defaults k v i h)
  | inr absent ↦ rw (missing, absent) (inr (missing-In lines defaults k v i h))
]

set_line-setting :
    (defaults : GoMap Str) (l v : Str)
    → get (key_of l) defaults ≡ some v
    → set_line defaults l ≡ setting (key_of l) v
unfolding set_line
set_line-setting defaults l v h = rw (h, set_line) refl

set_line-none :
    (defaults : GoMap Str) (l : Str) → get (key_of l) defaults ≡ none → set_line defaults l ≡ l
unfolding set_line
set_line-none defaults l h = rw (h, set_line) refl

-- A line of the user whose key has no default.
abbrev pub IsForeign : GoMap Str → List Str → Str → Type 0
IsForeign defaults lines l = In l lines × (get (key_of l) defaults ≡ none)

-- The default setting of some key.
abbrev pub IsDefault : GoMap Str → Str → Type 0
IsDefault defaults l = (k : Str) × (v : Str) × In (k, v) defaults × (l ≡ setting k v)

split : (x : Str) (xs ys : List Str) → In x (xs ++ ys) → In x xs ⊎ In x ys
split x [] ys i = inr i
split x (z ∷ xs) ys (inl e) = inl (inl e)
split x (z ∷ xs) ys (inr i) = elim (split x xs ys i) [ inl l ↦ inl (inr l) | inr r ↦ inr r ]

missing-IsDefault :
    (lines : List Str) (defaults all : GoMap Str) (l : Str)
    → ((k v : Str) → In (k, v) defaults → In (k, v) all)
    → In l (missing lines defaults)
    → IsDefault all l
unfolding missing
missing-IsDefault lines [] all l h i = absurd i.1
missing-IsDefault lines ((k, v) ∷ defaults) all l h i = elim (Bool-cases (key_seen k lines)) [
  | inl there ↦
      missing-IsDefault lines defaults all l (λ k' v' j. h k' v' (inr j)) (rw (missing, there) at i)
  | inr absent ↦ elim (rw (missing, absent) at i) [
    | inl e ↦ (k, v, h k v (inl refl), e)
    | inr j ↦ missing-IsDefault lines defaults all l (λ k' v' j'. h k' v' (inr j')) j
  ]
]

lines-IsForeign :
    (defaults : GoMap Str) (lines : List Str) (l : Str)
    → In l (map (set_line defaults) lines)
    → IsForeign defaults lines l ⊎ IsDefault defaults l
lines-IsForeign defaults [] l i = absurd i.1
lines-IsForeign defaults (z ∷ lines) l (inl e) = elim (Option-cases (get (key_of z) defaults)) [
  | inl own ↦
      let same : l ≡ z = e ∙ set_line-none defaults z own in
      inl (inl same, ap (λ x. get (key_of x) defaults) same ∙ own)
  | inr (v, found) ↦
      inr (key_of z, v, get-In (key_of z) v defaults found, e ∙ set_line-setting defaults z v found)
]
lines-IsForeign defaults (z ∷ lines) l (inr i) = elim (lines-IsForeign defaults lines l i) [
  | inl (j, own) ↦ inl (inr j, own)
  | inr d ↦ inr d
]

merged_line :
    (defaults : GoMap Str) (lines : List Str) (l : Str)
    → In l (map (set_line defaults) lines ++ missing lines defaults)
    → IsForeign defaults lines l ⊎ IsDefault defaults l
merged_line defaults lines l i =
    elim (split l (map (set_line defaults) lines) (missing lines defaults) i) [
      | inl a ↦ lines-IsForeign defaults lines l a
      | inr b ↦ inr (missing-IsDefault lines defaults defaults l (λ k v j. j) b)
    ]

-- The merge overwrites the user's settings, against what the comment of PrepareServerDir says: the
-- merged file holds the default setting of every key that has a default, whatever the user had set
-- it to, and every line whose key has none, and no other line.
pub merge_defaults :
    (defaults : GoMap Str) (lines : List Str)
    → IsMap defaults
    → ((k v : Str) → In (k, v) defaults → In (setting k v) (merge_properties defaults lines))
      × ((l : Str)
          → In l lines
          → get (key_of l) defaults ≡ none
          → In l (merge_properties defaults lines))
      × ((l : Str)
          → In l (merge_properties defaults lines)
          → IsForeign defaults lines l ⊎ IsDefault defaults l)
unfolding merge_properties
merge_defaults defaults lines m = (set, kept, λ l i. merged_line defaults lines l i)
  where
    set :
        (k v : Str)
        → In (k, v) defaults
        → In (setting k v) (map (set_line defaults) lines ++ missing lines defaults)
    set k v i = elim (Bool-cases (key_seen k lines)) [
      | inr absent ↦
          In-right (setting k v) (map (set_line defaults) lines) (missing lines defaults)
            (missing-In lines defaults k v i absent)
      | inl there ↦
          let (l, at, same) = key_seen-In k lines there in
          let found : get (key_of l) defaults ≡ some v =
            ap (λ z. get z defaults) same ∙ In-get k v defaults m i in
          let line : set_line defaults l ≡ setting k v =
            set_line-setting defaults l v found ∙ ap (λ z. setting z v) same in
          In-left (setting k v) (map (set_line defaults) lines) (missing lines defaults) (
            subst (λ z. In z (map (set_line defaults) lines)) line
              (In-map (set_line defaults) l lines at))
    ]

    kept :
        (l : Str)
        → In l lines
        → get (key_of l) defaults ≡ none
        → In l (map (set_line defaults) lines ++ missing lines defaults)
    kept l i h = In-left l (map (set_line defaults) lines) (missing lines defaults) (
        subst (λ z. In z (map (set_line defaults) lines)) (set_line-none defaults l h)
          (In-map (set_line defaults) l lines i))
