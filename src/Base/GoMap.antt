-- ===== src/Base/GoMap.antt =====
-- Go's maps with string keys. The list's order stands for the order of a `range` over the map,
-- which Go leaves open: statements hold for every list, so for every order.
use mathlib.Core.Path.{◌≡◌}
use mathlib.Core.Option.{Option, none, some}
use mathlib.Core.List.{List, [], ◌∷◌}
use native.Mathlib.Omega.{arith}
use eliaukvpn.Base.Tests.{if◌then◌else◌}
use eliaukvpn.Base.Lists.{In}
use eliaukvpn.Base.Str.{Str, str_eq, str_eq_iff, str_eq_refl}

-- m[k] of a map to strings: the zero value where there is no entry
abbrev pub or_empty : Option Str → Str
or_empty none = []
or_empty (some s) = s

abbrev pub GoMap {ℓ} : Type ℓ → Type ℓ
GoMap V = List (Str × V)

module _ {ℓ} {V : Type ℓ} where
  -- v, ok := m[k]
  unfoldable pub get : Str → GoMap V → Option V
  get k [] = none
  get k ((j, v) ∷ m) = if str_eq j k then some v else get k m

  -- delete(m, k)
  unfoldable pub delete : Str → GoMap V → GoMap V
  delete k [] = []
  delete k ((j, v) ∷ m) = let rest = delete k m in if str_eq j k then rest else (j, v) ∷ rest

  -- m[k] = v
  unfoldable pub put : Str → V → GoMap V → GoMap V
  put k v m = (k, v) ∷ delete k m

  -- What `make` and these three operations build: no key stands twice.
  abbrev pub IsMap : GoMap V → Type ℓ
  IsMap [] = Unit
  IsMap ((k, v) ∷ m) = (get k m ≡ none) × IsMap m

  pub get-delete :
      (k j : Str) (m : GoMap V) → get j (delete k m) ≡ (if str_eq k j then none else get j m)
  unfolding get delete
  get-delete k j [] = ground arith
  get-delete k j ((i, v) ∷ m) =
      ground (arith, get-delete k j m, str_eq_iff i k, str_eq_iff i j, str_eq_iff k j)

  pub get-put :
      (k j : Str) (v : V) (m : GoMap V)
      → get j (put k v m) ≡ (if str_eq k j then some v else get j m)
  unfolding get put
  get-put k j v m = ground (arith, get-delete k j m)

  pub delete-IsMap : (k : Str) (m : GoMap V) → IsMap m → IsMap (delete k m)
  unfolding delete
  delete-IsMap k [] h = tt
  delete-IsMap k ((j, v) ∷ m) h = ground (arith, delete-IsMap k m h.1, get-delete k j m)

  pub get-delete_self : (k : Str) (m : GoMap V) → get k (delete k m) ≡ none
  get-delete_self k m = ground (arith, get-delete k k m, str_eq_refl k)

  pub get-put_self : (k : Str) (v : V) (m : GoMap V) → get k (put k v m) ≡ some v
  get-put_self k v m = ground (arith, get-put k k v m, str_eq_refl k)

  pub put-IsMap : (k : Str) (v : V) (m : GoMap V) → IsMap m → IsMap (put k v m)
  unfolding put
  put-IsMap k v m h = (get-delete_self k m, delete-IsMap k m h)

  pub get-In : (k : Str) (v : V) (m : GoMap V) → get k m ≡ some v → In (k, v) m
  unfolding get
  get-In k v [] e = cc
  get-In k v ((j, w) ∷ m) e = ground (arith, get-In k v m, str_eq_iff j k)

  pub In-get : (k : Str) (v : V) (m : GoMap V) → IsMap m → In (k, v) m → get k m ≡ some v
  unfolding get
  In-get k v [] h i = absurd i.1
  In-get k v ((j, w) ∷ m) h i = ground (arith, In-get k v m h.1, str_eq_iff j k)
