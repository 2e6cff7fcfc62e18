-- ===== src/Base/Sort.antt =====
-- The sorting functions of the standard library, as an insertion sort by a Boolean order.
use mathlib.Core.Path.{◌≡◌}
use mathlib.Core.Logic.{inl, inr}
use mathlib.Core.Bool.{Bool, true, false}
use mathlib.Core.List.{List, [], ◌∷◌}
use native.Mathlib.Omega.{arith}
use eliaukvpn.Base.Tests.{if◌then◌else◌}
use eliaukvpn.Base.Lists.{All, In}

module _ {ℓ} {A : Type ℓ} (le : A → A → Bool) where
  unfoldable pub insert : A → List A → List A
  insert x [] = x ∷ []
  insert x (y ∷ ys) = let rest = insert x ys in if le x y then x ∷ y ∷ ys else y ∷ rest

  unfoldable pub sort : List A → List A
  sort [] = []
  sort (x ∷ xs) = insert x (sort xs)

  abbrev pub IsSorted : List A → Type 0
  IsSorted [] = Unit
  IsSorted (x ∷ xs) = All (λ y. le x y ≡ true) xs × IsSorted xs

  pub In-insert : (x : A) (ys : List A) (z : A) → In z (insert x ys) → In z (x ∷ ys)
  unfolding insert
  In-insert x [] z i = i
  In-insert x (y ∷ ys) z i = ground (arith, In-insert x ys z)

  pub insert-In : (x : A) (ys : List A) (z : A) → In z (x ∷ ys) → In z (insert x ys)
  unfolding insert
  insert-In x [] z i = i
  insert-In x (y ∷ ys) z i = ground (arith, insert-In x ys z)

  -- Sorting keeps the elements.
  pub In-sort : (xs : List A) (z : A) → In z (sort xs) → In z xs
  unfolding sort
  In-sort [] z i = i
  In-sort (x ∷ xs) z i = ground (arith, In-insert x (sort xs) z i, In-sort xs z)

  pub sort-In : (xs : List A) (z : A) → In z xs → In z (sort xs)
  unfolding sort
  sort-In [] z i = i
  sort-In (x ∷ xs) z (inl e) = insert-In x (sort xs) z (inl e)
  sort-In (x ∷ xs) z (inr i) = insert-In x (sort xs) z (inr (sort-In xs z i))

-- Equal in the order is equal, as for strings.
pub record IsOrder {ℓ} {A : Type ℓ} (le : A → A → Bool) : Type ℓ where
  pub total : (x y : A) → le x y ≡ false → le y x ≡ true
  pub antisymm : (x y : A) → le x y ≡ true → le y x ≡ true → x ≡ y
  pub trans : (x y z : A) → le x y ≡ true → le y z ≡ true → le x z ≡ true

module _ {ℓ} {A : Type ℓ} (le : A → A → Bool) (o : IsOrder le) where
  -- Two insertions commute, so the result of sorting does not depend on the order of the input.
  pub insert_comm :
      (x y : A) (l : List A) → insert le x (insert le y l) ≡ insert le y (insert le x l)
  unfolding insert
  insert_comm x y [] = ground (arith, o.total x y, o.total y x, o.antisymm x y)
  insert_comm x y (z ∷ l) = ground (
    arith,
    insert_comm x y l,
    o.total x y,
    o.antisymm x y,
    o.trans x y z,
    o.trans y x z,
    o.total x z,
    o.total y z,
  )

  pub sort_swap : (x y : A) (l : List A) → sort le (x ∷ y ∷ l) ≡ sort le (y ∷ x ∷ l)
  unfolding sort
  sort_swap x y l = insert_comm x y (sort le l)
