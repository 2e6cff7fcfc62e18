-- ===== src/Update/Order.antt =====
-- The order of versions in update.go.
use eliaukvpn.Base.{
  ℕ, zero, suc, subst, ◌∙◌, ◌≡◌, ◌<◌, ◌↔◌, inl, inr, true, false, List, [], ◌∷◌, arith, get_or, ltb,
  ◌==◌, Bool-cases,
}
use eliaukvpn.Base.Str.{Str}
use eliaukvpn.Update.{newer_numbers, numbers_of, newer}

-- The number at a place, 0 past the end.
abbrev pub part : List ℕ → ℕ → ℕ
part xs i = get_or xs i 0

-- The first place where two versions differ has the larger number on the left.
abbrev pub Larger : List ℕ → List ℕ → Type 0
Larger xs ys = (i : ℕ) × ((j : ℕ) → j < i → part xs j ≡ part ys j) × (part ys i < part xs i)

-- What one more number in front does.
step_up :
    (f g : ℕ → ℕ) (i : ℕ)
    → f 0 ≡ g 0
    → ((j : ℕ) → j < i → f (suc j) ≡ g (suc j))
    → (j : ℕ) → j < suc i
    → f j ≡ g j
step_up f g i e h zero p = e
step_up f g i e h (suc j) p = h j (omega arith)

newer_numbers-Larger : (xs ys : List ℕ) → newer_numbers xs ys ≡ true → Larger xs ys
unfolding newer_numbers
newer_numbers-Larger [] [] h = cc
newer_numbers-Larger (x ∷ xs) (y ∷ ys) h = elim (Bool-cases (x == y)) [
  | inr apart ↦ (0, (λ j p. absurd (omega arith)), ground arith)
  | inl same ↦
      let (i, before, larger) = newer_numbers-Larger xs ys (rw (same, newer_numbers) at h) in
      (suc i, step_up (part (x ∷ xs)) (part (y ∷ ys)) i (ground arith) before, larger)
]
newer_numbers-Larger (x ∷ xs) [] h = elim (Bool-cases (x == 0)) [
  | inr apart ↦ (0, (λ j p. absurd (omega arith)), ground arith)
  | inl same ↦
      let (i, before, larger) = newer_numbers-Larger xs [] (rw (same, newer_numbers) at h) in
      (suc i, step_up (part (x ∷ xs)) (part []) i (ground arith) before, larger)
]
newer_numbers-Larger [] (y ∷ ys) h = elim (Bool-cases (0 == y)) [
  | inr apart ↦ (0, (λ j p. absurd (omega arith)), ground arith)
  | inl same ↦
      let (i, before, larger) = newer_numbers-Larger [] ys (rw (same, newer_numbers) at h) in
      (suc i, step_up (part []) (part (y ∷ ys)) i (ground arith) before, larger)
]

Larger-newer_numbers : (xs ys : List ℕ) → Larger xs ys → newer_numbers xs ys ≡ true
unfolding newer_numbers
Larger-newer_numbers [] [] (i, before, larger) = absurd (omega (arith, larger))
Larger-newer_numbers (x ∷ xs) (y ∷ ys) (zero, before, larger) = ground arith
Larger-newer_numbers (x ∷ xs) (y ∷ ys) (suc i, before, larger) =
    let rest : newer_numbers xs ys ≡ true =
      Larger-newer_numbers xs ys (i, (λ j p. before (suc j) (omega arith)), larger) in
    let same : x ≡ y = before 0 (omega arith) in ground arith
Larger-newer_numbers (x ∷ xs) [] (zero, before, larger) = ground arith
Larger-newer_numbers (x ∷ xs) [] (suc i, before, larger) =
    let rest : newer_numbers xs [] ≡ true =
      Larger-newer_numbers xs [] (i, (λ j p. before (suc j) (omega arith)), larger) in
    let same : x ≡ 0 = before 0 (omega arith) in ground arith
Larger-newer_numbers [] (y ∷ ys) (zero, before, larger) = absurd (omega (arith, larger))
Larger-newer_numbers [] (y ∷ ys) (suc i, before, larger) = absurd (omega (arith, larger))

-- Newer says yes exactly where, at the first place at which the two versions differ, the next one
-- has the larger number; a missing number counts as 0.
pub newer_iff :
    (next current : Str)
    → (newer next current ≡ true) ↔ Larger (numbers_of next) (numbers_of current)
unfolding newer
newer_iff next current = (
  newer_numbers-Larger (numbers_of next) (numbers_of current),
  Larger-newer_numbers (numbers_of next) (numbers_of current),
)

Larger-trans : (xs ys zs : List ℕ) → Larger xs ys → Larger ys zs → Larger xs zs
Larger-trans xs ys zs (i, before, larger) (k, before', larger') = elim (Bool-cases (ltb i k)) [
  | inl earlier ↦ (
    i,
    (λ j p. before j p ∙ before' j (ground arith)),
    (let e : part ys i ≡ part zs i = before' i (ground arith) in omega (arith, larger)),
  )
  | inr other ↦ elim (Bool-cases (ltb k i)) [
    | inl later ↦ (
      k,
      (λ j p. before j (ground arith) ∙ before' j p),
      (let e : part xs k ≡ part ys k = before k (ground arith) in omega (arith, larger')),
    )
    | inr equal ↦ (
      k,
      (λ j p. before j (ground arith) ∙ before' j p),
      (let e : i ≡ k = ground arith in
          omega (arith, larger', subst (λ n. part ys n < part xs n) e larger)),
    )
  ]
]

-- Newer is a strict order: no version is newer than itself, and what is newer than a newer version
-- is newer.
pub newer_strict :
    (a b c : Str) → (newer a a ≡ false) × (newer a b ≡ true → newer b c ≡ true → newer a c ≡ true)
newer_strict a b c = (irreflexive, transitive)
  where
    irreflexive : newer a a ≡ false
    irreflexive = elim (Bool-cases (newer a a)) [
      | inr older ↦ older
      | inl above ↦
          let (i, before, larger) = (newer_iff a a).0 above in absurd (omega (arith, larger))
    ]

    transitive : newer a b ≡ true → newer b c ≡ true → newer a c ≡ true
    transitive p q = (newer_iff a c).1 (
        Larger-trans (numbers_of a) (numbers_of b) (numbers_of c) ((newer_iff a b).0 p)
          ((newer_iff b c).0 q))
