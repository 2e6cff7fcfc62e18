-- ===== src/Gui/Game/Tail.antt =====
-- The server's output that the program keeps.
use eliaukvpn.Base.{
  ℕ, zero, suc, ◌+◌, ◌-◌, ◌≤◌, ◌≡◌, refl, sym, ap, ◌∙◌, Bool-cases, inl, inr, List, [], ◌∷◌, ◌++◌,
  append_assoc, append-nil, drop, length, length-append, length-drop, ltb, arith,
}
use eliaukvpn.Base.Str.{Str}
use eliaukvpn.Gui.State.{App, game_log}

-- Line after line
abbrev pub log_all : List Str → App → App
log_all [] a = a
log_all (line ∷ lines) a = log_all lines (game_log line a)

abbrev pub last : ℕ → List Str → List Str
last n xs = drop (length xs - n) xs

drop-append_short : (n : ℕ) (xs ys : List Str) → n ≤ length xs → drop n xs ++ ys ≡ drop n (xs ++ ys)
drop-append_short zero xs ys h = refl
drop-append_short (suc n) [] ys h = absurd (omega (arith, h))
drop-append_short (suc n) (x ∷ xs) ys h = drop-append_short n xs ys (omega (arith, h))

drop-nil : (n : ℕ) → drop {A = Str} n [] ≡ []
drop-nil zero = refl
drop-nil (suc n) = refl

dropped_none : (n : ℕ) (xs : List Str) → n ≡ 0 → xs ≡ drop n xs
dropped_none n xs e = rw e refl

drop-drop : (m n : ℕ) (xs : List Str) → drop m (drop n xs) ≡ drop (n + m) xs
drop-drop m zero xs = let e : m ≡ 0 + m = omega arith in ap (λ k. drop k xs) e
drop-drop m (suc n) [] = drop-nil m ∙ sym (drop-nil (suc n + m))
drop-drop m (suc n) (x ∷ xs) =
    let e : suc (n + m) ≡ suc n + m = omega arith in drop-drop m n xs ∙ ap (λ k. drop k (x ∷ xs)) e

last-last : (n : ℕ) (xs ys : List Str) → last n (last n xs ++ ys) ≡ last n (xs ++ ys)
last-last n xs ys =
    let k = length xs - n in
    let shorter = drop-append_short k xs ys (omega arith) in
    rw shorter (
      drop-drop (length (drop k (xs ++ ys)) - n) k (xs ++ ys)
      ∙ ap (λ m. drop m (xs ++ ys)) (omega (arith, length-drop k (xs ++ ys), length-append xs ys)))

game_log_lem : (line : Str) (a : App) → (game_log line a).mc_tail ≡ last 20 (a.mc_tail ++ line ∷ [])
unfolding game_log
game_log_lem line a = elim (Bool-cases (ltb 20 (length (a.mc_tail ++ line ∷ [])))) [
  | inl long ↦ rw (game_log, long) refl
  | inr short ↦
      rw (game_log, short)
        (dropped_none (length (a.mc_tail ++ line ∷ []) - 20) (a.mc_tail ++ line ∷ [])
          (ground (arith, short)))
]

short_last : (n : ℕ) (xs : List Str) → length (last n xs) ≤ n
short_last n xs = omega (arith, length-drop (length xs - n) xs)

-- However many lines the server prints, the tail that is kept is the last twenty of them, after
-- those that were kept before, of which there are at most twenty.
pub log_all-last :
    (lines : List Str) (a : App)
    → length a.mc_tail ≤ 20
    → ((log_all lines a).mc_tail ≡ last 20 (a.mc_tail ++ lines))
      × (length (log_all lines a).mc_tail ≤ 20)
log_all-last [] a h = (
  sym (append-nil a.mc_tail)
      ∙ dropped_none (length (a.mc_tail ++ []) - 20) (a.mc_tail ++ [])
          (omega (arith, h, length-append a.mc_tail [])),
  h,
)
log_all-last (line ∷ lines) a h =
    let b = game_log line a in
    let e = game_log_lem line a in
    let short : length b.mc_tail ≤ 20 = rw e (short_last 20 (a.mc_tail ++ line ∷ [])) in
    let (kept, bounded) = log_all-last lines b short in
    (
      kept
          ∙ ap (λ t. last 20 (t ++ lines)) e
          ∙ last-last 20 (a.mc_tail ++ line ∷ []) lines
          ∙ ap (λ t. last 20 t) (append_assoc a.mc_tail (line ∷ []) lines),
      bounded,
    )
