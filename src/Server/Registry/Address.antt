-- ===== src/Server/Registry/Address.antt =====
-- allocVirtualIP of registry.go: it finds a free address whenever there is one.
use eliaukvpn.Base.{
  ℕ, zero, suc, ◌+◌, ◌-◌, ◌≤◌, ◌<◌, ◌≡◌, ap, ◌∙◌, ◌↔◌, inl, inr, true, false, none, some, arith,
  if◌then◌else◌, Option-cases, Bool-cases, ltb,
}
use eliaukvpn.Base.Str.{Str}
use eliaukvpn.Base.GoMap.{GoMap}
use eliaukvpn.Server.State.{Client, Registry}
use eliaukvpn.Server.Registry.{virtual_ip, ip_taken, next_after, alloc_from, alloc_virtual_ip}

abbrev pub InPool : ℕ → Type 0
InPool n = (2 ≤ n) × (n ≤ 254)

-- the candidate of round j
visit : ℕ → ℕ → ℕ
visit zero next = next
visit (suc j) next = visit j (next_after next)

visit_lem :
    (j next : ℕ)
    → InPool next
    → j < 253
    → visit j next ≡ (if ltb 254 (next + j) then next + j - 253 else next + j)
unfolding visit next_after
visit_lem zero next p h = ground arith
visit_lem (suc j) next p h = ground (arith, visit_lem j (next_after next))

next_after-InPool : (n : ℕ) → InPool n → InPool (next_after n)
unfolding next_after
next_after-InPool n p = ground arith

-- What a successful search returns.
alloc_from-some :
    (rounds next : ℕ) (clients : GoMap Client) (addr : Str)
    → InPool next
    → (alloc_from rounds next clients).0 ≡ some addr
    → (n : ℕ) × InPool n × (addr ≡ virtual_ip n) × (ip_taken addr clients ≡ false)
unfolding alloc_from
alloc_from-some zero next clients addr p e = cc
alloc_from-some (suc rounds) next clients addr p e =
    elim (Bool-cases (ip_taken (virtual_ip next) clients)) [
      | inl taken ↦
          alloc_from-some rounds (next_after next) clients addr (next_after-InPool next p)
            (ground arith)
      | inr free ↦ (next, p, ground arith, ground arith)
    ]

-- A search that fails has found every candidate taken.
alloc_from-none :
    (rounds next : ℕ) (clients : GoMap Client)
    → (alloc_from rounds next clients).0 ≡ none
    → (j : ℕ) → j < rounds
    → ip_taken (virtual_ip (visit j next)) clients ≡ true
unfolding alloc_from visit
alloc_from-none zero next clients e j h = absurd (omega arith)
alloc_from-none (suc rounds) next clients e zero h = ground arith
alloc_from-none (suc rounds) next clients e (suc j) h =
    alloc_from-none rounds (next_after next) clients (ground arith) j (omega arith)

alloc_from-InPool :
    (rounds next : ℕ) (clients : GoMap Client)
    → InPool next
    → InPool (alloc_from rounds next clients).1
unfolding alloc_from
alloc_from-InPool zero next clients p = p
alloc_from-InPool (suc rounds) next clients p =
    ground (arith, next_after-InPool next p, alloc_from-InPool rounds (next_after next) clients)

-- the round that visits n
round_of : (next n : ℕ) → InPool next → InPool n → (j : ℕ) × (j < 253) × (visit j next ≡ n)
round_of next n p q = elim (Bool-cases (ltb n next)) [
  | inl wraps ↦ (
    n + 253 - next,
    ground arith,
    visit_lem (n + 253 - next) next p (ground arith) ∙ ground arith,
  )
  | inr onwards ↦
      (n - next, ground arith, visit_lem (n - next) next p (ground arith) ∙ ground arith)
]

-- allocVirtualIP says that the network is full exactly when all 253 addresses are taken; else it
-- returns one of them that no client has. nextIP stays between 2 and 254.
pub alloc_virtual_ip_exact :
    (r : Registry)
    → InPool r.next_ip
    → (((alloc_virtual_ip r).0 ≡ none)
        ↔ ((n : ℕ) → InPool n → ip_taken (virtual_ip n) r.clients ≡ true))
      × ((addr : Str)
          → (alloc_virtual_ip r).0 ≡ some addr
          → (n : ℕ) × InPool n × (addr ≡ virtual_ip n) × (ip_taken addr r.clients ≡ false))
      × InPool (alloc_virtual_ip r).1.next_ip
unfolding alloc_virtual_ip
alloc_virtual_ip_exact r p = (
  (full, none_left),
  λ addr. alloc_from-some 253 r.next_ip r.clients addr p,
  alloc_from-InPool 253 r.next_ip r.clients p,
)
  where
    full :
        (alloc_from 253 r.next_ip r.clients).0 ≡ none
        → (n : ℕ) → InPool n
        → ip_taken (virtual_ip n) r.clients ≡ true
    full e n q =
        let (j, below, at) = round_of r.next_ip n p q in
        rw at at (alloc_from-none 253 r.next_ip r.clients e j below)

    none_left :
        ((n : ℕ) → InPool n → ip_taken (virtual_ip n) r.clients ≡ true)
        → (alloc_from 253 r.next_ip r.clients).0 ≡ none
    none_left taken = elim (Option-cases (alloc_from 253 r.next_ip r.clients).0) [
      | inl e ↦ e
      | inr (addr, e) ↦
          let (n, q, same, free) = alloc_from-some 253 r.next_ip r.clients addr p e in
          cc (taken n q, free, ap (λ a. ip_taken a r.clients) same)
    ]
