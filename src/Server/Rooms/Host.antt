-- ===== src/Server/Rooms/Host.antt =====
-- Who becomes host when the host leaves: oldestMemberLocked of rooms.go.
use eliaukvpn.Base.{
  is_empty, ℕ, ◌≤◌, ◌<◌, ◌≡◌, ◌≢◌, refl, sym, subst, ◌⊎◌, inl, inr, Bool, true, false, ◌||◌, none,
  some, List, [], ◌∷◌, map, arith, if◌then◌else◌, Option-cases, Bool-cases, In, All, ltb,
}
use eliaukvpn.Base.Str.{Str, str_eq, str_eq_iff, str_eq_refl}
use eliaukvpn.Base.GoMap.{GoMap, get, delete, get-put_self}
use eliaukvpn.Server.State.{Client, Room, Registry, room_code, client_by_fp}
use eliaukvpn.Server.Rooms.{oldest_from, oldest_member, remove_from_room}

abbrev pub keys : GoMap Bool → List Str
keys = map (λ e. e.0)

-- No online member registered before number m.
abbrev pub NoneOlder : Registry → ℕ → GoMap Bool → Type 0
NoneOlder r m = All (λ e. (c : Client) → client_by_fp e.0 r ≡ some c → m ≤ c.seq)

-- The best so far, or a member that beats it.
abbrev Beaten : Registry → Str → ℕ → GoMap Bool → Str → Type 0
Beaten r oldest s members result =
    (m : ℕ) × (m ≤ s)
    × NoneOlder r m members
    × (((result ≡ oldest) × (m ≡ s))
        ⊎ ((c : Client) × In result (keys members)
            × (client_by_fp result r ≡ some c)
            × (c.seq ≡ m)))

-- One more member, which is offline.
skip-Beaten :
    (r : Registry) (oldest : Str) (s : ℕ) (fp : Str) (b : Bool) (members : GoMap Bool)
    (result : Str)
    → client_by_fp fp r ≡ none
    → Beaten r oldest s members result
    → Beaten r oldest s ((fp, b) ∷ members) result
skip-Beaten r oldest s fp b members result offline (m, le, older, inl same) =
    (m, le, (λ c e. cc, older), inl same)
skip-Beaten r oldest s fp b members result offline (m, le, older, inr (c, i, e, n)) =
    (m, le, (λ c e. cc, older), inr (c, inr i, e, n))

-- One more member, which is no better.
keep-Beaten :
    (r : Registry) (oldest : Str) (s : ℕ) (fp : Str) (b : Bool) (members : GoMap Bool)
    (result : Str) (c : Client)
    → client_by_fp fp r ≡ some c
    → s ≤ c.seq
    → Beaten r oldest s members result
    → Beaten r oldest s ((fp, b) ∷ members) result
keep-Beaten r oldest s fp b members result c online no_better (m, le, older, inl same) =
    (m, le, (λ d e. ground arith, older), inl same)
keep-Beaten r oldest s fp b members result c online no_better (m, le, older, inr (d, i, e, n)) =
    (m, le, (λ d' e'. ground arith, older), inr (d, inr i, e, n))

-- One more member, which becomes the best so far.
take-Beaten :
    (r : Registry) (oldest : Str) (s : ℕ) (fp : Str) (b : Bool) (members : GoMap Bool)
    (result : Str) (c : Client)
    → client_by_fp fp r ≡ some c
    → c.seq < s
    → Beaten r fp c.seq members result
    → Beaten r oldest s ((fp, b) ∷ members) result
take-Beaten r oldest s fp b members result c online better (m, le, older, inl same) = (
  m,
  omega arith,
  (λ d e. ground arith, older),
  inr (c, inl same.0, subst (λ x. client_by_fp x r ≡ some c) (sym same.0) online, sym same.1),
)
take-Beaten r oldest s fp b members result c online better (m, le, older, inr (d, i, e, n)) =
    (m, omega arith, (λ d' e'. ground arith, older), inr (d, inr i, e, n))

step_offline :
    (r : Registry) (oldest : Str) (s : ℕ) (fp : Str) (b : Bool) (members : GoMap Bool)
    → client_by_fp fp r ≡ none
    → oldest_from r oldest s ((fp, b) ∷ members) ≡ oldest_from r oldest s members
unfolding oldest_from
step_offline r oldest s fp b members offline = ground arith

step_online :
    (r : Registry) (oldest : Str) (s : ℕ) (fp : Str) (b : Bool) (members : GoMap Bool) (c : Client)
    → client_by_fp fp r ≡ some c
    → oldest_from r oldest s ((fp, b) ∷ members) ≡ (
        if str_eq oldest [] || ltb c.seq s
        then oldest_from r fp c.seq members
        else oldest_from r oldest s members)
unfolding oldest_from
step_online r oldest s fp b members c online = ground arith

oldest_from-Beaten :
    (r : Registry) (oldest : Str) (s : ℕ) (members : GoMap Bool)
    → oldest ≢ []
    → All (λ fp. fp ≢ []) (keys members)
    → Beaten r oldest s members (oldest_from r oldest s members)
oldest_from-Beaten r oldest s [] named all =
    unfold oldest_from in (s, omega arith, tt, inl (refl, refl))
oldest_from-Beaten r oldest s ((fp, b) ∷ members) named (nfp, all) =
    elim (Option-cases (client_by_fp fp r)) [
      | inl offline ↦
          subst (Beaten r oldest s ((fp, b) ∷ members))
            (sym (step_offline r oldest s fp b members offline))
            (skip-Beaten r oldest s fp b members _ offline
              (oldest_from-Beaten r oldest s members named all))
      | inr (c, online) ↦ elim (Bool-cases (ltb c.seq s)) [
        | inl older ↦
            subst (Beaten r oldest s ((fp, b) ∷ members))
              (ground (arith, step_online r oldest s fp b members c online))
              (take-Beaten r oldest s fp b members _ c online (ground arith)
                (oldest_from-Beaten r fp c.seq members nfp all))
        | inr younger ↦
            subst (Beaten r oldest s ((fp, b) ∷ members))
              (ground (arith, step_online r oldest s fp b members c online, str_eq_iff oldest []))
              (keep-Beaten r oldest s fp b members _ c online (ground arith)
                (oldest_from-Beaten r oldest s members named all))
      ]
    ]

-- Everyone is offline.
abbrev AllOffline : Registry → GoMap Bool → Type 0
AllOffline r = All (λ e. client_by_fp e.0 r ≡ none)

-- The oldest online member, if any is online.
abbrev pub IsOldest : Registry → GoMap Bool → Str → Type 0
IsOldest r members result =
    (AllOffline r members × (result ≡ []))
    ⊎ ((c : Client) × In result (keys members)
        × (client_by_fp result r ≡ some c)
        × NoneOlder r c.seq members)

first-IsOldest :
    (r : Registry) (fp : Str) (b : Bool) (members : GoMap Bool) (result : Str) (c : Client)
    → client_by_fp fp r ≡ some c
    → Beaten r fp c.seq members result
    → IsOldest r ((fp, b) ∷ members) result
first-IsOldest r fp b members result c online (m, le, older, inl same) = inr (
  c,
  inl same.0,
  subst (λ x. client_by_fp x r ≡ some c) (sym same.0) online,
  (λ d e. ground arith, subst (λ x. NoneOlder r x members) same.1 older),
)
first-IsOldest r fp b members result c online (m, le, older, inr (d, i, e, n)) =
    inr (d, inr i, e, (λ d' e'. ground arith, subst (λ x. NoneOlder r x members) (sym n) older))

later-IsOldest :
    (r : Registry) (fp : Str) (b : Bool) (members : GoMap Bool) (result : Str)
    → client_by_fp fp r ≡ none
    → IsOldest r members result
    → IsOldest r ((fp, b) ∷ members) result
later-IsOldest r fp b members result offline (inl (all, e)) = inl ((offline, all), e)
later-IsOldest r fp b members result offline (inr (d, i, e, older)) =
    inr (d, inr i, e, (λ c e'. cc, older))

oldest_from-IsOldest :
    (r : Registry) (s : ℕ) (members : GoMap Bool)
    → All (λ fp. fp ≢ []) (keys members)
    → IsOldest r members (oldest_from r [] s members)
oldest_from-IsOldest r s [] all = unfold oldest_from in inl (tt, refl)
oldest_from-IsOldest r s ((fp, b) ∷ members) (named, all) =
    elim (Option-cases (client_by_fp fp r)) [
      | inl offline ↦
          subst (IsOldest r ((fp, b) ∷ members)) (sym (step_offline r [] s fp b members offline))
            (later-IsOldest r fp b members _ offline (oldest_from-IsOldest r s members all))
      | inr (c, online) ↦
          subst (IsOldest r ((fp, b) ∷ members))
            (ground (arith, step_online r [] s fp b members c online, str_eq_refl []))
            (first-IsOldest r fp b members _ c online
              (oldest_from-Beaten r fp c.seq members named all))
    ]

-- When the host leaves a room that others stay in, the room passes to the online member that
-- registered first, or to nobody where all of them are offline.
pub host_succession :
    (r : Registry) (fp : Str) (room : Room)
    → get (room_code fp r) r.rooms ≡ some room
    → room_code fp r ≢ []
    → room.host ≡ fp
    → All (λ m. m ≢ []) (keys (delete fp room.members))
    → is_empty (delete fp room.members) ≡ false
    → (kept : Room) × ((remove_from_room fp r).0 ≡ some kept)
      × (get (room_code fp r) (remove_from_room fp r).1.rooms ≡ some kept)
      × (kept.members ≡ delete fp room.members)
      × IsOldest r kept.members kept.host
unfolding remove_from_room oldest_member
host_succession r fp room found coded host named others = (
  kept,
  ground (arith, str_eq_iff (room_code fp r) [], chosen),
  ground
      (arith, str_eq_iff (room_code fp r) [], chosen, get-put_self (room_code fp r) kept r.rooms),
  refl,
  oldest_from-IsOldest r 0 (delete fp room.members) named,
)
  where
    kept : Room
    kept = record {
      code = room.code;
      host = oldest_from r [] 0 (delete fp room.members);
      members = delete fp room.members;
    }

    chosen : str_eq room.host fp ≡ true
    chosen = ground (arith, str_eq_iff room.host fp)
