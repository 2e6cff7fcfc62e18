-- ===== src/Agent/Routes/Table.antt =====
-- The route table of autoConnect, and the system's routes that follow it.
use eliaukvpn.Base.{
  ◌≡◌, refl, ◌∙◌, Bool, true, false, not, ◌&&◌, ◌||◌, Option, none, some, List, [], ◌∷◌, All, arith,
  is_empty, if◌then◌else◌, Bool-cases, inl, inr,
}
use eliaukvpn.Base.Str.{Str, str_eq, str_eq_iff}
use eliaukvpn.Base.GoMap.{GoMap, IsMap, get, put, delete, or_empty, get-put, put-IsMap}
use eliaukvpn.Protocol.{Peer}
use eliaukvpn.Agent.Routes.{want_from, add_routes, drop_routes}

abbrev pub or_else {ℓ} : {A : Type ℓ} → Option A → Option A → Option A
or_else (some x) o = some x
or_else none o = o

abbrev pub is_some {ℓ} : {A : Type ℓ} → Option A → Bool
is_some none = false
is_some (some x) = true

abbrev pub contains : Str → List Str → Bool
contains v [] = false
contains v (x ∷ xs) = str_eq x v || contains v xs

-- No client has the empty id, and no route the empty address.
abbrev pub IsNamed : GoMap Str → Type 0
IsNamed = All (λ e. (is_empty e.0 ≡ false) × (is_empty e.1 ≡ false))

same_entry :
    (o : Option Str) (id : Str) → is_empty id ≡ false → str_eq (or_empty o) id ≡ true → o ≡ some id
same_entry none id h e = ground (arith, str_eq_iff [] id)
same_entry (some x) id h e = ground (arith, str_eq_iff x id)

-- One round of the loop over `want`
get-round :
    (vip id v : Str) (routes : GoMap Str)
    → is_empty id ≡ false
    → get v (if str_eq (or_empty (get vip routes)) id then routes else put vip id routes)
      ≡ (if str_eq vip v then some id else get v routes)
get-round vip id v routes h = elim (Bool-cases (str_eq (or_empty (get vip routes)) id)) [
  | inl same ↦ rw same (ground (arith, same_entry (get vip routes) id h same, str_eq_iff vip v))
  | inr differs ↦ rw differs (get-put vip v id routes)
]

pub get-add_routes :
    (want routes : GoMap Str) (v : Str)
    → IsMap want
    → IsNamed want
    → get v (add_routes want routes).1 ≡ or_else (get v want) (get v routes)
unfolding add_routes get
get-add_routes [] routes v m n = refl
get-add_routes ((vip, id) ∷ want) routes v m n =
    let next : GoMap Str =
      if str_eq (or_empty (get vip routes)) id then routes else put vip id routes in
    get-add_routes want next v m.1 n.1
    ∙ ground (arith, get-round vip id v routes n.0.1, str_eq_iff vip v)

pub contains-add_routes :
    (want routes : GoMap Str) (v : Str)
    → IsMap want
    → IsNamed want
    → (contains v (add_routes want routes).0 || is_some (get v routes))
      ≡ (is_some (get v want) || is_some (get v routes))
unfolding add_routes get
contains-add_routes [] routes v m n = refl
contains-add_routes ((vip, id) ∷ want) routes v m n =
    let next : GoMap Str =
      if str_eq (or_empty (get vip routes)) id then routes else put vip id routes in
    ground (
      arith,
      contains-add_routes want next v m.1 n.1,
      get-round vip id v routes n.0.1,
      same_entry (get vip routes) id n.0.1,
      str_eq_iff vip v,
    )

abbrev pub keep_wanted : Option Str → Option Str → Option Str
keep_wanted w none = none
keep_wanted w (some id) = if str_eq (or_empty w) id then some id else none

pub get-drop_routes :
    (want routes : GoMap Str) (v : Str)
    → IsMap routes
    → get v (drop_routes want routes).1 ≡ keep_wanted (get v want) (get v routes)
unfolding drop_routes get
get-drop_routes want [] v m = refl
get-drop_routes want ((vip, id) ∷ routes) v m =
    ground (arith, get-drop_routes want routes v m.1, str_eq_iff vip v)

pub contains-drop_routes :
    (want routes : GoMap Str) (v : Str)
    → IsMap routes
    → (contains v (drop_routes want routes).0)
      ≡ (is_some (get v routes) && not (is_some (get v (drop_routes want routes).1)))
unfolding drop_routes get
contains-drop_routes want [] v m = refl
contains-drop_routes want ((vip, id) ∷ routes) v m = ground (
  arith,
  contains-drop_routes want routes v m.1,
  get-drop_routes want routes v m.1,
  str_eq_iff vip v,
)

-- The maps stay maps with names.
pub drop-IsMap :
    (want routes : GoMap Str)
    → IsMap routes
    → IsNamed routes
    → IsMap (drop_routes want routes).1 × IsNamed (drop_routes want routes).1
unfolding drop_routes
drop-IsMap want [] m n = (tt, tt)
drop-IsMap want ((vip, id) ∷ routes) m n =
    let (m', n') = drop-IsMap want routes m.1 n.1 in
    let gone = get-drop_routes want routes vip m.1 in
    elim (Bool-cases (str_eq (or_empty (get vip want)) id)) [
      | inl kept ↦ rw kept ((rw m.0 at gone, m'), (n.0, n'))
      | inr dropped ↦ rw dropped (m', n')
    ]

delete-IsNamed : (k : Str) (m : GoMap Str) → IsNamed m → IsNamed (delete k m)
unfolding delete
delete-IsNamed k [] n = tt
delete-IsNamed k ((j, v) ∷ m) n = ground (arith, delete-IsNamed k m n.1)

put-IsNamed :
    (k v : Str) (m : GoMap Str)
    → is_empty k ≡ false
    → is_empty v ≡ false
    → IsNamed m
    → IsNamed (put k v m)
unfolding put
put-IsNamed k v m hk hv n = ((hk, hv), delete-IsNamed k m n)

pub add-IsMap :
    (want routes : GoMap Str)
    → IsNamed want
    → IsMap routes
    → IsNamed routes
    → IsMap (add_routes want routes).1 × IsNamed (add_routes want routes).1
unfolding add_routes
add-IsMap [] routes w m n = (m, n)
add-IsMap ((vip, id) ∷ want) routes w m n =
    elim (Bool-cases (str_eq (or_empty (get vip routes)) id)) [
      | inl same ↦ rw same (add-IsMap want routes w.1 m n)
      | inr differs ↦ rw differs (
          add-IsMap want (put vip id routes) w.1 (put-IsMap vip id routes m)
            (put-IsNamed vip id routes w.0.0 w.0.1 n))
    ]

abbrev pub HaveIds : List Peer → Type 0
HaveIds = All (λ p. is_empty p.id ≡ false)

pub want-IsMap :
    (m : GoMap Str) (ps : List Peer)
    → HaveIds ps
    → IsMap m
    → IsNamed m
    → IsMap (want_from m ps) × IsNamed (want_from m ps)
unfolding want_from
want-IsMap m [] h i n = (i, n)
want-IsMap m (p ∷ ps) h i n = elim (Bool-cases (is_empty p.virtual_ip)) [
  | inl none_yet ↦ rw none_yet (want-IsMap m ps h.1 i n)
  | inr addressed ↦ rw addressed (
      want-IsMap (put p.virtual_ip p.id m) ps h.1 (put-IsMap p.virtual_ip p.id m i)
        (put-IsNamed p.virtual_ip p.id m addressed h.0 n))
]
