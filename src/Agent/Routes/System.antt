-- ===== src/Agent/Routes/System.antt =====
-- What autoConnect makes of the route table and of the system's routes.
use eliaukvpn.Base.{
  ℕ, zero, suc, ◌≡◌, refl, ap, ◌∙◌, Bool, true, false, not, ◌&&◌, ◌||◌, Option, none, some, List,
  [], ◌∷◌, ◌++◌, arith, is_empty, flat_map, if◌then◌else◌,
}
use eliaukvpn.Base.Str.{Str, str_eq, str_eq_iff, str_eq_refl}
use eliaukvpn.Base.GoMap.{GoMap, IsMap, get, put, get-put}
use eliaukvpn.Protocol.{Peer, connect_request}
use eliaukvpn.Agent.State.{Agent, ask}
use eliaukvpn.Agent.Rooms.{remove_peer_route}
use eliaukvpn.Agent.Routes.{
  ensure_peer_route, want_from, add_routes, drop_routes, pick_fresh, auto_connect,
}
use eliaukvpn.Agent.Routes.Replay.{replay, replay_parts, replay_down}
use eliaukvpn.Agent.Routes.Table.{
  or_else, is_some, contains, IsNamed, HaveIds, get-add_routes, contains-add_routes,
  get-drop_routes, contains-drop_routes, drop-IsMap, add-IsMap, want-IsMap, keep_wanted,
}

-- Who has the address `v` in a list of peers: the last one that shows it.
abbrev pub owner : Str → List Peer → Option Str
owner v [] = none
owner v (p ∷ ps) = or_else (owner v ps) (if str_eq p.virtual_ip v then some p.id else none)

get-want_from :
    (v : Str) (m : GoMap Str) (ps : List Peer)
    → is_empty v ≡ false
    → get v (want_from m ps) ≡ or_else (owner v ps) (get v m)
unfolding want_from
get-want_from v m [] h = refl
get-want_from v m (p ∷ ps) h =
    get-want_from v (if is_empty p.virtual_ip then m else put p.virtual_ip p.id m) ps h
    ∙ ground (arith, get-put p.virtual_ip v p.id m, str_eq_iff p.virtual_ip v)

-- The system has a route to an address exactly where the agent's table has one.
abbrev pub Follows : GoMap ℕ → GoMap Str → Type 0
Follows os routes = (v : Str) → is_empty v ≡ false → is_some (get v os) ≡ is_some (get v routes)

named_entry :
    (v : Str) (m : GoMap Str) → IsNamed m → (id : Str) → get v m ≡ some id → is_empty id ≡ false
unfolding get
named_entry v [] n id e = cc
named_entry v ((j, w) ∷ m) n id e = ground (arith, named_entry v m n.1 id)

or_else-get_nil : (v : Str) (o : Option Str) → or_else o (get v []) ≡ o
unfolding get
or_else-get_nil v none = refl
or_else-get_nil v (some x) = refl

settled :
    (w r : Option Str)
    → ((id : Str) → r ≡ some id → is_empty id ≡ false)
    → keep_wanted w (or_else w r) ≡ w
settled (some id) r h = rw str_eq_refl
settled none none h = refl
settled none (some id) h = ground (arith, h id refl, str_eq_iff [] id)

-- The agent's route table, as autoConnect keeps it.
pub record RoutesOk (routes : GoMap Str) : Type 0 where
  pub is_map : IsMap routes
  pub is_named : IsNamed routes

module _ (peers : List Peer) (routes : GoMap Str) (ids : HaveIds peers) (ok : RoutesOk routes) where
  abbrev want : GoMap Str
  want = want_from [] peers

  abbrev with_new : GoMap Str
  with_new = (add_routes want routes).1

  want_ok : IsMap want × IsNamed want
  want_ok = want-IsMap [] peers ids tt tt

  with_new_ok : IsMap with_new × IsNamed with_new
  with_new_ok = add-IsMap want routes want_ok.1 ok.is_map ok.is_named

  new_table_ok : RoutesOk (drop_routes want with_new).1
  new_table_ok =
      let (m, n) = drop-IsMap want with_new with_new_ok.0 with_new_ok.1 in
      record { is_map = m; is_named = n }

  new_table : (v : Str) → is_empty v ≡ false → get v (drop_routes want with_new).1 ≡ owner v peers
  new_table v h =
      get-drop_routes want with_new v with_new_ok.0
      ∙ ap (keep_wanted (get v want)) (get-add_routes want routes v want_ok.0 want_ok.1)
      ∙ settled (get v want) (get v routes) (named_entry v routes ok.is_named)
      ∙ get-want_from v [] peers h
      ∙ or_else-get_nil v (owner v peers)

  -- What was added and dropped leads from the old table to the new one.
  moved :
      (v : Str)
      → (not (contains v (drop_routes want with_new).0)
          && (contains v (add_routes want routes).0 || is_some (get v routes)))
        ≡ is_some (get v (drop_routes want with_new).1)
  moved v = ground (
    arith,
    contains-drop_routes want with_new v with_new_ok.0,
    contains-add_routes want routes v want_ok.0 want_ok.1,
    get-add_routes want routes v want_ok.0 want_ok.1,
    get-drop_routes want with_new v with_new_ok.0,
  )

-- Whether there is an adapter with an interface index.
abbrev pub adapter_up : Option ℕ → Bool
adapter_up (some (suc i)) = true
adapter_up _ = false

-- With the adapter up, the system has routes for exactly the table's addresses.
abbrev pub FollowsIfUp : Option ℕ → GoMap ℕ → GoMap Str → Type 0
FollowsIfUp (some (suc i)) os routes = Follows os routes
FollowsIfUp _ os routes = Unit

-- The actions of autoConnect leave the system's routes alone where the adapter is down, and lead
-- from the old table to the new one where it is up.
replay_any :
    (o : Option ℕ) (peers : List Peer) (a : Agent) (os : GoMap ℕ) (v : Str) (fresh : List Peer)
    → a.adapter ≡ o
    → HaveIds peers
    → RoutesOk a.routes
    → FollowsIfUp o os a.routes
    → is_empty v ≡ false
    → is_some (
        get v (
          replay
            (flat_map (ensure_peer_route a) (add_routes (want_from [] peers) a.routes).0
              ++ (flat_map
                    (remove_peer_route a)
                    (drop_routes
                      (want_from [] peers)
                      (add_routes (want_from [] peers) a.routes).1).0
                  ++ flat_map (λ p. ask (connect_request (some p.id)) ∷ []) fresh))
            os))
      ≡ (if adapter_up o then is_some (owner v peers) else is_some (get v os))
unfolding ensure_peer_route remove_peer_route
replay_any none peers a os v fresh down ids ok follows h =
    replay_down a v (λ vip. rw (ensure_peer_route, down) refl)
      (λ vip. rw (remove_peer_route, down) refl) _ _ fresh os
replay_any (some zero) peers a os v fresh down ids ok follows h =
    replay_down a v (λ vip. rw (ensure_peer_route, down) refl)
      (λ vip. rw (remove_peer_route, down) refl) _ _ fresh os
replay_any (some (suc i)) peers a os v fresh up ids ok follows h =
    let want : GoMap Str = want_from [] peers in
    let added : List Str = (add_routes want a.routes).0 in
    let dropped : List Str = (drop_routes want (add_routes want a.routes).1).0 in
    replay_parts a i up v h added dropped fresh os
    ∙ ap (λ b. not (contains v dropped) && (contains v added || b)) (follows v h)
    ∙ moved peers a.routes ids ok v
    ∙ ap is_some (new_table peers a.routes ids ok v h)

-- autoConnect leaves a table that sends each address to the listed peer that has it, the last one
-- where several have it, and no other address anywhere, whether the virtual adapter is up or not.
-- Where it is up, and the system had routes for exactly the table's addresses, the system has them
-- for the new table's; where it is down, the system's routes stay. The ids of the listed peers are
-- not empty, the old table is a map whose ids are not empty, and the address is not empty.
pub auto_connect_routes :
    (peers : List Peer) (a : Agent) (os : GoMap ℕ) (v : Str)
    → HaveIds peers
    → RoutesOk a.routes
    → FollowsIfUp a.adapter os a.routes
    → is_empty v ≡ false
    → RoutesOk (auto_connect peers a).1.routes
      × (get v (auto_connect peers a).1.routes ≡ owner v peers)
      × (is_some (get v (replay (auto_connect peers a).0 os))
          ≡ (if adapter_up a.adapter then is_some (owner v peers) else is_some (get v os)))
unfolding auto_connect
auto_connect_routes peers a os v ids ok follows h = (
  new_table_ok peers a.routes ids ok,
  new_table peers a.routes ids ok v h,
  replay_any a.adapter peers a os v (pick_fresh peers a.attempted).0 refl ids ok follows h,
)
