-- ===== src/Server/Rooms/Membership.antt =====
-- The two sides of room membership, `inRoom` and `Room.Members` of rooms.go, agree.
use eliaukvpn.Base.{
  is_empty, ◌≡◌, ◌≢◌, refl, sym, ap, subst, ◌⊎◌, inl, inr, Bool, true, false, Option, none, some,
  List, [], ◌∷◌, arith, if◌then◌else◌, All, length,
}
use eliaukvpn.Base.Str.{Str, Bytes, str_eq, str_eq_iff}
use eliaukvpn.Base.GoMap.{GoMap, get, put, delete, get-put, get-delete}
use eliaukvpn.Server.State.{Room, Registry, room_code, new_registry}
use eliaukvpn.Server.Rooms.Cases.{
  with_member, new_room, remove_cases, join_cases, create_cases, free_code_free,
}
use eliaukvpn.Server.Rooms.{create_room, join_room, depart, remove_from_room, clean_code}

abbrev pub is_some {ℓ} : {A : Type ℓ} → Option A → Bool
is_some none = false
is_some (some a) = true

-- fp is a member of the room under the code
abbrev pub member_of : Str → Str → GoMap Room → Bool
member_of fp code rooms = elim (get code rooms) [
  | none ↦ false
  | some room ↦ is_some (get fp room.members)
]

abbrev pub in_code : Str → Str → GoMap Str → Bool
in_code fp code in_room = elim (get fp in_room) [ none ↦ false | some c ↦ str_eq c code ]

pub record RoomsOk (r : Registry) : Type 0 where
  pub linked : (fp code : Str) → member_of fp code r.rooms ≡ in_code fp code r.in_room
  pub no_empty_code : get [] r.rooms ≡ none
  pub own_code : (code : Str) (room : Room) → get code r.rooms ≡ some room → room.code ≡ code
  pub inhabited :
      (code : Str) (room : Room) → get code r.rooms ≡ some room → is_empty room.members ≡ false

pub new_registry-RoomsOk : RoomsOk new_registry
unfolding new_registry get
new_registry-RoomsOk = record {
  linked = λ fp code. refl;
  no_empty_code = refl;
  own_code = λ code room e. cc;
  inhabited = λ code room e. cc;
}

list_cases {ℓ} : {A : Type ℓ} (l : List A) → (l ≡ []) ⊎ (is_empty l ≡ false)
list_cases [] = inl refl
list_cases (x ∷ l) = inr refl

module _ (r : Registry) (v : RoomsOk r) where
  -- An entry of `inRoom` is never the empty code, so the empty code means no entry.
  pub no_entry : (fp : Str) → room_code fp r ≡ [] → get fp r.in_room ≡ none
  no_entry fp free = ground (arith, v.linked fp [], v.no_empty_code, str_eq_iff (room_code fp r) [])

  -- A fingerprint with no room enters one.
  module _ (fp code : Str) (room : Room) (absent : get fp r.in_room ≡ none) (named : code ≢ [])
      (grown : (g : Str)
        → is_some (get g room.members) ≡ (if str_eq fp g then true else member_of g code r.rooms))
      (same : room.code ≡ code) (some_left : is_empty room.members ≡ false) where
    pub enter-RoomsOk :
        RoomsOk (record r { rooms = put code room r.rooms; in_room = put fp code r.in_room })
    enter-RoomsOk = record {
      linked = λ g c. ground (
        arith,
        get-put code c room r.rooms,
        get-put fp g code r.in_room,
        v.linked g c,
        str_eq_iff code c,
        str_eq_iff fp g,
        grown g,
      );
      no_empty_code =
          ground (arith, get-put code [] room r.rooms, v.no_empty_code, str_eq_iff code []);
      own_code = λ c old e.
          ground (arith, get-put code c room r.rooms, str_eq_iff code c, v.own_code c old);
      inhabited = λ c old e. ground (arith, get-put code c room r.rooms, v.inhabited c old);
    }

  -- A member leaves its room.
  module _ (fp code : Str) (room : Room) (entry : get fp r.in_room ≡ some code)
      (found : get code r.rooms ≡ some room) where
    -- It was the last: the room goes.
    closed-RoomsOk :
        delete fp room.members ≡ []
        → RoomsOk (record r { rooms = delete code r.rooms; in_room = delete fp r.in_room })
    unfolding get
    closed-RoomsOk last = record {
      linked = λ g c. ground (
        arith,
        get-delete code c r.rooms,
        get-delete fp g r.in_room,
        v.linked g c,
        str_eq_iff code c,
        str_eq_iff fp g,
        get-delete fp g room.members,
        ap (get g) last,
      );
      no_empty_code = ground (arith, get-delete code [] r.rooms, v.no_empty_code);
      own_code = λ c old e. ground (arith, get-delete code c r.rooms, v.own_code c old);
      inhabited = λ c old e. ground (arith, get-delete code c r.rooms, v.inhabited c old);
    }

    -- Others stay: the room is kept without it, under whatever host.
    shrunk-RoomsOk :
        (host : Str)
        → is_empty (delete fp room.members) ≡ false
        → RoomsOk (record r {
          rooms = put code (record room { host = host; members = delete fp room.members }) r.rooms;
          in_room = delete fp r.in_room;
        })
    shrunk-RoomsOk host others =
        let kept : Room = record room { host = host; members = delete fp room.members } in
        record {
          linked = λ g c. ground (
            arith,
            get-put code c kept r.rooms,
            get-delete fp g r.in_room,
            v.linked g c,
            str_eq_iff code c,
            str_eq_iff fp g,
            get-delete fp g room.members,
            v.linked g code,
          );
          no_empty_code =
              ground (arith, get-put code [] kept r.rooms, v.no_empty_code, str_eq_iff code []);
          own_code = λ c old e. ground (
            arith,
            get-put code c kept r.rooms,
            str_eq_iff code c,
            v.own_code c old,
            v.own_code code room,
          );
          inhabited = λ c old e. ground (arith, get-put code c kept r.rooms, v.inhabited c old);
        }

    depart-RoomsOk : RoomsOk (depart fp code room r).1
    unfolding depart
    depart-RoomsOk = elim (list_cases (delete fp room.members)) [
      | inl last ↦ rw last (closed-RoomsOk last)
      | inr others ↦ rw others (shrunk-RoomsOk _ others)
    ]

  -- Leaving keeps the two sides in agreement, whoever leaves.
  pub remove_from_room-RoomsOk : (fp : Str) → RoomsOk (remove_from_room fp r).1
  remove_from_room-RoomsOk fp = elim (remove_cases fp r) [
    | inl stays ↦ rw stays v
    | inr (code, room, entry, found, e) ↦ rw e (depart-RoomsOk fp code room entry found)
  ]

  -- Joining, refused or not, keeps them in agreement.
  pub join_room-RoomsOk : (fp code : Str) → RoomsOk (join_room fp code r).1
  join_room-RoomsOk fp code = elim (join_cases fp code r) [
    | inl (e, refused) ↦ rw refused v
    | inr (room, free, found, joined) ↦
        let own : room.code ≡ clean_code code = v.own_code (clean_code code) room found in
        rw joined (
          subst
            (λ c. RoomsOk (record r {
              rooms = put (clean_code code) (with_member fp room) r.rooms;
              in_room = put fp c r.in_room;
            }))
            (sym own)
            (enter-RoomsOk fp (clean_code code) (with_member fp room) (no_entry fp free)
              (λ e. ground (arith, v.no_empty_code, ap (λ c. get c r.rooms) e))
              (λ g. ground (arith, get-put fp g true room.members)) own (unfold put in refl)))
  ]

  -- So does creating, with draws of five bytes.
  pub create_room-RoomsOk :
      (draws : List Bytes) (fp : Str)
      → All (λ d. length d ≡ 5) draws
      → RoomsOk (create_room draws fp r).1
  create_room-RoomsOk draws fp five = elim (create_cases draws fp r) [
    | inl (e, refused) ↦ rw refused v
    | inr (code, free, drawn, created) ↦
        let (unused, sized) = free_code_free draws r.rooms code five drawn in
        rw created (
          enter-RoomsOk fp code (new_room fp code) (no_entry fp free)
            (λ e. omega (arith, ap length e, sized)) (λ g. unfold get in ground (arith, unused))
            refl refl)
  ]
