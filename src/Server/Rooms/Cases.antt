-- ===== src/Server/Rooms/Cases.antt =====
-- The outcomes of the operations of rooms.go, with the state after each.
use eliaukvpn.Base.{
  ◌≡◌, refl, ap, ◌⊎◌, inl, inr, true, none, some, List, [], ◌∷◌, arith, Option-cases, Bool-cases,
  All, length, suc,
}
use eliaukvpn.Base.Str.{Str, Bytes, str_eq, str_eq_iff, str_eq_refl}
use eliaukvpn.Base.GoMap.{GoMap, get, put}
use eliaukvpn.Base.Result.{ok, err}
use eliaukvpn.Protocol.{ErrorText, already_in_room, no_such_room, no_draws}
use eliaukvpn.Server.State.{Room, Registry, room_code}
use eliaukvpn.Server.Rooms.{
  free_code, create_room, join_room, depart, remove_from_room, clean_code, new_room_code,
}

pub remove_cases :
    (fp : Str) (r : Registry)
    → (remove_from_room fp r ≡ (none, r))
      ⊎ ((code : Str) × (room : Room) × (get fp r.in_room ≡ some code)
          × (get code r.rooms ≡ some room)
          × (remove_from_room fp r ≡ depart fp code room r))
unfolding remove_from_room
remove_cases fp r = elim (Option-cases (get fp r.in_room)) [
  | inl absent ↦ inl (ground (arith, str_eq_refl []))
  | inr (code, entry) ↦ elim (Bool-cases (str_eq code [])) [
    | inl empty ↦ inl (ground arith)
    | inr named ↦ elim (Option-cases (get code r.rooms)) [
      | inl gone ↦ inl (ground arith)
      | inr (room, found) ↦ inr (code, room, entry, found, ground arith)
    ]
  ]
]

abbrev pub with_member : Str → Room → Room
with_member fp room = record room { members = put fp true room.members }

pub join_cases :
    (fp code : Str) (r : Registry)
    → ((e : ErrorText) × (join_room fp code r ≡ (err e, r)))
      ⊎ ((room : Room) × (room_code fp r ≡ [])
          × (get (clean_code code) r.rooms ≡ some room)
          × (join_room fp code r ≡ (
            ok (with_member fp room),
            record r {
              rooms = put (clean_code code) (with_member fp room) r.rooms;
              in_room = put fp room.code r.in_room;
            },
          )))
unfolding join_room
join_cases fp code r = elim (Bool-cases (str_eq (room_code fp r) [])) [
  | inr busy ↦ inl (already_in_room, ground arith)
  | inl free ↦ elim (Option-cases (get (clean_code code) r.rooms)) [
    | inl missing ↦ inl (no_such_room code, ground arith)
    | inr (room, found) ↦ inr (room, (str_eq_iff _ _).0 free, found, ground arith)
  ]
]

abbrev pub new_room : Str → Str → Room
new_room fp code = record { code = code; host = fp; members = (fp, true) ∷ [] }

pub create_cases :
    (draws : List Bytes) (fp : Str) (r : Registry)
    → ((e : ErrorText) × (create_room draws fp r ≡ (err e, r)))
      ⊎ ((code : Str) × (room_code fp r ≡ [])
          × (free_code draws r.rooms ≡ some code)
          × (create_room draws fp r ≡ (
            ok code,
            record r {
              rooms = put code (new_room fp code) r.rooms;
              in_room = put fp code r.in_room;
            },
          )))
unfolding create_room
create_cases draws fp r = elim (Bool-cases (str_eq (room_code fp r) [])) [
  | inr busy ↦ inl (already_in_room, ground arith)
  | inl free ↦ elim (Option-cases (free_code draws r.rooms)) [
    | inl taken ↦ inl (no_draws, ground arith)
    | inr (code, drawn) ↦ inr (code, (str_eq_iff _ _).0 free, drawn, ground arith)
  ]
]

pub length-new_room_code : (draw : Bytes) → length (new_room_code draw) ≡ length draw
unfolding new_room_code
length-new_room_code [] = refl
length-new_room_code (x ∷ draw) = ap suc (length-new_room_code draw)

-- The drawn code has five letters and is not in use.
pub free_code_free :
    (draws : List Bytes) (rooms : GoMap Room) (code : Str)
    → All (λ d. length d ≡ 5) draws
    → free_code draws rooms ≡ some code
    → (get code rooms ≡ none) × (length code ≡ 5)
unfolding free_code
free_code_free [] rooms code five e = cc
free_code_free (d ∷ draws) rooms code five e =
    ground (arith, length-new_room_code d, free_code_free draws rooms code five.1)
