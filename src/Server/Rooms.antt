-- ===== src/Server/Rooms.antt =====
-- internal/server/rooms.go: rooms under short codes.
pub mod Cases
pub mod Membership
pub mod Host
use eliaukvpn.Base.{
  ℕ, suc, ◌+◌, ◌-◌, ◌%◌, Bool, true, false, ◌&&◌, ◌||◌, Option, none, some, List, [], ◌∷◌, ◌++◌,
  map, ltb, leb, ◌==◌, if◌then◌else◌, is_empty, get_or,
}
use eliaukvpn.Base.Str.{Str, Bytes, text, str_eq, str_le}
use eliaukvpn.Base.Trim.{trim_space, to_upper}
use eliaukvpn.Base.GoMap.{GoMap, get, put, delete, or_empty}
use eliaukvpn.Base.Sort.{sort}
use eliaukvpn.Base.Result.{Result, ok, err}
use eliaukvpn.Protocol.{RoomMember, ErrorText, already_in_room, no_such_room, no_draws}
use eliaukvpn.Server.State.{Client, Room, Registry, room_code, client_by_fp}

abbrev pub room_code_alphabet : Str
room_code_alphabet = text "ABCDEFGHJKLMNPQRSTUVWXYZ23456789"

-- newRoomCode, from the five random bytes.
unfoldable pub new_room_code : Bytes → Str
new_room_code = map (λ x. get_or room_code_alphabet (x % 32) 0)

-- The loop of CreateRoom: draws until the code is free. `none`: the given draws were all taken.
unfoldable pub free_code : List Bytes → GoMap Room → Option Str
free_code [] rooms = none
free_code (draw ∷ draws) rooms =
    let more = free_code draws rooms in
    elim (get (new_room_code draw) rooms) [ none ↦ some (new_room_code draw) | some _ ↦ more ]

-- CreateRoom
unfoldable pub create_room : List Bytes → Str → Registry → Result ErrorText Str × Registry
create_room draws fp r =
    if str_eq (room_code fp r) []
    then (elim (free_code draws r.rooms) [
      | none ↦ (err no_draws, r)
      | some code ↦ (
        ok code,
        record r {
          rooms = put code (record { code = code; host = fp; members = (fp, true) ∷ [] }) r.rooms;
          in_room = put fp code r.in_room;
        },
      )
    ])
    else (err already_in_room, r)

-- strings.ToUpper(strings.TrimSpace(s))
unfoldable pub clean_code : Str → Str
unfolding trim_space to_upper
clean_code s = to_upper (trim_space s)

-- JoinRoom: the joined room as it is then.
unfoldable pub join_room : Str → Str → Registry → Result ErrorText Room × Registry
join_room fp code r =
    if str_eq (room_code fp r) []
    then (elim (get (clean_code code) r.rooms) [
      | none ↦ (err (no_such_room code), r)
      | some room ↦
          let joined = record room { members = put fp true room.members } in
          (
            ok joined,
            record r {
              rooms = put (clean_code code) joined r.rooms;
              in_room = put fp room.code r.in_room;
            },
          )
    ])
    else (err already_in_room, r)

-- oldestMemberLocked: the loop over the members, with the best so far and its number.
unfoldable pub oldest_from : Registry → Str → ℕ → GoMap Bool → Str
oldest_from r oldest oldest_seq [] = oldest
oldest_from r oldest oldest_seq ((fp, _) ∷ members) = elim (client_by_fp fp r) [
  | none ↦ oldest_from r oldest oldest_seq members
  | some c ↦
      if str_eq oldest [] || ltb c.seq oldest_seq
      then oldest_from r fp c.seq members
      else oldest_from r oldest oldest_seq members
]

unfoldable pub oldest_member : Registry → Room → Str
unfolding oldest_from
oldest_member r room = oldest_from r [] 0 room.members

-- removeFromRoomLocked, once the room is found
unfoldable pub depart : Str → Str → Room → Registry → Option Room × Registry
depart fp code room r =
    let left = record room { members = delete fp room.members } in
    let r' = record r { in_room = delete fp r.in_room } in
    if is_empty left.members
    then (some left, record r' { rooms = delete code r.rooms })
    else let kept = record left {
      host = if str_eq room.host fp then oldest_member r left else room.host;
    } in
      (some kept, record r' { rooms = put code kept r.rooms })

-- removeFromRoomLocked and LeaveRoom: the room as it is after the departure, whether or not it
-- still exists. A code with no room would be a nil dereference in the source; `RoomsOk` excludes it.
unfoldable pub remove_from_room : Str → Registry → Option Room × Registry
unfolding depart
remove_from_room fp r =
    let code = room_code fp r in
    if str_eq code []
    then (none, r)
    else (elim (get code r.rooms) [ none ↦ (none, r) | some room ↦ depart fp code room r ])

-- Room
unfoldable pub room_of : Str → Registry → Option Room
room_of fp r = let code = room_code fp r in if str_eq code [] then none else get code r.rooms

-- One entry of roomMembersLocked.
unfoldable pub member_entry : Room → Str → Client → RoomMember
member_entry room fp c = record {
  username = c.name;
  key_fp = c.key_fp;
  virtual_ip = c.virtual_ip;
  host = str_eq fp room.host;
}

unfoldable pub member_entries : Registry → Room → GoMap Bool → List RoomMember
member_entries r room [] = []
member_entries r room ((fp, _) ∷ members) =
    let rest = member_entries r room members in
    elim (client_by_fp fp r) [ none ↦ rest | some c ↦ member_entry room fp c ∷ rest ]

abbrev username_le : RoomMember → RoomMember → Bool
username_le x y = str_le x.username y.username

-- roomMembersLocked and RoomMembersList
unfoldable pub room_members_list : Registry → Room → List RoomMember
room_members_list r room = sort username_le (member_entries r room room.members)

-- RoomMembers
unfoldable pub room_members : Str → Registry → List RoomMember
room_members fp r = elim (room_of fp r) [ none ↦ [] | some room ↦ room_members_list r room ]
