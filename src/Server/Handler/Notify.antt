-- ===== src/Server/Handler/Notify.antt =====
-- Who gets the member lists and the peer lists of handler.go.
use eliaukvpn.Base.{
  ◌≡◌, refl, sym, ap, subst, ◌∙◌, inl, inr, ◌↔◌, Bool, some, List, [], ◌∷◌, Option-cases, In,
}
use eliaukvpn.Base.Str.{Str}
use eliaukvpn.Base.GoMap.{GoMap, get, get-In}
use eliaukvpn.Protocol.{RoomMember, room_update, room_left, peers_list}
use eliaukvpn.Server.State.{Client, Room, Registry, client_by_fp}
use eliaukvpn.Server.Rooms.{room_members_list, remove_from_room}
use eliaukvpn.Server.Rooms.Membership.{RoomsOk}
use eliaukvpn.Server.Registry.{visible_peers}
use eliaukvpn.Server.Registry.Visibility.{leaver_hidden}
use eliaukvpn.Server.Registry.Invariant.{leave_keeps}
use eliaukvpn.Server.Handler.{
  Sent, notify_from, notify_room, broadcast_from, broadcast_peers, handle_room_leave,
}
use eliaukvpn.Server.Handler.Gate.{In-append}

-- An online member of a room.
abbrev pub Online : Registry → GoMap Bool → Str → Client → Type 0
Online r fps fp mc = ((b : Bool) × In (fp, b) fps) × (client_by_fp fp r ≡ some mc)

notify_from-Online :
    (r : Registry) (members : List RoomMember) (fps : GoMap Bool) (s : Sent)
    → In s (notify_from r members fps)
    → (fp : Str) × (mc : Client) × Online r fps fp mc × (s ≡ (mc.id, room_update members))
unfolding notify_from
notify_from-Online r members [] s i = absurd i.1
notify_from-Online r members ((fp, b) ∷ fps) s i = elim (Option-cases (client_by_fp fp r)) [
  | inl offline ↦ further (notify_from-Online r members fps s (rw (offline, notify_from) at i))
  | inr (mc, online) ↦ elim (rw (online, notify_from) at i) [
    | inl same ↦ (fp, mc, ((b, inl refl), online), same)
    | inr later ↦ further (notify_from-Online r members fps s later)
  ]
]
  where
    further :
        ((fp' : Str) × (mc : Client) × Online r fps fp' mc × (s ≡ (mc.id, room_update members)))
        → (fp' : Str) × (mc : Client) × Online r ((fp, b) ∷ fps) fp' mc
          × (s ≡ (mc.id, room_update members))
    further (fp', mc, ((b', i'), online), same) = (fp', mc, ((b', inr i'), online), same)

Online-notify_from :
    (r : Registry) (members : List RoomMember) (fps : GoMap Bool) (fp : Str) (b : Bool)
    (mc : Client)
    → In (fp, b) fps
    → client_by_fp fp r ≡ some mc
    → In {A = Sent} (mc.id, room_update members) (notify_from r members fps)
unfolding notify_from
Online-notify_from r members [] fp b mc i online = absurd i.1
Online-notify_from r members ((fp', b') ∷ fps) fp b mc (inl same) online =
    rw (sym (ap (λ e. e.0) same), online, notify_from) (inl refl)
Online-notify_from r members ((fp', b') ∷ fps) fp b mc (inr later) online =
    elim (Option-cases (client_by_fp fp' r)) [
      | inl offline ↦
          rw (offline, notify_from) (Online-notify_from r members fps fp b mc later online)
      | inr (mc', online') ↦
          rw (online', notify_from) (inr (Online-notify_from r members fps fp b mc later online))
    ]

-- notifyRoom sends the one current member list to exactly the room's online members.
pub notify_room_iff :
    (r : Registry) (room : Room) (s : Sent)
    → In s (notify_room r room) ↔ (
        (fp : Str) × (mc : Client) × Online r room.members fp mc
        × (s ≡ (mc.id, room_update (room_members_list r room))))
unfolding notify_room
notify_room_iff r room s =
    (notify_from-Online r (room_members_list r room) room.members s, complete)
  where
    complete :
        ((fp : Str) × (mc : Client) × Online r room.members fp mc
          × (s ≡ (mc.id, room_update (room_members_list r room))))
        → In s (notify_from r (room_members_list r room) room.members)
    complete (fp, mc, ((b, i), online), same) =
        subst (λ z. In z (notify_from r (room_members_list r room) room.members)) (sym same)
          (Online-notify_from r (room_members_list r room) room.members fp b mc i online)

broadcast_from-In :
    (r : Registry) (clients : GoMap Client) (id : Str) (c : Client)
    → In (id, c) clients
    → In {A = Sent} (id, peers_list (visible_peers c.id c.key_fp r)) (broadcast_from r clients)
unfolding broadcast_from
broadcast_from-In r [] id c i = absurd i.1
broadcast_from-In r ((id', c') ∷ clients) id c (inl same) =
    inl (ap (λ (e : Str × Client). (e.0, peers_list (visible_peers e.1.id e.1.key_fp r))) same)
broadcast_from-In r ((id', c') ∷ clients) id c (inr later) =
    inr (broadcast_from-In r clients id c later)

-- A client that leaves its room is told so and gets an empty peer list.
leave_clears :
    (r : Registry) (v : RoomsOk r) (c : Client) (room : Room)
    → get c.id r.clients ≡ some c
    → (remove_from_room c.key_fp r).0 ≡ some room
    → In {A = Sent} (c.id, room_left room.code) (handle_room_leave c r).0
      × In {A = Sent} (c.id, peers_list []) (handle_room_leave c r).0
unfolding handle_room_leave broadcast_peers
leave_clears r v c room known left =
    rw (left, handle_room_leave)
      (
        inl refl,
        inr (
            In-append (c.id, peers_list []) (notify_room r' room) (broadcast_from r' r'.clients)
              (subst (λ ps. In {A = Sent} (c.id, peers_list ps) (broadcast_from r' r'.clients))
                (leaver_hidden r v c c c.id c.key_fp).2
                (broadcast_from-In r' r'.clients c.id c
                  (get-In c.id c r'.clients (ap (get c.id) (leave_keeps c.key_fp r).0 ∙ known))))),
      )
  where
    r' : Registry
    r' = (remove_from_room c.key_fp r).1
