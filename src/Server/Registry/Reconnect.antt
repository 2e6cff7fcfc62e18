-- ===== src/Server/Registry/Reconnect.antt =====
-- Remove of registry.go where one fingerprint has two connections, as after a reconnect that the
-- server sees before the old connection times out.
use eliaukvpn.Base.{◌≡◌, ◌≢◌, refl, ap, none, some, [], arith}
use eliaukvpn.Base.Str.{Str, str_eq_iff}
use eliaukvpn.Base.GoMap.{get, delete, get-delete, get-delete_self}
use eliaukvpn.Server.State.{Client, Registry, room_code, client_by_fp}
use eliaukvpn.Server.Rooms.{remove_from_room}
use eliaukvpn.Server.Rooms.Membership.{RoomsOk}
use eliaukvpn.Server.Registry.{detach, remove}
use eliaukvpn.Server.Registry.Invariant.{same_rooms, leave_keeps}
use eliaukvpn.Server.Registry.Visibility.{no_code_after}

by_fp_after : (fp : Str) (r : Registry) → (remove_from_room fp r).1.by_fp ≡ r.by_fp
unfolding remove_from_room
by_fp_after fp r = ground arith

detach_found :
    (r : Registry) (id : Str) (c : Client)
    → get id r.clients ≡ some c
    → c.key_fp ≢ []
    → detach id r ≡ (remove_from_room c.key_fp (record r { by_fp = delete c.key_fp r.by_fp })).1
unfolding detach
detach_found r id c found named = ground (arith, str_eq_iff c.key_fp [])

-- When one of two connections of a fingerprint ends, the other stays connected, but it loses its
-- fingerprint's entry and its room.
pub stale_disconnect :
    (r : Registry) (v : RoomsOk r) (old new : Str) (c d : Client)
    → get old r.clients ≡ some c
    → get new r.clients ≡ some d
    → c.key_fp ≢ []
    → d.key_fp ≡ c.key_fp
    → old ≢ new
    → (get new (remove old r).clients ≡ some d)
      × (client_by_fp d.key_fp (remove old r) ≡ none)
      × (room_code d.key_fp (remove old r) ≡ [])
unfolding remove client_by_fp
stale_disconnect r v old new c d at_old at_new named same differ =
    rw (detach_found r old c at_old named) (
      ground (arith, leave_keeps c.key_fp r', get-delete old new r.clients, str_eq_iff old new),
      ground (arith, same, by_fp_after c.key_fp r', get-delete_self c.key_fp r.by_fp),
      ground (
        arith,
        same,
        ap (λ fp. room_code fp (remove_from_room c.key_fp r').1) same,
        no_code_after r' ok c.key_fp,
      ),
    )
  where
    r' : Registry
    r' = record r { by_fp = delete c.key_fp r.by_fp }

    ok : RoomsOk r'
    ok = same_rooms r r' refl refl v
