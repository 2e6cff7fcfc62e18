-- ===== src/Server/Registry/Visibility.antt =====
-- Who sees whom: VisibleTo and VisiblePeers of registry.go against room membership.
use eliaukvpn.Base.{
  ◌≡◌, ◌≢◌, refl, sym, ap, subst, ◌∙◌, ◌↔◌, inl, inr, Bool, true, false, not, ◌&&◌, some, [], ◌∷◌,
  arith, Bool-cases, In, All,
}
use eliaukvpn.Base.Str.{Str, str_eq, str_eq_iff, str_eq_refl}
use eliaukvpn.Base.GoMap.{GoMap, get, get-delete_self, IsMap, get-In, In-get}
use eliaukvpn.Protocol.{Peer}
use eliaukvpn.Server.State.{Client, Registry, room_code}
use eliaukvpn.Server.Rooms.{remove_from_room}
use eliaukvpn.Server.Rooms.Membership.{RoomsOk, member_of}
use eliaukvpn.Server.Registry.{peer_of, peers_where, visible_peers, visible_to}

-- Both fingerprints are members of one room.
abbrev pub SameRoom : Str → Str → Registry → Type 0
SameRoom a b r =
    (code : Str) × (member_of a code r.rooms ≡ true) × (member_of b code r.rooms ≡ true)

-- The test of VisibleTo and VisiblePeers on two fingerprints.
abbrev same_code : Str → Str → Registry → Bool
same_code a b r = not (str_eq (room_code a r) []) && str_eq (room_code b r) (room_code a r)

-- What the range over the clients collects.
peers_where-In :
    (keep : Client → Bool) (clients : GoMap Client) (p : Peer)
    → In p (peers_where keep clients)
    → (id : Str) × (c : Client) × In (id, c) clients × (keep c ≡ true) × (p ≡ peer_of c)
unfolding peers_where
peers_where-In keep [] p i = absurd i.1
peers_where-In keep ((id, c) ∷ clients) p i = elim (Bool-cases (keep c)) [
  | inl kept ↦ elim (rw (kept, peers_where) at i) [
    | inl e ↦ (id, c, inl refl, kept, e)
    | inr later ↦ further (peers_where-In keep clients p later)
  ]
  | inr dropped ↦ further (peers_where-In keep clients p (rw (dropped, peers_where) at i))
]
  where
    further :
        ((j : Str) × (d : Client) × In (j, d) clients × (keep d ≡ true) × (p ≡ peer_of d))
        → (j : Str) × (d : Client) × In (j, d) ((id, c) ∷ clients)
          × (keep d ≡ true)
          × (p ≡ peer_of d)
    further (j, d, i', k, e) = (j, d, inr i', k, e)

In-peers_where :
    (keep : Client → Bool) (clients : GoMap Client) (id : Str) (c : Client)
    → In (id, c) clients
    → keep c ≡ true
    → In (peer_of c) (peers_where keep clients)
unfolding peers_where
In-peers_where keep [] id c i k = absurd i.1
In-peers_where keep ((j, d) ∷ clients) id c i k = ground (arith, In-peers_where keep clients id c)

module _ (r : Registry) (v : RoomsOk r) where
  code_member : (fp code : Str) → member_of fp code r.rooms ≡ true → room_code fp r ≡ code
  code_member fp code h = ground (arith, v.linked fp code, str_eq_iff (room_code fp r) code)

  member_code : (fp : Str) → room_code fp r ≢ [] → member_of fp (room_code fp r) r.rooms ≡ true
  member_code fp h = ground (arith, v.linked fp (room_code fp r), str_eq_refl (room_code fp r))

  named_code : (fp code : Str) → member_of fp code r.rooms ≡ true → code ≢ []
  named_code fp code h e = ground (arith, ap (λ c. member_of fp c r.rooms) e, v.no_empty_code)

  same_code-SameRoom : (a b : Str) → same_code a b r ≡ true → SameRoom a b r
  same_code-SameRoom a b h = (
    room_code a r,
    member_code a named,
    subst (λ c. member_of b c r.rooms ≡ true) equal (member_code b (λ e. named (sym equal ∙ e))),
  )
    where
      named : room_code a r ≢ []
      named e = ground (arith, str_eq_refl [], ap (λ c. str_eq c []) e)

      equal : room_code b r ≡ room_code a r
      equal = ground (arith, str_eq_iff (room_code b r) (room_code a r))

  SameRoom-same_code : (a b : Str) → SameRoom a b r → same_code a b r ≡ true
  SameRoom-same_code a b (code, ma, mb) =
      rw (code_member a code ma, code_member b code mb)
        (ground (arith, str_eq_refl code, str_eq_iff code [], named_code a code ma))

  -- VisibleTo says yes exactly for two different clients that are members of one room.
  pub visible_to_iff :
      (src dst : Client)
      → (visible_to src dst r ≡ true) ↔ ((src.id ≢ dst.id) × SameRoom src.key_fp dst.key_fp r)
  unfolding visible_to
  visible_to_iff src dst = (
    λ h. (
      λ e. ground (arith, str_eq_iff src.id dst.id),
      same_code-SameRoom src.key_fp dst.key_fp (ground arith),
    ),
    λ h. ground (arith, str_eq_iff src.id dst.id, SameRoom-same_code src.key_fp dst.key_fp h.1),
  )

  -- VisiblePeers lists exactly the other clients of the asker's room, as the registry has them.
  pub visible_peers_iff :
      (exclude_id fp : Str) (p : Peer)
      → IsMap r.clients
      → In p (visible_peers exclude_id fp r) ↔ (
          (id : Str) × (c : Client) × (get id r.clients ≡ some c)
          × (c.id ≢ exclude_id)
          × SameRoom fp c.key_fp r
          × (p ≡ peer_of c))
  unfolding visible_peers
  visible_peers_iff exclude_id fp p m = (listed, complete)
    where
      keep : Client → Bool
      keep c = not (str_eq c.id exclude_id) && str_eq (room_code c.key_fp r) (room_code fp r)

      from_scan :
          str_eq (room_code fp r) [] ≡ false
          → ((id : Str) × (c : Client) × In (id, c) r.clients × (keep c ≡ true) × (p ≡ peer_of c))
          → (id : Str) × (c : Client) × (get id r.clients ≡ some c)
            × (c.id ≢ exclude_id)
            × SameRoom fp c.key_fp r
            × (p ≡ peer_of c)
      from_scan named (id, c, i, k, e) = (
        id,
        c,
        In-get id c r.clients m i,
        λ e'. ground (arith, str_eq_iff c.id exclude_id),
        same_code-SameRoom fp c.key_fp (ground arith),
        e,
      )

      listed :
          In p (visible_peers exclude_id fp r)
          → (id : Str) × (c : Client) × (get id r.clients ≡ some c)
            × (c.id ≢ exclude_id)
            × SameRoom fp c.key_fp r
            × (p ≡ peer_of c)
      listed i = elim (Bool-cases (str_eq (room_code fp r) [])) [
        | inl lone ↦ absurd (rw lone at i).1
        | inr named ↦ from_scan named (peers_where-In keep r.clients p (rw named at i))
      ]

      complete :
          ((id : Str) × (c : Client) × (get id r.clients ≡ some c)
            × (c.id ≢ exclude_id)
            × SameRoom fp c.key_fp r
            × (p ≡ peer_of c))
          → In p (visible_peers exclude_id fp r)
      complete (id, c, found, other, same, e) =
          let code : same_code fp c.key_fp r ≡ true = SameRoom-same_code fp c.key_fp same in
          let named : str_eq (room_code fp r) [] ≡ false = ground arith in
          let kept : keep c ≡ true = ground (arith, str_eq_iff c.id exclude_id) in
          rw (named, e) (In-peers_where keep r.clients id c (get-In id c r.clients found) kept)

pub no_code_after :
    (r : Registry) (v : RoomsOk r) (fp : Str) → room_code fp (remove_from_room fp r).1 ≡ []
unfolding remove_from_room
no_code_after r v fp = ground (
  arith,
  get-delete_self fp r.in_room,
  v.linked fp (room_code fp r),
  str_eq_refl (room_code fp r),
  str_eq_iff (room_code fp r) [],
)

peers_where-All :
    (Q : Peer → Type 0) (keep : Client → Bool) (clients : GoMap Client)
    → ((id : Str) (c : Client) → In (id, c) clients → keep c ≡ true → Q (peer_of c))
    → All Q (peers_where keep clients)
unfolding peers_where
peers_where-All Q keep [] h = tt
peers_where-All Q keep ((id, c) ∷ clients) h =
    let later = peers_where-All Q keep clients (λ j d i. h j d (inr i)) in
    elim (Bool-cases (keep c)) [
      | inl kept ↦ rw (peers_where, kept) (h id c (inl refl) kept, later)
      | inr dropped ↦ rw (peers_where, dropped) later
    ]

-- The peer of a registered client with another fingerprint.
abbrev pub ShowsOther : Str → Registry → Peer → Type 0
ShowsOther fp r p =
    (id : Str) × (c : Client) × In (id, c) r.clients
    × (p ≡ peer_of c)
    × (str_eq c.key_fp fp ≡ false)

-- Nobody lists a fingerprint that is in no room.
roomless_unlisted :
    (fp : Str) (r : Registry) (exclude_id viewer_fp : Str)
    → room_code fp r ≡ []
    → All (ShowsOther fp r) (visible_peers exclude_id viewer_fp r)
unfolding visible_peers
roomless_unlisted fp r exclude_id viewer_fp gone =
    elim (Bool-cases (str_eq (room_code viewer_fp r) [])) [
      | inl lone ↦ rw (visible_peers, lone) tt
      | inr named ↦
          rw (visible_peers, named)
            (peers_where-All (ShowsOther fp r)
              (λ c.
                not (str_eq c.id exclude_id)
                && str_eq (room_code c.key_fp r) (room_code viewer_fp r))
              r.clients
              (λ id c i kept. (
                id,
                c,
                i,
                refl,
                ground (
                  arith,
                  gone,
                  str_eq_iff c.key_fp fp,
                  ap (λ f. room_code f r),
                  str_eq_iff (room_code c.key_fp r) (room_code viewer_fp r),
                  str_eq_iff (room_code viewer_fp r) [],
                ),
              )))
    ]

-- In the state right after a client left its room, it sees no client and its list of peers is empty,
-- no client sees it, and every entry of a list of peers, whoever asks for it, is the entry of a
-- registered client with another fingerprint. The rooms were well-formed before.
pub leaver_hidden :
    (r : Registry) (v : RoomsOk r) (leaver other : Client) (exclude_id viewer_fp : Str)
    → (visible_to leaver other (remove_from_room leaver.key_fp r).1 ≡ false)
      × (visible_to other leaver (remove_from_room leaver.key_fp r).1 ≡ false)
      × (visible_peers leaver.id leaver.key_fp (remove_from_room leaver.key_fp r).1 ≡ [])
      × All
          (ShowsOther leaver.key_fp (remove_from_room leaver.key_fp r).1)
          (visible_peers exclude_id viewer_fp (remove_from_room leaver.key_fp r).1)
unfolding visible_to visible_peers
leaver_hidden r v leaver other exclude_id viewer_fp = (
  ground (arith, gone, str_eq_refl []),
  ground (
    arith,
    gone,
    str_eq_refl [],
    str_eq_iff [] (room_code other.key_fp after),
    str_eq_iff (room_code other.key_fp after) [],
  ),
  ground (arith, gone, str_eq_refl []),
  roomless_unlisted leaver.key_fp after exclude_id viewer_fp gone,
)
  where
    after : Registry
    after = (remove_from_room leaver.key_fp r).1

    gone : room_code leaver.key_fp after ≡ []
    gone = no_code_after r v leaver.key_fp
