-- ===== src/Agent/Rooms/Whitelist.antt =====
-- The whitelist that syncWhitelistLocked gives to the tunnel, read back from the members.
use eliaukvpn.Base.{
  ◌≡◌, ◌↔◌, refl, sym, ap, ◌∙◌, Bool, true, false, ◌||◌, some, List, [], ◌∷◌, append-nil, All, In,
  inl, inr, arith, length, Bool-cases, Option-cases,
}
use eliaukvpn.Base.Str.{Str, Bytes, str_eq, str_eq_iff}
use eliaukvpn.Base.GoMap.{GoMap, get, put, get-put}
use eliaukvpn.P2p.State.{friend_set}
use eliaukvpn.P2p.Tunnel.{flag}
use eliaukvpn.Protocol.{RoomMember}
use eliaukvpn.Agent.State.{Library, parse_fingerprint}
use eliaukvpn.Agent.Rooms.{dedup_from, dedup_fp, member_fps}

abbrev pub AllKeys : List Bytes → Type 0
AllKeys = All (λ x. length x ≡ 32)

module _ (encode : Bytes → Str) where
  -- Some key of the list has the fingerprint `s`.
  abbrev pub listed : Str → List Bytes → Bool
  listed s [] = false
  listed s (x ∷ xs) = str_eq (encode x) s || listed s xs

  flag-friend_set :
      (s : Str) (m : GoMap Bool) (xs : List Bytes)
      → AllKeys xs
      → flag s (friend_set encode m xs) ≡ (listed s xs || flag s m)
  unfolding friend_set
  flag-friend_set s m [] h = refl
  flag-friend_set s m (x ∷ xs) h =
      ground (arith, flag-friend_set s (put (encode x) true m) xs h.1, get-put (encode x) s true m)

  listed-dedup_from :
      (s : Str) (seen : GoMap Bool) (xs : List Bytes)
      → (listed s (dedup_from encode seen xs) || flag s seen) ≡ (listed s xs || flag s seen)
  unfolding dedup_from
  listed-dedup_from s seen [] = refl
  listed-dedup_from s seen (x ∷ xs) = ground (
    arith,
    listed-dedup_from s (put (encode x) true seen) xs,
    listed-dedup_from s seen xs,
    get-put (encode x) s true seen,
    str_eq_iff (encode x) s,
  )

  dedup_from-AllKeys :
      (seen : GoMap Bool) (xs : List Bytes) → AllKeys xs → AllKeys (dedup_from encode seen xs)
  unfolding dedup_from
  dedup_from-AllKeys seen [] h = tt
  dedup_from-AllKeys seen (x ∷ xs) h =
      ground (
        arith,
        dedup_from-AllKeys (put (encode x) true seen) xs h.1,
        dedup_from-AllKeys seen xs h.1,
      )

  -- The tunnel's set has exactly the fingerprints of the list.
  pub whitelist_flag :
      (s : Str) (xs : List Bytes)
      → AllKeys xs
      → flag s (friend_set encode [] (dedup_fp encode (xs ∷ []))) ≡ listed s xs
  unfolding dedup_fp get
  whitelist_flag s xs h =
      ap (λ l. flag s (friend_set encode [] (dedup_from encode [] l))) (append-nil xs)
      ∙ flag-friend_set s [] (dedup_from encode [] xs) (dedup_from-AllKeys [] xs h)
      ∙ listed-dedup_from s [] xs
      ∙ ground arith

module _ (lib : Library) where
  encode-injective : (x y : Bytes) → lib.encode x ≡ lib.encode y → x ≡ y
  encode-injective x y e = cc (lib.decode-encode x, lib.decode-encode y)

  listed-In : (x : Bytes) (xs : List Bytes) → listed lib.encode (lib.encode x) xs ≡ true → In x xs
  listed-In x [] h = cc
  listed-In x (y ∷ ys) h = elim (Bool-cases (str_eq (lib.encode y) (lib.encode x))) [
    | inl same ↦
        inl (encode-injective x y (sym ((str_eq_iff (lib.encode y) (lib.encode x)).0 same)))
    | inr differs ↦ inr (listed-In x ys (ground arith))
  ]

  In-listed : (x : Bytes) (xs : List Bytes) → In x xs → listed lib.encode (lib.encode x) xs ≡ true
  In-listed x [] i = absurd i.1
  In-listed x (y ∷ ys) (inl e) =
      ground (arith, str_eq_iff (lib.encode y) (lib.encode x), ap lib.encode e)
  In-listed x (y ∷ ys) (inr i) = ground (arith, In-listed x ys i)

  -- A member other than ourselves, whose fingerprint is that of the key `x`
  pub record IsMember (self : Str) (ms : List RoomMember) (x : Bytes) : Type 0 where
    pub member : RoomMember
    pub present : In member ms
    pub another : str_eq member.key_fp self ≡ false
    pub parsed : parse_fingerprint lib member.key_fp ≡ some x

  parsed_key : (s : Str) (x : Bytes) → parse_fingerprint lib s ≡ some x → length x ≡ 32
  unfolding parse_fingerprint
  parsed_key s x e = ground arith

  pub member_fps-AllKeys : (self : Str) (ms : List RoomMember) → AllKeys (member_fps lib self ms)
  unfolding member_fps
  member_fps-AllKeys self [] = tt
  member_fps-AllKeys self (m ∷ ms) = elim (Option-cases (parse_fingerprint lib m.key_fp)) [
    | inl bad ↦ ground (arith, bad, member_fps-AllKeys self ms)
    | inr (x, good) ↦ ground (arith, good, parsed_key m.key_fp x good, member_fps-AllKeys self ms)
  ]

  later :
      {self : Str} {ms : List RoomMember} {x : Bytes} (m : RoomMember)
      → IsMember self ms x
      → IsMember self (m ∷ ms) x
  later m i = record {
    member = i.member;
    present = inr i.present;
    another = i.another;
    parsed = i.parsed;
  }

  In-member_fps :
      (self : Str) (ms : List RoomMember) (x : Bytes)
      → In x (member_fps lib self ms)
      → IsMember self ms x
  unfolding member_fps
  In-member_fps self [] x i = absurd i.1
  In-member_fps self (m ∷ ms) x i = elim (Bool-cases (str_eq m.key_fp self)) [
    | inl me ↦ later m (In-member_fps self ms x (rw me at i))
    | inr other ↦ elim (Option-cases (parse_fingerprint lib m.key_fp)) [
      | inl bad ↦ later m (In-member_fps self ms x (rw (other, bad) at i))
      | inr (y, good) ↦
          let found : In x (y ∷ member_fps lib self ms) = rw (other, good) at i in
          elim found [
            | inl e ↦ record {
              member = m;
              present = inl refl;
              another = other;
              parsed = good ∙ ap some (sym e);
            }
            | inr r ↦ later m (In-member_fps self ms x r)
          ]
    ]
  ]

  member_fps-In :
      (self : Str) (ms : List RoomMember) (x : Bytes) (m : RoomMember)
      → In m ms
      → str_eq m.key_fp self ≡ false
      → parse_fingerprint lib m.key_fp ≡ some x
      → In x (member_fps lib self ms)
  unfolding member_fps
  member_fps-In self [] x m i other good = absurd i.1
  member_fps-In self (n ∷ ms) x m (inl e) other good =
      let other' : str_eq n.key_fp self ≡ false = rw e at other in
      let good' : parse_fingerprint lib n.key_fp ≡ some x = rw e at good in
      rw (other', good') (inl refl)
  member_fps-In self (n ∷ ms) x m (inr i) other good =
      let rest : In x (member_fps lib self ms) = member_fps-In self ms x m i other good in
      elim (Bool-cases (str_eq n.key_fp self)) [
        | inl me ↦ rw me rest
        | inr them ↦ elim (Option-cases (parse_fingerprint lib n.key_fp)) [
          | inl bad ↦ rw (them, bad) rest
          | inr (y, fine) ↦ rw (them, fine) (inr rest)
        ]
      ]

  -- A key is in the tunnel's set exactly if it is a member's.
  pub whitelist_iff :
      (self : Str) (ms : List RoomMember) (x : Bytes)
      → (flag
            (lib.encode x)
            (friend_set lib.encode [] (dedup_fp lib.encode (member_fps lib self ms ∷ [])))
          ≡ true)
        ↔ IsMember self ms x
  whitelist_iff self ms x =
      let same =
        whitelist_flag lib.encode (lib.encode x) (member_fps lib self ms)
          (member_fps-AllKeys self ms) in
      (
        λ h. In-member_fps self ms x (listed-In x (member_fps lib self ms) (sym same ∙ h)),
        λ i.
            same
            ∙ In-listed x (member_fps lib self ms)
                (member_fps-In self ms x i.member i.present i.another i.parsed),
      )
