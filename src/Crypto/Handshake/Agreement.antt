-- ===== src/Crypto/Handshake/Agreement.antt =====
-- Both ends of a handshake derive one session, and a handshake message survives the wire.
use mathlib.Core.List.{flatten}
use eliaukvpn.Base.{◌≡◌, ap, [], ◌∷◌, length, arith, take_exact, drop_exact, length-append}
use eliaukvpn.Base.Str.{Bytes, str_le, str_le_total, str_le_antisymm, str_le_trans}
use eliaukvpn.Base.Sort.{sort, insert, IsOrder, insert_comm, sort_swap}
use eliaukvpn.Base.Result.{ok}
use eliaukvpn.Crypto.{Session}
use eliaukvpn.Crypto.Handshake.{
  Kex, Handshake, marshal, unmarshal, new_public_key, key_material, transcript, new_session,
}

str_le-IsOrder : IsOrder str_le
str_le-IsOrder = record { total = str_le_total; antisymm = str_le_antisymm; trans = str_le_trans }

key_material_swap : (x y z : Bytes) → key_material x y z ≡ key_material y x z
unfolding key_material
key_material_swap x y z = ap flatten (sort_swap str_le str_le-IsOrder x y (z ∷ []))

transcript_swap : (a b c d : Bytes) → transcript a b c d ≡ transcript c d a b
unfolding transcript sort
transcript_swap a b c d = ap flatten (
    cc (
      insert_comm str_le str_le-IsOrder b c (insert str_le d []),
      insert_comm str_le str_le-IsOrder a c (insert str_le b (insert str_le d [])),
      insert_comm str_le str_le-IsOrder b d [],
      insert_comm str_le str_le-IsOrder a d (insert str_le b []),
    ))

-- Unmarshal reads back the message that Marshal wrote from two 32-byte keys.
pub unmarshal-marshal :
    (h : Handshake) → length h.eph ≡ 32 → length h.stat ≡ 32 → unmarshal (marshal h) ≡ ok h
unfolding marshal unmarshal
unmarshal-marshal h e s =
    ground (
      arith,
      length-append h.eph h.stat,
      take_exact 32 h.eph h.stat e,
      drop_exact 32 h.eph h.stat e,
    )

-- Whatever the two pairs of keys: if one end derives a session, the other derives the same one.
pub new_session_agrees :
    (k : Kex) (static_a eph_a static_b eph_b : Bytes) (s : Session)
    → new_session k static_a eph_a (k.public_of eph_b) (k.public_of static_b) ≡ ok s
    → new_session k static_b eph_b (k.public_of eph_a) (k.public_of static_a) ≡ ok s
unfolding new_session new_public_key
new_session_agrees k static_a eph_a static_b eph_b s h = grind (
  arith,
  key_material_swap,
  k.ecdh_comm static_a eph_b,
  k.ecdh_comm eph_a static_b,
  k.ecdh_comm eph_a eph_b,
  k.length-public_of eph_a,
  k.length-public_of static_a,
  transcript_swap (k.public_of eph_a) (k.public_of static_a) (k.public_of eph_b)
      (k.public_of static_b),
)
