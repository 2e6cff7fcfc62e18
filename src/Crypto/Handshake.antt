-- ===== src/Crypto/Handshake.antt =====
-- internal/crypto/crypto.go: the handshake message and the session key that two of them make.
-- X25519, SHA-256 and HKDF, which the source takes from the standard library, are the parameter
-- `Kex`.
pub mod Agreement
pub mod Examples
use mathlib.Core.List.{flatten}
use eliaukvpn.Base.{
  ℕ, ◌≡◌, Option, none, some, List, [], ◌∷◌, ◌++◌, length, take, drop, ◌==◌, if◌then◌else◌,
}
use eliaukvpn.Base.Str.{Bytes, str_le}
use eliaukvpn.Base.Sort.{sort}
use eliaukvpn.Base.Result.{Result, ok, err, ◌>>=◌}
use eliaukvpn.Crypto.{Session, fresh_session}

-- The key exchange. A private key is given by its bytes; `ecdh` fails on a low-order point.
-- A shared secret is the same from both ends, and a public key has 32 bytes.
pub record Kex : Type 0 where
  pub public_of : Bytes → Bytes
  pub ecdh : Bytes → Bytes → Option Bytes
  pub sha256 : Bytes → Bytes
  pub hkdf : Bytes → Bytes → Option Bytes
  pub ecdh_comm : (x y : Bytes) → ecdh x (public_of y) ≡ ecdh y (public_of x)
  pub length-public_of : (x : Bytes) → length (public_of x) ≡ 32

pub record Handshake : Type 0 where
  pub eph : Bytes
  pub stat : Bytes

pub data HandshakeError : Type 0 where
  bad_length bad_ephemeral bad_static dh_static_eph dh_eph_static dh_eph_eph no_key : HandshakeError

-- (h *Handshake) Marshal
unfoldable pub marshal : Handshake → Bytes
marshal h = h.eph ++ h.stat

-- (h *Handshake) Unmarshal
unfoldable pub unmarshal : Bytes → Result HandshakeError Handshake
unmarshal b =
    if length b == 64 then ok (record { eph = take 32 b; stat = drop 32 b }) else err bad_length

-- ecdh.X25519().NewPublicKey: any 32 bytes.
unfoldable pub new_public_key : Bytes → HandshakeError → Result HandshakeError Bytes
new_public_key b e = if length b == 32 then ok b else err e

abbrev or_fail {ℓ} : {A : Type ℓ} → Option A → HandshakeError → Result HandshakeError A
or_fail none e = err e
or_fail (some a) e = ok a

-- The three secrets in a canonical order, end to end.
unfoldable pub key_material : Bytes → Bytes → Bytes → Bytes
key_material static_eph eph_static eph_eph =
    flatten (sort str_le (static_eph ∷ eph_static ∷ eph_eph ∷ []))

-- The four public keys in a canonical order, end to end.
unfoldable pub transcript : Bytes → Bytes → Bytes → Bytes → Bytes
transcript my_eph my_static peer_eph peer_static =
    flatten (sort str_le (my_eph ∷ my_static ∷ peer_eph ∷ peer_static ∷ []))

-- NewSession
unfoldable pub new_session : Kex → Bytes → Bytes → Bytes → Bytes → Result HandshakeError Session
new_session k my_static my_eph peer_eph peer_static = do
  peer_eph_pub ← new_public_key peer_eph bad_ephemeral
  peer_static_pub ← new_public_key peer_static bad_static
  static_eph ← or_fail (k.ecdh my_static peer_eph_pub) dh_static_eph
  eph_static ← or_fail (k.ecdh my_eph peer_static_pub) dh_eph_static
  eph_eph ← or_fail (k.ecdh my_eph peer_eph_pub) dh_eph_eph
  let salt = k.sha256 (transcript (k.public_of my_eph) (k.public_of my_static) peer_eph peer_static)
  key ← or_fail (k.hkdf (key_material static_eph eph_static eph_eph) salt) no_key
  ok (fresh_session key)
