-- ===== src/Crypto.antt =====
-- internal/crypto/crypto.go: the session that encrypts the packets of one peer connection.
-- AES-256-GCM, which the source takes from the standard library, is the parameter `Aead`.
pub mod Window
pub mod Replay
pub mod Stream
pub mod Handshake
pub mod Examples
use Prim.Native.Nat.{bit_and, bit_or}
use eliaukvpn.Base.{
  ℕ, ◌+◌, ◌-◌, ◌*◌, ◌%◌, ◌^◌, ◌≡◌, Option, none, some, [], ◌++◌, length, take, drop, replicate, ltb,
  leb, ◌==◌, if◌then◌else◌,
}
use eliaukvpn.Base.Str.{Bytes}
use eliaukvpn.Base.Result.{Result, ok, err}
use eliaukvpn.Base.BigEndian.{be_put, be_get}

abbrev pub tag_size : ℕ
tag_size = 16

abbrev pub replay_window : ℕ
replay_window = 64

abbrev pub u64_mod : ℕ
u64_mod = 2 ^ 64

-- cipher.AEAD with AES-256-GCM, by key, nonce, text and additional data: what was sealed opens
-- under the same key, nonce and data, and the sealed text is longer by the tag.
pub record Aead : Type 0 where
  pub aead_seal : Bytes → Bytes → Bytes → Bytes → Bytes
  pub aead_open : Bytes → Bytes → Bytes → Bytes → Option Bytes
  pub open-seal :
      (key nonce pt aad : Bytes) → aead_open key nonce (aead_seal key nonce pt aad) aad ≡ some pt
  pub length-seal :
      (key nonce pt aad : Bytes) → length (aead_seal key nonce pt aad) ≡ length pt + 16

pub record Session : Type 0 where
  pub key : Bytes
  pub send : ℕ
  pub recv : ℕ
  pub seen : ℕ

-- &Session{key: key}
unfoldable pub fresh_session : Bytes → Session
fresh_session key = record { key = key; send = 0; recv = 0; seen = 0 }

pub data Error : Type 0 where
  too_short auth_failed too_old duplicate : Error

-- `1 << d` and `seen << d` on uint64: what passes bit 63 is lost.
abbrev pub shl64 : ℕ → ℕ → ℕ
shl64 a d = a * 2 ^ d % u64_mod

-- `uint64(1) << d`
unfoldable pub mask : ℕ → ℕ
mask d = shl64 1 d

-- The bitmap moved up by d.
unfoldable pub slide : ℕ → ℕ → ℕ
slide seen d = if leb replay_window d then 0 else shl64 seen d

-- The switch of `Open`: the window test on an authenticated counter, and the new window.
unfoldable pub accept : ℕ → Session → Result Error (Unit {0}) × Session
accept ctr s =
    if ltb ((ctr + replay_window) % u64_mod) s.recv
    then (err too_old, s)
    else if ltb s.recv ctr
    then (ok tt, record s { recv = ctr; seen = bit_or (slide s.seen (ctr - s.recv)) 1 })
    else if bit_and s.seen (mask (s.recv - ctr)) == 0
    then (ok tt, record s { seen = bit_or s.seen (mask (s.recv - ctr)) })
    else (err duplicate, s)

-- The counter in the last 8 of the 12 bytes.
abbrev pub nonce_of : ℕ → Bytes
nonce_of ctr = replicate 4 0 ++ be_put 8 ctr

module _ (a : Aead) where
  -- (s *Session) Seal: `send++` wraps.
  unfoldable pub seal : Bytes → Bytes → Session → Bytes × Session
  seal aad plaintext s = (
    be_put 8 s.send ++ a.aead_seal s.key (nonce_of s.send) plaintext aad,
    record s { send = (s.send + 1) % u64_mod },
  )

  -- What `Open` does with an authenticated text.
  unfoldable pub admit : ℕ → Bytes → Session → Result Error Bytes × Session
  admit ctr pt s = let (r, s') = accept ctr s in (elim r [ ok _ ↦ ok pt | err e ↦ err e ], s')

  -- (s *Session) Open
  unfoldable pub unseal : Bytes → Bytes → Session → Result Error Bytes × Session
  unseal aad pkt s =
      if ltb (length pkt) (8 + tag_size)
      then (err too_short, s)
      else elim (a.aead_open s.key (nonce_of (be_get (take 8 pkt))) (drop 8 pkt) aad) [
        | none ↦ (err auth_failed, s)
        | some pt ↦ admit (be_get (take 8 pkt)) pt s
      ]
