-- ===== src/Crypto/Handshake/Examples.antt =====
-- Tests of the handshake of crypto.go, and its theorems at concrete inputs.
use mathlib.Core.List.{flatten}
use eliaukvpn.Base.{◌+◌, ◌≡◌, refl, Option, some, [], ◌∷◌, length, get_or, replicate, arith}
use eliaukvpn.Base.Str.{Bytes, str_le}
use eliaukvpn.Base.Sort.{sort, insert}
use eliaukvpn.Base.Result.{ok}
use eliaukvpn.Crypto.{fresh_session}
use eliaukvpn.Crypto.Handshake.{Kex, Handshake, new_session, new_public_key, key_material}
use eliaukvpn.Crypto.Handshake.Agreement.{new_session_agrees}

abbrev pub toy_public : Bytes → Bytes
toy_public x = get_or x 0 0 ∷ replicate 31 0

pub toy_ecdh_comm :
    (x y : Bytes)
    → ◌≡◌ {A = Option Bytes}
        (some ((get_or x 0 0 + get_or y 0 0) ∷ []))
        (some ((get_or y 0 0 + get_or x 0 0) ∷ []))
toy_ecdh_comm x y = ground arith

pub toy_length : (x : Bytes) → length (toy_public x) ≡ 32
toy_length x = omega arith

abbrev pub toy_kex : Kex
toy_kex = record {
  public_of = toy_public;
  ecdh = λ x y. some ((get_or x 0 0 + get_or y 0 0) ∷ []);
  sha256 = λ m. m;
  hkdf = λ ikm salt. some ikm;
  ecdh_comm = toy_ecdh_comm;
  length-public_of = toy_length;
}

abbrev hello : Handshake
hello = record { eph = replicate 32 1; stat = replicate 32 2 }

derived :
    new_session toy_kex (1 ∷ []) (2 ∷ []) (toy_public (4 ∷ [])) (toy_public (3 ∷ []))
    ≡ ok (fresh_session (5 ∷ 5 ∷ 6 ∷ []))
unfolding new_session new_public_key key_material flatten sort insert str_le
derived = refl

new_session_agrees_example :
    new_session toy_kex (3 ∷ []) (4 ∷ []) (toy_public (2 ∷ [])) (toy_public (1 ∷ []))
    ≡ ok (fresh_session (5 ∷ 5 ∷ 6 ∷ []))
new_session_agrees_example =
    new_session_agrees toy_kex (1 ∷ []) (2 ∷ []) (3 ∷ []) (4 ∷ []) (fresh_session (5 ∷ 5 ∷ 6 ∷ []))
      derived
