-- ===== src/Crypto/Examples.antt =====
-- Tests of the session of crypto.go, and its theorems at concrete inputs.
use eliaukvpn.Base.{
  ℕ, ◌+◌, ◌≡◌, ◌≢◌, refl, none, some, List, [], ◌∷◌, ◌++◌, map, inr, ltb, if◌then◌else◌, length,
  drop, replicate, arith,
}
use eliaukvpn.Base.Str.{Bytes}
use eliaukvpn.Base.Result.{ok, err}
use eliaukvpn.Crypto.{Aead, Session, Error, fresh_session, accept, unseal, mask, slide}
use eliaukvpn.Crypto.Window.{mem}
use eliaukvpn.Crypto.Replay.{run, remember, run_no_replay, edge_accepts_again}
use eliaukvpn.Crypto.Stream.{seal_all, unseal_all, unseal_all-seal_all, unseal_err_keeps}

abbrev pub toy_seal : Bytes → Bytes → Bytes → Bytes → Bytes
toy_seal key nonce pt aad = replicate 16 7 ++ pt

pub toy_open-seal :
    (pt : Bytes)
    → (if ltb (length (toy_seal [] [] pt [])) 16
        then none
        else some (drop 16 (toy_seal [] [] pt [])))
      ≡ some pt
toy_open-seal pt = ground arith

pub toy_length-seal : (pt : Bytes) → length (toy_seal [] [] pt []) ≡ length pt + 16
toy_length-seal pt = omega arith

abbrev pub toy_aead : Aead
toy_aead = record {
  aead_seal = toy_seal;
  aead_open = λ key nonce ct aad. if ltb (length ct) 16 then none else some (drop 16 ct);
  open-seal = λ key nonce pt aad. toy_open-seal pt;
  length-seal = λ key nonce pt aad. toy_length-seal pt;
}

abbrev at_70 : Session
at_70 = record { key = []; send = 0; recv = 70; seen = 1 }

abbrev arrivals : List ℕ
arrivals = 0 ∷ 2 ∷ 1 ∷ 2 ∷ []

run_no_replay_example : (accept 1 (run arrivals (fresh_session []) []).0).0 ≢ ok tt
unfolding run accept remember fresh_session mem mask slide
run_no_replay_example = run_no_replay [] arrivals 1 (omega arith) (omega arith) refl (omega arith)

edge_accepts_again_example : accept 6 at_70 ≡ (ok tt, at_70)
edge_accepts_again_example = edge_accepts_again at_70 6 refl (omega arith)

abbrev texts : List Bytes
texts = (1 ∷ 2 ∷ []) ∷ [] ∷ (3 ∷ []) ∷ []

unseal_all-seal_all_example :
    unseal_all toy_aead
      (9 ∷ [])
      (seal_all toy_aead (9 ∷ []) texts (fresh_session []))
      (fresh_session [])
    ≡ map ok texts
unfolding fresh_session
unseal_all-seal_all_example =
    unseal_all-seal_all toy_aead (9 ∷ []) texts (fresh_session []) (fresh_session []) refl
      (omega arith) (inr (refl, refl, refl))

unseal_short : (unseal toy_aead [] (1 ∷ []) at_70).0 ≡ err Error.too_short
unfolding unseal
unseal_short = refl

unseal_err_keeps_example : (unseal toy_aead [] (1 ∷ []) at_70).1 ≡ at_70
unseal_err_keeps_example = unseal_err_keeps toy_aead [] (1 ∷ []) at_70 Error.too_short unseal_short
