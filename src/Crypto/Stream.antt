-- ===== src/Crypto/Stream.antt =====
-- Packets of `Seal` read back by `Open`, in order of sending.
use eliaukvpn.Base.{
  ℕ, ◌+◌, ◌^◌, ◌≤◌, ◌<◌, ◌≡◌, refl, ◌⊎◌, ◌∙◌, false, List, [], ◌∷◌, ◌++◌, map, arith, ltb, ap, ap₂,
  length, take, drop, take_exact, drop_exact, ◌-◌, length-append,
}
use eliaukvpn.Base.Str.{Bytes}
use eliaukvpn.Base.Result.{Result, ok, err}
use eliaukvpn.Base.BigEndian.{be_put, be_get, length-be_put, be_get-be_put}
use eliaukvpn.Base.Bits.{zero-bit_and}
use eliaukvpn.Crypto.{Aead, Session, Error, mask, nonce_of, accept, admit, seal, unseal}

-- The receiver has only seen counters below the sender's next one.
abbrev pub Follows : Session → Session → Type 0
Follows snd rcv = (rcv.recv < snd.send) ⊎ ((rcv.recv ≡ 0) × (snd.send ≡ 0) × (rcv.seen ≡ 0))

accept_next :
    (snd rcv : Session)
    → snd.send + 64 < 2 ^ 64
    → Follows snd rcv
    → ((accept snd.send rcv).0 ≡ ok tt)
      × ((accept snd.send rcv).1.recv ≡ snd.send)
      × ((accept snd.send rcv).1.key ≡ rcv.key)
unfolding accept
accept_next snd rcv small f = ground (arith, zero-bit_and (mask (rcv.recv - snd.send)))

module _ (a : Aead) (aad : Bytes) where
  packet : ℕ → Bytes → Bytes → Bytes
  packet ctr key pt = be_put 8 ctr ++ a.aead_seal key (nonce_of ctr) pt aad

  counter_of : (ctr : ℕ) (key pt : Bytes) → ctr < 2 ^ 64 → be_get (take 8 (packet ctr key pt)) ≡ ctr
  unfolding packet
  counter_of ctr key pt small =
      ap be_get (take_exact 8 (be_put 8 ctr) _ (length-be_put 8 ctr)) ∙ be_get-be_put 8 ctr small

  body_of :
      (ctr : ℕ) (key pt : Bytes)
      → drop 8 (packet ctr key pt) ≡ a.aead_seal key (nonce_of ctr) pt aad
  unfolding packet
  body_of ctr key pt = drop_exact 8 (be_put 8 ctr) _ (length-be_put 8 ctr)

  long_enough : (ctr : ℕ) (key pt : Bytes) → ltb (length (packet ctr key pt)) 24 ≡ false
  unfolding packet
  long_enough ctr key pt = ground (
    arith,
    length-append (be_put 8 ctr) (a.aead_seal key (nonce_of ctr) pt aad),
    length-be_put 8 ctr,
    a.length-seal key (nonce_of ctr) pt aad,
  )

  -- `Open` on the packet that a counter, a key and a text make.
  unseal-packet :
      (ctr : ℕ) (pt : Bytes) (rcv : Session)
      → ctr < 2 ^ 64
      → unseal a aad (packet ctr rcv.key pt) rcv ≡ admit a ctr pt rcv
  unfolding unseal
  unseal-packet ctr pt rcv small = rw (
    long_enough ctr rcv.key pt,
    counter_of ctr rcv.key pt small,
    body_of ctr rcv.key pt,
    a.open-seal rcv.key (nonce_of ctr) pt aad,
    counter_of ctr rcv.key pt small,
  )

  -- `Open` under the same key and data returns the text of a packet that `Seal` made, provided
  -- that the receiver has seen only earlier counters, and that the counter is 64 below 2 ^ 64.
  pub unseal-seal :
      (pt : Bytes) (snd rcv : Session)
      → snd.key ≡ rcv.key
      → snd.send + 64 < 2 ^ 64
      → Follows snd rcv
      → (unseal a aad (seal a aad pt snd).0 rcv).0 ≡ ok pt
  unfolding seal admit packet
  unseal-seal pt snd rcv same small f =
      rw (same, ap (λ r. r.0) (unseal-packet snd.send pt rcv (omega arith)))
        (ground (arith, accept_next snd rcv small f))

  unseal-seal_next :
      (pt : Bytes) (snd rcv : Session)
      → snd.key ≡ rcv.key
      → snd.send + 64 < 2 ^ 64
      → Follows snd rcv
      → Follows (seal a aad pt snd).1 (unseal a aad (seal a aad pt snd).0 rcv).1
        × ((seal a aad pt snd).1.key ≡ (unseal a aad (seal a aad pt snd).0 rcv).1.key)
        × ((seal a aad pt snd).1.send ≡ snd.send + 1)
  unfolding seal admit packet
  unseal-seal_next pt snd rcv same small f =
      rw (same, ap (λ r. r.1) (unseal-packet snd.send pt rcv (omega arith)))
        (ground (arith, accept_next snd rcv small f))

  -- The packets of a list of texts, and what the receiver makes of a list of packets.
  pub seal_all : List Bytes → Session → List Bytes
  seal_all [] s = []
  seal_all (pt ∷ pts) s = let (pkt, s') = seal a aad pt s in pkt ∷ seal_all pts s'

  pub unseal_all : List Bytes → Session → List (Result Error Bytes)
  unseal_all [] s = []
  unseal_all (pkt ∷ pkts) s = let (r, s') = unseal a aad pkt s in r ∷ unseal_all pkts s'

  -- Texts sealed one after the other open, in that order, to themselves, as long as the counters
  -- stay 64 below 2 ^ 64 and the receiver has seen only earlier counters.
  pub unseal_all-seal_all :
      (pts : List Bytes) (snd rcv : Session)
      → snd.key ≡ rcv.key
      → snd.send + length pts + 64 ≤ 2 ^ 64
      → Follows snd rcv
      → unseal_all (seal_all pts snd) rcv ≡ map ok pts
  unfolding seal_all unseal_all
  unseal_all-seal_all [] snd rcv same small f = refl
  unseal_all-seal_all (pt ∷ pts) snd rcv same small f =
      let (f', same', sent) = unseal-seal_next pt snd rcv same (omega arith) f in
      ap₂ (λ r rs. r ∷ rs) (unseal-seal pt snd rcv same (omega arith) f)
        (unseal_all-seal_all pts (seal a aad pt snd).1 (unseal a aad (seal a aad pt snd).0 rcv).1
          same' (omega arith) f')

  -- A packet that `Open` refuses, for whatever reason, leaves the session as it was.
  pub unseal_err_keeps :
      (pkt : Bytes) (s : Session) (e : Error)
      → (unseal a aad pkt s).0 ≡ err e
      → (unseal a aad pkt s).1 ≡ s
  unfolding unseal admit accept
  unseal_err_keeps pkt s e h = ground arith
