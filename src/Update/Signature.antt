-- ===== src/Update/Signature.antt =====
-- What Verify of update.go lets through.
use eliaukvpn.Base.{
  ◌≡◌, ◌↔◌, refl, Bool, true, false, some, arith, length, is_empty, ◌==◌, Bool-cases, Option-cases,
  inl, inr,
}
use eliaukvpn.Base.Str.{Bytes}
use eliaukvpn.Base.Hex.{hex_decode}
use eliaukvpn.Base.Result.{ok}
use eliaukvpn.Update.{Manifest, signing_message, verify, verify_with}

-- With a 32-byte key compiled in, a manifest passes exactly if its signature is hexadecimal for a
-- signature of its version, address and digest under that key, and not empty.
pub verify_iff :
    (ed_verify : Bytes → Bytes → Bytes → Bool) (m : Manifest) (key : Bytes)
    → length key ≡ 32
    → (verify ed_verify m key ≡ ok tt) ↔ (
        (is_empty m.signature ≡ false)
        × ((sig : Bytes) × (hex_decode m.signature ≡ some sig)
            × (ed_verify key (signing_message m) sig ≡ true)))
unfolding verify verify_with
verify_iff ed_verify m key size = (passed, λ h. passes h.0 h.1)
  where
    keyed : (length key == 32) ≡ true
    keyed = ground arith

    passed :
        verify ed_verify m key ≡ ok tt
        → (is_empty m.signature ≡ false)
          × ((sig : Bytes) × (hex_decode m.signature ≡ some sig)
              × (ed_verify key (signing_message m) sig ≡ true))
    passed h = elim (Bool-cases (is_empty m.signature)) [
      | inl unsigned ↦ cc (rw (keyed, verify_with, unsigned) at h)
      | inr signed ↦ elim (Option-cases (hex_decode m.signature)) [
        | inl bad ↦ cc (rw (keyed, verify_with, signed, bad) at h)
        | inr (sig, read) ↦ elim (Bool-cases (ed_verify key (signing_message m) sig)) [
          | inl good ↦ (signed, (sig, read, good))
          | inr forged ↦ cc (rw (keyed, verify_with, signed, read, forged) at h)
        ]
      ]
    ]

    passes :
        is_empty m.signature ≡ false
        → ((sig : Bytes) × (hex_decode m.signature ≡ some sig)
            × (ed_verify key (signing_message m) sig ≡ true))
        → verify ed_verify m key ≡ ok tt
    passes signed (sig, read, good) = rw (keyed, verify_with, signed, read, good) refl
