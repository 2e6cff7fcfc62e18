-- ===== src/P2p/Frame/RoundTrip.antt =====
-- The frames and envelopes of tunnel.go read back.
use eliaukvpn.Base.{
  ℕ, ◌+◌, ◌≡◌, refl, sym, ap, ◌∙◌, false, ◌∷◌, ◌++◌, append_assoc, length, take, drop, ltb, arith,
  take_exact, drop_exact, length-append,
}
use eliaukvpn.Base.Str.{Str, Bytes, AllBytes, str_eq}
use eliaukvpn.Base.Hex.{hex_encode, hex_decode-hex_encode}
use eliaukvpn.Base.Result.{Result, ok}
use eliaukvpn.P2p.Frame.{
  FrameError, frame_magic, relay_magic, id_bytes, build_frame, parse_frame, build_relay,
}

-- A client id as the server makes it: 8 bytes in lower-case hexadecimal.
abbrev pub IsId : Str → Type 0
IsId id = (bs : Bytes) × AllBytes bs × (length bs ≡ 8) × (id ≡ hex_encode bs)

pub id_bytes-IsId : (id : Str) (i : IsId id) (e : FrameError) → id_bytes id e ≡ ok i.0
unfolding id_bytes
id_bytes-IsId id (bs, all, eight, same) e = rw (same, hex_decode-hex_encode bs all, eight) refl

pub build_frame_lem :
    (typ : ℕ) (me peer : Str) (payload : Bytes) (i : IsId me) (j : IsId peer)
    → build_frame typ me peer payload ≡ ok (frame_magic ++ typ ∷ i.0 ++ j.0 ++ payload)
unfolding build_frame
build_frame_lem typ me peer payload i j = rw (id_bytes-IsId me i, id_bytes-IsId peer j) refl

pub build_relay_lem :
    (me peer : Str) (frame : Bytes) (i : IsId me) (j : IsId peer)
    → build_relay me peer frame ≡ ok (relay_magic ++ i.0 ++ j.0 ++ frame)
unfolding build_relay
build_relay_lem me peer frame i j = rw (id_bytes-IsId me i, id_bytes-IsId peer j) refl

ok_injective : {a b : Bytes} → ◌≡◌ {A = Result FrameError Bytes} (ok a) (ok b) → a ≡ b
ok_injective h = cc

-- Two fields of 8 bytes and a rest.
module _ (x y rest : Bytes) (ex : length x ≡ 8) (ey : length y ≡ 8) where
  pub take_first : take 8 (x ++ y ++ rest) ≡ x
  take_first = rw (append_assoc x y rest) (take_exact 8 x (y ++ rest) ex)

  pub take_second : take 8 (drop 8 (x ++ y ++ rest)) ≡ y
  take_second = rw (append_assoc x y rest, drop_exact 8 x (y ++ rest) ex) (take_exact 8 y rest ey)

  pub drop_both : drop 16 (x ++ y ++ rest) ≡ rest
  drop_both = drop_exact 16 (x ++ y) rest (omega (arith, length-append x y))

  pub length-fields : length (x ++ y ++ rest) ≡ 16 + length rest
  length-fields = omega (arith, length-append (x ++ y) rest, length-append x y)

pub length-build_frame :
    (typ : ℕ) (me peer : Str) (payload bytes : Bytes)
    → IsId me
    → IsId peer
    → build_frame typ me peer payload ≡ ok bytes
    → length bytes ≡ 21 + length payload
length-build_frame typ me peer payload bytes i j built =
    let is : frame_magic ++ typ ∷ i.0 ++ j.0 ++ payload ≡ bytes =
      ok_injective (sym (build_frame_lem typ me peer payload i j) ∙ built) in
    omega (arith, ap length is, length-fields i.0 j.0 payload i.2 j.2)

-- parseFrame reads back the frame that buildFrame wrote between two ids.
pub parse_frame-build_frame :
    (typ : ℕ) (me peer : Str) (payload : Bytes)
    → IsId me
    → IsId peer
    → (bytes : Bytes) × (build_frame typ me peer payload ≡ ok bytes)
      × (parse_frame bytes
          ≡ ok (record { typ = typ; sender = me; target = peer; payload = payload }))
unfolding parse_frame str_eq
parse_frame-build_frame typ me peer payload (x, ax, ex, sx) (y, ay, ey, sy) = (
  frame_magic ++ typ ∷ x ++ y ++ payload,
  build_frame_lem typ me peer payload (x, ax, ex, sx) (y, ay, ey, sy),
  rw
      (
        sx,
        sy,
        long,
        take_first x y payload ex ey,
        take_second x y payload ex ey,
        drop_both x y payload ex ey,
      )
      refl,
)
  where
    long : ltb (length (frame_magic ++ typ ∷ x ++ y ++ payload)) 21 ≡ false
    long = ground (arith, length-fields x y payload ex ey)
