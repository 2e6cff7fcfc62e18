-- ===== src/P2p/Tunnel/Effects.antt =====
-- What the sends of tunnel.go leave as it is: nothing is delivered, and the peer keeps its identity.
use eliaukvpn.Base.{
  ℕ, ◌≡◌, refl, List, [], ◌∷◌, ◌++◌, arith, Bool-cases, Option-cases, inl, inr, Option, false, ◌==◌,
}
use eliaukvpn.Base.Str.{Str, Bytes}
use eliaukvpn.Base.Net.{UdpAddr}
use eliaukvpn.Base.Result.{Result, ok, err}
use eliaukvpn.Crypto.{Aead}
use eliaukvpn.P2p.Frame.{FrameError, build_relay, build_frame}
use eliaukvpn.P2p.State.{Peer, Tunnel, Effect, send_to, deliver}
use eliaukvpn.P2p.Send.{write_to, route, encrypt, send_locked}

-- The packets that reach the sink.
abbrev pub deliveries : List Effect → List Bytes
deliveries [] = []
deliveries (deliver x ∷ es) = x ∷ deliveries es
deliveries (send_to addr data' ∷ es) = deliveries es

pub deliveries-append :
    (es fs : List Effect) → deliveries (es ++ fs) ≡ deliveries es ++ deliveries fs
deliveries-append [] fs = refl
deliveries-append (deliver x ∷ es) fs = rw (deliveries-append es fs) refl
deliveries-append (send_to addr x ∷ es) fs = deliveries-append es fs

write_to-none : (addr : UdpAddr) (r : Result FrameError Bytes) → deliveries (write_to addr r) ≡ []
write_to-none addr (ok bytes) = refl
write_to-none addr (err e) = refl

route-none :
    (my_id : Str) (ra : Option UdpAddr) (p : Peer) (bytes : Bytes)
    → deliveries (route my_id ra p bytes) ≡ []
unfolding route
route-none my_id ra p bytes = elim (Bool-cases p.relayed) [
  | inl through ↦ elim (Option-cases ra) [
    | inl absent ↦ rw (absent, through, route) refl
    | inr (addr, e) ↦ rw (e, through, route) (write_to-none addr (build_relay my_id p.id bytes))
  ]
  | inr direct ↦ elim (Option-cases p.remote) [
    | inl absent ↦ rw (direct, route, absent) refl
    | inr (addr, e) ↦ rw (direct, route, e) refl
  ]
]

pub send_locked-none :
    (a : Aead) (typ : ℕ) (p : Peer) (payload : Bytes) (t : Tunnel)
    → deliveries (send_locked a typ p payload t).0 ≡ []
unfolding send_locked
send_locked-none a typ p payload t =
    body (build_frame typ t.my_id p.id (encrypt a t.my_id typ p payload).0)
  where
    body :
        (r : Result FrameError Bytes)
        → deliveries
            (elim r as (λ _. List Effect × Peer) [
              | err e ↦ ([], (encrypt a t.my_id typ p payload).1)
              | ok bytes ↦ (
                route t.my_id t.relay_addr (encrypt a t.my_id typ p payload).1 bytes,
                (encrypt a t.my_id typ p payload).1,
              )
            ]).0
          ≡ []
    body (err e) = refl
    body (ok bytes) = route-none t.my_id t.relay_addr (encrypt a t.my_id typ p payload).1 bytes

-- A frame that is not data leaves the peer as it was.
pub send_locked-peer :
    (a : Aead) (typ : ℕ) (p : Peer) (payload : Bytes) (t : Tunnel)
    → (typ == 5) ≡ false
    → (send_locked a typ p payload t).1 ≡ p
unfolding send_locked encrypt
send_locked-peer a typ p payload t control = ground arith
