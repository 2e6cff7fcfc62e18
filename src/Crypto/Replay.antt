-- ===== src/Crypto/Replay.antt =====
-- What `Open` of crypto.go accepts: the window against a receiver that remembers everything.
use Prim.Native.Nat.{bit_and, bit_or}
use eliaukvpn.Base.{
  ℕ, ◌+◌, ◌-◌, ◌^◌, ◌≤◌, ◌<◌, ◌≡◌, ◌≢◌, true, List, [], ◌∷◌, arith, if◌then◌else◌, ap, All,
}
use eliaukvpn.Base.Bits.{bit, bit-lt-two, bit-zero, bit-bit_or, bit_and-zero, bit_or-zero}
use eliaukvpn.Base.Str.{Bytes}
use eliaukvpn.Base.Result.{Result, ok, err}
use eliaukvpn.Crypto.{Session, Error, mask, slide, accept, fresh_session}
use eliaukvpn.Crypto.Window.{
  Tracks, mem, verdict, bit-slide, bit-one, probe_inside, mark_inside, mask_edge, mem_back,
}

mem_same :
    (r c k : ℕ) (hist : List ℕ)
    → r < c
    → c - r ≤ k
    → k ≤ c
    → mem (r - (k - (c - r))) hist ≡ mem (c - k) hist
mem_same r c k hist up far low = ap (λ x. mem x hist) (same up far low)
  where
    same : r < c → c - r ≤ k → k ≤ c → r - (k - (c - r)) ≡ c - k
    same p q h = omega arith

-- Where the bitmap tracks the history, it decides as the whole history does on a counter that stays
-- 64 below 2 ^ 64 and is not exactly 64 below the highest.
accept_refines :
    (s : Session) (hist : List ℕ) (ctr : ℕ)
    → Tracks s hist
    → ctr + 64 < 2 ^ 64
    → ctr + 64 ≢ s.recv
    → (accept ctr s).0 ≡ verdict hist s.recv ctr
unfolding accept verdict
accept_refines s hist ctr t small off = ground (
  arith,
  t.below ctr,
  t.recorded (s.recv - ctr),
  probe_inside s.seen (s.recv - ctr),
  mem_back s.recv ctr hist,
)

module _ (s : Session) (hist : List ℕ) (ctr : ℕ) (t : Tracks s hist) where
  -- moving the window up
  advance_bit :
      (k : ℕ)
      → s.recv < ctr
      → k < 64
      → k ≤ ctr
      → bit k (bit_or (slide s.seen (ctr - s.recv)) 1)
        ≡ (if mem (ctr - k) (ctr ∷ hist) then 1 else 0)
  unfolding mem
  advance_bit k up inside low = ground (
    arith,
    bit-bit_or k (slide s.seen (ctr - s.recv)) 1,
    bit-slide s.seen (ctr - s.recv) k,
    bit-one k,
    bit-lt-two (k - (ctr - s.recv)) s.seen,
    t.recorded (k - (ctr - s.recv)),
    t.below (ctr - k),
    mem_same s.recv ctr k hist,
  )

  mark_bit :
      (d k : ℕ)
      → d < 64
      → ctr + d ≡ s.recv
      → k < 64
      → k ≤ s.recv
      → bit k (bit_or s.seen (mask d)) ≡ (if mem (s.recv - k) (ctr ∷ hist) then 1 else 0)
  unfolding mem
  mark_bit d k near at inside low = ground (arith, mark_inside s.seen d k, t.recorded k)

-- The history after a verdict on a counter.
unfoldable pub remember : Result Error (Unit {0}) → ℕ → List ℕ → List ℕ
remember (ok _) ctr hist = ctr ∷ hist
remember (err _) ctr hist = hist

-- The counters of a run of authenticated packets, in their order of arrival.
unfoldable pub run : List ℕ → Session → List ℕ → Session × List ℕ
run [] s hist = (s, hist)
run (c ∷ cs) s hist = let (r, s') = accept c s in run cs s' (remember r c hist)

edge_bit :
    (s : Session) (ctr k : ℕ)
    → ctr + 64 ≡ s.recv
    → bit k (bit_or s.seen (mask (s.recv - ctr))) ≡ bit k s.seen
edge_bit s ctr k e = rw (distance, mask_edge) (ground (arith, bit-bit_or k s.seen 0, bit-zero k))
  where
    distance : s.recv - ctr ≡ 64
    distance = omega arith

pub edge_probe :
    (s : Session) (ctr : ℕ) → ctr + 64 ≡ s.recv → bit_and s.seen (mask (s.recv - ctr)) ≡ 0
edge_probe s ctr e = rw (distance, mask_edge) (bit_and-zero s.seen)
  where
    distance : s.recv - ctr ≡ 64
    distance = omega arith

module _ (s : Session) (hist : List ℕ) (ctr : ℕ) (small : ctr + 64 < 2 ^ 64)
    (t : Tracks s hist) where
  accept_below :
      (c : ℕ) → mem c (remember (accept ctr s).0 ctr hist) ≡ true → c ≤ (accept ctr s).1.recv
  unfolding accept remember mem
  accept_below c h = ground (arith, t.below c)

  accept_recorded :
      (k : ℕ)
      → k < 64
      → k ≤ (accept ctr s).1.recv
      → bit k (accept ctr s).1.seen
        ≡ (if mem ((accept ctr s).1.recv - k) (remember (accept ctr s).0 ctr hist) then 1 else 0)
  unfolding accept remember mem
  accept_recorded k inside = ground (
    arith,
    t.recorded k,
    advance_bit s hist ctr t k,
    mark_bit s hist ctr t (s.recv - ctr) k,
    edge_bit s ctr k,
  )

  -- Whatever the verdict, the window keeps track of the history.
  pub accept-Tracks : Tracks (accept ctr s).1 (remember (accept ctr s).0 ctr hist)
  accept-Tracks = record { below = accept_below; recorded = accept_recorded }

run-Tracks :
    (cs : List ℕ) (s : Session) (hist : List ℕ)
    → All (λ c. c + 64 < 2 ^ 64) cs
    → Tracks s hist
    → Tracks (run cs s hist).0 (run cs s hist).1
unfolding run
run-Tracks [] s hist small t = t
run-Tracks (c ∷ cs) s hist small t =
    run-Tracks cs (accept c s).1 (remember (accept c s).0 c hist) small.1
      (accept-Tracks s hist c small.0 t)

pub fresh-Tracks : (key : Bytes) → Tracks (fresh_session key) []
unfolding fresh_session mem
fresh-Tracks key = record { below = λ c h. cc; recorded = λ k inside low. bit-zero k }

verdict-ne-ok : (hist : List ℕ) (recv c : ℕ) → mem c hist ≡ true → verdict hist recv c ≢ ok tt
unfolding verdict
verdict-ne-ok hist recv c h = ground arith

-- After any run of packets on a new session, a counter that was accepted is not accepted again,
-- unless it stands exactly 64 below the highest. Counters stay 64 below 2 ^ 64.
pub run_no_replay :
    (key : Bytes) (cs : List ℕ) (c : ℕ)
    → All (λ x. x + 64 < 2 ^ 64) cs
    → c + 64 < 2 ^ 64
    → mem c (run cs (fresh_session key) []).1 ≡ true
    → c + 64 ≢ (run cs (fresh_session key) []).0.recv
    → (accept c (run cs (fresh_session key) []).0).0 ≢ ok tt
run_no_replay key cs c small sc seen off =
    rw (accept_refines _ _ c (run-Tracks cs (fresh_session key) [] small (fresh-Tracks key)) sc off)
      (verdict-ne-ok _ _ c seen)

-- The edge: a counter exactly 64 below the highest is accepted whatever came before, and the
-- session stays as it was, so the same packet is accepted any number of times.
pub edge_accepts_again :
    (s : Session) (ctr : ℕ) → ctr + 64 ≡ s.recv → s.recv < 2 ^ 64 → accept ctr s ≡ (ok tt, s)
unfolding accept
edge_accepts_again s ctr e small =
    rw (distance, mask_edge) (ground (arith, bit_and-zero s.seen, bit_or-zero s.seen))
  where
    distance : s.recv - ctr ≡ 64
    distance = omega arith
