-- ===== src/Server/Handler/Gate.antt =====
-- Who is told what by the handler: punch candidates, member lists and peer lists.
use eliaukvpn.Base.{◌≡◌, ◌⊎◌, inr, List, [], ◌∷◌, ◌++◌, In}
use eliaukvpn.Base.Str.{Str}
use eliaukvpn.Protocol.{Candidate, ErrorText, error, connect_candidates}
use eliaukvpn.Server.State.{Client, Registry}
use eliaukvpn.Server.Registry.{candidates_of}
use eliaukvpn.Server.Handler.{Sent}

pub In-append : {A : Type 0} (x : A) (xs ys : List A) → In x ys → In x (xs ++ ys)
In-append x [] ys i = i
In-append x (z ∷ xs) ys i = inr (In-append x xs ys i)

-- The message with one side's candidates.
abbrev pub punch_to : Str → Str → Str → List Candidate → Sent
punch_to to pid name cands = (to, connect_candidates pid name cands)

abbrev error_to : Str → ErrorText → Sent
error_to to e = (to, error e)

-- The two messages that a request for a punch may cause.
abbrev pub IsPunch : Client → Client → Registry → Sent → Type 0
IsPunch c target r s =
    (s ≡ punch_to c.id target.id target.name (candidates_of target.id r))
    ⊎ (s ≡ punch_to target.id c.id c.name (candidates_of c.id r))
