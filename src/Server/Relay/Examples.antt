-- ===== src/Server/Relay/Examples.antt =====
-- One relayed frame, and the theorem on the relay applied to it.
use eliaukvpn.Base.{[], ◌∷◌}
use eliaukvpn.Base.Str.{Str, text}
use eliaukvpn.Base.Net.{UdpAddr}
use eliaukvpn.Server.State.{Registry, new_registry}
use eliaukvpn.Server.Registry.{set_relay_addr}

abbrev alice_id : Str
alice_id = text "0101010101010101"

abbrev bob_id : Str
bob_id = text "0a0a0a0a0a0a0a0a"

abbrev from_alice : UdpAddr
from_alice = record { ip = 1 ∷ 1 ∷ 1 ∷ 1 ∷ []; port = 1111 }

abbrev to_bob : UdpAddr
to_bob = record { ip = 2 ∷ 2 ∷ 2 ∷ 2 ∷ []; port = 2222 }

abbrev bob_announced : Registry
bob_announced = set_relay_addr bob_id to_bob new_registry
