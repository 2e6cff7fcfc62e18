-- ===== src/Base/Net.antt =====
-- net.UDPAddr of an IPv4 socket: four bytes and a port.
use Prim.Native.Nat.{ℕ}
use mathlib.Core.Bool.{Bool, ◌&&◌}
use eliaukvpn.Base.Tests.{◌==◌}
use eliaukvpn.Base.Str.{Bytes, str_eq}

pub record UdpAddr : Type 0 where
  pub ip : Bytes
  pub port : ℕ

-- a.IP.Equal(b.IP) && a.Port == b.Port
abbrev pub addr_eq : UdpAddr → UdpAddr → Bool
addr_eq a b = str_eq a.ip b.ip && (a.port == b.port)
