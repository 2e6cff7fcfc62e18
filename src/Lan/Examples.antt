-- ===== src/Lan/Examples.antt =====
-- A packet of LAN discovery, and the theorems on lan.go applied to it.
use eliaukvpn.Base.{◌≡◌, some, [], ◌∷◌, arith, take}
use eliaukvpn.Base.Str.{Bytes, text}
use eliaukvpn.Lan.{build_discovery, word_sum, fold_carries}
use eliaukvpn.Lan.Discovery.{build_discovery_checksum}

abbrev host : Bytes
host = 10 ∷ 0 ∷ 0 ∷ 2 ∷ []

abbrev motd : Bytes
motd = text "[MOTD]hi[/MOTD][AD]5[/AD]"

build_discovery_checksum_example :
    fold_carries 3 (word_sum (take 20 (build_discovery (some host) motd))) ≡ 65535
build_discovery_checksum_example =
    build_discovery_checksum 10 0 0 2 motd
      (omega arith, (omega arith, (omega arith, (omega arith, tt))))
