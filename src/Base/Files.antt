-- ===== src/Base/Files.antt =====
-- What os.ReadFile brings.
use eliaukvpn.Base.Str.{Bytes}

pub data FileRead : Type 0 where
  no_file unreadable : FileRead
  contents : Bytes → FileRead
