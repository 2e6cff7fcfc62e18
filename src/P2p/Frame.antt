-- ===== src/P2p/Frame.antt =====
-- internal/p2p/tunnel.go: the frames on the wire and their relay envelope.
pub mod RoundTrip
use eliaukvpn.Base.{
  ℕ, ◌+◌, ◌≡◌, Bool, true, false, not, ◌&&◌, ◌||◌, Option, none, some, List, [], ◌∷◌, ◌++◌, length,
  take, drop, get_or, ltb, ◌==◌, if◌then◌else◌, replicate,
}
use eliaukvpn.Base.Str.{Str, Bytes, text, str_eq}
use eliaukvpn.Base.Hex.{hex_encode, hex_decode}
use eliaukvpn.Base.Result.{Result, ok, err, ◌>>=◌}

pub data FrameError : Type 0 where
  bad_local_id bad_peer_id bad_sender_id bad_target_id bad_frame : FrameError

abbrev pub frame_hello : ℕ
frame_hello = 1

abbrev pub frame_hello_ack : ℕ
frame_hello_ack = 2

abbrev pub frame_ping : ℕ
frame_ping = 3

abbrev pub frame_pong : ℕ
frame_pong = 4

abbrev pub frame_data : ℕ
frame_data = 5

abbrev pub frame_magic : Str
frame_magic = text "ELK1"

abbrev pub frame_header_size : ℕ
frame_header_size = 21

abbrev pub relay_magic : Str
relay_magic = text "ELKR"

abbrev pub relay_hdr_size : ℕ
relay_hdr_size = 20

abbrev pub zero_id : Str
zero_id = text "0000000000000000"

pub record Frame : Type 0 where
  pub typ : ℕ
  pub sender : Str
  pub target : Str
  pub payload : Bytes

-- `hex.DecodeString(id)`, which must give 8 bytes.
abbrev check_id : Option Bytes → FrameError → Result FrameError Bytes
check_id none e = err e
check_id (some bs) e = if length bs == 8 then ok bs else err e

unfoldable pub id_bytes : Str → FrameError → Result FrameError Bytes
id_bytes id e = check_id (hex_decode id) e

-- buildFrame
unfoldable pub build_frame : ℕ → Str → Str → Bytes → Result FrameError Bytes
build_frame typ my_id peer_id payload = do
  me ← id_bytes my_id bad_local_id
  peer ← id_bytes peer_id bad_peer_id
  ok (frame_magic ++ typ ∷ me ++ peer ++ payload)

-- parseFrame
unfoldable pub parse_frame : Bytes → Result FrameError Frame
parse_frame buf =
    if ltb (length buf) frame_header_size || not (str_eq (take 4 buf) frame_magic)
    then err bad_frame
    else ok (record {
      typ = get_or buf 4 0;
      sender = hex_encode (take 8 (drop 5 buf));
      target = hex_encode (take 8 (drop 13 buf));
      payload = drop frame_header_size buf;
    })

-- buildRelay
unfoldable pub build_relay : Str → Str → Bytes → Result FrameError Bytes
build_relay sender_id target_id frame = do
  me ← id_bytes sender_id bad_sender_id
  peer ← id_bytes target_id bad_target_id
  ok (relay_magic ++ me ++ peer ++ frame)
