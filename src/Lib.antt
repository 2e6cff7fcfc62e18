-- ===== src/Lib.antt =====
-- Eliauk VPN: a peer-to-peer virtual LAN. A coordination server registers clients, gives them
-- virtual addresses and gathers them in rooms; the clients of a room punch UDP holes towards each
-- other, fall back to the server's relay, and exchange encrypted IP packets.
--
-- Base: lists, byte strings, hexadecimal, Go's maps, sorting, big-endian integers, the laws of
-- single bits and of exclusive or.
-- Crypto (internal/crypto/crypto.go): the session with its counters and replay window
-- (`Session`, `accept`, `seal`, `unseal` for Seal and Open), the handshake message and the key
-- agreement (`marshal`, `unmarshal`, `new_session`).
-- Protocol (internal/protocol/messages.go): what the two sides tell each other.
-- Server.State, Server.Registry, Server.Rooms (internal/server/registry.go and rooms.go): the
-- state under the registry's lock, with a function for each method.
-- Server.Handler (internal/server/handler.go): the register handshake, every request, the
-- notifications and the cleanup; Server.Relay (internal/server/relay.go): one relayed packet.
-- P2p (internal/p2p/tunnel.go): frames (Frame), the tunnel's state (State), what it sends (Send),
-- what it does with a frame (Tunnel) and the hole-punching loop (Punch).
-- Lan (internal/lan/lan.go): the packets of LAN discovery.
-- Stun (internal/stun/stun.go and detect.go): the response parser and the NAT classification.
-- Agent (internal/agent/agent.go): the client's state (State), its room and whitelist (Rooms), the
-- routes and connection requests of autoConnect (Routes), the packets of the adapter and of the
-- listener (Forward), and a message of the server (Loop, `on_message` for a round of messageLoop).
-- Mc (internal/mc/mc.go): the merge of server.properties. Mc.Nbt and Mc.ServersDat
-- (internal/mc/serversdat.go): the NBT format of servers.dat (`read_nbt` and `write_nbt` for readNBT
-- and writeNBT), and one server merged into the file (`add_server` for addServerToLauncherIn).
-- Update (internal/update/update.go): the manifest's signature and the order of versions;
-- Update.Fetch: the feed, the download, and the script that puts a new program in place.
-- Config (internal/config/config.go): the settings file, with the struct's tags (`tag`), what
-- MarshalIndent makes of the struct (`to_members`) and what Unmarshal makes of an object
-- (`put_members`).
-- Gui (cmd/gui/main.go): the window's program, with its state (State), the game panel (Game), the
-- actions of the frontend and the end (Actions, `handle_action` and `quit`), the check for updates
-- with what it stages (Update, `check_update` and `install_pending`), and agentLoop beside
-- saveSettings (Lifecycle, `on_loop` and `on_ui`).
--
-- The handler calls the registry and the rooms, the relay calls the registry, and the tunnel uses
-- the sessions of Crypto. The frames of P2p and the relay of Server meet in
-- Server.Relay.Delivery, two tunnels in P2p.Tunnel.Connecting and P2p.Tunnel.EndToEnd, and
-- everything that happens to the server in Server.Handler.Serving. The agent owns a tunnel and uses
-- the packet functions of Lan; everything that happens to it is in Agent.Members.Reach.
-- Gui asks the agent for its rooms and calls Update; everything that happens to the game's server is
-- in Gui.Actions.Servers.
--
-- Numbers are natural numbers; an integer of fixed width keeps its wrap-around where it can wrap
-- (the counters of a session, the lengths in a header). The client sequence is an int64 that is
-- not expected to wrap. Go strings and byte slices are lists of bytes, and addresses of IPv4
-- sockets are four bytes and a port. A Go map is an association list, and the order of a range
-- over it is the order of the list. Clients are shared pointers in the source: here an id is the
-- pointer and the registry's map the store. A method that holds a lock is one step; punchLoop,
-- which takes it twice per round, is two. What a part sends is a list of messages or effects, and
-- a write that fails counts as sent, since the source ignores or only logs it.
--
-- Fuel: CreateRoom draws codes until one is free; the draws are given as a list, and a list that
-- runs out is an error of the model alone. Three rounds fold the carries of ten 16-bit words. The
-- attribute loop of the STUN parser has fuel because it does not always end. The NBT reader has two
-- units for each byte of the input and two more: each level and each element reads a byte.
--
-- Parameters, with their documented laws: AES-GCM (`Aead`), X25519, SHA-256 and HKDF (`Kex`),
-- Ed25519, gzip (`Gzip`), the text of a JSON object (`Json`) and the JSON of the update manifest, the answers
-- of web servers, and for the agent base64, the text of IP addresses and name resolution
-- (`Library`). Random ids and keys are arguments. ToUpper and TrimSpace are those of ASCII text.
--
-- Run reads a datagram into a buffer of 2048 bytes and cuts a longer one (`receive`).
--
-- Not modelled: the JSON of the protocol, websockets, sockets and their deadlines, the identity
-- file, the search for the game's directories and programs, what the window's program paints, the
-- tray, and the adapter driver: these are calls of the system.
pub mod Base
pub mod Agent
pub mod Config
pub mod Crypto
pub mod Gui
pub mod Lan
pub mod Mc
pub mod P2p
pub mod Protocol
pub mod Server
pub mod Stun
pub mod Update
