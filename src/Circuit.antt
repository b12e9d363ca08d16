-- ===== src/Circuit.antt =====
-- js-libp2p/src/circuit: the relay. Messages are those of circuit/pb/index.ts; a peer is known by the text of its id, and
-- whether the bytes of an address parse is another package's answer. What a party does to its stream is a list of effects.
pub mod Hop
pub mod Relaying
pub mod Transport
pub mod AutoRelay
pub mod Listener
pub mod Service
use state_channels.Common.{
  ℕ, ◌≡◌, Bool, true, false, not, ◌&&◌, Option, none, some, List, [], ◌∷◌, ◌++◌, String,
  if◌then◌else◌,
}

-- `CircuitRelay.Status`
pub data Status : Type 0 where
  success hop_src_addr_too_long hop_dst_addr_too_long hop_src_multiaddr_invalid : Status
  hop_dst_multiaddr_invalid hop_no_conn_to_dst hop_cant_dial_dst hop_cant_open_dst_stream : Status
  hop_cant_speak_relay hop_cant_relay_to_self stop_src_addr_too_long stop_dst_addr_too_long : Status
  stop_src_multiaddr_invalid stop_dst_multiaddr_invalid stop_relay_refused malformed_message :
      Status

-- `CircuitRelay.Type`
pub data MessageType : Type 0 where
  hop stop status can_hop : MessageType

pub record Peer (B : Type 0) : Type 0 where
  pub id : String
  pub addrs : List B

pub record CircuitRelay (B : Type 0) : Type 0 where
  pub type : Option MessageType
  pub src_peer : Option (Peer B)
  pub dst_peer : Option (Peer B)
  pub code : Option Status

-- circuit/stream-handler.ts: what is done to a stream.
pub data Effect (B : Type 0) : Type 0 where
  write : CircuitRelay B → Effect B
  close : Effect B

module _ {B : Type 0} where
  -- `{ type: STATUS, code }`
  abbrev pub status_message : Status → CircuitRelay B
  status_message s = record { type = some status; src_peer = none; dst_peer = none; code = some s }

  -- `streamHandler.end(msg)`
  abbrev pub end_with : CircuitRelay B → List (Effect B)
  end_with m = write m ∷ close ∷ []

  -- The first message that a party writes, which the other reads.
  abbrev pub first_message : List (Effect B) → Option (CircuitRelay B)
  first_message [] = none
  first_message (write m ∷ es) = some m
  first_message (close ∷ es) = none

abbrev pub is_success : Option Status → Bool
is_success (some success) = true
is_success _ = false

abbrev pub is_hop : Option MessageType → Bool
is_hop (some hop) = true
is_hop _ = false
