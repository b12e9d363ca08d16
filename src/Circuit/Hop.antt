-- ===== src/Circuit/Hop.antt =====
-- js-libp2p/src/circuit/circuit: `hop.ts`, `stop.ts` and `utils.ts`. The relay handles a HOP request by a STOP request to the
-- destination; the connections of the destination are those of the connection manager.
use state_channels.Common.{
  Bool, true, false, not, ◌&&◌, Option, none, some, List, [], ◌∷◌, if◌then◌else◌,
}
use state_channels.Errors.{Result, ok, err, err_hop_request_failed}
use state_channels.Manager.{Manager, Connection, get_connections_of}
use state_channels.Circuit.{
  Status, success, hop_src_multiaddr_invalid, hop_dst_multiaddr_invalid, hop_no_conn_to_dst,
  hop_cant_speak_relay, stop_src_multiaddr_invalid, stop_dst_multiaddr_invalid, stop, can_hop,
  CircuitRelay, Peer, Effect, write, close, status_message, end_with, is_success, is_hop,
}

-- What a party has done to its stream, and what comes of it.
pub record Outcome (B A : Type 0) : Type 0 where
  pub effects : List (Effect B)
  pub value : A

-- circuit/transport.ts: `hopEnabled` and `hopActive`
abbrev pub hop_enabled : Bool
hop_enabled = true

abbrev pub hop_active : Bool
hop_active = true

abbrev pub first_connection : List Connection → Option Connection
first_connection [] = none
first_connection (c ∷ _) = some c

module _ {B : Type 0} where
  -- `writeResponse`, and the throw after it
  abbrev pub invalid_with : Status → Outcome B Bool
  invalid_with s = record { effects = write (status_message s) ∷ []; value = false }

  -- The request that the relay sends on to the destination.
  abbrev pub stop_request : CircuitRelay B → CircuitRelay B
  stop_request m = record {
    type = some stop;
    src_peer = m.src_peer;
    dst_peer = m.dst_peer;
    code = none;
  }

  -- `stop`: what the response makes of a STOP request; `none` if the stream ends without one.
  unfoldable pub stop_with : CircuitRelay B → Option (CircuitRelay B) → Outcome B Bool
  stop_with request none = record { effects = write request ∷ close ∷ close ∷ []; value = false }
  stop_with request (some m) =
      if is_success m.code
      then record { effects = write request ∷ []; value = true }
      else record { effects = write request ∷ close ∷ []; value = false }

  abbrev pub relay_over : (Connection → Bool) → Option Connection → Outcome B (Option Connection)
  relay_over stops none =
      if not hop_active
      then record { effects = end_with (status_message hop_no_conn_to_dst); value = none }
      else record { effects = end_with (status_message hop_no_conn_to_dst); value = none }
  relay_over stops (some c) =
      if stops c
      then record { effects = write (status_message success) ∷ []; value = some c }
      else record { effects = []; value = none }

  abbrev pub relay_to :
      (Connection → Bool) → Manager → Option (Peer B) → Outcome B (Option Connection)
  relay_to stops m none = record { effects = []; value = none }
  relay_to stops m (some p) = relay_over stops (first_connection (get_connections_of m p.id))

module _ {B : Type 0} (parses : B → Bool) where
  abbrev all_parse : List B → Bool
  all_parse [] = true
  all_parse (b ∷ bs) = parses b && all_parse bs

  abbrev pub addrs_parse : Option (Peer B) → Bool
  addrs_parse none = true
  addrs_parse (some p) = all_parse p.addrs

  -- `validateAddrs`: what it writes, and whether it returns.
  unfoldable pub validate_addrs : CircuitRelay B → Outcome B Bool
  validate_addrs m =
      if not (addrs_parse m.dst_peer)
      then invalid_with
          (if is_hop m.type then hop_dst_multiaddr_invalid else stop_dst_multiaddr_invalid)
      else if not (addrs_parse m.src_peer)
      then invalid_with
          (if is_hop m.type then hop_src_multiaddr_invalid else stop_src_multiaddr_invalid)
      else record { effects = []; value = true }

  -- `handleHop`: what the relay does to the stream of the requester, and the connection that it joins it to. `stops` says
  -- whether the STOP request over a connection succeeds.
  unfoldable pub handle_hop :
      (Connection → Bool) → Manager → CircuitRelay B → Outcome B (Option Connection)
  unfolding validate_addrs
  handle_hop stops m request =
      if not hop_enabled
      then record { effects = end_with (status_message hop_cant_speak_relay); value = none }
      else if not (validate_addrs request).value
      then record { effects = (validate_addrs request).effects; value = none }
      else relay_to stops m request.dst_peer

  -- `handleStop`: whether the destination takes the stream for a connection.
  unfoldable pub handle_stop : CircuitRelay B → Outcome B Bool
  unfolding validate_addrs
  handle_stop request =
      if not (validate_addrs request).value
      then record { effects = (validate_addrs request).effects; value = false }
      else record { effects = write (status_message success) ∷ []; value = true }

module _ {B : Type 0} where
  -- `hop`, with the response of the relay.
  unfoldable pub hop_with : CircuitRelay B → Option (CircuitRelay B) → Outcome B (Result (Unit {0}))
  hop_with request none = record {
    effects = write request ∷ close ∷ [];
    value = err err_hop_request_failed;
  }
  hop_with request (some m) =
      if is_success m.code
      then record { effects = write request ∷ []; value = ok tt }
      else record { effects = write request ∷ close ∷ []; value = err err_hop_request_failed }

  abbrev pub can_hop_request : CircuitRelay B
  can_hop_request = record { type = some can_hop; src_peer = none; dst_peer = none; code = none }

  -- `canHop`
  unfoldable pub can_hop_with : Option (CircuitRelay B) → Outcome B Bool
  can_hop_with none = record { effects = write can_hop_request ∷ close ∷ close ∷ []; value = false }
  can_hop_with (some m) = record {
    effects = write can_hop_request ∷ close ∷ [];
    value = is_success m.code;
  }

  -- `handleCanHop`
  unfoldable pub handle_can_hop : List (Effect B)
  handle_can_hop = end_with (status_message (if hop_enabled then success else hop_cant_speak_relay))
