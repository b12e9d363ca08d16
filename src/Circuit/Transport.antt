-- ===== src/Circuit/Transport.antt =====
-- js-libp2p/src/circuit/transport.ts: `Circuit`, the transport over a relay. An address is the list of its segments; what
-- opens a connection to the relay, what the relay responds and what the upgrader makes of the stream are arguments.
pub mod Restarts
pub mod Dials
use state_channels.Common.{
  Bool, true, false, Option, none, some, List, [], ◌∷◌, String, ite, str_dec, if◌then◌else◌,
}
use state_channels.Errors.{Code, Result, ok, err, ◌>>=◌, ◌>>◌, err_relayed_dial}
use state_channels.Manager.{Manager, Connection, get_connections_of}
use state_channels.Registrar.{Registrar, StreamHandlerOptions, handle, unhandle}
use state_channels.Circuit.{
  Status, malformed_message, MessageType, hop, stop, status, can_hop, CircuitRelay, Peer, Effect,
  end_with, status_message,
}
use state_channels.Circuit.Hop.{
  Outcome, first_connection, handle_hop, handle_stop, hop_with, handle_can_hop,
}

-- `RELAY_CODEC` of circuit/multicodec.ts
abbrev pub relay_codec : String
relay_codec = "/libp2p/circuit/relay/0.1.0"

-- The state of the transport, and the registrar, which it shares with the rest of the node.
pub record Circuit (H T : Type 0) : Type 0 where
  pub started : Bool
  pub registrar : Registrar H T

module _ {H T : Type 0} where
  abbrev pub registered :
      Registrar H T
      → Result (Registrar H T × List (state_channels.Registrar.Effect T))
      → Registrar H T
  registered r (ok (r', es)) = r'
  registered r (err e) = r

  -- `start`; a failure of `handle` is logged.
  unfoldable pub start : H → StreamHandlerOptions → Circuit H T → Circuit H T
  start on_protocol o s = if s.started then s else record {
    started = true;
    registrar = registered s.registrar (handle s.registrar relay_codec on_protocol o);
  }

  -- `stop`
  unfoldable pub stop_circuit : Circuit H T → Circuit H T
  stop_circuit s = record s { registrar = (unhandle s.registrar (relay_codec ∷ [])).0 }

-- What becomes of the stream of a request: nothing, a relayed connection over a connection to the destination, or a
-- connection that the upgrader makes of it.
pub data Relayed : Type 0 where
  nothing : Relayed
  joined : Connection → Relayed
  incoming : Relayed

abbrev joined_or_nothing : Option Connection → Relayed
joined_or_nothing none = nothing
joined_or_nothing (some c) = joined c

module _ {B : Type 0} (parses : B → Bool) where
  abbrev pub dispatch :
      (Connection → Bool) → Manager → Option MessageType → CircuitRelay B → Outcome B Relayed
  dispatch stops m (some can_hop) request = record { effects = handle_can_hop; value = nothing }
  dispatch stops m (some hop) request =
      let o = handle_hop parses stops m request in
      record { effects = o.effects; value = joined_or_nothing o.value }
  dispatch stops m (some stop) request =
      let o = handle_stop parses request in
      record { effects = o.effects; value = if o.value then incoming else nothing }
  dispatch stops m (some status) request = record {
    effects = end_with (status_message malformed_message);
    value = nothing;
  }
  dispatch stops m none request = record {
    effects = end_with (status_message malformed_message);
    value = nothing;
  }

  -- `_onProtocol`, with the request that it has read, if any.
  unfoldable pub on_protocol :
      (Connection → Bool) → Manager → Option (CircuitRelay B) → Outcome B Relayed
  on_protocol stops m none = record {
    effects = end_with (status_message malformed_message);
    value = nothing;
  }
  on_protocol stops m (some request) = dispatch stops m request.type request

-- `ma.toString().split('/p2p-circuit')`
abbrev pub push : String → List (List String) → List (List String)
push s [] = (s ∷ []) ∷ []
push s (p ∷ ps) = (s ∷ p) ∷ ps

unfoldable pub split : List String → List (List String)
split [] = [] ∷ []
split (s ∷ ss) = let rest = split ss in ite (str_dec s "p2p-circuit") ([] ∷ rest) (push s rest)

abbrev pub first_of : List (List String) → List String
first_of [] = []
first_of (p ∷ ps) = p

abbrev pub last_of : List (List String) → List String
last_of [] = []
last_of (p ∷ []) = p
last_of (p ∷ (q ∷ ps)) = last_of (q ∷ ps)

-- What a dial over a relay has done when it ends. `stored` is the relay whose address went into the address book, `opened`
-- the connection that the dial has opened to it, and `closed` the one that it has closed.
pub record DialEnd (C : Type 0) : Type 0 where
  pub result : Result C
  pub stored : Option (String × List String)
  pub opened : Option Connection
  pub closed : Option Connection

module _ {C : Type 0} where
  -- The `try` of `dial`, over a connection to the relay.
  abbrev pub over : Result C → Option Connection → Option Connection
  over (ok c) opened = none
  over (err e) opened = opened

  abbrev pub dial_opened :
      (Connection → Result C) → Option (String × List String) → Result Connection → DialEnd C
  dial_opened attempt s (err e) = record {
    result = err e;
    stored = s;
    opened = none;
    closed = none;
  }
  dial_opened attempt s (ok c) = record {
    result = attempt c;
    stored = s;
    opened = some c;
    closed = over (attempt c) (some c);
  }

  abbrev pub dial_over :
      (Connection → Result C)
      → (String × List String)
      → Option Connection
      → Result Connection
      → DialEnd C
  dial_over attempt s (some c) opening = record {
    result = attempt c;
    stored = none;
    opened = none;
    closed = none;
  }
  dial_over attempt s none opening = dial_opened attempt (some s) opening

module _ {B C : Type 0} where
  abbrev pub upgraded :
      (Connection → Result C)
      → Connection
      → CircuitRelay B
      → Result (Option (CircuitRelay B))
      → Result C
  upgraded upgrade c request response = do r ← response; (hop_with request r).value; upgrade c

  -- `own` is the peer of the node with its addresses, `peer_id` is `getPeerId`, `bytes` an address in bytes, `respond` the
  -- relay's response to a request, or the error of `newStream`, and `upgrade` `upgradeOutbound` of the stream over a connection.
  module _ (own : Peer B) (peer_id : List String → Option String) (bytes : List String → B)
      (open_connection : String → Result Connection)
      (respond : Connection → CircuitRelay B → Result (Option (CircuitRelay B)))
      (upgrade : Connection → Result C) where
    abbrev pub hop_request : String → List String → CircuitRelay B
    hop_request destination addr = record {
      type = some hop;
      src_peer = some own;
      dst_peer = some (record { id = destination; addrs = bytes addr ∷ [] });
      code = none;
    }

    abbrev pub dial_peers :
        Manager → List String → List String → Option String → Option String → DialEnd C
    dial_peers m relay_addr addr none destination = record {
      result = err err_relayed_dial;
      stored = none;
      opened = none;
      closed = none;
    }
    dial_peers m relay_addr addr (some relay) none = record {
      result = err err_relayed_dial;
      stored = none;
      opened = none;
      closed = none;
    }
    dial_peers m relay_addr addr (some relay) (some destination) =
        let request : CircuitRelay B = hop_request destination addr in
        dial_over (λ c. upgraded upgrade c request (respond c request)) (relay, relay_addr)
          (first_connection (get_connections_of m relay)) (open_connection relay)

    -- `dial`
    unfoldable pub dial : Manager → List String → DialEnd C
    unfolding split
    dial m ma =
        let relay_addr = first_of (split ma) in
        let addr = last_of (split ma) in
        dial_peers m relay_addr addr (peer_id relay_addr) (peer_id addr)
