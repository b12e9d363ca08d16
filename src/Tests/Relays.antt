-- ===== src/Tests/Relays.antt =====
-- The relay at concrete inputs: the bytes of an address are a text.
use state_channels.Common.{
  ◌+◌, ◌≡◌, refl, ◌↔◌, true, false, none, some, List, [], ◌∷◌, String, arith, text_ne, length,
}
use state_channels.Common.Int.{pos}
use state_channels.Errors.{ok, err, err_no_handler_for_protocol}
use state_channels.Manager.{Manager, Connection, finite, infinite, inbound}
use state_channels.Registrar.{StreamHandlerOptions, get_handler}
use state_channels.Circuit.{CircuitRelay, Peer, hop}
use state_channels.Circuit.Relaying.{requested, IsRelayable, requested-IsRelayable}
use state_channels.Circuit.Transport.{
  Circuit, relay_codec, stop_circuit, dial, DialEnd, split, first_of,
}
use state_channels.Circuit.Transport.Restarts.{
  Call, start_call, stop_call, call_all, call_all-stop_circuit,
}
use state_channels.Circuit.Transport.Dials.{IsTidy, dial-IsTidy}
use state_channels.Circuit.AutoRelay.{AutoRelay}
use state_channels.Circuit.AutoRelay.Listening.{
  World, Event, disconnected, protocols_known, on_events, IsBounded, on_events-IsBounded,
}
use state_channels.Circuit.AutoRelay.Overlapping.{overlapping, length-overlapping}

abbrev connection : Connection
connection = record {
  id = "c";
  remote_peer = "d";
  public_key = none;
  direction = inbound;
  opened = 1;
}

abbrev manager : Manager
manager = record {
  opts = record {
    max_connections = finite 1;
    min_connections = 0;
    max_event_loop_delay = infinite;
    max_incoming_pending_connections = 10;
  };
  connections = ("d", connection ∷ []) ∷ [];
  started = true;
  allow = [];
  deny = [];
  incoming_pending_connections = pos 0;
}

abbrev request : CircuitRelay String
request = record {
  type = some hop;
  src_peer = some (record { id = "s"; addrs = "/ip4" ∷ [] });
  dst_peer = some (record { id = "d"; addrs = [] });
  code = none;
}

requested-IsRelayable_example :
    requested (λ _. true) (λ _. true) manager request ≡ ok tt
    ↔ IsRelayable (λ _. true) (λ _. true) manager request
requested-IsRelayable_example = requested-IsRelayable (λ _. true) (λ _. true) manager request

abbrev options : StreamHandlerOptions
options = record { max_inbound_streams = none; max_outbound_streams = none }

abbrev circuit : Circuit String String
circuit = record {
  started = true;
  registrar = record {
    topologies = [];
    handlers =
        (relay_codec, record { handler = "h"; max_inbound_streams = 1; max_outbound_streams = 1 })
        ∷ [];
  };
}

abbrev calls : List (Call String)
calls = start_call "h" options ∷ stop_call ∷ start_call "h" options ∷ []

call_all-stop_circuit_example :
    get_handler (call_all calls (stop_circuit circuit)).registrar relay_codec
    ≡ err err_no_handler_for_protocol
call_all-stop_circuit_example = call_all-stop_circuit calls circuit (tt, tt) refl

abbrev own : Peer String
own = record { id = "s"; addrs = [] }

abbrev address : List String
address = "ip4" ∷ "p2p-circuit" ∷ "d" ∷ []

abbrev dialed : DialEnd String
dialed =
    dial own (λ _. some "r") (λ _. "bytes") (λ _. ok connection) (λ _ _. ok none)
      (λ _. ok "upgraded") manager address

dial-IsTidy_example :
    IsTidy {C = String} own
      (λ _. some "r")
      (λ _. "bytes")
      (λ _. ok connection)
      (λ _ _. ok none)
      (λ _. ok "upgraded")
      manager
      (first_of (split address))
      dialed
dial-IsTidy_example =
    dial-IsTidy own (λ _. some "r") (λ _. "bytes") (λ _. ok connection) (λ _ _. ok none)
      (λ _. ok "upgraded") manager address

abbrev world : World
world = record {
  listen = λ _. some (true ∷ []);
  opens = λ _. true;
  own = "s";
  peers = record { id = "k"; supports_hop = true; connected = true } ∷ [];
  providers = [];
}

abbrev relays : AutoRelay
relays = record { listen_relays = "r" ∷ []; max_listeners = 2 }

abbrev events : List Event
events =
    protocols_known world "q" (relay_codec ∷ []) (some false) true ∷ disconnected world "r" ∷ []

on_events-IsBounded_example : IsBounded (on_events relays events)
on_events-IsBounded_example = on_events-IsBounded events relays (omega arith)

length-overlapping_example : length ((overlapping relays ("a" ∷ "b" ∷ [])).listen_relays) ≡ 1 + 2
length-overlapping_example =
    length-overlapping relays ("a" ∷ "b" ∷ []) (omega arith)
      (ground (arith, text_ne "b" "a" refl), (refl, tt))
      (ground (arith, text_ne "r" "a" refl), (ground (arith, text_ne "r" "b" refl), tt))
