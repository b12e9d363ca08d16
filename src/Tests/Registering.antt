-- ===== src/Tests/Registering.antt =====
-- The registrar at concrete inputs: handlers and topologies are texts.
use state_channels.Common.{
  ◌≤◌, ◌≡◌, refl, Bool, true, not, ◌&&◌, none, some, List, [], ◌∷◌, head?, String, arith,
}
use state_channels.Common.Int.{pos}
use state_channels.Common.Sort.{IsComparison}
use state_channels.Common.StringMap
use state_channels.Common.StringMap.{StringMap}
use state_channels.Errors.{ok}
use state_channels.Manager.{Manager, Connection, infinite, inbound, get_connections_of}
use state_channels.Upgrader
use state_channels.Upgrader.{Stream, find_incoming_stream_limit, count_streams, on_incoming_stream}
use state_channels.Upgrader.Limits.{HasLimit, no_streams, comes, Reach-le-limit}
use state_channels.Registrar.{
  Registrar, StreamHandlerOptions, get_handler, handle, register, handler_record,
}
use state_channels.Registrar.Handlers.{Handles, handle-Handles}
use state_channels.Registrar.Ids.{IsWellFormed}
use state_channels.Registrar.Topologies.{begins, registers, Reach-IsWellFormed}

abbrev options : StreamHandlerOptions
options = record { max_inbound_streams = some 1; max_outbound_streams = none }

abbrev id : String
id = "id"

abbrev empty : Registrar String String
empty = record { topologies = []; handlers = [] }

abbrev registrar : Registrar String String
registrar = record {
  topologies = ("/gossip", ("id", "mesh") ∷ []) ∷ [];
  handlers = ("/ping", handler_record "pong" options) ∷ [];
}

handle-Handles_example :
    Handles registrar "/ping" "other" options (handle registrar "/ping" "other" options)
handle-Handles_example = handle-Handles registrar "/ping" "other" options

abbrev gossiping : Registrar String String
gossiping = record empty { topologies = ("/gossip", ("id", "mesh") ∷ []) ∷ [] }

registered : register (λ t. true) empty "/gossip" "mesh" "id" ≡ ok (gossiping, "id")
unfolding register StringMap.get StringMap.set
registered = refl

Reach-IsWellFormed_example : IsWellFormed gossiping.topologies
Reach-IsWellFormed_example =
    Reach-IsWellFormed (λ t. true) gossiping
      (registers "/gossip" "mesh" "id" "id" (begins empty refl) registered)

empty-IsWellFormed : IsWellFormed empty.topologies
empty-IsWellFormed = Reach-IsWellFormed {H = String} (λ t. true) empty (begins empty refl)

gossiping-IsWellFormed : IsWellFormed gossiping.topologies
gossiping-IsWellFormed = record {
  distinct = (tt, tt);
  nonempty = (λ e. cc, tt);
  ids = ((tt, tt), tt);
}

-- An order in which "/ping" comes last.
abbrev pings_last : String → String → Bool
pings_last p q = text.Mathlib.Text.◌==◌ p "/ping" && not (text.Mathlib.Text.◌==◌ q "/ping")

pings_last-IsComparison : IsComparison pings_last
pings_last-IsComparison = record { asym = λ x y h. ground arith; trans = λ x y z h k. ground arith }

abbrev friend : Connection
friend = record {
  id = "c1";
  remote_peer = "you";
  public_key = none;
  direction = inbound;
  opened = 1;
}

abbrev manager : StringMap (List Connection) → Manager
manager m = record {
  opts = record {
    max_connections = infinite;
    min_connections = 0;
    max_event_loop_delay = infinite;
    max_incoming_pending_connections = 10;
  };
  connections = m;
  started = true;
  allow = [];
  deny = [];
  incoming_pending_connections = pos 0;
}

abbrev connected : Manager
connected = manager (("you", friend ∷ []) ∷ [])

friend_first : head? (get_connections_of connected "you") ≡ some friend
unfolding get_connections_of
friend_first = rw (StringMap.get_here "you" "you" (friend ∷ []) [] refl) refl

alone : get_connections_of (manager []) "you" ≡ []
unfolding get_connections_of StringMap.get
alone = refl

abbrev stream : Stream
stream = record { direction = inbound; protocol = "/other" }

abbrev handlerless : Registrar String String
handlerless = record registrar { handlers = [] }

default_limit : HasLimit handlerless "/other" inbound 32
unfolding find_incoming_stream_limit get_handler StringMap.get
default_limit = refl

one_stream : Upgrader.Limits.Reach handlerless (stream ∷ [])
unfolding on_incoming_stream find_incoming_stream_limit get_handler StringMap.get count_streams
one_stream = comes "/other" no_streams refl

Reach-le-limit_example : count_streams "/other" inbound (stream ∷ []) ≤ 32
Reach-le-limit_example =
    Reach-le-limit handlerless (stream ∷ []) "/other" inbound 32 default_limit one_stream
