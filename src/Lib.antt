-- ===== src/Lib.antt =====
-- A model of the libp2p fork that the browser side of the state channels stands on, js-libp2p/src: how a
-- node tracks, admits and prunes connections, dials peers, and tells protocols of peers.
--
-- The parts and their files. A module has the operations of a class, as functions from the state before to
-- the state after; its children hold the proofs and the larger operations.
-- - Errors: errors.ts. A call that may throw a code returns a `Result`.
-- - Manager: connection-manager/index.ts, `DefaultConnectionManager`, and get-peer.ts. The map of connections
--   is `Manager.connections`. Manager/Prune is `_onConnect` and `_pruneConnections`, Manager/Admission is
--   `acceptIncomingConnection`, Manager/Opening is `openConnection` and the life cycle,
--   Manager/Metrics what `start` registers to be measured.
-- - Dialer: connection-manager/dialer/index.ts, `DefaultDialer`. Dialer/Request is dial-request.ts as a step
--   relation: a step is what one attempt does between two waits. Dialer/Target makes the targets of dials,
--   on a record `Network` of what other packages answer, and joins dials in flight.
-- - TransportManager: transport-manager.ts. The dialer's targets use it to leave out addresses.
-- - Registrar: registrar.ts. It reads the connections of the manager when the protocols of a peer change.
-- - Connection: connection/index.ts, `ConnectionImpl`, and the interleavings of its `close`.
-- - AutoDialler: connection-manager/auto-dialler.ts, on the connections of the manager.
-- - Upgrader: upgrader.ts. Its limits of streams are the registrar's; Upgrader/Upgrading is what a raw
--   connection goes through, from the manager's acceptance to the choice of a muxer.
-- - Circuit: circuit/, the relay. Circuit/Hop is what the requester, the relay and the destination do,
--   Circuit/Relaying the three together, Circuit/Transport is `Circuit`, Circuit/AutoRelay is `AutoRelay`,
--   Circuit/Listener is its listener and Circuit/Service is `Relay`.
-- - Node: libp2p.ts, `Libp2pNode`, with its services and its phases of starting and stopping.
-- - Components: components.ts, in which the parts of a node find each other and are started together.
-- - Fetch: fetch/index.ts and fetch/pb/proto.ts, the handler and the requester with their messages.
-- - Routing: peer-routing.ts, content-routing/index.ts and content-routing/utils.ts.
-- - Identify: identify/index.ts, what is written to the peer store and what is pushed to whom.
-- - Signal: webrtc-signal/, the messages that signalling nodes forward and the listener over them.
-- - LatencyMonitor: connection-manager/latency-monitor.ts, whose summaries the manager reads.
-- - Ping: ping/index.ts. Config: the validation of config.ts. NatManager: nat-manager.ts.
--   Routing/Dht is the routers of dht/.
-- - AddressManager: address-manager/index.ts.
-- - Common: lists, texts, maps with text keys in insertion order, stable sorting and the integers that a
--   counter needs. Tests: the theorems at concrete inputs.
--
-- How the code is read. JavaScript runs without a break between two waits, so a method is a function, or
-- one function for each part between waits. Peers are known by the texts of their ids. Numbers are native
-- natural numbers where the code only counts up or tests before it subtracts; the counter of pending
-- connections is an integer. `Infinity` is a constructor of `Limit`. Random ids, the answers of the peer
-- store, the rate limiter, transports, multiaddrs and the connection gater are arguments. A sort is a
-- stable insertion sort by the sign of the comparison.
--
-- Fuel. Only `_resolve` runs on fuel, since names may refer to one another without end; with names that do
-- not, more fuel than they are deep is enough.
--
-- Not modelled. Timeouts, abort signals and logs; a second dial that takes tokens while a request runs,
-- but for the tokens that it takes when it begins; events between the waits of one `_pruneConnections`,
-- but for the ends of the connections that it closes; of several services that fail in one phase, which is
-- the first. Streams, protocol negotiation and the protobuf writer are other packages': a message on the
-- wire is its list of fields. The other parts of the fork (the defaults of the configuration, adapters of
-- other packages) and the sources in other languages.
pub mod Common
pub mod Errors
pub mod Manager
pub mod Dialer
pub mod TransportManager
pub mod Registrar
pub mod Connection
pub mod AutoDialler
pub mod Upgrader
pub mod Circuit
pub mod Node
pub mod Components
pub mod Fetch
pub mod Routing
pub mod Identify
pub mod Signal
pub mod LatencyMonitor
pub mod Ping
pub mod Config
pub mod NatManager
pub mod AddressManager
mod Tests
