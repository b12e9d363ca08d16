-- ===== src/Manager.antt =====
-- js-libp2p/src/connection-manager/index.ts: `DefaultConnectionManager`, and get-peer.ts.
pub mod Tracking
pub mod Invariant
pub mod Leaving
pub mod Prune
pub mod Admission
pub mod Opening
pub mod Ending
pub mod Metrics
use state_channels.Common.{
  ℕ, suc, ◌+◌, ◌-◌, String, ◌≡◌, ite, Bool, true, false, ◌||◌, Option, none, some, List, [], ◌∷◌,
  ◌++◌, map, ltb, ◌==◌, if◌then◌else◌, length, any, str_dec,
}
use state_channels.Common.StringMap
use state_channels.Common.StringMap.{StringMap}
use state_channels.Common.Int.{ℤ, pos}
use state_channels.Errors.{Result, ok, err, ◌>>=◌, ◌>>◌, throw_if, err_invalid_parameters}

-- A bound that may be `Infinity`.
pub data Limit : Type 0 where
  finite : ℕ → Limit
  infinite : Limit

-- `value > limit`
abbrev pub exceeds : ℕ → Limit → Bool
exceeds v (finite n) = ltb n v
exceeds v infinite = false

-- `value < limit`
abbrev pub under : ℕ → Limit → Bool
under v (finite n) = ltb v n
under v infinite = true

pub data Direction : Type 0 where
  inbound outbound : Direction

-- What the manager reads of a `Connection`. A peer is known by the text of its id.
pub record Connection : Type 0 where
  pub id : String
  pub remote_peer : String
  pub public_key : Option String
  pub direction : Direction
  pub opened : ℕ  -- stat.timeline.open

pub record Options : Type 0 where
  pub max_connections : Limit
  pub min_connections : ℕ
  pub max_event_loop_delay : Limit
  pub max_incoming_pending_connections : ℕ

pub record Manager : Type 0 where
  pub opts : Options
  pub open opts use *
  pub connections : StringMap (List Connection)
  pub started : Bool
  pub allow : List String
  pub deny : List String
  pub incoming_pending_connections : ℤ

-- What a method does to the rest of the node, in order.
pub data Effect : Type 0 where
  close : Connection → Effect
  peer_connect : Connection → Effect
  peer_disconnect : Connection → Effect
  set_key : String → String → Effect

-- The options that the caller may leave `undefined`.
pub record ConnectionManagerInit : Type 0 where
  pub max_connections : Option Limit
  pub min_connections : Option ℕ
  pub max_event_loop_delay : Option Limit
  pub max_incoming_pending_connections : Option ℕ
  pub allow : Option (List String)
  pub deny : Option (List String)

abbrev pub or_default {ℓ} : {A : Type ℓ} → Option A → A → A
or_default none d = d
or_default (some a) d = a

-- `mergeOptions` over `defaultOptions`
pub merge_options : ConnectionManagerInit → Options
merge_options i = record {
  max_connections = or_default i.max_connections infinite;
  min_connections = or_default i.min_connections 0;
  max_event_loop_delay = or_default i.max_event_loop_delay infinite;
  max_incoming_pending_connections = or_default i.max_incoming_pending_connections 10;
}

-- `texts.map(ma => multiaddr(ma))`: multiaddrs are known by their texts, and `multiaddr` throws on a text that is none.
abbrev pub parse_all : (String → Result String) → List String → Result (List String)
parse_all multiaddr [] = ok []
parse_all multiaddr (t ∷ ts) = do ma ← multiaddr t; mas ← parse_all multiaddr ts; ok (ma ∷ mas)

-- The constructor.
unfoldable pub new : (multiaddr : String → Result String) → ConnectionManagerInit → Result Manager
unfolding merge_options
new multiaddr i = do
  let opts = merge_options i
  throw_if (exceeds opts.min_connections opts.max_connections) err_invalid_parameters
  allow ← parse_all multiaddr (or_default i.allow [])
  deny ← parse_all multiaddr (or_default i.deny [])
  ok (record {
    opts = opts;
    connections = [];
    started = false;
    allow = allow;
    deny = deny;
    incoming_pending_connections = pos 0;
  })

-- `getConnections()`: every list, one after the other.
unfoldable pub concat : StringMap (List Connection) → List Connection
concat [] = []
concat (e ∷ m) = e.1 ++ concat m

abbrev pub get_connections : Manager → List Connection
get_connections m = concat m.connections

-- `getConnections(peerId)`
unfoldable pub get_connections_of : Manager → String → List Connection
get_connections_of m p = or_default (StringMap.get p m.connections) []

-- `storedConn.filter((conn) => conn.id !== connection.id)`
unfoldable pub without : String → List Connection → List Connection
without i [] = []
without i (c ∷ cs) = ite (str_dec c.id i) (without i cs) (c ∷ without i cs)

-- `onDisconnect`, once the stored list has been read.
drop_stored : Manager → Connection → Option (List Connection) → Manager × List Effect
drop_stored m c none = (m, [])
drop_stored m c (some cs) =
    if ltb 1 (length cs)
    then (
      record m { connections = StringMap.set c.remote_peer (without c.id cs) m.connections },
      [],
    )
    else (
      record m { connections = StringMap.delete c.remote_peer m.connections },
      peer_disconnect c ∷ [],
    )

unfoldable pub on_disconnect : Manager → Connection → Manager × List Effect
unfolding drop_stored
on_disconnect m c =
    if m.started then drop_stored m c (StringMap.get c.remote_peer m.connections) else (m, [])

-- The first half of `_onConnect`: the connection joins the list of its peer.
unfoldable pub store : StringMap (List Connection) → Connection → StringMap (List Connection)
store m c = StringMap.set c.remote_peer (or_default (StringMap.get c.remote_peer m) [] ++ c ∷ []) m
