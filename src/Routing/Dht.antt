-- ===== src/Routing/Dht.antt =====
-- js-libp2p/src/dht/: `DHTPeerRouting` and `DHTContentRouting`, the routers that stand on a DHT. A query is the list of the
-- events that the DHT gives for it.
use state_channels.Common.{◌≡◌, refl, List, [], ◌∷◌, head?, flat_map}
use state_channels.Errors.{Result, ok, err, or_throw, err_not_found}

-- `P` stands for what is known of a peer and `V` for values. `other_event` is one of another name.
pub data QueryEvent (P V : Type 0) : Type 0 where
  final_peer : P → QueryEvent P V
  provider : List P → QueryEvent P V
  value : V → QueryEvent P V
  other_event : QueryEvent P V

module _ {P V : Type 0} where
  unfoldable pub find_peer : List (QueryEvent P V) → Result P
  find_peer [] = err err_not_found
  find_peer (final_peer p ∷ events) = ok p
  find_peer (provider ps ∷ events) = find_peer events
  find_peer (value v ∷ events) = find_peer events
  find_peer (other_event ∷ events) = find_peer events

  abbrev pub final_peers : QueryEvent P V → List P
  final_peers (final_peer p) = p ∷ []
  final_peers (provider ps) = []
  final_peers (value v) = []
  final_peers other_event = []

  unfoldable pub get_closest_peers : List (QueryEvent P V) → List P
  get_closest_peers events = flat_map final_peers events

  abbrev pub providers_of : QueryEvent P V → List P
  providers_of (final_peer p) = []
  providers_of (provider ps) = ps
  providers_of (value v) = []
  providers_of other_event = []

  unfoldable pub find_providers : List (QueryEvent P V) → List P
  find_providers events = flat_map providers_of events

  unfoldable pub get : List (QueryEvent P V) → Result V
  get [] = err err_not_found
  get (final_peer p ∷ events) = get events
  get (provider ps ∷ events) = get events
  get (value v ∷ events) = ok v
  get (other_event ∷ events) = get events

  -- Over the same events, `findPeer` returns the first of the peers that `getClosestPeers` yields, and fails with
  -- ERR_NOT_FOUND if there is none.
  pub find_peer-get_closest_peers :
      (events : List (QueryEvent P V))
      → find_peer events ≡ or_throw (head? (get_closest_peers events)) err_not_found
  unfolding find_peer get_closest_peers
  find_peer-get_closest_peers [] = refl
  find_peer-get_closest_peers (final_peer p ∷ events) = refl
  find_peer-get_closest_peers (provider ps ∷ events) = find_peer-get_closest_peers events
  find_peer-get_closest_peers (value v ∷ events) = find_peer-get_closest_peers events
  find_peer-get_closest_peers (other_event ∷ events) = find_peer-get_closest_peers events
