-- ===== src/Routing.antt =====
-- js-libp2p/src/peer-routing.ts, content-routing/index.ts and content-routing/utils.ts. What the routers and the DHT answer is
-- an argument: a list, in the order in which the answers arrive.
pub mod Finding
pub mod Refreshing
pub mod Dht
use state_channels.Common.{
  ℕ, suc, ◌+◌, ◌==◌, Bool, true, false, not, ◌||◌, Option, none, some, List, [], ◌∷◌, ◌++◌, map,
  String, ite, str_dec, if◌then◌else◌,
}
use state_channels.Common.Texts.{has_text}
use state_channels.Errors.{
  Code, Result, ok, err, ◌>>=◌, ◌>>◌, throw_if, err_no_routers_available, err_find_self,
  err_not_found, dht_not_started,
}

pub record PeerInfo (M : Type 0) : Type 0 where
  pub id : String
  pub multiaddrs : List M

-- `DefaultPeerRouting`: whether it is started, whether `timeoutId` is set, and whether a query is running.
pub record PeerRouting : Type 0 where
  pub started : Bool
  pub has_timeout : Bool
  pub querying : Bool

-- What is done to the interval of the refresh manager and to the query that is running.
pub data Effect : Type 0 where
  set_interval clear_interval abort_query : Effect

unfoldable pub new : PeerRouting
new = record { started = false; has_timeout = false; querying = false }

-- `start`; `has_routers` says whether there are routers, `enabled` whether the refresh manager is enabled.
unfoldable pub start : Bool → Bool → PeerRouting → PeerRouting × List Effect
start has_routers enabled s =
    if s.started || (not has_routers || (s.has_timeout || not enabled))
    then (s, [])
    else (record s { has_timeout = true; started = true }, set_interval ∷ [])

-- `stop`
unfoldable pub stop : PeerRouting → PeerRouting × List Effect
stop s = (
  record s { started = false },
  (if s.has_timeout then clear_interval ∷ [] else [])
      ++ (if s.querying then abort_query ∷ [] else []),
)

-- `_findClosestPeersTask`: it begins unless a query is running, and its end clears the controller.
unfoldable pub begin_query : PeerRouting → PeerRouting × Bool
begin_query s = if s.querying then (s, false) else (record s { querying = true }, true)

unfoldable pub end_query : PeerRouting → PeerRouting
end_query s = record s { querying = false }

module _ {M : Type 0} where
  -- `filter(source, Boolean)` and `first`: an answer that is an error is logged.
  abbrev pub first_found : List (Result (Option (PeerInfo M))) → Option (PeerInfo M)
  first_found [] = none
  first_found (err e ∷ as') = first_found as'
  first_found (ok none ∷ as') = first_found as'
  first_found (ok (some p) ∷ as') = some p

  abbrev pub found_or_throw : Option (PeerInfo M) → List (PeerInfo M) × Result (PeerInfo M)
  found_or_throw none = ([], err err_not_found)
  found_or_throw (some p) = (p ∷ [], ok p)

  -- `findPeer`: the peers whose addresses it stores, and what it returns.
  unfoldable pub find_peer :
      Bool
      → String
      → String
      → List (Result (Option (PeerInfo M)))
      → List (PeerInfo M) × Result (PeerInfo M)
  find_peer has_routers own id answers =
      if not has_routers
      then ([], err err_no_routers_available)
      else if ite (str_dec id own) true false
      then ([], err err_find_self)
      else found_or_throw (first_found answers)

  -- `uniquePeers`
  unfoldable pub unique_peers : List String → List (PeerInfo M) → List (PeerInfo M)
  unique_peers seen [] = []
  unique_peers seen (p ∷ ps) =
      let rest = unique_peers seen ps in
      let rest' = unique_peers (p.id ∷ seen) ps in if has_text p.id seen then rest else p ∷ rest'

-- What a sequence of peers has come to: those whose addresses are stored, those that are yielded, and the error at its end.
pub record Sequence (M : Type 0) : Type 0 where
  pub stored : List (PeerInfo M)
  pub yielded : List (PeerInfo M)
  pub fails : Bool

module _ {M : Type 0} where
  -- `requirePeers` for at least one peer
  abbrev pub no_peers : List (PeerInfo M) → Bool
  no_peers [] = true
  no_peers (p ∷ ps) = false

  -- `storeAddresses`, `uniquePeers` and `requirePeers`
  abbrev pub piped : List (PeerInfo M) → Sequence M
  unfolding unique_peers
  piped source = record {
    stored = source;
    yielded = unique_peers [] source;
    fails = no_peers (unique_peers [] source);
  }

  -- `getClosestPeers` and `findProviders`
  unfoldable pub get_closest_peers : Bool → List (PeerInfo M) → Result (Sequence M)
  get_closest_peers has_routers source =
      if not has_routers then err err_no_routers_available else ok (piped source)

  unfoldable pub find_providers : Bool → List (PeerInfo M) → Result (Sequence M)
  find_providers has_routers source =
      if not has_routers then err err_no_routers_available else ok (piped source)

-- An event of a query to the DHT.
pub data DhtEvent (V : Type 0) : Type 0 where
  value : String → V → DhtEvent V
  other : DhtEvent V

module _ {V : Type 0} where
  abbrev pub first_value : List (DhtEvent V) → Option V
  first_value [] = none
  first_value (value from v ∷ es) = some v
  first_value (other ∷ es) = first_value es

  abbrev pub queried : Option (List (DhtEvent V)) → List (DhtEvent V)
  queried none = []
  queried (some es) = es

  abbrev or_not_found : Option V → Result V
  or_not_found none = err err_not_found
  or_not_found (some v) = ok v

  -- `get`, with the events of the DHT, if there is one
  unfoldable pub get : Bool → Option (List (DhtEvent V)) → Result V
  get started dht =
      if not started then err dht_not_started else or_not_found (first_value (queried dht))

  -- The loop of `getMany`; `got` values have been yielded.
  unfoldable pub get_values : ℕ → ℕ → List (DhtEvent V) → List (String × V)
  get_values n got [] = []
  get_values n got (other ∷ es) = get_values n got es
  get_values n got (value from v ∷ es) =
      let rest = get_values n (suc got) es in
      if suc got == n then (from, v) ∷ [] else (from, v) ∷ rest

  abbrev pub is_none_got : List (String × V) → Bool
  is_none_got [] = true
  is_none_got (v ∷ vs) = false

  -- `getMany`: what it yields, and how it ends.
  unfoldable pub get_many :
      Bool → ℕ → Option (List (DhtEvent V)) → List (String × V) × Result (Unit {0})
  unfolding get_values
  get_many started n dht =
      let vs = get_values n 0 (queried dht) in
      if not started
      then ([], err dht_not_started)
      else if n == 0
      then ([], ok tt)
      else (vs, throw_if (is_none_got vs) err_not_found)
