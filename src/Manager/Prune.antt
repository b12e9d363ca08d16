-- ===== src/Manager/Prune.antt =====
-- `_onConnect`, `_checkMaxLimit`, `_onLatencyMeasure` and `_pruneConnections`. The tags of a peer are the peer store's
-- answer, read once. While a prune waits for connections to close, `onDisconnect` is called by it and by the event that the
-- upgrader dispatches; no other event is handled between the waits of one call.
pub mod Leaving
pub mod Proofs
pub mod Order
pub mod Bound
pub mod Settings
pub mod Refinement
use mathlib.Core.List.{Mem}
use state_channels.Common.{
  ℕ, suc, ◌+◌, ◌-◌, String, Bool, true, false, Option, none, some, List, [], ◌∷◌, ◌++◌, map, ltb,
  ◌==◌, ◌&&◌, if◌then◌else◌, length,
}
use state_channels.Common.StringMap
use state_channels.Common.StringMap.{StringMap}
use state_channels.Common.Sort.{sort}
use state_channels.Manager.{
  Manager, Connection, Limit, finite, infinite, exceeds, Effect, close, peer_connect, set_key,
  or_default, get_connections, on_disconnect, store,
}

-- The sign of a comparison function's result.
pub data Sign : Type 0 where
  minus null plus : Sign

abbrev pub is_plus : Sign → Bool
is_plus plus = true
is_plus _ = false

-- `tags.reduce((acc, curr) => acc + curr.value, 0)`
unfoldable pub sum_from : ℕ → List ℕ → ℕ
sum_from acc [] = acc
sum_from acc (v ∷ vs) = sum_from (acc + v) vs

-- The value of a peer in the map; 0 where it has none.
abbrev pub value_in : StringMap ℕ → Connection → ℕ
value_in vs c = or_default (StringMap.get c.remote_peer vs) 0

-- The comparison by which connections are sorted before some are closed.
compare_for_pruning : StringMap ℕ → Connection → Connection → Sign
compare_for_pruning vs a b =
    if ltb (value_in vs b) (value_in vs a)
    then plus
    else if ltb (value_in vs a) (value_in vs b)
    then minus
    else if ltb a.opened b.opened
    then plus
    else if ltb b.opened a.opened
    then minus
    else null

pub goes_after : StringMap ℕ → Connection → Connection → Bool
unfolding compare_for_pruning
goes_after vs a b = is_plus (compare_for_pruning vs a b)

-- The loop that fills `toClose`; `n` connections are in it already.
select : ℕ → ℕ → List Connection → List Connection
select to_prune n [] = []
select to_prune n (c ∷ cs) =
    let rest = select to_prune (suc n) cs in c ∷ (if suc n == to_prune then [] else rest)

-- What the peer store answers: the values of the tags of a peer, and whether a call of `keyBook.set` or of `getTags` is
-- resolved or rejected.
pub record PeerStore : Type 0 where
  pub tag_values : String → List ℕ
  pub sets_key : String → Bool
  pub gets_tags : String → Bool

-- What the closing of connections leads to: `ends cs` are the connections that `onDisconnect` is called with, in order,
-- while a prune closes `cs`. It calls it for each of them, and so does the upgrader for those whose raw connection ends.
pub record Closing : Type 0 where
  pub ends : List Connection → List Connection
  pub called : (cs : List Connection) (c : Connection) → Mem c cs → Mem c (ends cs)
  pub only_closed : (cs : List Connection) (c : Connection) → Mem c (ends cs) → Mem c cs

-- `onDisconnect` for each connection that ends.
pub disconnect_all : Manager → List Connection → Manager × List Effect
disconnect_all m [] = (m, [])
disconnect_all m (c ∷ cs) =
    let (m', es) = on_disconnect m c in let (m'', es') = disconnect_all m' cs in (m'', es ++ es')

module _ (tag_values : String → List ℕ) where
  -- One round of the loop that fills `peerValues`: a peer that has a value is passed over.
  pub note_value : StringMap ℕ → Connection → StringMap ℕ
  note_value vs c =
      if StringMap.has c.remote_peer vs
      then vs
      else StringMap.set c.remote_peer (sum_from 0 (tag_values c.remote_peer)) vs

  pub peer_values : List Connection → StringMap ℕ → StringMap ℕ
  peer_values [] vs = vs
  peer_values (c ∷ cs) vs = peer_values cs (note_value vs c)

  -- `sortedConnections`
  pub sorted_connections : Manager → List Connection
  sorted_connections m = sort (goes_after (peer_values (get_connections m) [])) (get_connections m)

-- The public key of the peer goes to the key book, if it is known.
abbrev keys_of : String → Option String → List Effect
keys_of p none = []
keys_of p (some k) = set_key p k ∷ []

abbrev key_effects : Connection → List Effect
key_effects c = keys_of c.remote_peer c.public_key

-- `numConnections - this.opts.maxConnections`; it is read only where it is positive.
abbrev excess : ℕ → Limit → ℕ
excess n (finite k) = n - k
excess n infinite = 0

-- `peer:connect` is dispatched if no call before it is rejected.
abbrev announce : Connection → Bool → List Effect
announce c true = peer_connect c ∷ []
announce c false = []

module _ (peer_store : PeerStore) (closing : Closing) where
  -- Whether every call of `getTags` is resolved.
  abbrev pub gets_all : List Connection → Bool
  gets_all [] = true
  gets_all (c ∷ cs) = peer_store.gets_tags c.remote_peer && gets_all cs

  -- Whether the key of the peer, if it is known, is taken.
  abbrev pub takes_key : String → Option String → Bool
  takes_key p none = true
  takes_key p (some k) = peer_store.sets_key p

  -- What is closed, once the tags have been read.
  abbrev pub close_all : Manager → List Connection → Manager × (List Effect × Bool)
  close_all m to_close =
      let (m', es) = disconnect_all m (closing.ends to_close) in
      (m', (map close to_close ++ es, true))

  -- `_pruneConnections`; at the end, whether it is resolved.
  pub prune_connections : Manager → ℕ → Manager × (List Effect × Bool)
  unfolding sorted_connections select disconnect_all
  prune_connections m to_prune =
      if gets_all (get_connections m)
      then close_all m (select to_prune 0 (sorted_connections peer_store.tag_values m))
      else (m, ([], false))

  pub check_max_limit : Manager → Limit → ℕ → ℕ → Manager × (List Effect × Bool)
  check_max_limit m limit value to_prune =
      if exceeds value limit then prune_connections m to_prune else (m, ([], true))

  -- The limit is checked once the key book has answered.
  abbrev checked : Manager → Limit → ℕ → Connection → Manager × List Effect
  checked m limit n c =
      let (m', (es, resolved)) = check_max_limit m limit n (excess n limit) in
      (m', key_effects c ++ es ++ announce c resolved)

  -- `_onConnect` of a manager that is started; `limit` is `this.opts.maxConnections`.
  pub connected : Manager → Limit → Connection → Manager × List Effect
  connected m limit c =
      let m' = record m { connections = store m.connections c } in
      if takes_key c.remote_peer c.public_key
      then checked m' limit (length (get_connections m')) c
      else (m', [])

  unfoldable pub on_connect : Manager → Connection → Manager × List Effect
  unfolding connected
  on_connect m c = if m.started then connected m m.max_connections c else (m, close c ∷ [])

  unfoldable pub on_latency_measure : Manager → ℕ → Manager × List Effect
  on_latency_measure m avg_ms =
      let (m', (es, resolved)) = check_max_limit m m.max_event_loop_delay avg_ms 1 in (m', es)
