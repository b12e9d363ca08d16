-- ===== src/Manager/Prune/Bound.antt =====
-- `_onConnect` keeps the number of connections within `maxConnections`.
use state_channels.Common.{
  ℕ, ◌-◌, ◌≤◌, ◌<◌, String, ◌≡◌, true, Option, none, some, refl, List, ltb, ltb→lt, ltb-false,
  length, length-perm, length-append, length-take, take, drop, take-append-drop, arith, inl, inr,
  Bool-cases, ap,
}
use state_channels.Manager.{Manager, Connection, finite, get_connections, store}
use state_channels.Manager.Tracking.{IsTracking}
use state_channels.Manager.Invariant.{Fresh, store-IsTracking}
use state_channels.Manager.Prune.{
  PeerStore, Closing, takes_key, connected, on_connect, check_max_limit, prune_connections,
  sorted_connections,
}
use state_channels.Manager.Prune.Proofs.{
  IsResolving, prune_connections-Pruned, sorted_connections-perm,
}

pub length-drop_excess :
    (n k : ℕ) (xs : List Connection) → length xs ≡ n → k < n → length (drop (n - k) xs) ≡ k
length-drop_excess n k xs e h = omega (
  arith,
  length-append {0} (take (n - k) xs) (drop (n - k) xs),
  ap length (take-append-drop (n - k) xs),
  length-take {0} (n - k) xs,
)

module _ (peer_store : PeerStore) (closing : Closing) where
  -- Checking the number of connections against the maximum brings it down to the maximum.
  check_max_limit-le :
      (m : Manager) (k : ℕ)
      → IsTracking m.connections
      → m.started ≡ true
      → IsResolving peer_store
      → let n = length (get_connections m) in
        let m' = (check_max_limit peer_store closing m (finite k) n (n - k)).0 in
        (length (get_connections m') ≤ k) × IsTracking m'.connections
  unfolding check_max_limit
  check_max_limit-le m k t s r = elim (Bool-cases (ltb k (length (get_connections m)))) [
    | inl over ↦
        let n = length (get_connections m) in
        let ((gone, p), t', _) =
          prune_connections-Pruned peer_store closing m (n - k) t s r
            (omega (arith, ltb→lt _ _ over)) in
        rw over (
          omega (
            arith,
            length-perm p,
            length-append gone (get_connections (prune_connections peer_store closing m (n - k)).0),
            length-drop_excess n k (sorted_connections peer_store.tag_values m)
                (length-perm (sorted_connections-perm peer_store.tag_values m)) (ltb→lt _ _ over),
          ),
          t',
        )
    | inr within ↦ rw within (ltb-false _ _ within, t)
  ]

  takes_key-true :
      (p : String) (key : Option String)
      → IsResolving peer_store
      → takes_key peer_store closing p key ≡ true
  takes_key-true p none r = refl
  takes_key-true p (some k) r = (r p).0

  -- Of a started manager whose peer store answers, `_onConnect` stores the connection and checks the limit.
  pub on_connect_started :
      (m : Manager) (c : Connection) (k : ℕ)
      → m.started ≡ true
      → IsResolving peer_store
      → m.max_connections ≡ finite k
      → let m' = record m { connections = store m.connections c } in
        let n = length (get_connections m') in
        (on_connect peer_store closing m c).0
        ≡ (check_max_limit peer_store closing m' (finite k) n (n - k)).0
  unfolding on_connect connected
  on_connect_started m c k s r e = ground (arith, s, e, takes_key-true c.remote_peer c.public_key r)

  -- If the manager is started, its maximum of connections is finite, its map is consistent, the connection is new and no
  -- call of the peer store is rejected, then after `_onConnect` it tracks no more connections than its maximum, however
  -- many it tracked before and however often the connections that it closes end, and its map is consistent.
  pub on_connect-le-max :
      (m : Manager) (c : Connection) (k : ℕ)
      → IsTracking m.connections
      → Fresh c m.connections
      → m.started ≡ true
      → IsResolving peer_store
      → m.max_connections ≡ finite k
      → let m' = (on_connect peer_store closing m c).0 in
        (length (get_connections m') ≤ k) × IsTracking m'.connections
  on_connect-le-max m c k t f s r e = rw (on_connect_started m c k s r e) (
      check_max_limit-le (record m { connections = store m.connections c }) k
        (store-IsTracking m.connections c t f) s r)
