-- ===== src/Manager/Prune/Settings.antt =====
-- What `onDisconnect` and `_onConnect` leave as it is: everything but the map of connections.
use state_channels.Common.{
  ℕ, Option, none, some, ◌≡◌, refl, ◌∙◌, true, List, [], ◌∷◌, length, ltb, Bool, if_both,
}
use state_channels.Common.StringMap
use state_channels.Manager.{
  Effect, exceeds, Manager, Connection, Limit, finite, get_connections, store, on_disconnect,
  drop_stored,
}
use state_channels.Manager.Prune.{
  PeerStore, Closing, gets_all, close_all, on_connect, check_max_limit, select, sorted_connections,
  disconnect_all, prune_connections,
}
use state_channels.Manager.Prune.Proofs.{IsResolving}
use state_channels.Manager.Prune.Bound.{on_connect_started}

module _ (peer_store : PeerStore) (closing : Closing) where
  -- Nothing but the map changes.
  abbrev pub SameSettings : Manager → Manager → Type 0
  SameSettings m m' = (m'.started ≡ m.started) × (m'.max_connections ≡ m.max_connections)

  drop_stored-SameSettings :
      (m : Manager) (c : Connection) (o : Option (List Connection))
      → SameSettings m (drop_stored m c o).0
  unfolding drop_stored
  drop_stored-SameSettings m c none = (refl, refl)
  drop_stored-SameSettings m c (some cs) =
      if_both (λ (r : Manager × List Effect). SameSettings m r.0) (ltb 1 (length cs)) (refl, refl)
        (refl, refl)

  pub on_disconnect-SameSettings :
      (m : Manager) (c : Connection) → SameSettings m (on_disconnect m c).0
  unfolding on_disconnect
  on_disconnect-SameSettings m c =
      if_both (λ (r : Manager × List Effect). SameSettings m r.0) m.started
        (drop_stored-SameSettings m c (StringMap.get c.remote_peer m.connections)) (refl, refl)

  disconnect_all-SameSettings :
      (m : Manager) (cs : List Connection) → SameSettings m (disconnect_all m cs).0
  unfolding disconnect_all
  disconnect_all-SameSettings m [] = (refl, refl)
  disconnect_all-SameSettings m (c ∷ cs) =
      let (s, x) = on_disconnect-SameSettings m c in
      let (s', x') = disconnect_all-SameSettings (on_disconnect m c).0 cs in (s' ∙ s, x' ∙ x)

  close_all-SameSettings :
      (m : Manager) (cs : List Connection) → SameSettings m (close_all peer_store closing m cs).0
  unfolding close_all
  close_all-SameSettings m cs = disconnect_all-SameSettings m (closing.ends cs)

  prune_connections-SameSettings :
      (m : Manager) (n : ℕ) → SameSettings m (prune_connections peer_store closing m n).0
  unfolding prune_connections
  prune_connections-SameSettings m n =
      if_both (λ (r : Manager × (List Effect × Bool)). SameSettings m r.0)
        (gets_all peer_store closing (get_connections m))
        (close_all-SameSettings m (select n 0 (sorted_connections peer_store.tag_values m)))
        (refl, refl)

  check_max_limit-SameSettings :
      (m : Manager) (l : Limit) (v n : ℕ)
      → SameSettings m (check_max_limit peer_store closing m l v n).0
  unfolding check_max_limit
  check_max_limit-SameSettings m l v n =
      if_both (λ (r : Manager × (List Effect × Bool)). SameSettings m r.0) (exceeds v l)
        (prune_connections-SameSettings m n) (refl, refl)

  pub on_connect-SameSettings :
      (m : Manager) (c : Connection) (k : ℕ)
      → m.started ≡ true
      → IsResolving peer_store
      → m.max_connections ≡ finite k
      → SameSettings m (on_connect peer_store closing m c).0
  on_connect-SameSettings m c k s r e =
      rw (on_connect_started peer_store closing m c k s r e)
        (check_max_limit-SameSettings (record m { connections = store m.connections c }) _ _ _)
