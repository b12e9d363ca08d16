-- ===== src/Manager/Ending.antt =====
-- `onDisconnect` where a connection ends twice, as in `_pruneConnections`, which calls it beside the upgrader's event.
use state_channels.Common.{String, ◌≡◌, refl, ◌≢◌, true, none, some, List, [], ◌∷◌, arith}
use state_channels.Common.StringMap
use state_channels.Common.StringMap.{HasDistinctKeys}
use state_channels.Manager.{
  Manager, Connection, peer_disconnect, on_disconnect, drop_stored, without,
}

-- The first of two connections of a peer ends.
on_disconnect_first :
    (m : Manager) (c d : Connection)
    → m.started ≡ true
    → StringMap.get c.remote_peer m.connections ≡ some (c ∷ d ∷ [])
    → c.id ≢ d.id
    → on_disconnect m c
      ≡ (record m { connections = StringMap.set c.remote_peer (d ∷ []) m.connections }, [])
unfolding on_disconnect drop_stored without
on_disconnect_first m c d s e n = ground arith

-- Whatever connection the peer's list holds alone, it goes.
on_disconnect_last :
    (m : Manager) (c d : Connection)
    → m.started ≡ true
    → StringMap.get c.remote_peer m.connections ≡ some (d ∷ [])
    → on_disconnect m c ≡ (
      record m { connections = StringMap.delete c.remote_peer m.connections },
      peer_disconnect c ∷ [],
    )
unfolding on_disconnect drop_stored
on_disconnect_last m c d s e = ground arith

-- In a started manager that tracks two connections with different ids of a peer, in a map with
-- distinct keys, a second `onDisconnect` of the first one untracks the other too and announces
-- the peer as disconnected.
pub on_disconnect_twice :
    (m : Manager) (c d : Connection)
    → HasDistinctKeys m.connections
    → m.started ≡ true
    → StringMap.get c.remote_peer m.connections ≡ some (c ∷ d ∷ [])
    → c.id ≢ d.id
    → let r = on_disconnect (on_disconnect m c).0 c in
      (StringMap.get c.remote_peer r.0.connections ≡ none) × (r.1 ≡ peer_disconnect c ∷ [])
on_disconnect_twice m c d k s e n = rw (on_disconnect_first m c d s e n) (
    rw
      (on_disconnect_last (record m { connections = alone }) c d s
        (StringMap.get-set_self c.remote_peer (d ∷ []) m.connections))
      (
        StringMap.get-delete_self c.remote_peer alone
            (StringMap.set-HasDistinctKeys c.remote_peer (d ∷ []) m.connections k),
        refl,
      ))
  where
    alone : List (String × List Connection)
    alone = StringMap.set c.remote_peer (d ∷ []) m.connections
