-- ===== src/Node/Peers.antt =====
-- The peers that a node reports are those that its connection manager has connections to.
use state_channels.Common.{
  ◌≡◌, ◌≢◌, refl, sym, ap, ◌∙◌, Bool, true, false, not, Option, List, [], ◌∷◌, ◌++◌, String,
  str_dec, length, ◌<◌, All, arith,
}
use state_channels.Common.StringMap
use state_channels.Common.StringMap.{StringMap, Entries, HasDistinctKeys, Absent}
use state_channels.Common.Texts.{
  has_text, has_text-append, has_text-unique, unique-OccursOnce, OccursOnce,
}
use state_channels.Manager.{
  or_default, Manager, Connection, concat, get_connections, get_connections_of,
}
use state_channels.Manager.Tracking.{IsTracking, Owned}
use state_channels.Node.{remote_peers, get_peers}

remote_peers-append :
    (cs ds : List Connection) → remote_peers (cs ++ ds) ≡ remote_peers cs ++ remote_peers ds
remote_peers-append [] ds = refl
remote_peers-append (c ∷ cs) ds = ap (λ x. c.remote_peer ∷ x) (remote_peers-append cs ds)

abbrev pub is_none_left : List Connection → Bool
is_none_left [] = true
is_none_left (c ∷ cs) = false

-- The connections of one peer.
peers_own :
    (p q : String) (cs : List Connection)
    → q ≡ p
    → 0 < length cs
    → All (λ (c : Connection). c.remote_peer ≡ q) cs
    → has_text p (remote_peers cs) ≡ true
peers_own p q [] e h a = absurd (omega (arith, h))
peers_own p q (c ∷ cs) e h (a, _) = ground (arith, a ∙ e)

peers_foreign :
    (p q : String) (cs : List Connection)
    → q ≢ p
    → All (λ (c : Connection). c.remote_peer ≡ q) cs
    → has_text p (remote_peers cs) ≡ false
peers_foreign p q [] n a = refl
peers_foreign p q (c ∷ cs) n (a, as') =
    ground (arith, peers_foreign p q cs n as', λ (e : c.remote_peer ≡ p). n (sym a ∙ e))

abbrev none_found : Option (List Connection) → Bool
none_found o = is_none_left (or_default o [])

peers_concat :
    (p : String) (m : StringMap (List Connection))
    → Entries Owned m
    → has_text p (remote_peers (concat m)) ≡ not (none_found (StringMap.get p m))
unfolding concat StringMap.get
peers_concat p [] o = refl
peers_concat p ((q, []) ∷ m) ((h, a), o) = absurd (omega (arith, h))
peers_concat p ((q, c ∷ cs) ∷ m) ((h, a), o) = elim (str_dec q p) [
  | yes e ↦ ground (
    arith,
    peers_own p q (c ∷ cs) e h a,
    has_text-append p (remote_peers (c ∷ cs)) (remote_peers (concat m)),
    remote_peers-append (c ∷ cs) (concat m),
    e,
  )
  | no n ↦ ground (
    arith,
    peers_foreign p q (c ∷ cs) n a,
    has_text-append p (remote_peers (c ∷ cs)) (remote_peers (concat m)),
    remote_peers-append (c ∷ cs) (concat m),
    peers_concat p m o,
    n,
  )
]

-- If the map of the connection manager is consistent, `getPeers` returns a peer exactly if `getConnections` of this peer
-- returns a connection, and returns no peer twice.
pub get_peers-get_connections_of :
    (m : Manager)
    → IsTracking m.connections
    → ((p : String) → has_text p (get_peers m) ≡ not (is_none_left (get_connections_of m p)))
      × OccursOnce (get_peers m)
unfolding get_peers get_connections_of
get_peers-get_connections_of m t = (
  λ p. ground (
    arith,
    has_text-unique p [] (remote_peers (get_connections m)),
    peers_concat p m.connections t.owned,
  ),
  unique-OccursOnce [] (remote_peers (get_connections m)),
)
