-- ===== src/Manager/Prune/Proofs.antt =====
-- Which connections are tracked once a prune is done.
use mathlib.Core.List.{Mem, mem-cons, not-mem-nil, Perm}
use mathlib.Core.Logic.Or
use mathlib.Core.HLevel.{¬_prop}
use mathlib.Core.List.Perm
use state_channels.Common.{
  ℕ, zero, suc, ◌+◌, ◌<◌, String, ◌≡◌, refl, sym, subst, true, List, [], ◌∷◌, ◌++◌, take, drop,
  take-append-drop, All, arith, ◌≢◌,
}
use state_channels.Common.StringMap
use state_channels.Common.StringMap.{StringMap, Entries, HasDistinctKeys, Absent}
use state_channels.Common.Sort.{sort-perm}
use state_channels.Manager.{Manager, Connection, get_connections}
use state_channels.Manager.Tracking.{IsTracking}
use state_channels.Manager.Prune.{
  PeerStore, Closing, select, sorted_connections, gets_all, prune_connections,
}
use state_channels.Manager.Prune.Leaving.{disconnect_all-perm, disconnect_all-get}

-- The loop keeps as many connections as it is asked for.
select-take : (k n j : ℕ) (cs : List Connection) → suc n + j ≡ k → select k n cs ≡ take (suc j) cs
unfolding select
select-take k n j [] h = refl
select-take k n zero (c ∷ cs) h = ground arith
select-take k n (suc j) (c ∷ cs) h = ground (arith, select-take k (suc n) j cs)

module _ (tag_values : String → List ℕ) where
  pub sorted_connections-perm :
      (m : Manager) → Perm (sorted_connections tag_values m) (get_connections m)
  unfolding sorted_connections
  sorted_connections-perm m = sort-perm _ (get_connections m)

-- No call of the peer store is rejected.
abbrev pub IsResolving : PeerStore → Type 0
IsResolving s = (p : String) → (s.sets_key p ≡ true) × (s.gets_tags p ≡ true)

All-mem :
    (P : Connection → Type 0) (cs : List Connection)
    → ((c : Connection) → IsProp (P c))
    → All P cs
    → (c : Connection) → Mem c cs
    → P c
All-mem P [] r h c m = absurd (not-mem-nil m)
All-mem P (d ∷ cs) r h c m =
    Or.elim (r c) (mem-cons.0 m) (λ e. subst P (sym e) h.0) (λ n. All-mem P cs r h.1 c n)

module _ (peer_store : PeerStore) (closing : Closing) where
  gets_all-true :
      (cs : List Connection) → IsResolving peer_store → gets_all peer_store closing cs ≡ true
  gets_all-true [] h = refl
  gets_all-true (c ∷ cs) h = ground (arith, (h c.remote_peer).1, gets_all-true cs h)

  -- What a prune leaves: of the sorted list, the connections from the `k`-th on, but some that are gone too; of a peer that
  -- has none of the first `k`, every connection.
  abbrev pub Pruned : Manager → ℕ → List Connection → Manager → Type 0
  Pruned m k sorted m' =
      ((gone : List Connection) × Perm (drop k sorted) (gone ++ get_connections m'))
      × IsTracking m'.connections
      × ((p : String)
          → All (λ (c : Connection). c.remote_peer ≢ p) (take k sorted)
          → StringMap.get p m'.connections ≡ StringMap.get p m.connections)

  -- In a started manager with a consistent map and a peer store that answers, a prune that is asked for `k` > 0 connections
  -- stops tracking the first `k` of the sorted list, however often `onDisconnect` is called with each of them; it tracks
  -- no connection that was not tracked, the map stays consistent, and peers that have none of the first `k` keep all their
  -- connections.
  pub prune_connections-Pruned :
      (m : Manager) (k : ℕ)
      → IsTracking m.connections
      → m.started ≡ true
      → IsResolving peer_store
      → 0 < k
      → let (m', _) = prune_connections peer_store closing m k in
        Pruned m k (sorted_connections peer_store.tag_values m) m'
  unfolding prune_connections
  prune_connections-Pruned m zero t s r h = absurd (omega arith)
  prune_connections-Pruned m (suc k) t s r h =
      let (left_over, tracking) =
        disconnect_all-perm m closed (closing.ends closed) (drop (suc k) sorted) t s
          (closing.called closed)
          (subst (Perm (get_connections m)) (sym (take-append-drop (suc k) sorted))
            (Perm.symm (sorted_connections-perm peer_store.tag_values m))) in
      rw (gets_all-true (get_connections m) r, select-take (suc k) 0 k sorted (omega arith))
        (
          left_over,
          tracking,
          λ p a. disconnect_all-get m (closing.ends closed) p t (λ c n.
              All-mem (λ (d : Connection). d.remote_peer ≢ p) closed (λ d. ¬_prop) a c
                (closing.only_closed closed c n)),
        )
    where
      sorted : List Connection
      sorted = sorted_connections peer_store.tag_values m

      closed : List Connection
      closed = take (suc k) sorted
