-- ===== src/Manager/Prune/Refinement.antt =====
-- The connection manager as a bag of connections: the specification forgets the order and the map by peer.
use mathlib.Core.List.{Perm}
use mathlib.Core.List.Perm
use mathlib.Core.Quot
use mathlib.Core.Quot.{Quot, Quot-set}
use state_channels.Common.{
  ℕ, ◌-◌, ◌≤◌, ◌<◌, ◌≡◌, refl, sym, subst, ◌∙◌, ◌⊎◌, inl, inr, Bool-cases, true, List, [], ◌∷◌,
  ◌++◌, length, take, drop, ltb, ltb→lt, ltb-false, take-append-drop, length-perm, length-append,
  append_assoc, arith,
}
use state_channels.Manager.{Manager, Connection, finite, get_connections, store, on_disconnect}
use state_channels.Manager.Tracking.{IsTracking, differs?, others}
use state_channels.Manager.Invariant.{Fresh, store-perm, store-IsTracking, on_disconnect-IsTracking}
use state_channels.Manager.Leaving.{on_disconnect-Leaves}
use state_channels.Manager.Prune.{
  PeerStore, Closing, on_connect, check_max_limit, sorted_connections, prune_connections,
}
use state_channels.Manager.Prune.Proofs.{
  IsResolving, prune_connections-Pruned, sorted_connections-perm,
}
use state_channels.Manager.Prune.Bound.{on_connect-le-max, on_connect_started, length-drop_excess}
use state_channels.Manager.Prune.Settings.{on_connect-SameSettings, on_disconnect-SameSettings}

-- The specification's state.
abbrev pub Bag : Type 0
Bag = Quot (Perm {A = Connection})

abbrev pub bag_of : List Connection → Bag
bag_of cs = Quot.mk cs

pub put : Connection → Bag → Bag
put c = Quot.lift Quot-set (λ cs. bag_of (c ∷ cs)) (λ xs ys p. Quot.sound (Perm.cons c p))

pub take_out : Connection → Bag → Bag
take_out c =
    Quot.lift Quot-set (λ cs. bag_of (others c cs))
      (λ xs ys p. Quot.sound (Perm.filter (λ d. differs? d c) p))

-- A bag of at most `k` of the connections of another: all of them, if they are no more than `k`.
abbrev pub Keeps : ℕ → Bag → Bag → Type 0
Keeps k b b' =
    (gone : List Connection) × ((kept : List Connection) × ((b ≡ bag_of (gone ++ kept))
        × ((b' ≡ bag_of kept) × ((length kept ≤ k) × ((gone ≡ []) ⊎ (k < length (gone ++ kept)))))))

-- A bag without a connection; or, where the connection is not in it, without one of the same peer.
abbrev pub Loses : Connection → Bag → Bag → Type 0
Loses c b b' =
    (b' ≡ take_out c b)
    ⊎ ((take_out c b ≡ b) × ((d : Connection) × ((d.remote_peer ≡ c.remote_peer) × (b ≡ put d b'))))

-- What the manager is told of.
pub data Op : Type 0 where
  opened ended : Connection → Op

-- The specification: a bag of at most `k` connections.
pub data Spec (k : ℕ) : Bag → List Op → Bag → Type 0 where
  done : {b : Bag} → Spec k b [] b
  opens :
      {c : Connection} {ops : List Op} {b b' b'' : Bag}
      → Keeps k (put c b) b'
      → Spec k b' ops b''
      → Spec k b (opened c ∷ ops) b''
  ends :
      {c : Connection} {ops : List Op} {b b' b'' : Bag}
      → Loses c b b'
      → Spec k b' ops b''
      → Spec k b (ended c ∷ ops) b''

module _ (peer_store : PeerStore) (closing : Closing) where
  abbrev pub perform : Manager → Op → Manager
  perform m (opened c) = (on_connect peer_store closing m c).0
  perform m (ended c) = (on_disconnect m c).0

  abbrev pub perform_all : Manager → List Op → Manager
  perform_all m [] = m
  perform_all m (o ∷ os) = perform_all (perform m o) os

  -- A connection that is opened is new. One that ends need not be tracked.
  abbrev pub IsExpected : Manager → Op → Type 0
  IsExpected m (opened c) = Fresh c m.connections
  IsExpected m (ended c) = Unit

  abbrev pub AreExpected : Manager → List Op → Type 0
  AreExpected m [] = Unit
  AreExpected m (o ∷ os) = IsExpected m o × AreExpected (perform m o) os

  over_the_limit :
      (m : Manager) (k : ℕ)
      → IsTracking m.connections
      → m.started ≡ true
      → IsResolving peer_store
      → k < length (get_connections m)
      → Keeps k (bag_of (get_connections m)) (
          bag_of (
            get_connections
              ((prune_connections peer_store closing m (length (get_connections m) - k)).0)))
  over_the_limit m k t s r h =
      let n = length (get_connections m) - k in
      let sorted = sorted_connections peer_store.tag_values m in
      let ((gone, p), _, _) =
        prune_connections-Pruned peer_store closing m n t s r (omega (arith, h)) in
      let after = get_connections ((prune_connections peer_store closing m n).0) in
      let q = sorted_connections-perm peer_store.tag_values m in
      let l = length-drop_excess (length (get_connections m)) k sorted (length-perm q) h in
      let whole : Perm (get_connections m) ((take n sorted ++ gone) ++ after) =
        Perm.trans (Perm.symm q) (
          subst (λ x. Perm x ((take n sorted ++ gone) ++ after)) (take-append-drop n sorted)
            (subst (Perm (take n sorted ++ drop n sorted))
              (sym (append_assoc (take n sorted) gone after))
              (Perm.append_left (take n sorted) p))) in
      (
        take n sorted ++ gone,
        (
          after,
          (
            Quot.sound whole,
            (
              refl,
              (
                omega (arith, l, length-perm p, length-append gone after),
                inr (omega (arith, h, length-perm whole)),
              ),
            ),
          ),
        ),
      )

  check_max_limit-Keeps :
      (m : Manager) (k : ℕ)
      → IsTracking m.connections
      → m.started ≡ true
      → IsResolving peer_store
      → Keeps k (bag_of (get_connections m)) (
          bag_of (
            get_connections (
              (check_max_limit peer_store closing m
                (finite k)
                (length (get_connections m))
                (length (get_connections m) - k)).0)))
  unfolding check_max_limit
  check_max_limit-Keeps m k t s r = elim (Bool-cases (ltb k (length (get_connections m)))) [
    | inl over ↦ rw over (over_the_limit m k t s r (ltb→lt _ _ over))
    | inr within ↦
        rw within ([], (get_connections m, (refl, (refl, (ltb-false _ _ within, inl refl)))))
  ]

  -- `_onConnect` puts the connection into the bag, and keeps as many as the maximum allows.
  on_connect-Keeps :
      (m : Manager) (c : Connection) (k : ℕ)
      → IsTracking m.connections
      → Fresh c m.connections
      → m.started ≡ true
      → IsResolving peer_store
      → m.max_connections ≡ finite k
      → Keeps k
          (put c (bag_of (get_connections m)))
          (bag_of (get_connections ((on_connect peer_store closing m c).0)))
  unfolding put
  on_connect-Keeps m c k t f s r e =
      let m' = record m { connections = store m.connections c } in
      subst (λ b. Keeps k b (bag_of (get_connections ((on_connect peer_store closing m c).0))))
        (Quot.sound (store-perm m.connections c))
        (rw (on_connect_started peer_store closing m c k s r e)
          (check_max_limit-Keeps m' k (store-IsTracking m.connections c t f) s r))

  -- `onDisconnect` takes a connection out of the bag.
  on_disconnect-Loses :
      (m : Manager) (c : Connection)
      → IsTracking m.connections
      → m.started ≡ true
      → Loses c (bag_of (get_connections m)) (bag_of (get_connections (on_disconnect m c).0))
  unfolding take_out put
  on_disconnect-Loses m c t s =
      let after = get_connections (on_disconnect m c).0 in
      let (gone, (p, how)) = on_disconnect-Leaves m c t s in
      elim how [
        | inl e ↦ inl (
            Quot.sound
              (Perm.symm (subst (λ g. Perm (others c (get_connections m)) (g ++ after)) e p)))
        | inr (same, (d, (e, peer))) ↦ inr (
          Quot.sound same,
          (
            d,
            (
              peer,
              Quot.sound (
                  Perm.trans (Perm.symm same)
                    (subst (λ g. Perm (others c (get_connections m)) (g ++ after)) e p)),
            ),
          ),
        )
      ]

  -- If a manager is started, its maximum of connections is finite, its map is consistent and no call of the peer store is
  -- rejected, every sequence of new connections and of ends takes it from bag to bag as the specification allows: a new
  -- connection is put in, and if there are then more than the maximum, so many leave that no more than it are left; one
  -- that ends is taken out alone, and the end of one that is not in the bag may take out one of the same peer.
  pub perform_all-Spec :
      (ops : List Op) (m : Manager) (k : ℕ)
      → IsTracking m.connections
      → m.started ≡ true
      → IsResolving peer_store
      → m.max_connections ≡ finite k
      → AreExpected m ops
      → Spec k (bag_of (get_connections m)) ops (bag_of (get_connections (perform_all m ops)))
  perform_all-Spec [] m k t s r e x = done
  perform_all-Spec (opened c ∷ ops) m k t s r e (f, x) =
      let (s', e') = on_connect-SameSettings peer_store closing m c k s r e in
      let (_, t') = on_connect-le-max peer_store closing m c k t f s r e in
      opens (on_connect-Keeps m c k t f s r e) (perform_all-Spec ops _ k t' (s' ∙ s) r (e' ∙ e) x)
  perform_all-Spec (ended c ∷ ops) m k t s r e (f, x) =
      let (s', e') = on_disconnect-SameSettings peer_store closing m c in
      ends (on_disconnect-Loses m c t s)
        (perform_all-Spec ops _ k (on_disconnect-IsTracking m c t) (s' ∙ s) r (e' ∙ e) x)
