-- ===== src/Manager/Prune/Order.antt =====
-- Which connections `_pruneConnections` chooses to close.
use state_channels.Common.{
  ℕ, ◌≤◌, ◌<◌, String, ◌≡◌, refl, sym, subst, ◌⊎◌, false, some, List, [], ◌∷◌, ◌++◌, take, drop,
  take-append-drop, All, All-append_left, All-append_right, arith, inl, inr, Option-cases,
  Bool-cases, ap, ◌∙◌,
}
use state_channels.Common.StringMap
use state_channels.Common.StringMap.{StringMap, Entries}
use state_channels.Common.Sort.{IsSorted, IsComparison, IsSorted-append, sort-IsSorted, sort-All}
use state_channels.Manager.{or_default, Manager, Connection, get_connections}
use state_channels.Manager.Prune.{
  value_in, goes_after, sum_from, note_value, peer_values, sorted_connections,
}

-- The comparison is a consistent one, whatever the values and the opening times.
goes_after-IsComparison : (vs : StringMap ℕ) → IsComparison (goes_after vs)
unfolding goes_after
goes_after-IsComparison vs = record {
  asym = λ x y h. ground arith;
  trans = λ x y z h k. ground arith;
}

module _ (tag_values : String → List ℕ) where
  -- What the peer of a connection is worth: the sum over its tags.
  abbrev pub worth : Connection → ℕ
  worth c = sum_from 0 (tag_values c.remote_peer)

  abbrev Worth : String → ℕ → Type 0
  Worth p v = v ≡ sum_from 0 (tag_values p)

  note_value-get :
      (vs : StringMap ℕ) (c : Connection) (p : String) (v : ℕ)
      → StringMap.get p vs ≡ some v
      → StringMap.get p (note_value tag_values vs c) ≡ some v
  unfolding note_value StringMap.has
  note_value-get vs c p v e = ground (
    arith,
    StringMap.get-set c.remote_peer p (sum_from 0 (tag_values c.remote_peer)) vs,
    λ (q : c.remote_peer ≡ p). ap (λ (x : String). StringMap.get x vs) q,
  )

  note_value-get_self :
      (vs : StringMap ℕ) (c : Connection)
      → Entries Worth vs
      → StringMap.get c.remote_peer (note_value tag_values vs c) ≡ some (worth c)
  unfolding note_value StringMap.has
  note_value-get_self vs c w = elim (Option-cases (StringMap.get c.remote_peer vs)) [
    | inl e ↦ rw e (StringMap.get-set_self c.remote_peer (worth c) vs)
    | inr (v, e) ↦ rw e (e ∙ ap some (StringMap.Entries-get Worth c.remote_peer vs v w e))
  ]

  note_value-Entries :
      (vs : StringMap ℕ) (c : Connection)
      → Entries Worth vs
      → Entries Worth (note_value tag_values vs c)
  unfolding note_value
  note_value-Entries vs c w = elim (Bool-cases (StringMap.has c.remote_peer vs)) [
    | inl e ↦ rw e w
    | inr e ↦ rw e (StringMap.Entries-set Worth c.remote_peer (worth c) vs refl w)
  ]

  peer_values-get :
      (cs : List Connection) (vs : StringMap ℕ) (p : String) (v : ℕ)
      → StringMap.get p vs ≡ some v
      → StringMap.get p (peer_values tag_values cs vs) ≡ some v
  unfolding peer_values
  peer_values-get [] vs p v e = e
  peer_values-get (c ∷ cs) vs p v e =
      peer_values-get cs (note_value tag_values vs c) p v (note_value-get vs c p v e)

  -- Every connection's peer gets its worth.
  peer_values-All :
      (cs : List Connection) (vs : StringMap ℕ)
      → Entries Worth vs
      → All (λ c. value_in (peer_values tag_values cs vs) c ≡ worth c) cs
  unfolding peer_values
  peer_values-All [] vs w = tt
  peer_values-All (c ∷ cs) vs w = (
    ap (λ o. or_default o 0)
        (peer_values-get cs (note_value tag_values vs c) c.remote_peer (worth c)
          (note_value-get_self vs c w)),
    peer_values-All cs (note_value tag_values vs c) (note_value-Entries vs c w),
  )

  -- The order in which connections are given up: those of the peers that are worth least first, and
  -- of two that are worth the same the one that was opened last.
  abbrev pub GivenUpBefore : Connection → Connection → Type 0
  GivenUpBefore c d = (worth c < worth d) ⊎ ((worth c ≡ worth d) × (d.opened ≤ c.opened))

  goes_after-GivenUpBefore :
      (vs : StringMap ℕ) (c d : Connection)
      → value_in vs c ≡ worth c
      → value_in vs d ≡ worth d
      → goes_after vs c d ≡ false
      → GivenUpBefore c d
  unfolding goes_after
  goes_after-GivenUpBefore vs c d e f h = ground arith

  given_up-All :
      (vs : StringMap ℕ) (c : Connection) (ds : List Connection)
      → value_in vs c ≡ worth c
      → All (λ d. value_in vs d ≡ worth d) ds
      → All (λ d. goes_after vs c d ≡ false) ds
      → All (GivenUpBefore c) ds
  given_up-All vs c [] e f h = tt
  given_up-All vs c (d ∷ ds) e f h =
      (goes_after-GivenUpBefore vs c d e f.0 h.0, given_up-All vs c ds e f.1 h.1)

  given_up-All-All :
      (vs : StringMap ℕ) (cs ds : List Connection)
      → All (λ c. value_in vs c ≡ worth c) cs
      → All (λ d. value_in vs d ≡ worth d) ds
      → All (λ c. All (λ d. goes_after vs c d ≡ false) ds) cs
      → All (λ c. All (GivenUpBefore c) ds) cs
  given_up-All-All vs [] ds e f h = tt
  given_up-All-All vs (c ∷ cs) ds e f h =
      (given_up-All vs c ds e.0 f h.0, given_up-All-All vs cs ds e.1 f h.1)

  -- Wherever the sorted list is cut, each connection in front of the cut is given up before each
  -- behind it: its peer is worth less, or as much and it was opened no earlier.
  pub sorted_connections-GivenUpBefore :
      (m : Manager) (k : ℕ)
      → let cs = sorted_connections tag_values m in
        All (λ c. All (GivenUpBefore c) (drop k cs)) (take k cs)
  unfolding sorted_connections
  sorted_connections-GivenUpBefore m k =
      given_up-All-All vs (take k cs) (drop k cs) (All-append_left _ (take k cs) (drop k cs) valued)
        (All-append_right _ (take k cs) (drop k cs) valued)
        (IsSorted-append (goes_after vs) (take k cs) (drop k cs) (
          subst (IsSorted (goes_after vs)) (sym (take-append-drop k cs))
            (sort-IsSorted (goes_after vs) (goes_after-IsComparison vs) (get_connections m))))
    where
      vs : StringMap ℕ
      vs = peer_values tag_values (get_connections m) []

      cs : List Connection
      cs = sorted_connections tag_values m

      valued : All (λ c. value_in vs c ≡ worth c) (take k cs ++ drop k cs)
      valued = subst (All (λ c. value_in vs c ≡ worth c)) (sym (take-append-drop k cs)) (
          sort-All (goes_after vs) (λ c. value_in vs c ≡ worth c) (get_connections m)
            (peer_values-All (get_connections m) [] tt))
