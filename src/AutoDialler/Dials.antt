-- ===== src/AutoDialler/Dials.antt =====
-- Which peers are dialed, and in which order.
use state_channels.Common.{
  ℕ, ◌<◌, ◌≡◌, ◌≢◌, refl, true, false, if_both, List, [], ◌∷◌, All, length, leb, String, arith,
}
use state_channels.Common.Sort.{sort-All}
use state_channels.Manager.{Manager, Connection, get_connections, get_connections_of}
use state_channels.AutoDialler.{
  AutoDialler, Peer, Dial, goes_after, without_self, candidates, has_none, dial_each, auto_dial,
}

without_self-All : (own : String) (ps : List Peer) → All (λ p. p.id ≢ own) (without_self own ps)
without_self-All own [] = tt
without_self-All own (p ∷ ps) = ground (arith, without_self-All own ps)

-- A dial is due: of a peer other than the node itself, which has no tracked connection.
abbrev pub IsDue : String → Dial → Type 0
IsDue own x = (x.peer.id ≢ own) × (get_connections_of x.before x.peer.id ≡ [])

has_none-nil : (cs : List Connection) → has_none cs ≡ true → cs ≡ []
has_none-nil [] h = refl
has_none-nil (c ∷ cs) h = cc

-- A dial is made: it is due, and fewer connections are tracked than `least`.
abbrev pub IsMade : ℕ → String → Dial → Type 0
IsMade least own x = IsDue own x × (length (get_connections x.before) < least)

module _ (dial : AutoDialler → Manager → Peer → AutoDialler × Manager) where
  dial_each-All :
      (least : ℕ) (own : String) (d : AutoDialler) (m : Manager) (ps : List Peer)
      → All (λ p. p.id ≢ own) ps
      → All (IsMade least own) (dial_each dial least d m ps).0
  unfolding dial_each
  dial_each-All least own d m [] h = tt
  dial_each-All least own d m (p ∷ ps) h =
      let (d', m') = dial d m p in
      let more = dial_each-All least own d' m' ps h.1 in
      let passed = dial_each-All least own d m ps h.1 in
      let due = has_none-nil (get_connections_of m p.id) in ground (arith, more, passed, due, h.0)

  -- `_autoDial` dials only peers other than the node itself, each only while it has no tracked connection and while fewer
  -- connections are tracked than the minimum, whatever a dial does to the manager and to the dialler.
  pub auto_dial-All :
      (own : String) (all : List Peer) (d : AutoDialler) (m : Manager)
      → All (IsMade d.min_connections own) (auto_dial dial own all d m).0
  unfolding auto_dial candidates
  auto_dial-All own all d m =
      let cleared = record d { timer = false } in
      if_both (λ (r : List Dial × AutoDialler × Manager). All (IsMade d.min_connections own) r.0)
        (leb d.min_connections (length (get_connections m))) tt
        (dial_each-All d.min_connections own cleared m (candidates own all)
          (sort-All goes_after (λ p. p.id ≢ own) (without_self own all) (without_self-All own all)))
