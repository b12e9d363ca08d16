-- ===== src/Registrar/Notices.antt =====
-- Whom the registrar tells of a peer: by the protocols of the peer, or by their change.
use state_channels.Common.{
  ◌≡◌, refl, ap, true, none, some, List, [], ◌∷◌, append-nil, map, flat_map, head?, All, String,
  arith,
}
use state_channels.Common.Texts.{has_text}
use state_channels.Manager.{Manager, Connection, get_connections_of}
use state_channels.Registrar.{
  Registrar, topology_connect, except, get_topologies, on_connect, on_disconnect,
  on_protocol_change, connect_first,
}

except-nil : (ps : List String) → except [] ps ≡ ps
unfolding except
except-nil [] = refl
except-nil (p ∷ ps) = ap (◌∷◌ p) (except-nil ps)

-- Every text of `ps` is one of `qs`.
abbrev pub Includes : List String → List String → Type 0
Includes qs = All (λ p. has_text p qs ≡ true)

except-Includes : (ps qs : List String) → Includes qs ps → except qs ps ≡ []
unfolding except
except-Includes [] qs h = refl
except-Includes (p ∷ ps) qs h = ground (arith, h.0, except-Includes ps qs h.1)

flat_map-connect_first :
    {T : Type 0} (c : Connection) (p : String) (ts : List T)
    → flat_map (connect_first (some c) p) ts ≡ map (λ t. topology_connect t p c) ts
flat_map-connect_first c p [] = refl
flat_map-connect_first c p (t ∷ ts) =
    ap (◌∷◌ (topology_connect t p c)) (flat_map-connect_first c p ts)

flat_map-none : {T : Type 0} (p : String) (ts : List T) → flat_map (connect_first none p) ts ≡ []
flat_map-none p [] = refl
flat_map-none p (t ∷ ts) = flat_map-none p ts

module _ {H T : Type 0} where
  -- A change whose old and new protocols include one another tells no topology anything.
  pub on_protocol_change_same :
      (m : Manager) (r : Registrar H T) (p : String) (protocols old : List String)
      → Includes old protocols
      → Includes protocols old
      → on_protocol_change m r p protocols old ≡ []
  unfolding on_protocol_change
  on_protocol_change_same m r p protocols old h k =
      rw (except-Includes old protocols k, except-Includes protocols old h) refl

  added_effects :
      (r : Registrar H T) (c : Connection) (protocols : List String)
      → flat_map
          (λ protocol. flat_map (connect_first (some c) c.remote_peer) (get_topologies r protocol))
          protocols
        ≡ on_connect r c protocols
  unfolding on_connect
  added_effects r c [] = refl
  added_effects r c (p ∷ ps) =
      rw (flat_map-connect_first c c.remote_peer (get_topologies r p), added_effects r c ps) refl

  -- If the peer's first tracked connection is `c`, a change from no protocols to the given ones
  -- tells the topologies exactly what a connect event of `c` tells them with these protocols.
  pub on_protocol_change-on_connect :
      (m : Manager) (r : Registrar H T) (c : Connection) (protocols : List String)
      → head? (get_connections_of m c.remote_peer) ≡ some c
      → on_protocol_change m r c.remote_peer protocols [] ≡ on_connect r c protocols
  unfolding on_protocol_change
  on_protocol_change-on_connect m r c protocols h =
      rw (h, except-nil protocols) (added_effects r c protocols)

  no_effects :
      (r : Registrar H T) (p : String) (ps : List String)
      → flat_map (λ protocol. flat_map (connect_first none p) (get_topologies r protocol)) ps ≡ []
  no_effects r p [] = refl
  no_effects r p (q ∷ ps) = rw (flat_map-none p (get_topologies r q), no_effects r p ps) refl

  -- If the peer has no tracked connection, a change of its protocols announces no connection, and
  -- tells the topologies exactly what a disconnect tells them with the protocols that it has
  -- lost.
  pub on_protocol_change-on_disconnect :
      (m : Manager) (r : Registrar H T) (p : String) (protocols old : List String)
      → get_connections_of m p ≡ []
      → on_protocol_change m r p protocols old ≡ on_disconnect r p (except protocols old)
  unfolding on_protocol_change on_disconnect
  on_protocol_change-on_disconnect m r p protocols old h =
      rw (h, no_effects r p (except old protocols)) (append-nil _)
