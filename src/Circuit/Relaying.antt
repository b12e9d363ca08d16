-- ===== src/Circuit/Relaying.antt =====
-- The three parties of a relayed connection together: the requester, the relay and the destination.
use state_channels.Common.{
  ◌≡◌, refl, sym, ap, subst, ◌∙◌, ◌↔◌, Bool, true, false, ◌⊎◌, inl, inr, Bool-cases, Option, none,
  some, [], if◌then◌else◌, arith,
}
use state_channels.Errors.{Result, ok, err, ok_ne_err, err_hop_request_failed}
use state_channels.Manager.{Manager, Connection, get_connections_of}
use state_channels.Circuit.{CircuitRelay, Peer, first_message, is_hop}
use state_channels.Circuit.Hop.{
  addrs_parse, validate_addrs, stop_request, stop_with, first_connection, relay_over, relay_to,
  handle_hop, handle_stop, hop_with,
}

module _ {B : Type 0} (parses : B → Bool) where
  -- The STOP request over a connection, as the destination answers it. `answers` says whether the destination at the other
  -- end of a connection reads the request: if not, the stream ends without a response.
  abbrev pub stops_at : (Connection → Bool) → CircuitRelay B → Connection → Bool
  stops_at answers request c =
      (stop_with (stop_request request) (
        if answers c
        then first_message (handle_stop parses (stop_request request)).effects
        else none)).value

  -- A request as the requester ends up with it.
  abbrev pub requested : (Connection → Bool) → Manager → CircuitRelay B → Result (Unit {0})
  requested answers m request =
      (hop_with request
        (first_message (handle_hop parses (stops_at answers request) m request).effects)).value

  -- The relay is connected to the destination, which answers; and every address of the request parses.
  abbrev pub IsRelayable : (Connection → Bool) → Manager → CircuitRelay B → Type 0
  IsRelayable answers m request =
      (addrs_parse parses request.dst_peer ≡ true)
      × (addrs_parse parses request.src_peer ≡ true)
      × ((p : Peer B) × ((request.dst_peer ≡ some p)
            × ((c : Connection) × ((first_connection (get_connections_of m p.id) ≡ some c)
                  × (answers c ≡ true)))))

  pub stops_at-answers :
      (answers : Connection → Bool) (request : CircuitRelay B) (c : Connection)
      → addrs_parse parses request.dst_peer ≡ true
      → addrs_parse parses request.src_peer ≡ true
      → stops_at answers request c ≡ answers c
  unfolding stop_with handle_stop validate_addrs
  stops_at-answers answers request c d s = elim (Bool-cases (answers c)) [
    | inl e ↦ ground (arith, e, d, s)
    | inr e ↦ ground (arith, e, d, s)
  ]

  relay_over-ok :
      (answers : Connection → Bool) (m : Manager) (request : CircuitRelay B) (o : Option Connection)
      → addrs_parse parses request.dst_peer ≡ true
      → addrs_parse parses request.src_peer ≡ true
      → (hop_with request (first_message (relay_over (stops_at answers request) o).effects)).value
        ≡ ok tt
      → (c : Connection) × ((o ≡ some c) × (answers c ≡ true))
  unfolding hop_with
  relay_over-ok answers m request none d s h = ground (arith, h)
  relay_over-ok answers m request (some c) d s h = elim (Bool-cases (answers c)) [
    | inl e ↦ (c, (refl, e))
    | inr e ↦ ground (arith, h, stops_at-answers answers request c d s ∙ e)
  ]

  relay_over-answered :
      (answers : Connection → Bool) (request : CircuitRelay B) (c : Connection)
      → addrs_parse parses request.dst_peer ≡ true
      → addrs_parse parses request.src_peer ≡ true
      → answers c ≡ true
      → (hop_with request
          (first_message (relay_over (stops_at answers request) (some c)).effects)).value
        ≡ ok tt
  unfolding hop_with
  relay_over-answered answers request c d s e =
      ground (arith, stops_at-answers answers request c d s ∙ e)

  handle_hop-valid :
      (stops : Connection → Bool) (m : Manager) (request : CircuitRelay B)
      → addrs_parse parses request.dst_peer ≡ true
      → addrs_parse parses request.src_peer ≡ true
      → handle_hop parses stops m request ≡ relay_to stops m request.dst_peer
  unfolding handle_hop validate_addrs
  handle_hop-valid stops m request d s = ground (arith, d, s)

  invalid_dst_err :
      (stops : Connection → Bool) (m : Manager) (request : CircuitRelay B)
      → addrs_parse parses request.dst_peer ≡ false
      → (hop_with request (first_message (handle_hop parses stops m request).effects)).value
        ≡ err err_hop_request_failed
  unfolding handle_hop validate_addrs hop_with
  invalid_dst_err stops m request d = elim (Bool-cases (is_hop request.type)) [
    | inl e ↦ ground (arith, d, e)
    | inr e ↦ ground (arith, d, e)
  ]

  invalid_src_err :
      (stops : Connection → Bool) (m : Manager) (request : CircuitRelay B)
      → addrs_parse parses request.dst_peer ≡ true
      → addrs_parse parses request.src_peer ≡ false
      → (hop_with request (first_message (handle_hop parses stops m request).effects)).value
        ≡ err err_hop_request_failed
  unfolding handle_hop validate_addrs hop_with
  invalid_src_err stops m request d s = elim (Bool-cases (is_hop request.type)) [
    | inl e ↦ ground (arith, d, s, e)
    | inr e ↦ ground (arith, d, s, e)
  ]

  relay_to-ok :
      (answers : Connection → Bool) (m : Manager) (request : CircuitRelay B) (o : Option (Peer B))
      → request.dst_peer ≡ o
      → addrs_parse parses request.dst_peer ≡ true
      → addrs_parse parses request.src_peer ≡ true
      → (hop_with request (first_message (relay_to (stops_at answers request) m o).effects)).value
        ≡ ok tt
      → IsRelayable answers m request
  unfolding hop_with
  relay_to-ok answers m request none q d s h = ground (arith, h)
  relay_to-ok answers m request (some p) q d s h =
      let (c, (e, f)) =
        relay_over-ok answers m request (first_connection (get_connections_of m p.id)) d s h in
      (d, s, (p, (q, (c, (e, f)))))

  -- The request of a node for a relayed connection succeeds exactly when every address in it parses, the relay is connected
  -- to the destination that it names, and the destination reads the STOP request over the first of these connections.
  pub requested-IsRelayable :
      (answers : Connection → Bool) (m : Manager) (request : CircuitRelay B)
      → requested answers m request ≡ ok tt ↔ IsRelayable answers m request
  requested-IsRelayable answers m request = (
    λ h. elim (Bool-cases (addrs_parse parses request.dst_peer)) [
      | inr d ↦ absurd (ok_ne_err (sym h ∙ invalid_dst_err (stops_at answers request) m request d))
      | inl d ↦ elim (Bool-cases (addrs_parse parses request.src_peer)) [
        | inr s ↦
            absurd (ok_ne_err (sym h ∙ invalid_src_err (stops_at answers request) m request d s))
        | inl s ↦ relay_to-ok answers m request request.dst_peer refl d s (
            subst (λ o. (hop_with request (first_message o.effects)).value ≡ ok tt)
              (handle_hop-valid (stops_at answers request) m request d s) h)
      ]
    ],
    λ (d, s, (p, (q, (c, (e, f))))).
        ap (λ o. (hop_with request (first_message o.effects)).value)
          (handle_hop-valid (stops_at answers request) m request d s
            ∙ ap (relay_to (stops_at answers request) m) q
            ∙ ap (relay_over (stops_at answers request)) e)
        ∙ relay_over-answered answers request c d s f,
  )

  relay_over-silent :
      (stops : Connection → Bool) (c : Connection)
      → stops c ≡ false
      → (relay_over {B = B} stops (some c)).effects ≡ []
  relay_over-silent stops c f = ground (arith, f)

  -- A relay that names no destination, or whose STOP request over the first connection of the destination is not answered,
  -- leaves the stream of the requester as it was: it writes no status, and does not close it.
  pub handle_hop-silent :
      (stops : Connection → Bool) (m : Manager) (request : CircuitRelay B)
      → addrs_parse parses request.dst_peer ≡ true
      → addrs_parse parses request.src_peer ≡ true
      → (request.dst_peer ≡ none)
        ⊎ ((p : Peer B) × ((request.dst_peer ≡ some p)
              × ((c : Connection) × ((first_connection (get_connections_of m p.id) ≡ some c)
                    × (stops c ≡ false)))))
      → (handle_hop parses stops m request).effects ≡ []
  handle_hop-silent stops m request d s (inl q) =
      ap (λ o. o.effects) (handle_hop-valid stops m request d s ∙ ap (relay_to stops m) q)
  handle_hop-silent stops m request d s (inr (p, (q, (c, (e, f))))) =
      ap (λ o. o.effects)
        (handle_hop-valid stops m request d s ∙ ap (relay_to stops m) q ∙ ap (relay_over stops) e)
      ∙ relay_over-silent stops c f
