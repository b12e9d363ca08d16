-- ===== src/Circuit/AutoRelay/Listening.antt =====
-- How many relays a node listens on, whatever the handlers are told of, and which they have tried.
use state_channels.Common.{
  ◌≤◌, suc, inl, inr, Bool, true, false, not, Bool-cases, if_both, Option, none, some, List, [],
  ◌∷◌, ◌++◌, String, ite, str_dec, length, length-append, any, arith,
}
use state_channels.Common.Texts.{has_text}
use state_channels.Circuit.Transport.{relay_codec}
use state_channels.Circuit.AutoRelay.{
  AutoRelay, KnownPeer, Provider, add_text, delete_text, is_full, end_attempt, add_listen_relay,
  use_connection, listen_connected, try_to_listen_on_relay, listen_dialed, listen_found,
  listen_on_available_hop_relays, remove_listen_relay, on_peer_disconnected, handle_protocols,
}

-- At most `maxListeners` relays.
abbrev pub IsBounded : AutoRelay → Type 0
IsBounded s = length s.listen_relays ≤ s.max_listeners

length-delete_text : (id : String) (ids : List String) → length (delete_text id ids) ≤ length ids
length-delete_text id [] = omega arith
length-delete_text id (i ∷ ids) = ground (arith, length-delete_text id ids)

length-add_text : (id : String) (ids : List String) → length (add_text id ids) ≤ suc (length ids)
length-add_text id ids =
    if_both (λ r. length r ≤ suc (length ids)) (has_text id ids) (omega arith)
      (omega (arith, length-append ids (id ∷ [])))

end_attempt-IsBounded :
    (s : AutoRelay) (id : String) (o : Option (List Bool))
    → suc (length s.listen_relays) ≤ s.max_listeners
    → IsBounded (end_attempt s id o)
end_attempt-IsBounded s id none h = ground (arith, length-delete_text id s.listen_relays, h)
end_attempt-IsBounded s id (some rs) h =
    if_both IsBounded (any (λ r. r) rs) (omega (arith, length-add_text id s.listen_relays, h))
      (omega (arith, h))

module _ (listen : String → Option (List Bool)) where
  add_listen_relay-IsBounded :
      (s : AutoRelay) (id : String) → IsBounded s → IsBounded (add_listen_relay listen s id)
  unfolding add_listen_relay
  add_listen_relay-IsBounded s id b = elim (Bool-cases (is_full s)) [
    | inl e ↦ ground (arith, e, b)
    | inr e ↦ ground (arith, e, end_attempt-IsBounded s id (listen id))
  ]

  listen_connected-IsBounded :
      (ignore : List String) (ps : List KnownPeer) (s : AutoRelay) (dial : List String)
      → IsBounded s
      → IsBounded ((listen_connected listen ignore ps s dial).0)
  unfolding listen_connected
  listen_connected-IsBounded ignore [] s dial b = b
  listen_connected-IsBounded ignore (p ∷ ps) s dial b =
      let s' = add_listen_relay listen s p.id in
      let b' = add_listen_relay-IsBounded s p.id b in
      let skipped = listen_connected-IsBounded ignore ps s dial b in
      let Good = λ (r : AutoRelay × Bool × List String). IsBounded (r.0) in
      if_both Good (has_text p.id s.listen_relays) skipped (
        if_both Good (has_text p.id ignore) skipped (
          if_both Good (not p.supports_hop) skipped (
            if_both Good (not p.connected)
              (listen_connected-IsBounded ignore ps s (dial ++ p.id ∷ []) b)
              (if_both Good (is_full s') b' (listen_connected-IsBounded ignore ps s' dial b')))))

  use_connection-IsBounded :
      (s : AutoRelay) (id : String) (relayed : Option Bool) (supports_hop : Bool)
      → IsBounded s
      → IsBounded (use_connection listen s id relayed supports_hop)
  use_connection-IsBounded s id none supports_hop b = b
  use_connection-IsBounded s id (some true) supports_hop b = b
  use_connection-IsBounded s id (some false) supports_hop b =
      if_both IsBounded supports_hop (add_listen_relay-IsBounded s id b) b

  module _ (opens : String → Bool) where
    try_to_listen_on_relay-IsBounded :
        (s : AutoRelay) (id : String)
        → IsBounded s
        → IsBounded (try_to_listen_on_relay listen opens s id)
    unfolding try_to_listen_on_relay
    try_to_listen_on_relay-IsBounded s id b =
        if_both IsBounded (opens id) (add_listen_relay-IsBounded s id b) b

    listen_dialed-IsBounded :
        (ids : List String) (s : AutoRelay)
        → IsBounded s
        → IsBounded ((listen_dialed listen opens ids s).0)
    unfolding listen_dialed
    listen_dialed-IsBounded [] s b = b
    listen_dialed-IsBounded (id ∷ ids) s b =
        let b' = try_to_listen_on_relay-IsBounded s id b in
        if_both (λ (r : AutoRelay × Bool). IsBounded (r.0))
          (is_full (try_to_listen_on_relay listen opens s id)) b' (listen_dialed-IsBounded ids _ b')

    listen_found-IsBounded :
        (own : String) (ps : List Provider) (s : AutoRelay)
        → IsBounded s
        → IsBounded (listen_found listen opens own ps s)
    unfolding listen_found
    listen_found-IsBounded own [] s b = b
    listen_found-IsBounded own (p ∷ ps) s b =
        let b' = try_to_listen_on_relay-IsBounded s p.id b in
        let skipped = listen_found-IsBounded own ps s b in
        if_both IsBounded (not p.has_multiaddrs) skipped (
          if_both IsBounded (ite (str_dec p.id own) true false) skipped (
            if_both IsBounded (is_full (try_to_listen_on_relay listen opens s p.id)) b'
              (listen_found-IsBounded own ps _ b')))

    module _ (own : String) (peers : List KnownPeer) (providers : List Provider) where
      available-IsBounded :
          (s : AutoRelay) (ignore : List String)
          → IsBounded s
          → IsBounded (listen_on_available_hop_relays listen opens own peers providers s ignore)
      unfolding listen_on_available_hop_relays
      available-IsBounded s ignore b =
          let r = listen_connected listen ignore peers s [] in
          let b₁ = listen_connected-IsBounded ignore peers s [] b in
          let b₂ = listen_dialed-IsBounded r.2 (r.0) b₁ in
          if_both IsBounded (is_full s) b (
            if_both IsBounded (r.1) b₁ (
              if_both IsBounded ((listen_dialed listen opens r.2 (r.0)).1) b₂
                (listen_found-IsBounded own providers _ b₂)))

      remove_listen_relay-IsBounded :
          (s : AutoRelay) (id : String)
          → IsBounded s
          → IsBounded (remove_listen_relay listen opens own peers providers s id)
      unfolding remove_listen_relay
      remove_listen_relay-IsBounded s id b =
          if_both IsBounded (has_text id s.listen_relays)
            (available-IsBounded (record s { listen_relays = delete_text id s.listen_relays })
              (id ∷ []) (omega (arith, length-delete_text id s.listen_relays, b)))
            b

      handle_protocols-IsBounded :
          (s : AutoRelay) (id : String) (protocols : List String) (relayed : Option Bool)
          (supports_hop : Bool)
          → IsBounded s
          → IsBounded (
              handle_protocols listen opens own peers providers s id protocols relayed supports_hop)
      unfolding handle_protocols
      handle_protocols-IsBounded s id protocols relayed supports_hop b =
          if_both IsBounded (not (has_text relay_codec protocols))
            (if_both IsBounded (has_text id s.listen_relays) (remove_listen_relay-IsBounded s id b)
              b)
            (if_both IsBounded (has_text id s.listen_relays) b
              (use_connection-IsBounded s id relayed supports_hop b))

      on_peer_disconnected-IsBounded :
          (s : AutoRelay) (id : String)
          → IsBounded s
          → IsBounded (on_peer_disconnected listen opens own peers providers s id)
      unfolding on_peer_disconnected
      on_peer_disconnected-IsBounded s id b =
          if_both IsBounded (not (has_text id s.listen_relays)) b
            (remove_listen_relay-IsBounded s id b)

-- What holds outside the node while it handles an event: how listening over a relay ends, which peers can be opened, what
-- the peer store knows and which providers content routing finds.
pub record World : Type 0 where
  pub listen : String → Option (List Bool)
  pub opens : String → Bool
  pub own : String
  pub peers : List KnownPeer
  pub providers : List Provider

-- An event that is handled to its end before the next one.
pub data Event : Type 0 where
  disconnected : World → String → Event
  protocols_known : World → String → List String → Option Bool → Bool → Event

abbrev pub on_event : AutoRelay → Event → AutoRelay
on_event s (disconnected w id) =
    on_peer_disconnected w.listen w.opens w.own w.peers w.providers s id
on_event s (protocols_known w id ps relayed supports_hop) =
    handle_protocols w.listen w.opens w.own w.peers w.providers s id ps relayed supports_hop

abbrev pub on_events : AutoRelay → List Event → AutoRelay
on_events s [] = s
on_events s (e ∷ es) = on_events (on_event s e) es

on_event-IsBounded : (s : AutoRelay) (e : Event) → IsBounded s → IsBounded (on_event s e)
on_event-IsBounded s (disconnected w id) b =
    on_peer_disconnected-IsBounded w.listen w.opens w.own w.peers w.providers s id b
on_event-IsBounded s (protocols_known w id ps relayed supports_hop) b =
    handle_protocols-IsBounded w.listen w.opens w.own w.peers w.providers s id ps relayed
      supports_hop b

-- If each event is handled to its end before the next, a node that listens on at most `maxListeners` relays does so after
-- any sequence of disconnections and changes of protocols.
pub on_events-IsBounded :
    (es : List Event) (s : AutoRelay) → IsBounded s → IsBounded (on_events s es)
on_events-IsBounded [] s b = b
on_events-IsBounded (e ∷ es) s b = on_events-IsBounded es (on_event s e) (on_event-IsBounded s e b)
