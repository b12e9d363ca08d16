-- ===== src/Signal/Listening.antt =====
-- The listener and the disconnection of peers.
use state_channels.Common.{◌≡◌, refl, ap, ◌∙◌, false, Option, List, [], ◌∷◌, String, arith}
use state_channels.Common.Texts.{has_text}
use state_channels.Signal.{Listener, on_disconnect, get_addrs}

abbrev pub on_disconnects : {M : Type 0} → List String → Listener M → Listener M
on_disconnects [] l = l
on_disconnects (p ∷ ps) l = on_disconnects ps (on_disconnect p l)

module _ {M : Type 0} where
  -- Nothing waits any more.
  deaf_disconnects :
      (ps : List String) (a : Option M)
      → on_disconnects ps (record { listening_addr = a; waits_for = [] })
        ≡ record { listening_addr = a; waits_for = [] }
  unfolding on_disconnect
  deaf_disconnects [] a = refl
  deaf_disconnects (p ∷ ps) a = deaf_disconnects ps a

  other_disconnect :
      (p : String) (l : Listener M)
      → has_text p l.waits_for ≡ false
      → on_disconnect p l ≡ record { listening_addr = l.listening_addr; waits_for = [] }
  unfolding on_disconnect
  other_disconnect p l h = ground (arith, h)

  -- Once a peer that the listener does not wait for has disconnected, it announces the address that it listens on
  -- whichever peers disconnect then, its relay among them.
  pub get_addrs-on_disconnects :
      (p : String) (ps : List String) (l : Listener M)
      → has_text p l.waits_for ≡ false
      → get_addrs (on_disconnects ps (on_disconnect p l)) ≡ get_addrs l
  unfolding get_addrs
  get_addrs-on_disconnects p ps l h =
      ap (λ x. get_addrs (on_disconnects ps x)) (other_disconnect p l h)
      ∙ ap get_addrs (deaf_disconnects ps l.listening_addr)
