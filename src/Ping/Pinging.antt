-- ===== src/Ping/Pinging.antt =====
-- A ping that returns, and a ping of a node that has the service.
use state_channels.Common.{
  ◌≡◌, refl, Bool, true, false, Option, none, some, List, [], ◌∷◌, head?, arith,
}
use state_channels.Errors.{ok, bind-ok, throw_if-ok}
use state_channels.Ping.{Exchange, opened, closed, is_wrong, acknowledge, ping, handle_message}

module _ {D M : Type 0} (same : D → D → Bool) (minus : M → M → M) where
  -- If a ping of a connected peer over a stream receives what the peer's `handleMessage` writes of the data that was sent,
  -- and bytes equal themselves, the ping returns the time between its two readings of the clock, and closes its stream.
  pub ping-handle_message :
      (sent : D) (began ended : M)
      → same sent sent ≡ true
      → ping same minus sent (record {
        connected = ok tt;
        stream = ok tt;
        received = ok (handle_message (sent ∷ []));
        began = began;
        ended = ended;
      })
        ≡ (ok (minus ended began), opened ∷ closed ∷ [])
  unfolding ping acknowledge handle_message
  ping-handle_message sent began ended e = rw e refl

  is_wrong-false :
      (sent : D) (r : Option D)
      → is_wrong same sent r ≡ false
      → (d : D) × ((r ≡ some d) × (same sent d ≡ true))
  is_wrong-false sent none h = cc
  is_wrong-false sent (some d) h = (d, (refl, ground (arith, h)))

  -- If a ping takes the answer of the peer, the first chunk that came over the stream equals the data that was sent.
  pub acknowledge-ok :
      (sent : D) (x : Exchange D M) (m : M)
      → acknowledge same minus sent x ≡ ok m
      → (chunks : List D) × ((x.received ≡ ok chunks)
          × ((d : D) × ((head? chunks ≡ some d) × (same sent d ≡ true))))
  unfolding acknowledge
  acknowledge-ok sent x m h =
      let (chunks, (e, rest)) = bind-ok x.received _ m h in
      (chunks, (e, is_wrong-false sent (head? chunks) (throw_if-ok _ _ _ m rest).0))
