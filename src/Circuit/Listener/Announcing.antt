-- ===== src/Circuit/Listener/Announcing.antt =====
-- The addresses that the listener announces.
use state_channels.Common.{◌≡◌, ap, ◌∙◌, Option, none, some, List, [], ◌∷◌, String, ite, str_dec}
use state_channels.Common.StringMap
use state_channels.Common.StringMap.{StringMap, HasDistinctKeys}
use state_channels.Errors.{ok}
use state_channels.Manager.{Connection}
use state_channels.Circuit.Listener.{ListeningAddrs, listen_over, on_disconnect}

module _ {M : Type 0} (relayed_addr : Connection → M) where
  -- What the listener is told of: a call of `listen` has opened a connection to a relay, or failed to; a peer has gone.
  pub data Told : Type 0 where
    opened : Connection → Told
    failed gone : String → Told

  abbrev pub tell : ListeningAddrs M → Told → ListeningAddrs M
  tell m (opened c) = (listen_over relayed_addr m (ok c)).0
  tell m (failed p) = m
  tell m (gone p) = (on_disconnect m p).0

  -- The addresses after a history, the latest first.
  abbrev pub after_history : List Told → ListeningAddrs M
  after_history [] = []
  after_history (t ∷ ts) = tell (after_history ts) t

  -- The address of a relay by the history alone: that of the latest connection to it, if it has not gone since.
  abbrev pub latest : String → List Told → Option M
  latest p [] = none
  latest p (opened c ∷ ts) = ite (str_dec c.remote_peer p) (some (relayed_addr c)) (latest p ts)
  latest p (failed q ∷ ts) = latest p ts
  latest p (gone q ∷ ts) = ite (str_dec q p) none (latest p ts)

  after_history-HasDistinctKeys : (ts : List Told) → HasDistinctKeys (after_history ts)
  unfolding on_disconnect
  after_history-HasDistinctKeys [] = tt
  after_history-HasDistinctKeys (opened c ∷ ts) =
      StringMap.set-HasDistinctKeys c.remote_peer _ _ (after_history-HasDistinctKeys ts)
  after_history-HasDistinctKeys (failed p ∷ ts) = after_history-HasDistinctKeys ts
  after_history-HasDistinctKeys (gone p ∷ ts) =
      StringMap.delete-HasDistinctKeys p _ (after_history-HasDistinctKeys ts)

  -- After any history, the listener has an address for a relay exactly if a connection to it was opened and the relay has
  -- not gone since, and it is that of the latest connection.
  pub get-after_history :
      (ts : List Told) (p : String) → StringMap.get p (after_history ts) ≡ latest p ts
  unfolding on_disconnect
  get-after_history [] p = StringMap.get_of_Absent {V = M} p [] tt
  get-after_history (opened c ∷ ts) p =
      StringMap.get-set c.remote_peer p (relayed_addr c) (after_history ts)
      ∙ ap (ite (str_dec c.remote_peer p) (some (relayed_addr c))) (get-after_history ts p)
  get-after_history (failed q ∷ ts) p = get-after_history ts p
  get-after_history (gone q ∷ ts) p =
      StringMap.get-delete q p (after_history ts) (after_history-HasDistinctKeys ts)
      ∙ ap (ite (str_dec q p) none) (get-after_history ts p)
