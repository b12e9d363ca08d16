-- ===== src/Registrar/Handlers.antt =====
-- Handlers that are registered, found and removed.
use state_channels.Common.{
  ◌≡◌, ◌≢◌, refl, inl, inr, Option-cases, none, List, [], ◌∷◌, String, if◌then◌else◌, arith,
}
use state_channels.Common.Texts.{has_text}
use state_channels.Common.StringMap
use state_channels.Common.StringMap.{StringMap, HasDistinctKeys}
use state_channels.Errors.{
  Result, ok, err, err_no_handler_for_protocol, err_protocol_handler_already_registered,
}
use state_channels.Registrar.{
  Registrar, StreamHandlerRecord, StreamHandlerOptions, Effect, add_protocols, get_handler, handle,
  handler_record, unhandle, delete_all,
}

module _ {H : Type 0} where
  delete_all-get :
      (ps : List String) (q : String) (m : StringMap (StreamHandlerRecord H))
      → HasDistinctKeys m
      → StringMap.get q (delete_all ps m) ≡ (if has_text q ps then none else StringMap.get q m)
  delete_all-get [] q m d = refl
  delete_all-get (p ∷ ps) q m d = ground (
    arith,
    delete_all-get ps q (StringMap.delete p m) (StringMap.delete-HasDistinctKeys p m d),
    StringMap.get-delete p q m d,
  )

module _ {H T : Type 0} where
  -- What a call of `handle` leads to: the protocol had a handler, and the call fails; or it had none, and from then on it
  -- has this one, while every other protocol has the handler that it had before.
  abbrev pub Handles :
      Registrar H T
      → String
      → H
      → StreamHandlerOptions
      → Result (Registrar H T × List (Effect T))
      → Type 0
  Handles r p h o (err e) =
      (e ≡ err_protocol_handler_already_registered)
      × (¬ (get_handler r p ≡ err err_no_handler_for_protocol))
  Handles r p h o (ok (r', es)) =
      (get_handler r p ≡ err err_no_handler_for_protocol)
      × (es ≡ add_protocols (p ∷ []) ∷ [])
      × (get_handler r' p ≡ ok (handler_record h o))
      × ((q : String) → p ≢ q → get_handler r' q ≡ get_handler r q)

  -- Every call of `handle` either fails, with the code for a protocol that has a handler, and
  -- then `getHandler` finds one; or there was none, and from then on `getHandler` returns this
  -- one with its limits, every other protocol has what it had, and the protocol is announced.
  pub handle-Handles :
      (r : Registrar H T) (p : String) (h : H) (o : StreamHandlerOptions)
      → Handles r p h o (handle r p h o)
  unfolding handle get_handler StringMap.has
  handle-Handles r p h o =
      let self = StringMap.get-set_self p (handler_record h o) r.handlers in
      let other = λ (q : String). StringMap.get-set p q (handler_record h o) r.handlers in
      elim (Option-cases (StringMap.get p r.handlers)) [
        | inl e ↦ rw e (rw e refl, refl, rw self refl, λ q n. ground (arith, other q, n))
        | inr (x, e) ↦ rw e (refl, λ f. ground (arith, e, f))
      ]

  -- If the map of handlers has distinct keys, after `unhandle` `getHandler` fails for the given
  -- protocols, and for every other protocol it returns what it returned before.
  pub unhandle-get_handler :
      (r : Registrar H T) (ps : List String) (q : String)
      → HasDistinctKeys r.handlers
      → get_handler (unhandle r ps).0 q
        ≡ (if has_text q ps then err err_no_handler_for_protocol else get_handler r q)
  unfolding unhandle get_handler
  unhandle-get_handler r ps q d = ground (arith, delete_all-get ps q r.handlers d)
