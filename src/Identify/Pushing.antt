-- ===== src/Identify/Pushing.antt =====
-- To whom a node pushes, and what a push does to the peer store of who receives it.
use state_channels.Common.{
  ◌≡◌, ◌≢◌, refl, sym, subst, Bool, true, false, Option, none, some, List, [], ◌∷◌, ◌++◌, String,
  str_dec, if◌then◌else◌, if_neg, if_both,
}
use state_channels.Errors.{Result, ok, err}
use state_channels.Identify.{
  Envelope, Peers, Effect, consume_record, set_protocols, legacy, consumed, opened, update,
  handle_push, Self, push_message, parse_all, set_parsed,
}

module _ {K B M : Type 0} (e : Peers K B M) where
  -- A list of effects that ends with setting the protocols of a peer.
  abbrev pub EndsWith : Effect B M → List (Effect B M) → Type 0
  EndsWith x es = (before : List (Effect B M)) × (es ≡ before ++ x ∷ [])

  consumed-EndsWith :
      (x : Effect B M) (v : Envelope B) (r : Result Bool) (otherwise : List (Effect B M))
      → EndsWith x otherwise
      → EndsWith x (consumed e v r (x ∷ []) otherwise)
  consumed-EndsWith x v (ok true) otherwise o = (consume_record v ∷ [], refl)
  consumed-EndsWith x v (ok false) otherwise o = o
  consumed-EndsWith x v (err c) otherwise o = o

  opened-EndsWith :
      (x : Effect B M) (expected : Envelope B → Bool) (r : Result (Envelope B))
      (otherwise : List (Effect B M))
      → EndsWith x otherwise
      → EndsWith x (opened e expected r (x ∷ []) otherwise)
  opened-EndsWith x expected (err c) otherwise o = o
  opened-EndsWith x expected (ok v) otherwise o =
      if_both (EndsWith x) (expected v)
        (consumed-EndsWith x v (e.consume_peer_record v) otherwise o) o

  update-EndsWith :
      (x : Effect B M) (expected : Envelope B → Bool) (r : Option B) (otherwise : List (Effect B M))
      → EndsWith x otherwise
      → EndsWith x (update e expected r (x ∷ []) otherwise)
  update-EndsWith x expected none otherwise o = o
  update-EndsWith x expected (some b) otherwise o =
      opened-EndsWith x expected (e.open_and_certify b) otherwise o

  -- A push that a node sends to another one ends with the other's setting the protocols of the sender to those that it has,
  -- whatever becomes of the peer record and of the addresses that it sends.
  pub handle_push-push_message :
      (own remote : String) (self : Self K B)
      → own ≢ remote
      → EndsWith
          (set_protocols remote self.protocols)
          (handle_push e own remote (some (push_message self)))
  unfolding handle_push push_message
  handle_push-push_message own remote self n =
      let m = push_message self in
      let x = set_protocols remote self.protocols in
      subst
        (λ b. EndsWith x (
          if b then [] else update e (λ v. true) m.signed_peer_record (x ∷ []) (legacy e remote m)))
        (sym (if_neg (str_dec own remote) n true false))
        (update-EndsWith x (λ v. true) m.signed_peer_record (legacy e remote m)
          (set_parsed e remote (parse_all e m.listen_addrs), refl))
