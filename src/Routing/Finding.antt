-- ===== src/Routing/Finding.antt =====
-- The peers and the values that a query yields.
use state_channels.Common.{
  ℕ, zero, suc, ◌+◌, ◌<◌, ◌≡◌, refl, ap, ◌∙◌, true, false, Option, List, [], ◌∷◌, String,
  if◌then◌else◌, take, ◌==◌, arith,
}
use state_channels.Common.Texts.{has_text, OccursOnce, unique, unique-OccursOnce, has_text-unique}
use state_channels.Errors.{ok, throw_if, err_not_found}
use state_channels.Routing.{
  PeerInfo, DhtEvent, value, other, unique_peers, get_values, get_many, queried, is_none_got,
}

module _ {M : Type 0} where
  abbrev pub ids : List (PeerInfo M) → List String
  ids [] = []
  ids (p ∷ ps) = p.id ∷ ids ps

  ids-unique_peers :
      (seen : List String) (ps : List (PeerInfo M))
      → ids (unique_peers seen ps) ≡ unique seen (ids ps)
  unfolding unique_peers unique
  ids-unique_peers seen [] = refl
  ids-unique_peers seen (p ∷ ps) =
      ground (arith, ids-unique_peers seen ps, ids-unique_peers (p.id ∷ seen) ps)

  -- The peers that `uniquePeers` yields of a source are those of the source, each once.
  pub unique_peers_lem :
      (ps : List (PeerInfo M))
      → OccursOnce (ids (unique_peers [] ps))
        × ((id : String) → has_text id (ids (unique_peers [] ps)) ≡ has_text id (ids ps))
  unique_peers_lem ps =
      rw (ids-unique_peers [] ps)
        (unique-OccursOnce [] (ids ps), λ id. ground (arith, has_text-unique id [] (ids ps)))

module _ {V : Type 0} where
  -- All values, in the order in which they arrive.
  abbrev pub values : List (DhtEvent V) → List (String × V)
  values [] = []
  values (value from v ∷ es) = (from, v) ∷ values es
  values (other ∷ es) = values es

  get_values-take :
      (n k got : ℕ) (es : List (DhtEvent V))
      → n ≡ suc k + got
      → get_values n got es ≡ take (suc k) (values es)
  unfolding get_values
  get_values-take n k got [] e = refl
  get_values-take n k got (other ∷ es) e = get_values-take n k got es e
  get_values-take n zero got (value from v ∷ es) e = ground (arith, e)
  get_values-take n (suc k) got (value from v ∷ es) e =
      ground (arith, e, get_values-take n k (suc got) es (omega (arith, e)))

  get_many_ends : (n : ℕ) (es : List (String × V)) → is_none_got (take (suc n) es) ≡ is_none_got es
  get_many_ends n [] = refl
  get_many_ends n (v ∷ es) = refl

  -- If the routing is started and more than 0 values are asked for, `getMany` yields the first of the values that arrive, as
  -- many as are asked for or all if they are fewer, and fails exactly if no value arrives.
  pub get_many-take :
      (n : ℕ) (dht : Option (List (DhtEvent V)))
      → 0 < n
      → get_many true n dht ≡ (
        take n (values (queried dht)),
        throw_if (is_none_got (values (queried dht))) err_not_found,
      )
  unfolding get_many
  get_many-take zero dht h = absurd (omega (arith, h))
  get_many-take (suc n) dht h =
      let e = get_values-take (suc n) n 0 (queried dht) (omega arith) in
      let none_of : (suc n == 0) ≡ false = ground arith in
      ap
        (λ b. if b then ([], ok tt) else (
          get_values (suc n) 0 (queried dht),
          throw_if (is_none_got (get_values (suc n) 0 (queried dht))) err_not_found,
        ))
        none_of
      ∙ ap (λ vs. (vs, throw_if (is_none_got vs) err_not_found)) e
      ∙ ap (λ b. (take (suc n) (values (queried dht)), throw_if b err_not_found))
          (get_many_ends n (values (queried dht)))
