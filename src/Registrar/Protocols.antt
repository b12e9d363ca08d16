-- ===== src/Registrar/Protocols.antt =====
-- The protocols that the registrar announces.
use state_channels.Common.{◌≡◌, refl, ◌∙◌, Bool, false, ◌||◌, List, [], ◌∷◌, ◌++◌, String, arith}
use state_channels.Common.StringMap
use state_channels.Common.StringMap.{StringMap}
use state_channels.Common.Texts.{
  has_text, unique, OccursOnce, has_text-append, has_text-unique, unique-OccursOnce,
}
use state_channels.Common.Sort.{insert, sort, IsSorted, IsComparison, sort-IsSorted}
use state_channels.Registrar.{Registrar, get_protocols}

module _ (after : String → String → Bool) where
  has_text-insert :
      (q p : String) (ps : List String) → has_text q (insert after p ps) ≡ has_text q (p ∷ ps)
  unfolding insert
  has_text-insert q p [] = refl
  has_text-insert q p (r ∷ ps) = ground (arith, has_text-insert q p ps)

  has_text-sort : (q : String) (ps : List String) → has_text q (sort after ps) ≡ has_text q ps
  unfolding sort
  has_text-sort q [] = refl
  has_text-sort q (p ∷ ps) = ground (arith, has_text-insert q p (sort after ps), has_text-sort q ps)

  insert-OccursOnce :
      (p : String) (ps : List String)
      → has_text p ps ≡ false
      → OccursOnce ps
      → OccursOnce (insert after p ps)
  unfolding insert
  insert-OccursOnce p [] h o = (refl, tt)
  insert-OccursOnce p (r ∷ ps) h o = ground (arith, has_text-insert r p ps, insert-OccursOnce p ps)

  sort-OccursOnce : (ps : List String) → OccursOnce ps → OccursOnce (sort after ps)
  unfolding sort
  sort-OccursOnce [] o = tt
  sort-OccursOnce (p ∷ ps) o =
      insert-OccursOnce p (sort after ps) (has_text-sort p ps ∙ o.0) (sort-OccursOnce ps o.1)

has_text-keys :
    {V : Type 0} (q : String) (m : StringMap V) → has_text q (StringMap.keys m) ≡ StringMap.has q m
unfolding StringMap.has StringMap.get
has_text-keys q [] = refl
has_text-keys q ((k, v) ∷ m) = ground (arith, has_text-keys q m)

module _ {H T : Type 0} (after : String → String → Bool) where
  -- For a consistent order of texts, `getProtocols` lists exactly the protocols that have a
  -- topology or a handler, each once, and sorted.
  pub get_protocols_lem :
      (r : Registrar H T) (q : String)
      → IsComparison after
      → (has_text q (get_protocols after r)
          ≡ StringMap.has q r.topologies || StringMap.has q r.handlers)
        × OccursOnce (get_protocols after r)
        × IsSorted after (get_protocols after r)
  unfolding get_protocols
  get_protocols_lem r q c =
      let ps = StringMap.keys r.topologies ++ StringMap.keys r.handlers in
      (
        ground (
          arith,
          has_text-sort after q (unique [] ps),
          has_text-unique q [] ps,
          has_text-append q (StringMap.keys r.topologies) (StringMap.keys r.handlers),
          has_text-keys q r.topologies,
          has_text-keys q r.handlers,
        ),
        sort-OccursOnce after (unique [] ps) (unique-OccursOnce [] ps),
        sort-IsSorted after c (unique [] ps),
      )
