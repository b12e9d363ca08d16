-- ===== src/TransportManager/Dialing.antt =====
-- Which transport dials an address, and what `add` and `remove` change about it.
use state_channels.Common.{
  ◌≡◌, refl, sym, ap, subst, eq_of_some, ◌∙◌, ◌↔◌, inl, inr, Bool-cases, Option-cases, Option, none,
  some, List, [], ◌∷◌, ◌++◌, String, if◌then◌else◌, arith,
}
use state_channels.Common.StringMap
use state_channels.Common.StringMap.{StringMap, HasDistinctKeys}
use state_channels.Errors.{Result, ok, err}
use state_channels.TransportManager.{
  TransportManager, Transport, is_empty, first_transport, transport_for_multiaddr, add, remove,
}
use state_channels.TransportManager.Listening.{AnySupports}

module _ {M C : Type 0} where
  first_transport-append :
      (ts us : List (Transport M C)) (ma : M)
      → first_transport (ts ++ us) ma
        ≡ elim (first_transport ts ma) [ none ↦ first_transport us ma | some t ↦ some t ]
  unfolding first_transport
  first_transport-append [] us ma = refl
  first_transport-append (t ∷ ts) us ma = ground (arith, first_transport-append ts us ma)

  values-set :
      (k : String) (v : Transport M C) (m : StringMap (Transport M C))
      → StringMap.get k m ≡ none
      → StringMap.values (StringMap.set k v m) ≡ StringMap.values m ++ v ∷ []
  unfolding StringMap.get StringMap.set
  values-set k v [] h = refl
  values-set k v ((j, w) ∷ m) h = ground (arith, values-set k v m)

  abbrev transports_of : Result (TransportManager M C) → Option (StringMap (Transport M C))
  transports_of (ok m) = some m.transports
  transports_of (err _) = none

  -- What `add` has checked when it returns.
  add-ok :
      (m m' : TransportManager M C) (t : Transport M C)
      → add m t ≡ ok m'
      → (tag : String) × (t.tag ≡ some tag)
        × ((StringMap.get tag m.transports ≡ none)
            × (m'.transports ≡ StringMap.set tag t m.transports))
  unfolding add StringMap.has
  add-ok m m' t h = elim (Option-cases t.tag) [
    | inl e ↦ ground (arith, e, h)
    | inr (tag, e) ↦ elim (Option-cases (StringMap.get tag m.transports)) [
      | inl f ↦ (tag, e, (f, eq_of_some (ground (arith, e, f, ap transports_of h))))
      | inr (u, f) ↦ ground (arith, e, f, h)
    ]
  ]

  -- After a transport is added, an address that had a transport has the same one, and an address
  -- that had none has the new one if that supports it.
  pub transport_for_multiaddr-add :
      (m m' : TransportManager M C) (t : Transport M C) (ma : M)
      → add m t ≡ ok m'
      → transport_for_multiaddr m' ma ≡ elim (transport_for_multiaddr m ma) [
        | none ↦ if is_empty (t.filter (ma ∷ [])) then none else some t
        | some u ↦ some u
      ]
  unfolding transport_for_multiaddr first_transport
  transport_for_multiaddr-add m m' t ma h =
      let (tag, g, (f, e)) = add-ok m m' t h in
      ground (
        arith,
        ap (λ ts. first_transport (StringMap.values ts) ma) e,
        ap (λ ts. first_transport ts ma) (values-set tag t m.transports f),
        first_transport-append (StringMap.values m.transports) (t ∷ []) ma,
      )

  first_transport-none :
      (ts : StringMap (Transport M C)) (ma : M)
      → (first_transport (StringMap.values ts) ma ≡ none) ↔ (¬ AnySupports (ma ∷ []) ts)
  unfolding first_transport
  first_transport-none [] ma = (λ _ x. x, λ _. refl)
  first_transport-none ((k, t) ∷ ts) ma = elim (Bool-cases (is_empty (t.filter (ma ∷ [])))) [
    | inl e ↦ ground (arith, e, first_transport-none ts ma)
    | inr e ↦ ground (arith, e)
  ]

  -- A multiaddr has no transport exactly if no transport supports it.
  pub transport_for_multiaddr-none :
      (m : TransportManager M C) (ma : M)
      → (transport_for_multiaddr m ma ≡ none) ↔ (¬ AnySupports (ma ∷ []) m.transports)
  unfolding transport_for_multiaddr
  transport_for_multiaddr-none m = first_transport-none m.transports

  -- If a transport with the tag `key` is added, removing `key` gives the transports back that
  -- there were before, in their order.
  pub remove-add :
      (m m' : TransportManager M C) (t : Transport M C) (key : String)
      → t.tag ≡ some key
      → add m t ≡ ok m'
      → (remove m' key).0.transports ≡ m.transports
  unfolding remove
  remove-add m m' t key g h =
      let (tag, k, (f, e)) = add-ok m m' t h in
      let same : tag ≡ key = eq_of_some (sym k ∙ g) in
      ap (StringMap.delete key) e
      ∙ subst (λ j. StringMap.delete j (StringMap.set tag t m.transports) ≡ m.transports) same
          (StringMap.delete-set tag t m.transports f)
