-- ===== src/NatManager/Mapping.antt =====
-- What a manager announces, and what it does when it is started again.
use state_channels.Common.{
  ◌≡◌, refl, Bool, true, false, Option, none, some, List, [], ◌∷◌, All, arith, Bool-cases, inl, inr,
  String, ◌∙◌, All-append,
}
use state_channels.NatManager.{
  PortMapping, when_mapped, NatManager, Gateway, Listened, Effect, Ended, map_port,
  add_observed_addr, finished, failed, get_client, map_public, map_address, with_client,
  open_address, and_then, open_all, after_start, close_client, stop, is_mappable,
}

module _ {C : Type 0} (g : Gateway C) where
  -- An address that is announced is known not to be private.
  abbrev pub IsPublic : Effect → Type 0
  IsPublic (map_port p) = Unit
  IsPublic (add_observed_addr ip port transport) = g.is_private_ip ip ≡ some false

  when_mapped-IsPublic :
      (p : PortMapping) (e : Effect) (b : Bool) → IsPublic e → All IsPublic (when_mapped p e b).0
  when_mapped-IsPublic p e true h = (tt, (h, tt))
  when_mapped-IsPublic p e false h = (tt, tt)

  map_public-IsPublic :
      (m : NatManager C) (c : C) (a : Listened) (ip : String) (o : Option Bool)
      → g.is_private_ip ip ≡ o
      → All IsPublic (map_public g m c a ip o).0
  map_public-IsPublic m c a ip none h = tt
  map_public-IsPublic m c a ip (some true) h = tt
  map_public-IsPublic m c a ip (some false) h = when_mapped-IsPublic _ _ _ h

  map_address-IsPublic :
      (m : NatManager C) (c : C) (a : Listened) (o : Option String)
      → All IsPublic (map_address g m c a o).0
  map_address-IsPublic m c a none = tt
  map_address-IsPublic m c a (some ip) = map_public-IsPublic m c a ip (g.is_private_ip ip) refl

  with_client-IsPublic :
      (a : Listened) (r : NatManager C × Option C) → All IsPublic (with_client g a r).1.0
  with_client-IsPublic a (m, none) = tt
  with_client-IsPublic a (m, some c) = map_address-IsPublic m c a _

  open_address-IsPublic : (m : NatManager C) (a : Listened) → All IsPublic (open_address g m a).1.0
  unfolding open_address
  open_address-IsPublic m a = elim (Bool-cases (is_mappable a)) [
    | inl e ↦ rw e (with_client-IsPublic a (get_client g m))
    | inr e ↦ rw e tt
  ]

  and_then-IsPublic :
      (r : NatManager C × (List Effect × Ended))
      (next : NatManager C → NatManager C × (List Effect × Ended))
      → All IsPublic r.1.0
      → ((m : NatManager C) → All IsPublic (next m).1.0)
      → All IsPublic (and_then r next).1.0
  and_then-IsPublic (m, (es, failed)) next h k = h
  and_then-IsPublic (m, (es, finished)) next h k = All-append IsPublic es (next m).1.0 h (k m)

  -- Every address that `_start` announces is known not to be private.
  pub open_all-IsPublic :
      (m : NatManager C) (rest : List Listened) → All IsPublic (open_all g m rest).1.0
  unfolding open_all
  open_all-IsPublic m [] = tt
  open_all-IsPublic m (a ∷ rest) =
      and_then-IsPublic (open_address g m a) _ (open_address-IsPublic m a)
        (λ m'. open_all-IsPublic m' rest)

  close_client-started :
      (m : NatManager C) (o : Option C) → (close_client g m o).started ≡ m.started
  close_client-started m none = refl
  close_client-started m (some c) = ground arith

  stop-started : (is_browser : Bool) (m : NatManager C) → (stop is_browser g m).started ≡ m.started
  unfolding stop
  stop-started true m = refl
  stop-started false m = close_client-started m m.client

  after_start_started :
      (is_browser : Bool) (m : NatManager C) (rest : List Listened)
      → m.started ≡ true
      → after_start is_browser g m rest ≡ (m, ([], finished))
  unfolding after_start
  after_start_started true m rest e = refl
  after_start_started false m rest e = ground (arith, e)

  -- A manager that is stopped counts as started if it did before: whether or not the client could be closed, `afterStart`
  -- then opens no port.
  pub after_start-stop :
      (is_browser : Bool) (m : NatManager C) (rest : List Listened)
      → m.started ≡ true
      → after_start is_browser g (stop is_browser g m) rest ≡ (stop is_browser g m, ([], finished))
  after_start-stop is_browser m rest e =
      after_start_started is_browser (stop is_browser g m) rest (stop-started is_browser m ∙ e)
