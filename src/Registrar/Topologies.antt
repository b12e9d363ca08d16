-- ===== src/Registrar/Topologies.antt =====
-- Topologies that are registered and unregistered by their ids.
use state_channels.Common.{◌≡◌, ap, Bool, inl, inr, Bool-cases, [], String, arith}
use state_channels.Common.StringMap
use state_channels.Common.StringMap.{StringMap, HasDistinctKeys, Entries, Absent}
use state_channels.Errors.{ok}
use state_channels.Registrar.Ids.{
  IsWellFormed, IsFresh, set-IsWellFormed, unregister_each-IsWellFormed, unregister_each-set,
  unregister_each-IsFresh,
}
use state_channels.Registrar.{Registrar, register, unregister, or_new}

module _ {H T : Type 0} where
  -- What a registrar does with topologies in its life: any number of calls of `register` that return, and of `unregister`.
  pub data Reach (is_topology : T → Bool) : Registrar H T → Type 0 where
    begins : (r : Registrar H T) → r.topologies ≡ [] → Reach is_topology r
    registers :
        {r r' : Registrar H T} (p : String) (t : T) (id i : String)
        → Reach is_topology r
        → register is_topology r p t id ≡ ok (r', i)
        → Reach is_topology r'
    unregisters :
        {r : Registrar H T} (id : String)
        → Reach is_topology r
        → Reach is_topology (unregister r id)

  register-ok :
      (is_topology : T → Bool) (r r' : Registrar H T) (p : String) (t : T) (id i : String)
      → register is_topology r p t id ≡ ok (r', i)
      → (i ≡ id)
        × (r' ≡ record r {
          topologies =
              StringMap.set p
                (StringMap.set id t (or_new (StringMap.get p r.topologies)))
                r.topologies;
        })
  unfolding register
  register-ok is_topology r r' p t id i h = elim (Bool-cases (is_topology t)) [
    | inl e ↦ ground (arith, e, h)
    | inr e ↦ ground (arith, e, h)
  ]

  -- In every state that calls of `register` and `unregister` lead to from a registrar without
  -- topologies: a protocol is named once and has at least one topology, and the topologies of a
  -- protocol have different ids.
  pub Reach-IsWellFormed :
      (is_topology : T → Bool) (r : Registrar H T) → Reach is_topology r → IsWellFormed r.topologies
  unfolding unregister
  Reach-IsWellFormed is_topology r (begins _ e) =
      rw e (record { distinct = tt; nonempty = tt; ids = tt })
  Reach-IsWellFormed is_topology r (registers {r = s} p t id i reached h) =
      rw (register-ok is_topology s r p t id i h).1
        (set-IsWellFormed p id t s.topologies (Reach-IsWellFormed is_topology s reached))
  Reach-IsWellFormed is_topology _ (unregisters {r = s} id reached) =
      unregister_each-IsWellFormed id s.topologies (Reach-IsWellFormed is_topology s reached)

  -- If the registrar is well formed and no topology has the id that `register` makes, `register`
  -- returns that id, and unregistering it gives the registrar back that there was before.
  pub unregister-register :
      (is_topology : T → Bool) (r r' : Registrar H T) (p : String) (t : T) (id i : String)
      → IsWellFormed r.topologies
      → IsFresh id r.topologies
      → register is_topology r p t id ≡ ok (r', i)
      → (i ≡ id) × (unregister r' i ≡ r)
  unfolding unregister
  unregister-register is_topology r r' p t id i w f h =
      let (e, g) = register-ok is_topology r r' p t id i h in
      let u = unregister_each-set p id t r.topologies f w.nonempty in
      (e, rw (e, g) (ap (λ ts. record r { topologies = ts }) u))

  -- In a well-formed registrar, after `unregister` no topology of any protocol has the id.
  pub unregister-IsFresh :
      (r : Registrar H T) (id : String)
      → IsWellFormed r.topologies
      → IsFresh id (unregister r id).topologies
  unfolding unregister
  unregister-IsFresh r id w = unregister_each-IsFresh id r.topologies w.ids
