-- ===== src/Registrar/Ids.antt =====
-- The map of topologies, with their ids: what `register` and `unregister` make of it.
use state_channels.Common.{
  ◌≡◌, ◌≢◌, refl, inl, inr, if_both, Option-cases, none, [], ◌∷◌, String, arith,
}
use state_channels.Common.StringMap
use state_channels.Common.StringMap.{StringMap, HasDistinctKeys, Entries, Absent}
use state_channels.Registrar.{unregister_each, or_new, unless_empty}

module _ {T : Type 0} where
  -- Every protocol is named once, with at least one topology, and each of these has an id of its own.
  pub record IsWellFormed (ts : StringMap (StringMap T)) : Type 0 where
    pub distinct : HasDistinctKeys ts
    pub nonempty : Entries (λ _ m. m ≢ []) ts
    pub ids : Entries (λ _ m. HasDistinctKeys m) ts

  -- No topology has the id.
  abbrev pub IsFresh : String → StringMap (StringMap T) → Type 0
  IsFresh id = Entries (λ _ m. StringMap.get id m ≡ none)

  set-ne-[] : (k : String) (t : T) (m : StringMap T) → StringMap.set k t m ≢ []
  unfolding StringMap.set
  set-ne-[] k t [] e = cc
  set-ne-[] k t ((j, w) ∷ m) e = ground arith

  or_new-HasDistinctKeys :
      (p : String) (ts : StringMap (StringMap T))
      → Entries (λ _ m. HasDistinctKeys m) ts
      → HasDistinctKeys (or_new (StringMap.get p ts))
  or_new-HasDistinctKeys p ts h = elim (Option-cases (StringMap.get p ts)) [
    | inl e ↦ rw e tt
    | inr (m, e) ↦ rw e (StringMap.Entries-get (λ _ m. HasDistinctKeys m) p ts m h e)
  ]

  pub set-IsWellFormed :
      (p id : String) (t : T) (ts : StringMap (StringMap T))
      → IsWellFormed ts
      → IsWellFormed (StringMap.set p (StringMap.set id t (or_new (StringMap.get p ts))) ts)
  set-IsWellFormed p id t ts w =
      let m = or_new (StringMap.get p ts) in
      record {
        distinct = StringMap.set-HasDistinctKeys p (StringMap.set id t m) ts w.distinct;
        nonempty =
            StringMap.Entries-set (λ _ m. m ≢ []) p (StringMap.set id t m) ts (set-ne-[] id t m)
              w.nonempty;
        ids =
            StringMap.Entries-set (λ _ m. HasDistinctKeys m) p (StringMap.set id t m) ts
              (StringMap.set-HasDistinctKeys id t m (or_new-HasDistinctKeys p ts w.ids)) w.ids;
      }

  Absent-unless_empty :
      (p k : String) (m : StringMap T) (ts : StringMap (StringMap T))
      → p ≢ k
      → Absent k ts
      → Absent k (unless_empty p m ts)
  Absent-unless_empty p k [] ts n a = a
  Absent-unless_empty p k (e ∷ m) ts n a = (n, a)

  unless_empty-HasDistinctKeys :
      (p : String) (m : StringMap T) (ts : StringMap (StringMap T))
      → Absent p ts
      → HasDistinctKeys ts
      → HasDistinctKeys (unless_empty p m ts)
  unless_empty-HasDistinctKeys p [] ts a d = d
  unless_empty-HasDistinctKeys p (e ∷ m) ts a d = (a, d)

  unless_empty-nonempty :
      (p : String) (m : StringMap T) (ts : StringMap (StringMap T))
      → Entries (λ _ m. m ≢ []) ts
      → Entries (λ _ m. m ≢ []) (unless_empty p m ts)
  unless_empty-nonempty p [] ts h = h
  unless_empty-nonempty p (e ∷ m) ts h = (λ f. cc, h)

  unless_empty-ids :
      (p : String) (m : StringMap T) (ts : StringMap (StringMap T))
      → HasDistinctKeys m
      → Entries (λ _ m. HasDistinctKeys m) ts
      → Entries (λ _ m. HasDistinctKeys m) (unless_empty p m ts)
  unless_empty-ids p [] ts d h = h
  unless_empty-ids p (e ∷ m) ts d h = (d, h)

  Absent-unregister_each :
      (id k : String) (ts : StringMap (StringMap T))
      → Absent k ts
      → Absent k (unregister_each id ts)
  unfolding unregister_each
  Absent-unregister_each id k [] a = tt
  Absent-unregister_each id k ((p, m) ∷ ts) a =
      let rest = Absent-unregister_each id k ts a.1 in
      if_both (Absent k) (StringMap.has id m)
        (Absent-unless_empty p k (StringMap.delete id m) (unregister_each id ts) a.0 rest)
        (a.0, rest)

  pub unregister_each-IsWellFormed :
      (id : String) (ts : StringMap (StringMap T))
      → IsWellFormed ts
      → IsWellFormed (unregister_each id ts)
  unfolding unregister_each
  unregister_each-IsWellFormed id [] w = w
  unregister_each-IsWellFormed id ((p, m) ∷ ts) w =
      let rest = unregister_each id ts in
      let v =
        unregister_each-IsWellFormed id ts
          (record { distinct = w.distinct.1; nonempty = w.nonempty.1; ids = w.ids.1 }) in
      let a = Absent-unregister_each id p ts w.distinct.0 in
      if_both IsWellFormed (StringMap.has id m)
        (record {
          distinct = unless_empty-HasDistinctKeys p (StringMap.delete id m) rest a v.distinct;
          nonempty = unless_empty-nonempty p (StringMap.delete id m) rest v.nonempty;
          ids =
              unless_empty-ids p (StringMap.delete id m) rest
                (StringMap.delete-HasDistinctKeys id m w.ids.0) v.ids;
        })
        (record {
          distinct = (a, v.distinct);
          nonempty = (w.nonempty.0, v.nonempty);
          ids = (w.ids.0, v.ids);
        })

  unregister_each_fresh :
      (id : String) (ts : StringMap (StringMap T)) → IsFresh id ts → unregister_each id ts ≡ ts
  unfolding unregister_each StringMap.has
  unregister_each_fresh id [] f = refl
  unregister_each_fresh id ((p, m) ∷ ts) f = ground (arith, f.0, unregister_each_fresh id ts f.1)

  unless_empty_ne :
      (p : String) (m : StringMap T) (ts : StringMap (StringMap T))
      → m ≢ []
      → unless_empty p m ts ≡ (p, m) ∷ ts
  unless_empty_ne p [] ts n = absurd (n refl)
  unless_empty_ne p (e ∷ m) ts n = refl

  pub unregister_each-set :
      (p id : String) (t : T) (ts : StringMap (StringMap T))
      → IsFresh id ts
      → Entries (λ _ m. m ≢ []) ts
      → unregister_each id (StringMap.set p (StringMap.set id t (or_new (StringMap.get p ts))) ts)
        ≡ ts
  unfolding unregister_each StringMap.has StringMap.get StringMap.set StringMap.delete
  unregister_each-set p id t [] f n = ground arith
  unregister_each-set p id t ((q, m) ∷ ts) f n = ground (
    arith,
    f.0,
    StringMap.get-set_self id t m,
    StringMap.delete-set id t m f.0,
    unless_empty_ne p m ts n.0,
    unregister_each_fresh id ts f.1,
    unregister_each-set p id t ts f.1 n.1,
  )

  unless_empty-IsFresh :
      (id p : String) (m : StringMap T) (ts : StringMap (StringMap T))
      → StringMap.get id m ≡ none
      → IsFresh id ts
      → IsFresh id (unless_empty p m ts)
  unless_empty-IsFresh id p [] ts e f = f
  unless_empty-IsFresh id p (x ∷ m) ts e f = (e, f)

  pub unregister_each-IsFresh :
      (id : String) (ts : StringMap (StringMap T))
      → Entries (λ _ m. HasDistinctKeys m) ts
      → IsFresh id (unregister_each id ts)
  unfolding unregister_each StringMap.has
  unregister_each-IsFresh id [] d = tt
  unregister_each-IsFresh id ((p, m) ∷ ts) d =
      let rest = unregister_each-IsFresh id ts d.1 in
      elim (Option-cases (StringMap.get id m)) [
        | inl e ↦ rw e (e, rest)
        | inr (x, e) ↦ rw e (
            unless_empty-IsFresh id p (StringMap.delete id m) (unregister_each id ts)
              (StringMap.get-delete_self id m d.0) rest)
      ]
