-- ===== src/Manager/Invariant.antt =====
-- `IsTracking` is kept by what changes the map of connections.
use mathlib.Core.HLevel.{¬_prop}
use mathlib.Core.List.{Pairwise, Perm, Mem, Pairwise-cons, Pairwise-append, perm_middle}
use mathlib.Core.List.Perm
use mathlib.Core.List.{Sublist, mem-cons_self, sublist-append_right}
use mathlib.Core.List.Sublist
use mathlib.Core.List.Pairwise
use state_channels.Common.{
  ◌<◌, String, ◌≡◌, refl, true, false, Option, none, some, List, [], ◌∷◌, ◌++◌, ltb, length,
  str_dec, All, arith, inl, inr, Option-cases, append_assoc, if_pos, if_neg, subst, sym, ◌∙◌,
}
use state_channels.Common.StringMap
use state_channels.Common.StringMap.{StringMap, Entries, HasDistinctKeys, Absent}
use state_channels.Manager.{
  or_default, Manager, Connection, concat, on_disconnect, without, store, drop_stored,
}
use state_channels.Common.{if◌then◌else◌, Bool-cases, eq_of_some, ltb→lt}
use state_channels.Manager.Tracking.{concat-set-without, Differs, differs?, Owned, IsTracking}

pub Differs-symm : (c d : Connection) → Differs c d → Differs d c
Differs-symm c d n = λ s. n (sym s.0, sym s.1)

pub Differs-prop : (c d : Connection) → IsProp (Differs c d)
Differs-prop c d = ¬_prop

-- Storing a connection adds it and keeps the others, whatever their order.
pub store-perm :
    (m : StringMap (List Connection)) (c : Connection) → Perm (concat (store m c)) (c ∷ concat m)
unfolding store concat
store-perm [] c = unfold StringMap.set StringMap.get in Perm.rfl
store-perm ((p, cs) ∷ m) c = elim (str_dec p c.remote_peer) [
  | yes q ↦
      rw (StringMap.get_here _ _ _ _ q, StringMap.set_here _ _ _ _ _ q, append_assoc)
        (perm_middle cs (concat m))
  | no q ↦
      rw (StringMap.get_there _ _ _ _ q, StringMap.set_there _ _ _ _ _ q)
        (Perm.trans (Perm.append_left cs (store-perm m c)) (perm_middle cs (concat m)))
]

-- A connection that differs from all that are tracked.
abbrev pub Fresh : Connection → StringMap (List Connection) → Type 0
Fresh c m = (d : Connection) → Mem d (concat m) → Differs c d

store-Pairwise :
    (m : StringMap (List Connection)) (c : Connection)
    → Pairwise Differs (concat m)
    → Fresh c m
    → Pairwise Differs (concat (store m c))
store-Pairwise m c d f =
    Perm.pairwise Differs-prop Differs-symm (Perm.symm (store-perm m c)) (Pairwise-cons.1 (f, d))

length-concat : (c : Connection) (cs : List Connection) → 0 < length (cs ++ c ∷ [])
length-concat c [] = omega arith
length-concat c (d ∷ cs) = omega arith

All-concat :
    (p : String) (c : Connection) (cs : List Connection)
    → c.remote_peer ≡ p
    → All (λ (d : Connection). d.remote_peer ≡ p) cs
    → All (λ (d : Connection). d.remote_peer ≡ p) (cs ++ c ∷ [])
All-concat p c [] e h = (e, tt)
All-concat p c (d ∷ cs) e h = (h.0, All-concat p c cs e h.1)

extended-Owned :
    (m : StringMap (List Connection)) (c : Connection)
    → Entries Owned m
    → Owned c.remote_peer (or_default (StringMap.get c.remote_peer m) [] ++ c ∷ [])
extended-Owned m c o = elim (Option-cases (StringMap.get c.remote_peer m)) [
  | inl e ↦ rw e (omega arith, (refl, tt))
  | inr (cs, e) ↦ rw e (
    length-concat c cs,
    All-concat c.remote_peer c cs refl (StringMap.Entries-get Owned _ m cs o e).1,
  )
]

-- A new connection that is stored keeps the map consistent.
pub store-IsTracking :
    (m : StringMap (List Connection)) (c : Connection)
    → IsTracking m
    → Fresh c m
    → IsTracking (store m c)
unfolding store
store-IsTracking m c t f = record {
  keyed = StringMap.set-HasDistinctKeys c.remote_peer _ m t.keyed;
  owned = StringMap.Entries-set Owned c.remote_peer _ m (extended-Owned m c t.owned) t.owned;
  distinct = store-Pairwise m c t.distinct f;
}

entry-Pairwise :
    (p : String) (m : StringMap (List Connection)) (cs : List Connection)
    → Pairwise Differs (concat m)
    → StringMap.get p m ≡ some cs
    → Pairwise Differs cs
unfolding concat
entry-Pairwise p [] cs d e = unfold StringMap.get in cc
entry-Pairwise p ((q, ds) ∷ m) cs d e =
    let (mine, rest, _) = (Pairwise-append Differs-prop {l₁ = ds} {l₂ = concat m}).0 d in
    elim (str_dec q p) [
      | yes same ↦
          subst (Pairwise Differs) (eq_of_some (sym (StringMap.get_here p q ds m same) ∙ e)) mine
      | no other ↦ entry-Pairwise p m cs rest (sym (StringMap.get_there p q ds m other) ∙ e)
    ]

delete-sublist :
    (p : String) (m : StringMap (List Connection))
    → Sublist (concat (StringMap.delete p m)) (concat m)
unfolding concat StringMap.delete
delete-sublist p [] = Sublist.refl _
delete-sublist p ((q, ds) ∷ m) = elim (str_dec q p) [
  | yes e ↦ rw (if_pos _ e) (sublist-append_right ds (concat m))
  | no n ↦ rw (if_neg _ n) (Sublist.append (Sublist.refl ds) (delete-sublist p m))
]

-- Where two connections of a peer are tracked, one at most has a given id.
without-pos :
    (p i : String) (cs : List Connection)
    → 1 < length cs
    → All (λ (c : Connection). c.remote_peer ≡ p) cs
    → Pairwise Differs cs
    → 0 < length (without i cs)
unfolding without
without-pos p i [] h a d = absurd (omega arith)
without-pos p i (c ∷ []) h a d = absurd (omega arith)
without-pos p i (c ∷ c' ∷ cs) h a d =
    let n : Differs c c' = (Pairwise-cons.0 d).0 c' mem-cons_self in
    ground (arith, λ (e : c.id ≡ c'.id). n (a.0 ∙ sym a.1.0, e))

without-All :
    (P : Connection → Type 0) (i : String) (cs : List Connection) → All P cs → All P (without i cs)
unfolding without
without-All P i [] h = tt
without-All P i (c ∷ cs) h = ground (arith, without-All P i cs h.1)

drop_stored-IsTracking :
    (m : Manager) (c : Connection) (o : Option (List Connection))
    → StringMap.get c.remote_peer m.connections ≡ o
    → IsTracking m.connections
    → IsTracking (drop_stored m c o).0.connections
unfolding drop_stored
drop_stored-IsTracking m c none e t = t
drop_stored-IsTracking m c (some cs) e t = elim (Bool-cases (ltb 1 (length cs))) [
  | inl many ↦ rw many (record {
    keyed = StringMap.set-HasDistinctKeys c.remote_peer _ m.connections t.keyed;
    owned =
        StringMap.Entries-set Owned c.remote_peer _ m.connections
          (
            without-pos c.remote_peer c.id cs (ltb→lt _ _ many) own.1
                (entry-Pairwise _ m.connections cs t.distinct e),
            without-All _ c.id cs own.1,
          )
          t.owned;
    distinct =
        subst (Pairwise Differs) (sym (concat-set-without c m.connections cs t.keyed t.owned e))
          (Pairwise.filter (λ d. differs? d c) t.distinct);
  })
  | inr few ↦ rw few (record {
    keyed = StringMap.delete-HasDistinctKeys c.remote_peer m.connections t.keyed;
    owned = StringMap.Entries-delete Owned c.remote_peer m.connections t.owned;
    distinct =
        Pairwise.sublist Differs-prop (delete-sublist c.remote_peer m.connections) t.distinct;
  })
]
  where
    own : Owned c.remote_peer cs
    own = StringMap.Entries-get Owned c.remote_peer m.connections cs t.owned e

-- Whatever connection has ended, `onDisconnect` keeps a consistent map consistent: each peer has
-- one list, which is not empty and holds connections of that peer, and no connection is tracked
-- twice.
pub on_disconnect-IsTracking :
    (m : Manager) (c : Connection)
    → IsTracking m.connections
    → IsTracking (on_disconnect m c).0.connections
unfolding on_disconnect
on_disconnect-IsTracking m c t =
    let kept = drop_stored-IsTracking m c _ refl t in
    elim m.started
      as (λ b.
        IsTracking
          (if b
            then drop_stored m c (StringMap.get c.remote_peer m.connections)
            else (m, [])).0.connections) [ true ↦ kept | false ↦ t ]
