-- ===== src/Manager/Leaving.antt =====
-- What a call of `onDisconnect` leaves, whether or not its connection is tracked.
use mathlib.Core.List.{filter-append, perm_append_comm, Perm}
use mathlib.Core.List.Perm
use state_channels.Common.{
  String, ◌≡◌, ◌≢◌, refl, sym, ◌∙◌, subst, true, Option, none, some, List, [], ◌∷◌, ◌++◌, length,
  str_dec, if_pos, if_neg, Option-cases, inl, inr, append_assoc, eq_of_some, arith, ◌⊎◌,
  if◌then◌else◌,
}
use state_channels.Common.StringMap
use state_channels.Common.StringMap.{StringMap, Entries, HasDistinctKeys, Absent}
use state_channels.Manager.{
  Manager, Connection, concat, get_connections, on_disconnect, drop_stored, without,
}
use state_channels.Manager.Tracking.{
  differs?, others, Owned, IsTracking, concat-set-without, others-Absent, two_lt,
}

pub swap_front : (xs ys zs : List Connection) → Perm (xs ++ (ys ++ zs)) (ys ++ (xs ++ zs))
swap_front xs ys zs =
    subst (λ l. Perm l (ys ++ (xs ++ zs))) (append_assoc xs ys zs)
      (subst (Perm ((xs ++ ys) ++ zs)) (append_assoc ys xs zs)
        (Perm.append_right zs (perm_append_comm xs ys)))

-- The list of a peer is one part of all lists, and what remains when it is deleted is the other.
delete-perm :
    (p : String) (m : StringMap (List Connection)) (cs : List Connection)
    → HasDistinctKeys m
    → StringMap.get p m ≡ some cs
    → Perm (concat m) (cs ++ concat (StringMap.delete p m))
unfolding concat StringMap.delete
delete-perm p [] cs k e = unfold StringMap.get in cc
delete-perm p ((q, ds) ∷ m) cs k e = elim (str_dec q p) [
  | yes same ↦
      let own : ds ≡ cs = eq_of_some (sym (StringMap.get_here p q ds m same) ∙ e) in
      rw (if_pos _ same) (subst (λ l. Perm (ds ++ concat m) (l ++ concat m)) own Perm.rfl)
  | no other ↦
      let rest = delete-perm p m cs k.1 (sym (StringMap.get_there p q ds m other) ∙ e) in
      rw (if_neg _ other) (Perm.trans (Perm.append_left ds rest) (swap_front ds cs _))
]

-- Of the other connections, all are left; or, where the connection is not tracked, all but one of the same peer.
abbrev pub Leaves : Connection → List Connection → List Connection → Type 0
Leaves c before after =
    (gone : List Connection) × (Perm (others c before) (gone ++ after)
      × ((gone ≡ [])
          ⊎ (Perm (others c before) before
              × ((d : Connection) × ((gone ≡ d ∷ []) × (d.remote_peer ≡ c.remote_peer))))))

-- The only connection of a peer is forgotten, whichever one has ended.
delete-Leaves :
    (c d : Connection) (m : StringMap (List Connection))
    → HasDistinctKeys m
    → Entries Owned m
    → StringMap.get c.remote_peer m ≡ some (d ∷ [])
    → Leaves c (concat m) (concat (StringMap.delete c.remote_peer m))
unfolding differs?
delete-Leaves c d m k o e =
    let rest = StringMap.delete c.remote_peer m in
    let absent = StringMap.Absent-of_get _ rest (StringMap.get-delete_self c.remote_peer m k) in
    let before = delete-perm c.remote_peer m (d ∷ []) k e in
    let peer = (StringMap.Entries-get Owned c.remote_peer m (d ∷ []) o e).1.0 in
    let p : Perm (others c (concat m)) (others c (d ∷ []) ++ concat rest) =
      subst (λ l. Perm (others c (concat m)) (others c (d ∷ []) ++ l))
        (others-Absent c rest absent (StringMap.Entries-delete Owned c.remote_peer m o))
        (subst (Perm (others c (concat m)))
          (filter-append (λ x. differs? x c) (d ∷ []) (concat rest))
          (Perm.filter (λ x. differs? x c) before)) in
    elim (str_dec d.id c.id) [
      | yes q ↦
          let none_left : others c (d ∷ []) ≡ [] = ground (arith, q, peer) in
          ([], (subst (λ l. Perm (others c (concat m)) (l ++ concat rest)) none_left p, inl refl))
      | no n ↦
          let it_stays : others c (d ∷ []) ≡ d ∷ [] = ground (arith, n, peer) in
          let p' = subst (λ l. Perm (others c (concat m)) (l ++ concat rest)) it_stays p in
          (d ∷ [], (p', inr (Perm.trans p' (Perm.symm before), (d, (refl, peer)))))
    ]

drop_stored-Leaves :
    (m : Manager) (c : Connection) (o : Option (List Connection))
    → IsTracking m.connections
    → StringMap.get c.remote_peer m.connections ≡ o
    → Leaves c (get_connections m) (get_connections (drop_stored m c o).0)
unfolding drop_stored
drop_stored-Leaves m c none t e =
    let absent = StringMap.Absent-of_get _ m.connections e in
    (
      [],
      (
        subst (λ l. Perm l (get_connections m)) (sym (others-Absent c m.connections absent t.owned))
            Perm.rfl,
        inl refl,
      ),
    )
drop_stored-Leaves m c (some []) t e =
    absurd (omega (arith, (StringMap.Entries-get Owned _ m.connections [] t.owned e).0))
drop_stored-Leaves m c (some (d ∷ [])) t e = delete-Leaves c d m.connections t.keyed t.owned e
drop_stored-Leaves m c (some (d ∷ d' ∷ cs)) t e = rw (two_lt (length cs)) (
  [],
  (
    subst (Perm (others c (get_connections m)))
        (sym (concat-set-without c m.connections (d ∷ d' ∷ cs) t.keyed t.owned e)) Perm.rfl,
    inl refl,
  ),
)

-- In a started manager with a consistent map, `onDisconnect` of any connection takes it out and adds none.
pub on_disconnect-Leaves :
    (m : Manager) (c : Connection)
    → IsTracking m.connections
    → m.started ≡ true
    → Leaves c (get_connections m) (get_connections (on_disconnect m c).0)
unfolding on_disconnect
on_disconnect-Leaves m c t s =
    let left = drop_stored-Leaves m c (StringMap.get c.remote_peer m.connections) t refl in
    subst
      (λ b. Leaves c (get_connections m) (
        get_connections
          (if b then drop_stored m c (StringMap.get c.remote_peer m.connections) else (m, [])).0))
      (sym s) left

-- The connections of another peer stay.
pub on_disconnect-get :
    (m : Manager) (c : Connection) (p : String)
    → HasDistinctKeys m.connections
    → c.remote_peer ≢ p
    → StringMap.get p (on_disconnect m c).0.connections ≡ StringMap.get p m.connections
unfolding on_disconnect drop_stored
on_disconnect-get m c p k n = elim (Option-cases (StringMap.get c.remote_peer m.connections)) [
  | inl e ↦ ground (arith, e)
  | inr (cs, e) ↦ ground (
    arith,
    e,
    n,
    StringMap.get-set c.remote_peer p (without c.id cs) m.connections,
    StringMap.get-delete c.remote_peer p m.connections k,
  )
]
