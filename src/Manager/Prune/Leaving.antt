-- ===== src/Manager/Prune/Leaving.antt =====
-- What the calls of `onDisconnect` for a list of connections leave.
use mathlib.Core.List.{
  filter-append, perm_middle, Mem, mem-filter, mem-cons, mem-cons_self, mem-cons_of_mem,
  not-mem-nil, Perm,
}
use mathlib.Core.Logic.Or
use mathlib.Core.List.Perm
use state_channels.Common.{
  String, ◌≡◌, refl, sym, ap, ◌∙◌, subst, true, List, [], ◌∷◌, ◌++◌, arith, if_pos, if_neg,
  append_assoc, ◌≢◌,
}
use state_channels.Common.StringMap
use state_channels.Common.StringMap.{StringMap, Entries, HasDistinctKeys, Absent}
use state_channels.Manager.{Manager, Connection, get_connections, on_disconnect, drop_stored}
use state_channels.Manager.Tracking.{Differs, differs?, others, IsTracking}
use state_channels.Manager.Invariant.{Differs-prop, on_disconnect-IsTracking}
use state_channels.Manager.Leaving.{on_disconnect-Leaves, on_disconnect-get}
use state_channels.Manager.Prune.{disconnect_all}

on_disconnect-started : (m : Manager) (c : Connection) → (on_disconnect m c).0.started ≡ m.started
unfolding on_disconnect drop_stored
on_disconnect-started m c = ground arith

-- Without each connection of a list.
pub left : List Connection → List Connection → List Connection
left [] l = l
left (c ∷ cs) l = left cs (others c l)

left-perm :
    (cs : List Connection) (xs ys : List Connection) → Perm xs ys → Perm (left cs xs) (left cs ys)
unfolding left
left-perm [] xs ys p = p
left-perm (c ∷ cs) xs ys p = left-perm cs _ _ (Perm.filter (λ d. differs? d c) p)

left-append : (cs xs ys : List Connection) → left cs (xs ++ ys) ≡ left cs xs ++ left cs ys
unfolding left
left-append [] xs ys = refl
left-append (c ∷ cs) xs ys =
    ap (left cs) (filter-append (λ d. differs? d c) xs ys) ∙ left-append cs _ _

-- What is taken out of a list by a filter, beside what stays.
split :
    (c : Connection) (l : List Connection) → (out : List Connection) × Perm l (out ++ others c l)
split c [] = ([], Perm.rfl)
split c (d ∷ l) =
    let (out, p) = split c l in
    elim (differs? d c) [
      | yes n ↦ (
        out,
        subst (λ k. Perm (d ∷ l) (out ++ k)) (sym (if_pos (differs? d c) n _ _))
            (Perm.trans (Perm.cons d p) (Perm.symm (perm_middle out (others c l)))),
      )
      | no n ↦ (
        d ∷ out,
        subst (λ k. Perm (d ∷ l) (d ∷ out ++ k)) (sym (if_neg (differs? d c) n _ _))
            (Perm.cons d p),
      )
    ]

left-split : (cs l : List Connection) → (out : List Connection) × Perm l (out ++ left cs l)
unfolding left
left-split [] l = ([], Perm.rfl)
left-split (c ∷ cs) l =
    let (out, p) = split c l in
    let (out', q) = left-split cs (others c l) in
    (
      out ++ out',
      Perm.trans p (
          subst (Perm (out ++ others c l)) (sym (append_assoc out out' _))
            (Perm.append_left out q)),
    )

-- A connection that stays differs from each that was taken out.
mem-left :
    (cs l : List Connection) (x : Connection)
    → Mem x (left cs l)
    → Mem x l × ((c : Connection) → Mem c cs → Differs x c)
unfolding left
mem-left [] l x h = (h, λ c m. absurd (not-mem-nil m))
mem-left (c ∷ cs) l x h =
    let (m, f) = mem-left cs (others c l) x h in
    let (m', n) = (mem-filter (λ d. differs? d c)).0 m in
    (m', λ e k. Or.elim (Differs-prop x e) (mem-cons.0 k) (λ q. subst (Differs x) (sym q) n) (f e))

nil_of_no_mem : (l : List Connection) → ((x : Connection) → ¬ Mem x l) → l ≡ []
nil_of_no_mem [] h = refl
nil_of_no_mem (x ∷ l) h = absurd (h x mem-cons_self)

not_differs : (c : Connection) → ¬ Differs c c
not_differs c n = n (refl, refl)

left-nil : (cs l : List Connection) → ((c : Connection) → Mem c l → Mem c cs) → left cs l ≡ []
left-nil cs l h =
    nil_of_no_mem _ (λ x m. let (m', f) = mem-left cs l x m in not_differs x (f x (h x m')))

pub disconnect_all-Leaves :
    (m : Manager) (cs : List Connection)
    → IsTracking m.connections
    → m.started ≡ true
    → ((gone : List Connection) × Perm
          (left cs (get_connections m))
          (gone ++ get_connections (disconnect_all m cs).0))
      × IsTracking (disconnect_all m cs).0.connections
unfolding disconnect_all left
disconnect_all-Leaves m [] t s = (([], Perm.rfl), t)
disconnect_all-Leaves m (c ∷ cs) t s =
    let m' = (on_disconnect m c).0 in
    let (gone, (p, _)) = on_disconnect-Leaves m c t s in
    let ((gone', q), t') =
      disconnect_all-Leaves m' cs (on_disconnect-IsTracking m c t)
        (on_disconnect-started m c ∙ s) in
    (
      (
        left cs gone ++ gone',
        Perm.trans (left-perm cs _ _ p) (
            subst
              (λ l. Perm l ((left cs gone ++ gone') ++ get_connections (disconnect_all m' cs).0))
              (sym (left-append cs gone _))
              (subst (Perm (left cs gone ++ left cs (get_connections m')))
                (sym (append_assoc (left cs gone) gone' (get_connections (disconnect_all m' cs).0)))
                (Perm.append_left (left cs gone) q))),
      ),
      t',
    )

-- Where some of the tracked connections end, and maybe others of their peers are forgotten, no others stay than those that
-- do not end.
pub disconnect_all-perm :
    (m : Manager) (cs ending kept : List Connection)
    → IsTracking m.connections
    → m.started ≡ true
    → ((c : Connection) → Mem c cs → Mem c ending)
    → Perm (get_connections m) (cs ++ kept)
    → ((gone : List Connection) × Perm kept (gone ++ get_connections (disconnect_all m ending).0))
      × IsTracking (disconnect_all m ending).0.connections
disconnect_all-perm m cs ending kept t s h p =
    let ((gone, q), t') = disconnect_all-Leaves m ending t s in
    let (out, r) = left-split ending kept in
    let after = get_connections (disconnect_all m ending).0 in
    let e : left ending (cs ++ kept) ≡ left ending kept =
      left-append ending cs kept ∙ ap (λ l. l ++ left ending kept) (left-nil ending cs h) in
    let staying : Perm (left ending kept) (gone ++ after) =
      subst (λ l. Perm l (gone ++ after)) e (Perm.trans (left-perm ending _ _ (Perm.symm p)) q) in
    (
      (
        out ++ gone,
        Perm.trans r (
            subst (Perm (out ++ left ending kept)) (sym (append_assoc out gone after))
              (Perm.append_left out staying)),
      ),
      t',
    )

-- The connections of a peer of which none ends stay.
pub disconnect_all-get :
    (m : Manager) (cs : List Connection) (p : String)
    → IsTracking m.connections
    → ((c : Connection) → Mem c cs → c.remote_peer ≢ p)
    → StringMap.get p (disconnect_all m cs).0.connections ≡ StringMap.get p m.connections
unfolding disconnect_all
disconnect_all-get m [] p t h = refl
disconnect_all-get m (c ∷ cs) p t h =
    disconnect_all-get (on_disconnect m c).0 cs p (on_disconnect-IsTracking m c t)
      (λ d n. h d (mem-cons_of_mem c n))
    ∙ on_disconnect-get m c p t.keyed (h c mem-cons_self)
