-- ===== src/TransportManager/Listening.antt =====
-- What `listen` returns, and the listeners that it leaves.
use state_channels.Common.{
  ℕ, suc, ◌+◌, ◌≤◌, ◌<◌, ◌≡◌, ◌≢◌, refl, ◌↔◌, true, false, ◌⊎◌, inl, inr, Bool-cases, Option, none,
  some, List, [], ◌∷◌, ◌++◌, append_assoc, append-nil, String, str_dec, ite, length, any,
  if◌then◌else◌, All, arith,
}
use state_channels.Common.StringMap
use state_channels.Common.StringMap.{StringMap, HasDistinctKeys, Absent}
use state_channels.Errors.{Result, ok-inj, ok, err}
use state_channels.TransportManager.{
  TransportManager, Transport, fatal_all, no_fatal, is_empty, or_empty, make_listeners, listen_each,
  listen, check_any,
}

check_any-fatal :
    (size : ℕ) (r : Result ℕ)
    → check_any fatal_all size r ≡ ok tt
    → (k : ℕ) × ((r ≡ ok k) × (k ≢ size))
check_any-fatal size (ok k) h = (k, (refl, λ (e : k ≡ size). ground arith))
check_any-fatal size (err e) h = cc

module _ {M : Type 0} where
  make_listeners-get :
      (key j : String) (addrs : List M) (l : StringMap (List M))
      → or_empty (StringMap.get j (make_listeners key addrs l))
        ≡ ite (str_dec key j) (or_empty (StringMap.get j l) ++ addrs) (or_empty (StringMap.get j l))
  make_listeners-get key j [] l = ground (arith, append-nil (or_empty (StringMap.get j l)))
  make_listeners-get key j (a ∷ addrs) l =
      let l' = StringMap.set key (or_empty (StringMap.get key l) ++ a ∷ []) l in
      ground (
        arith,
        make_listeners-get key j addrs l',
        StringMap.get-set key j (or_empty (StringMap.get key l) ++ a ∷ []) l,
        append_assoc (or_empty (StringMap.get j l)) (a ∷ []) addrs,
      )

module _ {M C : Type 0} where
  -- The addresses that a transport supports, if there is one.
  abbrev pub filtered : List M → Option (Transport M C) → Option (List M)
  filtered addrs none = none
  filtered addrs (some t) = some (t.filter addrs)

  -- The transport has no address to listen at, or can listen at one.
  abbrev pub Listens : List M → Transport M C → Type 0
  Listens addrs t =
      (is_empty (t.filter addrs) ≡ true) ⊎ (any (λ a. t.can_listen a) (t.filter addrs) ≡ true)

  abbrev pub Supports : List M → Transport M C → Type 0
  Supports addrs t = is_empty (t.filter addrs) ≡ false

  abbrev pub AnySupports : List M → StringMap (Transport M C) → Type 0
  AnySupports addrs [] = ⊥
  AnySupports addrs ((key, t) ∷ ts) = Supports addrs t ⊎ AnySupports addrs ts

  -- The transports with no address to listen at.
  abbrev unsupported : List M → StringMap (Transport M C) → ℕ
  unsupported addrs [] = 0
  unsupported addrs ((key, t) ∷ ts) =
      let rest = unsupported addrs ts in if is_empty (t.filter addrs) then suc rest else rest

  unsupported_le :
      (addrs : List M) (ts : StringMap (Transport M C)) → unsupported addrs ts ≤ length ts
  unsupported_le addrs [] = omega arith
  unsupported_le addrs ((key, t) ∷ ts) = ground (arith, unsupported_le addrs ts)

  AnySupports-of_lt :
      (addrs : List M) (ts : StringMap (Transport M C))
      → unsupported addrs ts < length ts
      → AnySupports addrs ts
  AnySupports-of_lt addrs [] h = absurd (omega arith)
  AnySupports-of_lt addrs ((key, t) ∷ ts) h = elim (Bool-cases (is_empty (t.filter addrs))) [
    | inl e ↦ inr (AnySupports-of_lt addrs ts (ground arith))
    | inr e ↦ inl e
  ]

  lt-of_AnySupports :
      (addrs : List M) (ts : StringMap (Transport M C))
      → AnySupports addrs ts
      → unsupported addrs ts < length ts
  lt-of_AnySupports addrs [] h = elim h [ ]
  lt-of_AnySupports addrs ((key, t) ∷ ts) (inl e) = ground (arith, unsupported_le addrs ts)
  lt-of_AnySupports addrs ((key, t) ∷ ts) (inr h) = ground (arith, lt-of_AnySupports addrs ts h)

  listen_each-All :
      (addrs : List M) (ts : StringMap (Transport M C)) (l : StringMap (List M)) (n k : ℕ)
      → (listen_each true addrs ts l n).1 ≡ ok k
      → All (λ e. Listens addrs e.1) ts × (k ≡ n + unsupported addrs ts)
  unfolding listen_each
  listen_each-All addrs [] l n k h = ground (arith, ok-inj h)
  listen_each-All addrs ((key, t) ∷ ts) l n k h =
      let l' = make_listeners key (t.filter addrs) l in
      ground (arith, listen_each-All addrs ts l' (suc n) k, listen_each-All addrs ts l' n k)

  listen_each-ok :
      (addrs : List M) (ts : StringMap (Transport M C)) (l : StringMap (List M)) (n : ℕ)
      → All (λ e. Listens addrs e.1) ts
      → (listen_each true addrs ts l n).1 ≡ ok (n + unsupported addrs ts)
  unfolding listen_each
  listen_each-ok addrs [] l n h = ground arith
  listen_each-ok addrs ((key, t) ∷ ts) l n (inl e, h) =
      let l' = make_listeners key (t.filter addrs) l in
      ground (arith, listen_each-ok addrs ts l' (suc n) h)
  listen_each-ok addrs ((key, t) ∷ ts) l n (inr e, h) =
      let l' = make_listeners key (t.filter addrs) l in
      ground (arith, listen_each-ok addrs ts l' (suc n) h, listen_each-ok addrs ts l' n h)

  -- With fault tolerance FATAL_ALL, `listen` on at least one address succeeds exactly if some
  -- transport supports one of the addresses, and each transport that supports some can listen at
  -- one of those.
  pub listen_iff :
      (m : TransportManager M C) (a : M) (addrs : List M)
      → m.fault_tolerance ≡ fatal_all
      → ((listen m (a ∷ addrs)).1 ≡ ok tt)
        ↔ (All (λ e. Listens (a ∷ addrs) e.1) m.transports × AnySupports (a ∷ addrs) m.transports)
  unfolding listen
  listen_iff m a addrs f = (
    λ h.
        let (k, (e, n)) =
          check_any-fatal (length m.transports)
            (listen_each true (a ∷ addrs) m.transports m.listeners 0).1 (ground (arith, f, h)) in
        let (l, c) =
          listen_each-All (a ∷ addrs) m.transports m.listeners 0 k (ground (arith, f, e)) in
        let b = unsupported_le (a ∷ addrs) m.transports in
        (l, AnySupports-of_lt (a ∷ addrs) m.transports (grind (arith, b, c, n))),
    λ (h, s).
        let r = listen_each-ok (a ∷ addrs) m.transports m.listeners 0 h in
        let b = lt-of_AnySupports (a ∷ addrs) m.transports s in ground (arith, r, b),
  )

  listen_each-no_fatal :
      (addrs : List M) (ts : StringMap (Transport M C)) (l : StringMap (List M)) (n : ℕ)
      → (listen_each false addrs ts l n).1 ≡ ok (n + unsupported addrs ts)
  unfolding listen_each
  listen_each-no_fatal addrs [] l n = ground arith
  listen_each-no_fatal addrs ((key, t) ∷ ts) l n =
      let l' = make_listeners key (t.filter addrs) l in
      ground (arith, listen_each-no_fatal addrs ts l' (suc n), listen_each-no_fatal addrs ts l' n)

  -- A manager that tolerates faults never fails to start listening.
  pub listen-no_fatal :
      (m : TransportManager M C) (addrs : List M)
      → m.fault_tolerance ≡ no_fatal
      → (listen m addrs).1 ≡ ok tt
  unfolding listen
  listen-no_fatal m [] f = refl
  listen-no_fatal m (a ∷ addrs) f =
      let r = listen_each-no_fatal (a ∷ addrs) m.transports m.listeners 0 in ground (arith, r)

  -- The listeners after the loop of a manager that tolerates faults.
  listeners-listen_each :
      (addrs : List M) (key : String) (ts : StringMap (Transport M C)) (l : StringMap (List M))
      (n : ℕ)
      → HasDistinctKeys ts
      → or_empty (StringMap.get key (listen_each false addrs ts l n).0)
        ≡ or_empty (StringMap.get key l) ++ or_empty (filtered addrs (StringMap.get key ts))
  unfolding listen_each StringMap.get
  listeners-listen_each addrs key [] l n d =
      ground (arith, append-nil (or_empty (StringMap.get key l)))
  listeners-listen_each addrs key ((j, t) ∷ ts) l n d =
      let l' = make_listeners j (t.filter addrs) l in
      ground (
        arith,
        listeners-listen_each addrs key ts l' (suc n) d.1,
        listeners-listen_each addrs key ts l' n d.1,
        make_listeners-get j key (t.filter addrs) l,
        StringMap.get_of_Absent j ts d.0,
        append-nil (or_empty (StringMap.get key l) ++ t.filter addrs),
      )

  -- With fault tolerance NO_FATAL and transports with distinct tags, after `listen` on at least
  -- one address each transport has its earlier listeners followed by one for each address that it
  -- supports, and a tag without a transport has what it had.
  pub listen-listeners :
      (m : TransportManager M C) (a : M) (addrs : List M) (key : String)
      → m.fault_tolerance ≡ no_fatal
      → HasDistinctKeys m.transports
      → or_empty (StringMap.get key (listen m (a ∷ addrs)).0.listeners)
        ≡ or_empty (StringMap.get key m.listeners)
          ++ or_empty (filtered (a ∷ addrs) (StringMap.get key m.transports))
  unfolding listen
  listen-listeners m a addrs key f d =
      ground (arith, f, listeners-listen_each (a ∷ addrs) key m.transports m.listeners 0 d)
