-- ===== src/Dialer/Target/Dialing.antt =====
-- Dials that begin, join and end, and what they leave in the dialer.
use state_channels.Common.{
  ℕ, ◌<◌, ◌≡◌, refl, sym, ap, subst, Bool, ◌⊎◌, inl, inr, Bool-cases, Option, none, some, ltb,
  ltb-false, length, String, str_dec, ite, none_ne_some, List, ◌++◌, min, ◌≢◌, All,
}
use state_channels.Common.StringMap
use state_channels.Common.StringMap.{StringMap, HasDistinctKeys}
use state_channels.Errors.{Result, ok, err, throw_if, ◌>>◌, err_no_valid_addresses}
use state_channels.Manager.Opening.{PeerAddress}
use state_channels.Dialer.{Dialer, get_tokens}
use state_channels.Dialer.Tokens.{get_tokens_lem}
use state_channels.Dialer.Target.Resolving.{
  IsDepth, All-map, each-some, map_option-some, resolve-some,
}
use state_channels.Dialer.Target.{
  Network, DialTarget, map_option, join, join_dial, join_made, destroy, begin_target, end_target,
  check_peer, create_dial_target, begin_dial, create_pending_dial, each, resolve, given, target_of,
}

-- The targets that are being made do not change over the making of one, whose random id is new.
end_target-begin_target :
    (d : Dialer) (id : String) (controller : ℕ)
    → StringMap.get id d.pending_dial_targets ≡ none
    → end_target (begin_target d id controller) id ≡ d
unfolding end_target begin_target
end_target-begin_target d id controller h =
    ap (λ m. record d { pending_dial_targets = m })
      (StringMap.delete-set id controller d.pending_dial_targets h)

-- A new dial has taken tokens that were free: no more than it has addresses and than one peer may have.
abbrev pub Takes : Dialer → Dialer → ℕ → Type 0
Takes d d' n =
    (taken : List ℕ) × ((d.tokens ≡ taken ++ d'.tokens)
      × (length taken ≡ min n (min d.max_dials_per_peer (length d.tokens))))

-- The dial that a caller waits for is in flight for the id of its target; it is the one that was in flight, if one was, and
-- else its own, which has taken its tokens.
abbrev pub Joins : {M : Type 0} → Dialer → Dialer → ℕ → DialTarget M → ℕ → Type 0
Joins d d' call t pending =
    (0 < length t.addrs)
    × (StringMap.get t.id d'.pending_dials ≡ some pending)
    × ((StringMap.get t.id d.pending_dials ≡ some pending × (d' ≡ d))
        ⊎ (StringMap.get t.id d.pending_dials ≡ none
            × (pending ≡ call)
            × Takes d d' (length t.addrs)))
    × (d'.pending_dial_targets ≡ d.pending_dial_targets)

join-Joins :
    {M : Type 0} (d : Dialer) (t : DialTarget M) (call : ℕ) (o : Option ℕ)
    → 0 < length t.addrs
    → StringMap.get t.id d.pending_dials ≡ o
    → Joins d (join d t call o).1 call t (join d t call o).0
unfolding create_pending_dial get_tokens
join-Joins d t call none n e =
    let (l, p) = get_tokens_lem d (length t.addrs) in
    (
      n,
      StringMap.get-set_self t.id call d.pending_dials,
      inr (e, refl, ((get_tokens d (length t.addrs)).0, (sym p, l))),
      refl,
    )
join-Joins d t call (some p) n e = (n, e, inl (e, refl), refl)

abbrev pub Ends : {M : Type 0} → Dialer → ℕ → Dialer × Result (ℕ × DialTarget M) → Type 0
Ends d call (d', err e) = d' ≡ d
Ends d call (d', ok (pending, t)) = Joins d d' call t pending

join_dial-Ends :
    {M : Type 0} (d : Dialer) (call : ℕ) (r : Result (DialTarget M))
    → Ends d call (join_made d call r)
unfolding join_dial
join_dial-Ends {M} d call (err e) = refl
join_dial-Ends {M} d call (ok t) =
    let J = join d t call (StringMap.get t.id d.pending_dials) in
    let P = λ (b : Bool). Ends d call (made t (throw_if b err_no_valid_addresses >> ok J)) in
    elim (Bool-cases (ltb (length t.addrs) 1)) [
      | inl e ↦ subst P (sym e) refl
      | inr e ↦
          subst P (sym e)
            (join-Joins d t call (StringMap.get t.id d.pending_dials) (ltb-false _ _ e) refl)
    ]
  where
    made : DialTarget M → Result (ℕ × Dialer) → Dialer × Result (ℕ × DialTarget M)
    made t r = elim r [ err e ↦ (d, err e) | ok (pending, d') ↦ (d', ok (pending, t)) ]

abbrev EndsIn : {M : Type 0} → Dialer → ℕ → Option (Dialer × Result (ℕ × DialTarget M)) → Type 0
EndsIn d call none = Unit
EndsIn d call (some o) = Ends d call o

module _ {M : Type 0} (net : Network M) where
  begin_dial-EndsIn :
      (fuel : ℕ) (d : Dialer) (a : PeerAddress M) (id random : String) (call : ℕ)
      → StringMap.get id d.pending_dial_targets ≡ none
      → EndsIn d call (begin_dial net fuel d a id random call)
  unfolding begin_dial
  begin_dial-EndsIn fuel d a id random call n =
      let made = create_dial_target net fuel d a random in
      let begun = λ (x : Dialer). map_option (join_made x call) made in
      subst
        (λ x.
          EndsIn d call (elim ((check_peer net a).1) [ err e ↦ some (d, err e) | ok _ ↦ begun x ]))
        (sym (end_target-begin_target d id call n))
        (elim ((check_peer net a).1)
          as (λ c. EndsIn d call (elim c [ err e ↦ some (d, err e) | ok _ ↦ begun d ])) [
            | err e ↦ refl
            | ok _ ↦ elim made as (λ o. EndsIn d call (map_option (join_made d call) o)) [
              | none ↦ tt
              | some r ↦ join_dial-Ends d call r
            ]
          ])

  create_dial_target-some :
      (depth : M → ℕ) (fuel : ℕ) (d : Dialer) (a : PeerAddress M) (random : String)
      → IsDepth net depth
      → All (λ m. depth m < fuel) (given net a)
      → create_dial_target net fuel d a random ≢ none
  unfolding create_dial_target
  create_dial_target-some depth fuel d a random i h =
      map_option-some net (target_of net d a random) (each (resolve net fuel) (given net a)) (
        each-some net (resolve net fuel) (given net a) (
          All-map net (λ m. depth m < fuel) (λ m. resolve net fuel m ≢ none) (given net a)
            (λ m l. resolve-some net depth fuel m i l) h))

  begin_dial-some :
      (fuel : ℕ) (d : Dialer) (a : PeerAddress M) (id random : String) (call : ℕ)
      → create_dial_target net fuel d a random ≢ none
      → begin_dial net fuel d a id random call ≢ none
  unfolding begin_dial
  begin_dial-some fuel d a id random call h = begun ((check_peer net a).1)
    where
      made : Option (Dialer × Result (ℕ × DialTarget M))
      made =
          map_option (join_made (end_target (begin_target d id call) id) call)
            (create_dial_target net fuel d a random)

      begun :
          (c : Result (Unit {0}))
          → ◌≢◌ {A = Option (Dialer × Result (ℕ × DialTarget M))}
              (elim c [ err e ↦ some (d, err e) | ok _ ↦ made ])
              none
      begun (err e) x = none_ne_some (sym x)
      begun (ok _) x = map_option-some net _ (create_dial_target net fuel d a random) h x

  ended :
      (d : Dialer) (call : ℕ) (o : Option (Dialer × Result (ℕ × DialTarget M)))
      → o ≢ none
      → EndsIn d call o
      → (r : Dialer × Result (ℕ × DialTarget M)) × ((o ≡ some r) × Ends d call r)
  ended d call none n h = absurd (n refl)
  ended d call (some r) n h = (r, (refl, h))

  -- If the random id of a dial is not in use, some measure of multiaddrs gets smaller with every record of a name, and the
  -- fuel is more than the measure of the addresses that the dial begins with: the dial gets to its wait or fails. If it
  -- fails, it leaves the dialer as it was; else its target has an address, the dial it waits for is in flight for the
  -- target, and is the one that was in flight if there was one, else its own, which has taken as many of the free tokens
  -- as it has addresses, as one peer may have, or as there are. No target is left among those that are being made.
  pub begin_dial-Ends :
      (depth : M → ℕ) (fuel : ℕ) (d : Dialer) (a : PeerAddress M) (id random : String) (call : ℕ)
      → IsDepth net depth
      → All (λ m. depth m < fuel) (given net a)
      → StringMap.get id d.pending_dial_targets ≡ none
      → (r : Dialer × Result (ℕ × DialTarget M)) × ((begin_dial net fuel d a id random call
            ≡ some r)
          × Ends d call r)
  begin_dial-Ends depth fuel d a id random call i h n =
      ended d call (begin_dial net fuel d a id random call)
        (begin_dial-some fuel d a id random call
          (create_dial_target-some depth fuel d a random i h))
        (begin_dial-EndsIn fuel d a id random call n)

-- Once the dial that a caller waited for has ended, none is in flight for the target, and no other dial is affected.
destroy_lem :
    {M : Type 0} (d : Dialer) (t : DialTarget M) (id : String)
    → HasDistinctKeys d.pending_dials
    → StringMap.get id (destroy d t).pending_dials
      ≡ ite (str_dec t.id id) none (StringMap.get id d.pending_dials)
unfolding destroy
destroy_lem d t id h = StringMap.get-delete t.id id d.pending_dials h
