-- ===== src/Dialer/Target/Addresses.antt =====
-- The addresses of a target.
use state_channels.Common.{
  suc, ◌≤◌, ◌≡◌, refl, ap, subst, Bool, true, false, not, inl, inr, Bool-cases, if_both,
  Option-cases, Option, none, some, List, [], ◌∷◌, All, map, ltb, ltb-false, length, String, arith,
}
use state_channels.Common.Texts.{has_text, unique}
use state_channels.Common.Sort.{sort, sort-All}
use state_channels.Errors.{ok, ok-inj, throw_if-ok, err_too_many_addresses}
use state_channels.Manager.Opening.{PeerAddress}
use state_channels.Dialer.{Dialer}
use state_channels.Dialer.Target.{
  Network, DialTarget, filter, has_transport, with_peer_id, with_peer, or_random, target_of,
  load_addresses,
}

length-map : {A B : Type 0} (f : A → B) (xs : List A) → length (map f xs) ≡ length xs
length-map f [] = refl
length-map f (x ∷ xs) = ap suc (length-map f xs)

All-map :
    {A B : Type 0} (P : B → Type 0) (f : A → B) (xs : List A)
    → All (λ x. P (f x)) xs
    → All P (map f xs)
All-map P f [] h = tt
All-map P f (x ∷ xs) h = (h.0, All-map P f xs h.1)

All-filter : {A : Type 0} (p : A → Bool) (xs : List A) → All (λ x. p x ≡ true) (filter p xs)
All-filter p [] = tt
All-filter p (x ∷ xs) = elim (Bool-cases (p x)) [
  | inl e ↦ rw e (e, All-filter p xs)
  | inr e ↦ rw e (All-filter p xs)
]

All-of : {A : Type 0} (P : A → Type 0) (xs : List A) → ((x : A) → P x) → All P xs
All-of P [] h = tt
All-of P (x ∷ xs) h = (h x, All-of P xs h)

All-imp :
    {A : Type 0} (P Q : A → Type 0) (xs : List A) → All P xs → ((x : A) → P x → Q x) → All Q xs
All-imp P Q [] h f = tt
All-imp P Q (x ∷ xs) h f = (f x h.0, All-imp P Q xs h.1 f)

unique-All : (P : String → Type 0) (seen ps : List String) → All P ps → All P (unique seen ps)
unfolding unique
unique-All P seen [] h = tt
unique-All P seen (p ∷ ps) h =
    if_both (All P) (has_text p seen) {y = p ∷ unique (p ∷ seen) ps} (unique-All P seen ps h.1)
      (h.0, unique-All P (p ∷ seen) ps h.1)

module _ {M : Type 0} (net : Network M) where
  -- `_loadAddresses` returns no multiaddr that the connection gater denies for the peer.
  pub load_addresses-All :
      (peer : String)
      → All (λ ma. net.deny_dial_multiaddr peer ma ≡ false) (load_addresses net peer)
  unfolding load_addresses
  load_addresses-All peer =
      let allowed =
        filter (λ a. not (net.deny_dial_multiaddr peer a.multiaddr)) (net.addresses peer) in
      All-map (λ ma. net.deny_dial_multiaddr peer ma ≡ false) (λ a. a.multiaddr)
        (sort net.goes_after allowed)
        (sort-All net.goes_after (λ a. net.deny_dial_multiaddr peer a.multiaddr ≡ false) allowed
          (All-imp _ _ _
            (All-filter (λ a. not (net.deny_dial_multiaddr peer a.multiaddr)) (net.addresses peer))
            (λ a h. ground (arith, h))))

  -- The multiaddr of the peer's own is what names the peer: the address that `with_peer_id` makes does so.
  with_peer_id-get_peer_id :
      (p : String) (addr : M)
      → ((m : M) (q : String) → net.get_peer_id (net.encapsulate m q) ≡ some q)
      → net.get_peer_id (with_peer_id net p addr) ≡ some p
  unfolding with_peer_id
  with_peer_id-get_peer_id p addr h = elim (Option-cases (net.get_peer_id addr)) [
    | inl e ↦ rw (e, with_peer_id) (h addr p)
    | inr (q, e) ↦ ground (arith, e, h addr p)
  ]

  supported : List M → List M
  supported resolved =
      map (λ t. net.multiaddr t)
        (unique [] (map (λ ma. net.to_string ma) (filter (has_transport net) resolved)))

  target_of-ok :
      (d : Dialer) (a : PeerAddress M) (random : String) (resolved : List M) (t : DialTarget M)
      → target_of net d a random resolved ≡ ok t
      → (length (supported resolved) ≤ d.max_addrs_to_dial)
        × (record {
          id = or_random a.peer_id random;
          addrs = with_peer net a.peer_id (supported resolved);
        }
            ≡ t)
  unfolding target_of supported
  target_of-ok d a random resolved t h =
      let (e, f) =
        throw_if-ok (ltb d.max_addrs_to_dial (length (supported resolved))) err_too_many_addresses _
          t h in
      (ltb-false _ _ e, ok-inj f)

  length-with_peer : (p : Option String) (ms : List M) → length (with_peer net p ms) ≡ length ms
  length-with_peer none ms = refl
  length-with_peer (some p) ms = length-map (with_peer_id net p) ms

  supported-All :
      (resolved : List M)
      → ((ma : M) → net.multiaddr (net.to_string ma) ≡ ma)
      → All (λ ma. has_transport net ma ≡ true) (supported resolved)
  unfolding supported
  supported-All resolved h =
      let texts = map (λ ma. net.to_string ma) (filter (has_transport net) resolved) in
      All-map (λ ma. has_transport net ma ≡ true) (λ t. net.multiaddr t) (unique [] texts)
        (unique-All (λ t. has_transport net (net.multiaddr t) ≡ true) [] texts
          (All-map (λ t. has_transport net (net.multiaddr t) ≡ true) (λ ma. net.to_string ma)
            (filter (has_transport net) resolved)
            (All-imp (λ ma. has_transport net ma ≡ true)
              (λ ma. has_transport net (net.multiaddr (net.to_string ma)) ≡ true) _
              (All-filter (has_transport net) resolved) (λ ma e. rw (h ma) e))))

  abbrev pub Names : Option String → M → Type 0
  Names none ma = has_transport net ma ≡ true
  Names (some p) ma = net.get_peer_id ma ≡ some p

  with_peer-All :
      (p : Option String) (resolved : List M)
      → ((ma : M) → net.multiaddr (net.to_string ma) ≡ ma)
      → ((m : M) (q : String) → net.get_peer_id (net.encapsulate m q) ≡ some q)
      → All (Names p) (with_peer net p (supported resolved))
  with_peer-All none resolved h k = supported-All resolved h
  with_peer-All (some p) resolved h k =
      All-map _ (with_peer_id net p) (supported resolved)
        (All-of _ (supported resolved) (λ ma. with_peer_id-get_peer_id p ma k))

  -- If a multiaddr is what its text says and an address that a peer id is added to names that
  -- peer: a target has at most `maxAddrsToDial` addresses, its id is the peer's or else the
  -- random one, and each address names the peer, or, if no peer is known, has a transport.
  pub target_of_lem :
      (d : Dialer) (a : PeerAddress M) (random : String) (resolved : List M) (t : DialTarget M)
      → ((ma : M) → net.multiaddr (net.to_string ma) ≡ ma)
      → ((m : M) (q : String) → net.get_peer_id (net.encapsulate m q) ≡ some q)
      → target_of net d a random resolved ≡ ok t
      → (length t.addrs ≤ d.max_addrs_to_dial)
        × (t.id ≡ or_random a.peer_id random)
        × All (Names a.peer_id) t.addrs
  target_of_lem d a random resolved t h k e =
      let (l, f) = target_of-ok d a random resolved t e in
      subst
        (λ t.
          (length t.addrs ≤ d.max_addrs_to_dial)
          × (t.id ≡ or_random a.peer_id random)
          × All (Names a.peer_id) t.addrs)
        f
        (
          rw (length-with_peer a.peer_id (supported resolved)) l,
          refl,
          with_peer-All a.peer_id resolved h k,
        )
