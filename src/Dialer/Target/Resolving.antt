-- ===== src/Dialer/Target/Resolving.antt =====
-- The recursive resolution of names.
use state_channels.Common.{
  ℕ, zero, suc, ◌<◌, ◌≡◌, ◌≢◌, refl, true, false, inl, inr, Bool-cases, if_both, Option, none, some,
  List, [], ◌∷◌, ◌++◌, All, All-append, any, arith,
}
use state_channels.Common.Texts.{has_text}
use state_channels.Dialer.Target.{
  Network, resolve, each, both, keep_first, map_option, or_none_found,
}

module _ {M : Type 0} (net : Network M) where
  abbrev pub IsResolvable : M → Type 0
  IsResolvable ma = has_text "dnsaddr" (net.proto_names ma) ≡ true

  abbrev pub next : M → List M
  next ma = or_none_found (net.resolve (net.multiaddr (net.to_string ma)))

  both-some : (x y : Option (List M)) → x ≢ none → y ≢ none → both x y ≢ none
  both-some none y h k = absurd (h refl)
  both-some (some xs) none h k = absurd (k refl)
  both-some (some xs) (some ys) h k = λ e. cc

  pub each-some :
      (f : M → Option (List M)) (ms : List M) → All (λ m. f m ≢ none) ms → each f ms ≢ none
  each-some f [] h = λ e. cc
  each-some f (m ∷ ms) h = both-some (f m) (each f ms) h.0 (each-some f ms h.1)

  pub map_option-some : {A B : Type 0} (f : A → B) (o : Option A) → o ≢ none → map_option f o ≢ none
  map_option-some f none h = λ e. h refl
  map_option-some f (some l) h = λ e. cc

  -- A measure that grows smaller with every name that is resolved.
  abbrev pub IsDepth : (M → ℕ) → Type 0
  IsDepth depth = (ma : M) → IsResolvable ma → All (λ m. depth m < depth ma) (next ma)

  pub All-map : (P Q : M → Type 0) (ms : List M) → ((m : M) → P m → Q m) → All P ms → All Q ms
  All-map P Q [] f h = tt
  All-map P Q (m ∷ ms) f h = (f m h.0, All-map P Q ms f h.1)

  -- If some measure of multiaddrs gets smaller with every record of a name, `_resolve` with more
  -- fuel than the measure of its argument returns.
  pub resolve-some :
      (depth : M → ℕ) (fuel : ℕ) (ma : M)
      → IsDepth depth
      → depth ma < fuel
      → resolve net fuel ma ≢ none
  unfolding resolve
  resolve-some depth zero ma d h = absurd (omega arith)
  resolve-some depth (suc fuel) ma d h =
      elim (Bool-cases (has_text "dnsaddr" (net.proto_names ma))) [
        | inl e ↦ rw e (
            map_option-some (keep_first net []) (each (resolve net fuel) (next ma)) (
              each-some (resolve net fuel) (next ma) (
                All-map (λ m. depth m < depth ma) (λ m. resolve net fuel m ≢ none) (next ma)
                  (λ m l. resolve-some depth fuel m d (omega arith)) (d ma e))))
        | inr e ↦ rw e (λ f. cc)
      ]

  -- Every address of a list that was found.
  abbrev pub AllIn : (M → Type 0) → Option (List M) → Type 0
  AllIn P none = Unit
  AllIn P (some l) = All P l

  both-AllIn : (P : M → Type 0) (x y : Option (List M)) → AllIn P x → AllIn P y → AllIn P (both x y)
  both-AllIn P none y h k = tt
  both-AllIn P (some xs) none h k = tt
  both-AllIn P (some xs) (some ys) h k = All-append P xs ys h k

  each-AllIn :
      (P : M → Type 0) (f : M → Option (List M)) (ms : List M)
      → ((m : M) → AllIn P (f m))
      → AllIn P (each f ms)
  each-AllIn P f [] h = tt
  each-AllIn P f (m ∷ ms) h = both-AllIn P (f m) (each f ms) (h m) (each-AllIn P f ms h)

  keep_first-All :
      (P : M → Type 0) (kept ms : List M) → All P kept → All P ms → All P (keep_first net kept ms)
  keep_first-All P kept [] h k = h
  keep_first-All P kept (m ∷ ms) h k =
      if_both (All P) (any (λ x. net.equals x m) kept) (keep_first-All P kept ms h k.1)
        (keep_first-All P (kept ++ m ∷ []) ms (All-append P kept (m ∷ []) h (k.0, tt)) k.1)

  map-AllIn :
      (P : M → Type 0) (o : Option (List M))
      → AllIn P o
      → AllIn P (map_option (keep_first net []) o)
  map-AllIn P none h = tt
  map-AllIn P (some l) h = keep_first-All P [] l tt h

  -- No multiaddr that `_resolve` returns is to be resolved further.
  pub resolve-AllIn :
      (fuel : ℕ) (ma : M)
      → AllIn (λ m. has_text "dnsaddr" (net.proto_names m) ≡ false) (resolve net fuel ma)
  unfolding resolve
  resolve-AllIn zero ma = tt
  resolve-AllIn (suc fuel) ma = elim (Bool-cases (has_text "dnsaddr" (net.proto_names ma))) [
    | inl e ↦ rw e (
        map-AllIn (λ m. has_text "dnsaddr" (net.proto_names m) ≡ false)
          (each (resolve net fuel) (next ma))
          (each-AllIn _ (resolve net fuel) (next ma) (resolve-AllIn fuel)))
    | inr e ↦ rw e (e, tt)
  ]
