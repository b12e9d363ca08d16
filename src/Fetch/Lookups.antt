-- ===== src/Fetch/Lookups.antt =====
-- Which lookup function answers for a key.
use text.Mathlib.Text.{starts_with}
use state_channels.Common.{
  ◌≡◌, ◌≢◌, refl, sym, ap, subst, ◌∙◌, ◌↔◌, true, false, inl, inr, Bool-cases, Option, none, some,
  List, [], ◌∷◌, String, if◌then◌else◌, All, eq_of_some, none_ne_some,
}
use state_channels.Common.StringMap
use state_channels.Common.StringMap.{StringMap, HasDistinctKeys}
use state_channels.Fetch.{FetchService, first_prefix, get_lookup_function}

module _ {L : Type 0} where
  -- A function answers for a key: its prefix begins the key, and that of no function registered before does.
  pub data AnswersFor (key : String) : StringMap L → L → Type 0 where
    here :
        {p : String} {f : L} {m : StringMap L}
        → starts_with key p ≡ true
        → AnswersFor key ((p, f) ∷ m) f
    there :
        {p : String} {f g : L} {m : StringMap L}
        → starts_with key p ≡ false
        → AnswersFor key m f
        → AnswersFor key ((p, g) ∷ m) f

  -- The loop over the prefixes, as a function of the entries.
  first_entry : String → StringMap L → Option L
  first_entry key [] = none
  first_entry key ((p, f) ∷ m) = if starts_with key p then some f else first_entry key m

  first_prefix-cons :
      (p : String) (f : L) (m : StringMap L) (key : String) (ps : List String)
      → All (λ q. p ≢ q) ps
      → first_prefix ((p, f) ∷ m) key ps ≡ first_prefix m key ps
  first_prefix-cons p f m key [] a = refl
  first_prefix-cons p f m key (q ∷ ps) (n, as') = elim (Bool-cases (starts_with key q)) [
    | inl e ↦ rw e (StringMap.get_there q p f m n)
    | inr e ↦ rw e (first_prefix-cons p f m key ps as')
  ]

  other_keys :
      (p : String) (m : StringMap L) → StringMap.Absent p m → All (λ q. p ≢ q) (StringMap.keys m)
  other_keys p [] a = tt
  other_keys p (e ∷ m) (n, a) = (λ x. n (sym x), other_keys p m a)

  first_prefix-first_entry :
      (m : StringMap L) (key : String)
      → HasDistinctKeys m
      → first_prefix m key (StringMap.keys m) ≡ first_entry key m
  unfolding first_entry
  first_prefix-first_entry [] key d = refl
  first_prefix-first_entry ((p, f) ∷ m) key (a, d) = elim (Bool-cases (starts_with key p)) [
    | inl e ↦ rw e (StringMap.get_here p p f m refl)
    | inr e ↦ rw e (
        first_prefix-cons p f m key (StringMap.keys m) (other_keys p m a)
        ∙ first_prefix-first_entry m key d)
  ]

  first_entry-AnswersFor :
      (m : StringMap L) (key : String) (f : L) → first_entry key m ≡ some f → AnswersFor key m f
  unfolding first_entry
  first_entry-AnswersFor [] key f h = absurd (none_ne_some h)
  first_entry-AnswersFor ((p, g) ∷ m) key f h = elim (Bool-cases (starts_with key p)) [
    | inl e ↦
        subst (AnswersFor key ((p, g) ∷ m))
          (eq_of_some (sym (ap (λ b. if b then some g else first_entry key m) e) ∙ h)) (here e)
    | inr e ↦ there e (
        first_entry-AnswersFor m key f
          (sym (ap (λ b. if b then some g else first_entry key m) e) ∙ h))
  ]

  AnswersFor-first_entry :
      (m : StringMap L) (key : String) (f : L) → AnswersFor key m f → first_entry key m ≡ some f
  unfolding first_entry
  AnswersFor-first_entry [] key f x = elim x [ ]
  AnswersFor-first_entry ((p, g) ∷ m) key f (here e) =
      ap (λ b. if b then some g else first_entry key m) e
  AnswersFor-first_entry ((p, g) ∷ m) key f (there e x) =
      ap (λ b. if b then some g else first_entry key m) e ∙ AnswersFor-first_entry m key f x

  -- If the prefixes are distinct, the function that `_getLookupFunction` returns for a key is the one that answers for it:
  -- of the functions whose prefix begins the key, the one that was registered first.
  pub get_lookup_function-AnswersFor :
      (s : FetchService L) (key : String) (f : L)
      → HasDistinctKeys s.lookup_functions
      → get_lookup_function s key ≡ some f ↔ AnswersFor key s.lookup_functions f
  unfolding get_lookup_function
  get_lookup_function-AnswersFor s key f d =
      let e = first_prefix-first_entry s.lookup_functions key d in
      (
        λ h. first_entry-AnswersFor s.lookup_functions key f (sym e ∙ h),
        λ a. e ∙ AnswersFor-first_entry s.lookup_functions key f a,
      )
