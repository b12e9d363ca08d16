-- ===== src/AddressManager/Advertising.antt =====
-- The addresses that peers observe.
use state_channels.Common.{
  ◌≡◌, refl, true, false, inl, inr, Bool-cases, List, [], ◌∷◌, ◌++◌, String, if◌then◌else◌, arith,
}
use state_channels.Common.Texts.{has_text, OccursOnce, has_text-append}
use state_channels.AddressManager.{
  Multiaddrs, AddressManager, change_addresses, stripped, add_observed_addr,
}

OccursOnce-append :
    (p : String) (ps : List String)
    → has_text p ps ≡ false
    → OccursOnce ps
    → OccursOnce (ps ++ p ∷ [])
OccursOnce-append p [] h o = (refl, tt)
OccursOnce-append p (q ∷ ps) h o =
    ground (arith, has_text-append q ps (p ∷ []), OccursOnce-append p ps, o.0)

module _ {M : Type 0} (mas : Multiaddrs M) where
  -- If the observed addresses are distinct, after an address is observed they are distinct and
  -- include it, a change is announced exactly if it was not among them, and observing it again
  -- changes and announces nothing.
  pub add_observed_addr_lem :
      (m : AddressManager M) (ma : M)
      → OccursOnce m.observed
      → let (m', es) = add_observed_addr mas m ma in
        OccursOnce m'.observed
        × (has_text (stripped mas ma) m'.observed ≡ true)
        × (es ≡ (if has_text (stripped mas ma) m.observed then [] else change_addresses ∷ []))
        × (add_observed_addr mas m' ma ≡ (m', []))
  unfolding add_observed_addr
  add_observed_addr_lem m ma o = elim (Bool-cases (has_text (stripped mas ma) m.observed)) [
    | inl e ↦ rw e (o, e, refl, rw e refl)
    | inr e ↦
        let p = stripped mas ma in
        let f : has_text p (m.observed ++ p ∷ []) ≡ true =
          ground (arith, has_text-append p m.observed (p ∷ [])) in
        rw e (OccursOnce-append p m.observed e o, f, refl, rw f refl)
  ]
