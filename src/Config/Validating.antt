-- ===== src/Config/Validating.antt =====
-- Which options `validateConfig` lets through.
use state_channels.Common.{◌≡◌, refl, Bool, true, false, String, arith, if◌then◌else◌, sym}
use state_channels.Errors.{ok, throw_if, then-ok, throw_if-false, ok-inj}
use state_channels.Config.{
  Libp2pInit, Protector, undefined_protector, Platform, is_missing, is_null, add_user_agent,
  validate_config,
}

module _ {T E P : Type 0} (version : String) (platform : Platform) where
  -- Options that are let through name at least one transport and at least one encrypter, and are returned with no change
  -- but to the agent version; under LIBP2P_FORCE_PNET, their protector is not `null`.
  pub validate_config-ok :
      (forced : Bool) (o r : Libp2pInit T E P)
      → validate_config version platform forced o ≡ ok r
      → (is_missing o.transports ≡ false)
        × ((is_missing o.connection_encryption ≡ false)
            × (((forced ≡ true) → is_null o.connection_protector ≡ false)
                × (r ≡ add_user_agent version platform o)))
  unfolding validate_config
  validate_config-ok forced o r h =
      let (t, h₁) = then-ok (throw_if (is_missing o.transports) _) _ r h in
      let (e, h₂) = then-ok (throw_if (is_missing o.connection_encryption) _) _ r h₁ in
      let (p, h₃) = then-ok (throw_if _ _) _ r h₂ in
      (
        throw_if-false _ _ t,
        (
          throw_if-false _ _ e,
          (λ f. not_null forced o.connection_protector (throw_if-false _ _ p) f, sym (ok-inj h₃)),
        ),
      )
    where
      not_null :
          (f : Bool) (q : Protector P)
          → (if is_null q then f else false) ≡ false
          → f ≡ true
          → is_null q ≡ false
      not_null f q h e = ground (arith, h, e)

  -- If the options leave the protector out, LIBP2P_FORCE_PNET makes no difference: they are let through as without it.
  pub validate_config-undefined_protector :
      (forced : Bool) (o : Libp2pInit T E P)
      → o.connection_protector ≡ undefined_protector
      → validate_config version platform forced o ≡ validate_config version platform false o
  unfolding validate_config
  validate_config-undefined_protector forced o e = rw e refl
