-- ===== src/Upgrader/Upgrading/Inbound.antt =====
-- What an inbound upgrade has checked, and what it leaves in the connection manager.
use state_channels.Common.{
  ◌≡◌, refl, ap, subst, ◌∙◌, Bool, true, false, inl, inr, Bool-cases, if_cases, true_ne_false,
  Option, none, some, String, arith, eq_of_some,
}
use state_channels.Common.StringMap
use state_channels.Errors.{
  ok, throw_if, or_throw, ok-inj, throw_if-false, bind-ok, then-ok, or_throw-ok,
  err_connection_intercepted, err_invalid_multiaddr, err_encryption_failed,
}
use state_channels.Manager.{Manager}
use state_channels.Manager.Admission.{
  RemoteAddr, accept_incoming_connection, accept_incoming_connection-state,
  after_upgrade_inbound-admit,
}
use state_channels.Upgrader.Upgrading.{
  Upgrader, Gater, ConnectionEncrypter, UpgraderOptions, Secured, Upgraded, encrypter_for,
  secured_by, encrypt_inbound, secure_inbound, protected, choose_muxer, multiplex_inbound,
  inbound_body, upgrade_inbound,
}

module _ {M L : Type 0} (u : Upgrader M) (g : Gater M) (o : UpgraderOptions)
    (consume : String → L → L × Bool) where
  -- However an inbound upgrade ends, the manager is as it was before.
  pub upgrade_inbound-state :
      (m : Manager) (a : RemoteAddr) (l : L) (ma : M)
      → (upgrade_inbound u g o consume m a l ma).0 ≡ m
  unfolding upgrade_inbound
  upgrade_inbound-state m a l ma =
      ground (arith, accept_incoming_connection-state consume m a l, after_upgrade_inbound-admit m)

module _ {M : Type 0} (u : Upgrader M) (g : Gater M) (o : UpgraderOptions) where
  -- What an inbound upgrade has found out of a connection before it returns it.
  pub record IsChecked (ma : M) (c : Upgraded) : Type 0 where
    pub raw : g.deny_inbound_connection ma ≡ false
    pub safe : M  -- the protected connection
    pub guarded : protected u o.skip_protection u.protect ma ≡ ok safe
    pub native : o.skip_encryption ≡ true → u.peer_id_of ma ≡ some c.remote_peer
    pub authentic :
        o.skip_encryption ≡ false
        → (e : ConnectionEncrypter M) × ((StringMap.get c.encryption u.connection_encryption
              ≡ some e)
            × (e.secure_inbound safe ≡ some c.remote_peer)
            × (g.deny_inbound_encrypted_connection c.remote_peer safe ≡ false))
    pub upgraded : g.deny_inbound_upgraded_connection c.remote_peer safe ≡ false

  pub secured_by-ok :
      (e : ConnectionEncrypter M) (p q : Option String) (s : Secured)
      → secured_by u e p q ≡ ok s
      → (p ≡ some s.encryption) × (q ≡ some s.remote_peer)
  secured_by-ok e none none s h = cc
  secured_by-ok e none (some x) s h = cc
  secured_by-ok e (some p) none s h = cc
  secured_by-ok e (some p) (some x) s h =
      subst (λ t. (some p ≡ some t.encryption) × (some x ≡ some t.remote_peer)) (ok-inj h)
        (refl, refl)

  pub encrypter_for-ok :
      (p : String) (e : ConnectionEncrypter M) (o' : Option String)
      → o' ≡ some p
      → encrypter_for u o' ≡ ok e
      → StringMap.get p u.connection_encryption ≡ some e
  encrypter_for-ok p e none h k = cc
  encrypter_for-ok p e (some q) h k =
      subst (λ r. StringMap.get r u.connection_encryption ≡ some e) (eq_of_some h)
        (or_throw-ok (StringMap.get q u.connection_encryption) err_encryption_failed e k)

  encrypt_inbound-ok :
      (ma : M) (s : Secured)
      → encrypt_inbound u ma ≡ ok s
      → (e : ConnectionEncrypter M) × ((StringMap.get s.encryption u.connection_encryption ≡ some e)
          × (e.secure_inbound ma ≡ some s.remote_peer))
  unfolding encrypt_inbound
  encrypt_inbound-ok ma s h =
      let p = u.handle ma (StringMap.keys u.connection_encryption) in
      let (e, (k, f)) = bind-ok (encrypter_for u p) _ s h in
      let (x, y) = secured_by-ok e p (e.secure_inbound ma) s f in
      (e, (encrypter_for-ok s.encryption e p x k, y))

  secure_inbound-ok :
      (ma safe : M) (s : Secured)
      → secure_inbound u g o ma safe ≡ ok s
      → (o.skip_encryption ≡ true → u.peer_id_of ma ≡ some s.remote_peer)
        × (o.skip_encryption ≡ false
            → (e : ConnectionEncrypter M) × ((StringMap.get s.encryption u.connection_encryption
                  ≡ some e)
                × (e.secure_inbound safe ≡ some s.remote_peer)
                × (g.deny_inbound_encrypted_connection s.remote_peer safe ≡ false)))
  unfolding secure_inbound
  secure_inbound-ok ma safe s h = elim (if_cases o.skip_encryption _ _ _ h) [
    | inl (e, k) ↦
        let (p, (f, x)) = bind-ok (or_throw (u.peer_id_of ma) err_invalid_multiaddr) _ s k in
        (
          λ _.
              or_throw-ok (u.peer_id_of ma) err_invalid_multiaddr p f
              ∙ ap (λ t. some t.remote_peer) (ok-inj x),
          λ d. absurd (true_ne_false e d),
        )
    | inr (e, k) ↦
        let (t, (f, x)) = bind-ok (encrypt_inbound u safe) _ s k in
        let (y, z) =
          then-ok
            (throw_if (g.deny_inbound_encrypted_connection t.remote_peer safe)
              err_connection_intercepted)
            (ok t) s x in
        let (c, (p, q)) = encrypt_inbound-ok safe s (f ∙ z) in
        let w =
          throw_if-false (g.deny_inbound_encrypted_connection t.remote_peer safe)
            err_connection_intercepted y in
        (
          λ d. absurd (true_ne_false d e),
          λ _. (
            c,
            (
              p,
              q,
              subst (λ v. g.deny_inbound_encrypted_connection v.remote_peer safe ≡ false) (ok-inj z)
                  w,
            ),
          ),
        )
  ]

  inbound_body-IsChecked : (ma : M) (c : Upgraded) → inbound_body u g o ma ≡ ok c → IsChecked ma c
  unfolding inbound_body
  inbound_body-IsChecked ma c h =
      let (a, h₁) =
        then-ok (throw_if (g.deny_inbound_connection ma) err_connection_intercepted) _ c h in
      let (safe, (b, h₂)) = bind-ok (protected u o.skip_protection u.protect ma) _ c h₁ in
      let (s, (d, h₃)) = bind-ok (secure_inbound u g o ma safe) _ c h₂ in
      let (mx, (_, h₄)) =
        bind-ok (choose_muxer u o.muxer_factory u.muxers (multiplex_inbound u safe)) _ c h₃ in
      let (f, h₅) =
        then-ok
          (throw_if (g.deny_inbound_upgraded_connection s.remote_peer safe)
            err_connection_intercepted)
          _ c h₄ in
      let (x, y) = secure_inbound-ok ma safe s d in
      subst (IsChecked ma) (ok-inj h₅) (record {
        raw = throw_if-false (g.deny_inbound_connection ma) err_connection_intercepted a;
        safe = safe;
        guarded = b;
        native = x;
        authentic = y;
        upgraded =
            throw_if-false (g.deny_inbound_upgraded_connection s.remote_peer safe)
              err_connection_intercepted f;
      })

  -- If an inbound upgrade returns a connection, the manager has accepted it, the gater has let it through at each stage, before
  -- protection on the raw connection and then on the one that the protector has returned, and its remote peer is the one that an encrypter of the node has authenticated, or, where encryption is
  -- skipped, the one that the address names.
  pub upgrade_inbound-IsChecked :
      {L : Type 0} (consume : String → L → L × Bool) (m : Manager) (a : RemoteAddr) (l : L) (ma : M)
      (c : Upgraded)
      → (upgrade_inbound u g o consume m a l ma).2 ≡ ok c
      → ((accept_incoming_connection consume m a l).0 ≡ true) × IsChecked ma c
  unfolding upgrade_inbound
  upgrade_inbound-IsChecked consume m a l ma c h =
      elim (Bool-cases ((accept_incoming_connection consume m a l).0)) [
        | inl e ↦ (e, inbound_body-IsChecked ma c (ground (arith, e, h)))
        | inr e ↦ ground (arith, e, h)
      ]
