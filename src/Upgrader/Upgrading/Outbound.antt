-- ===== src/Upgrader/Upgrading/Outbound.antt =====
-- What an outbound upgrade has checked.
use state_channels.Common.{
  ◌≡◌, refl, sym, ap, subst, ◌∙◌, false, inl, inr, if_cases, Option, some, String, eq_of_some,
}
use state_channels.Common.StringMap
use state_channels.Errors.{
  Result, ok, err, ◌>>◌, throw_if, or_throw, ok-inj, throw_if-false, bind-ok, then-ok, or_throw-ok,
  err_connection_intercepted, err_invalid_peer,
}
use state_channels.Upgrader.Upgrading.{
  Upgrader, Gater, ConnectionEncrypter, UpgraderOptions, Secured, Upgraded, once_protected,
  admitted, encrypter_for, encrypt_outbound, secure_outbound, protected, choose_muxer,
  multiplex_outbound, check_outbound, outbound_secured, upgrade_outbound,
}
use state_channels.Upgrader.Upgrading.Inbound.{encrypter_for-ok, secured_by-ok}

module _ {M : Type 0} (u : Upgrader M) (g : Gater M) (o : UpgraderOptions) where
  -- Every encrypter that is told which peer to expect authenticates that one or throws.
  abbrev pub IsAuthentic : Type 0
  IsAuthentic =
      (k : String) (e : ConnectionEncrypter M) (ma : M) (p q : String)
      → StringMap.get k u.connection_encryption ≡ some e
      → e.secure_outbound ma (some p) ≡ some q
      → q ≡ p

  encrypt_outbound-remote_peer :
      (ma : M) (p : String) (r : Option String) (s : Secured)
      → IsAuthentic
      → r ≡ some p
      → encrypt_outbound u ma r ≡ ok s
      → s.remote_peer ≡ p
  unfolding encrypt_outbound
  encrypt_outbound-remote_peer ma p r s a n h =
      let t = u.select ma (StringMap.keys u.connection_encryption) in
      let (e, (k, f)) = bind-ok (encrypter_for u t) _ s h in
      let (x, y) = secured_by-ok u g o e t (e.secure_outbound ma r) s f in
      a s.encryption e ma p s.remote_peer (encrypter_for-ok u g o s.encryption e t x k)
        (subst (λ v. e.secure_outbound ma v ≡ some s.remote_peer) n y)

  secure_outbound-remote_peer :
      (ma safe : M) (p : String) (s : Secured)
      → IsAuthentic
      → u.peer_id_of ma ≡ some p
      → secure_outbound u g o ma safe ≡ ok s
      → s.remote_peer ≡ p
  unfolding secure_outbound
  secure_outbound-remote_peer ma safe p s a n h = elim (if_cases o.skip_encryption _ _ _ h) [
    | inl (e, k) ↦
        let (q, (f, x)) = bind-ok (or_throw (u.peer_id_of ma) err_invalid_peer) _ s k in
        ap (λ t. t.remote_peer) (sym (ok-inj x))
        ∙ eq_of_some (sym (or_throw-ok (u.peer_id_of ma) err_invalid_peer q f) ∙ n)
    | inr (e, k) ↦
        let (t, (f, x)) = bind-ok (encrypt_outbound u safe (u.peer_id_of ma)) _ s k in
        let (y, z) =
          then-ok
            (throw_if (g.deny_outbound_encrypted_connection t.remote_peer safe)
              err_connection_intercepted)
            (ok t) s x in
        encrypt_outbound-remote_peer safe p (u.peer_id_of ma) s a n (f ∙ z)
  ]

  outbound_secured-remote_peer :
      (ma safe : M) (p : String) (c : Upgraded)
      → IsAuthentic
      → u.peer_id_of ma ≡ some p
      → outbound_secured u g o ma safe ≡ ok c
      → c.remote_peer ≡ p
  unfolding outbound_secured
  outbound_secured-remote_peer ma safe p c a n h =
      let (s, (d, h₁)) = bind-ok (secure_outbound u g o ma safe) _ c h in
      let (mx, (_, h₂)) =
        bind-ok (choose_muxer u o.muxer_factory u.muxers (multiplex_outbound u safe)) _ c h₁ in
      subst (λ c. c.remote_peer ≡ p) (ok-inj h₂) (secure_outbound-remote_peer ma safe p s a n d)

  once_protected-ok :
      (ma : M) (r : Result M) (c : Upgraded)
      → (once_protected u g o ma r).result ≡ ok c
      → (safe : M) × ((r ≡ ok safe)
          × ((admitted u g o safe (outbound_secured u g o ma safe)).result ≡ ok c))
  once_protected-ok ma (err e) c h = cc
  once_protected-ok ma (ok safe) c h = (safe, (refl, h))

  admitted-ok :
      (ma : M) (r : Result Upgraded) (c : Upgraded)
      → (admitted u g o ma r).result ≡ ok c
      → (r ≡ ok c) × (g.deny_outbound_upgraded_connection c.remote_peer ma ≡ false)
  admitted-ok ma (err e) c h = cc
  admitted-ok ma (ok d) c h =
      let (e, f) =
        then-ok
          (throw_if (g.deny_outbound_upgraded_connection d.remote_peer ma)
            err_connection_intercepted)
          (ok d) c h in
      let w =
        throw_if-false (g.deny_outbound_upgraded_connection d.remote_peer ma)
          err_connection_intercepted e in
      (f, subst (λ x. g.deny_outbound_upgraded_connection x.remote_peer ma ≡ false) (ok-inj f) w)

  -- If encrypters authenticate the peer that they are told to expect, an outbound upgrade of an address that names a peer
  -- returns a connection to that peer or fails; the gater has let the peer through before it, on the raw connection, and
  -- after it, on the protected one.
  pub upgrade_outbound-remote_peer :
      (ma : M) (p : String) (c : Upgraded)
      → IsAuthentic
      → u.peer_id_of ma ≡ some p
      → (upgrade_outbound u g o ma).result ≡ ok c
      → (safe : M) × ((protected u o.skip_protection u.protect ma ≡ ok safe)
          × ((c.remote_peer ≡ p)
              × ((g.deny_outbound_connection p ma ≡ false)
                  × (g.deny_outbound_upgraded_connection p safe ≡ false))))
  unfolding upgrade_outbound check_outbound
  upgrade_outbound-remote_peer ma p c a n h =
      let shielded = protected u o.skip_protection u.protect ma in
      let (safe, (x, y)) =
        once_protected-ok ma (check_outbound u g o (u.peer_id_of ma) ma >> shielded) c h in
      let (z, w) = admitted-ok safe (outbound_secured u g o ma safe) c y in
      let (v, k) = then-ok (check_outbound u g o (u.peer_id_of ma) ma) shielded safe x in
      let e = outbound_secured-remote_peer ma safe p c a n z in
      (
        safe,
        (
          k,
          (
            e,
            (
              throw_if-false (g.deny_outbound_connection p ma) err_connection_intercepted
                  (subst (λ q. check_outbound u g o q ma ≡ ok tt) n v),
              subst (λ q. g.deny_outbound_upgraded_connection q safe ≡ false) e w,
            ),
          ),
        ),
      )
