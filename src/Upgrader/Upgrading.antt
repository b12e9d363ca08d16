-- ===== src/Upgrader/Upgrading.antt =====
-- js-libp2p/src/upgrader.ts: `upgradeInbound`, `upgradeOutbound` and what they are made of. Raw connections, the protector,
-- the encrypters, the connection gater and multistream-select are other packages': how their calls end is part of the
-- records `Upgrader` and `Gater`. The 'connection' event of a new connection is its result.
pub mod Inbound
pub mod Outbound
use state_channels.Common.{
  ℕ, ◌≡◌, Bool, true, false, not, Option, none, some, List, [], ◌∷◌, ◌++◌, String, if◌then◌else◌,
}
use state_channels.Common.StringMap
use state_channels.Common.StringMap.{StringMap}
use state_channels.Errors.{
  Code, Result, ok, err, ◌>>=◌, ◌>>◌, throw_if, or_throw, err_connection_denied,
  err_connection_intercepted, err_invalid_multiaddr, err_invalid_peer, err_encryption_failed,
  err_muxer_unavailable,
}
use state_channels.Manager.{Manager, Direction, inbound, outbound}
use state_channels.Manager.Admission.{RemoteAddr, accept_incoming_connection, after_upgrade_inbound}

-- An encrypter answers with the peer that it has authenticated, or throws.
pub record ConnectionEncrypter (M : Type 0) : Type 0 where
  pub protocol : String
  pub secure_inbound : M → Option String
  pub secure_outbound : M → Option String → Option String

pub record Upgrader (M : Type 0) : Type 0 where
  pub connection_encryption : StringMap (ConnectionEncrypter M)
  pub muxers : StringMap String  -- a muxer factory is known by its protocol
  pub protect : Option (M → Result M)  -- components.connectionProtector, with the connection that it returns
  pub handle : M → List String → Option String  -- mss.handle: the protocol, or `none` if it throws
  pub select : M → List String → Option String  -- mss.select
  pub peer_id_of : M → Option String  -- maConn.remoteAddr.getPeerId()

pub record Gater (M : Type 0) : Type 0 where
  pub deny_inbound_connection : M → Bool
  pub deny_inbound_encrypted_connection : String → M → Bool
  pub deny_inbound_upgraded_connection : String → M → Bool
  pub deny_outbound_connection : String → M → Bool
  pub deny_outbound_encrypted_connection : String → M → Bool
  pub deny_outbound_upgraded_connection : String → M → Bool

pub record UpgraderOptions : Type 0 where
  pub skip_encryption : Bool
  pub skip_protection : Bool
  pub muxer_factory : Option String

-- Who is at the other end, and by which protocol this is known.
pub record Secured : Type 0 where
  pub remote_peer : String
  pub encryption : String

-- What `_createConnection` makes a connection of.
pub record Upgraded : Type 0 where
  pub direction : Direction
  pub remote_peer : String
  pub encryption : String
  pub multiplexer : Option String

-- The lists of the constructor, as maps by protocol.
abbrev pub by_protocol : {A : Type 0} → (A → String) → List A → StringMap A → StringMap A
by_protocol f [] m = m
by_protocol f (a ∷ as') m = by_protocol f as' (StringMap.set (f a) a m)

-- An outbound upgrade ends with a connection or an error, and with the raw connection closed or not.
pub record OutboundEnd : Type 0 where
  pub result : Result Upgraded
  pub closed : Bool

module _ {M : Type 0} (u : Upgrader M) where
  abbrev pub encrypter_for : Option String → Result (ConnectionEncrypter M)
  encrypter_for none = err err_encryption_failed
  encrypter_for (some p) = or_throw (StringMap.get p u.connection_encryption) err_encryption_failed

  abbrev pub secured_by : ConnectionEncrypter M → Option String → Option String → Result Secured
  secured_by e p none = err err_encryption_failed
  secured_by e none (some peer) = err err_encryption_failed
  secured_by e (some p) (some peer) = ok (record { remote_peer = peer; encryption = p })

  -- `_encryptInbound`
  unfoldable pub encrypt_inbound : M → Result Secured
  encrypt_inbound ma = do
    let p = u.handle ma (StringMap.keys u.connection_encryption)
    e ← encrypter_for p
    secured_by e p (e.secure_inbound ma)

  -- `_encryptOutbound`
  unfoldable pub encrypt_outbound : M → Option String → Result Secured
  encrypt_outbound ma remote = do
    let p = u.select ma (StringMap.keys u.connection_encryption)
    e ← encrypter_for p
    secured_by e p (e.secure_outbound ma remote)

  abbrev pub muxer_for : Option String → Result (Option String)
  muxer_for none = err err_muxer_unavailable
  muxer_for (some p) = ok (StringMap.get p u.muxers)

  -- `_multiplexInbound` and `_multiplexOutbound`
  unfoldable pub multiplex_inbound : M → Result (Option String)
  multiplex_inbound ma = muxer_for (u.handle ma (StringMap.keys u.muxers))

  unfoldable pub multiplex_outbound : M → Result (Option String)
  multiplex_outbound ma = muxer_for (u.select ma (StringMap.keys u.muxers))

  abbrev pub choose_muxer :
      Option String → StringMap String → Result (Option String) → Result (Option String)
  choose_muxer (some f) ms multiplexed = ok (some f)
  choose_muxer none [] multiplexed = ok none
  choose_muxer none (m ∷ ms) multiplexed = multiplexed

  -- The connection that goes on from protection.
  abbrev pub protected : Bool → Option (M → Result M) → M → Result M
  protected true p ma = ok ma
  protected false none ma = ok ma
  protected false (some protect) ma = protect ma

  module _ (g : Gater M) (o : UpgraderOptions) where
    -- `safe` is the protected connection, here and below; the gater, which is handed the encrypted one merged into it, reads
    -- nothing that encryption changes.
    unfoldable pub secure_inbound : (ma safe : M) → Result Secured
    unfolding encrypt_inbound
    secure_inbound ma safe =
        let plain = do
          p ← or_throw (u.peer_id_of ma) err_invalid_multiaddr
          ok (record { remote_peer = p; encryption = "native" })
        in let encrypted = do
          s ← encrypt_inbound safe
          throw_if (g.deny_inbound_encrypted_connection s.remote_peer safe)
              err_connection_intercepted
          ok s
          in if o.skip_encryption then plain else encrypted

    -- `upgradeInbound` between the acceptance and the `finally`.
    unfoldable pub inbound_body : M → Result Upgraded
    unfolding secure_inbound multiplex_inbound
    inbound_body ma = do
      throw_if (g.deny_inbound_connection ma) err_connection_intercepted
      safe ← protected o.skip_protection u.protect ma
      s ← secure_inbound ma safe
      muxer ← choose_muxer o.muxer_factory u.muxers (multiplex_inbound safe)
      throw_if (g.deny_inbound_upgraded_connection s.remote_peer safe) err_connection_intercepted
      ok (record {
        direction = inbound;
        remote_peer = s.remote_peer;
        encryption = s.encryption;
        multiplexer = muxer;
      })

    -- `upgradeInbound`: the manager is asked, and is told of the end of an upgrade that it has let begin.
    unfoldable pub upgrade_inbound :
        {L : Type 0} (consume : String → L → L × Bool)
        → Manager
        → RemoteAddr
        → L
        → M
        → Manager × L × Result Upgraded
    unfolding inbound_body
    upgrade_inbound consume m a l ma =
        let (accept, m', l') = accept_incoming_connection consume m a l in
        if accept
        then (after_upgrade_inbound m', l', inbound_body ma)
        else (m', l', err err_connection_denied)

    unfoldable pub check_outbound : Option String → M → Result (Unit {0})
    check_outbound none ma = ok tt
    check_outbound (some p) ma =
        throw_if (g.deny_outbound_connection p ma) err_connection_intercepted

    unfoldable pub secure_outbound : (ma safe : M) → Result Secured
    unfolding encrypt_outbound
    secure_outbound ma safe =
        let plain = do
          p ← or_throw (u.peer_id_of ma) err_invalid_peer
          ok (record { remote_peer = p; encryption = "native" })
        in let encrypted = do
          s ← encrypt_outbound safe (u.peer_id_of ma)
          throw_if (g.deny_outbound_encrypted_connection s.remote_peer safe)
              err_connection_intercepted
          ok s
          in if o.skip_encryption then plain else encrypted

    -- The inner `try` of `upgradeOutbound`.
    unfoldable pub outbound_secured : (ma safe : M) → Result Upgraded
    unfolding secure_outbound multiplex_outbound
    outbound_secured ma safe = do
      s ← secure_outbound ma safe
      muxer ← choose_muxer o.muxer_factory u.muxers (multiplex_outbound safe)
      ok (record {
        direction = outbound;
        remote_peer = s.remote_peer;
        encryption = s.encryption;
        multiplexer = muxer;
      })

    -- What follows the inner `try`, with its `catch`.
    abbrev pub admitted : M → Result Upgraded → OutboundEnd
    admitted safe (err e) = record { result = err e; closed = true }
    admitted safe (ok c) = record {
      result =
          throw_if (g.deny_outbound_upgraded_connection c.remote_peer safe)
            err_connection_intercepted
          >> ok c;
      closed = false;
    }

    abbrev pub once_protected : M → Result M → OutboundEnd
    once_protected ma (err e) = record { result = err e; closed = false }
    once_protected ma (ok safe) = admitted safe (outbound_secured ma safe)

    -- `upgradeOutbound`
    unfoldable pub upgrade_outbound : M → OutboundEnd
    unfolding check_outbound outbound_secured
    upgrade_outbound ma =
        once_protected ma
          (check_outbound (u.peer_id_of ma) ma >> protected o.skip_protection u.protect ma)
