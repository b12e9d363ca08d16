-- ===== src/Manager/Admission.antt =====
-- `acceptIncomingConnection` and `afterUpgradeInbound`. The rate limiter is another package's: its state is
-- threaded through, and `consume` answers for a host.
pub mod Balance
use text.Mathlib.Text.{starts_with}
use state_channels.Common.{
  ℕ, zero, suc, ◌≤◌, ◌<◌, String, ◌≡◌, refl, ap, ◌≢◌, ◌↔◌, ◌⊎◌, inl, inr, Bool, true, false, List,
  [], arith, any, if◌then◌else◌, length,
}
use state_channels.Common.Int.{ℤ, pos, negsuc, increment, decrement, equals, decrement-increment}
use state_channels.Manager.{Manager, under, get_connections}

-- What the manager asks of the remote address of a connection that comes in.
pub record RemoteAddr : Type 0 where
  pub text : String
  pub is_thin_waist : Bool
  pub host : String

-- Some multiaddr of the list begins the address.
abbrev pub listed : List String → RemoteAddr → Bool
listed mas a = any (λ ma. starts_with a.text ma) mas

abbrev pub admit : Manager → Manager
admit m = record m { incoming_pending_connections = increment m.incoming_pending_connections }

pub after_upgrade_inbound : Manager → Manager
after_upgrade_inbound m = record m {
  incoming_pending_connections = decrement m.incoming_pending_connections;
}

-- The end of an upgrade takes back what its acceptance counted.
pub after_upgrade_inbound-admit : (m : Manager) → after_upgrade_inbound (admit m) ≡ m
unfolding after_upgrade_inbound
after_upgrade_inbound-admit m =
    ap (λ z. record m { incoming_pending_connections = z })
      (decrement-increment m.incoming_pending_connections)

module _ {L : Type 0} (consume : String → L → L × Bool) where
  -- `try { await this.inboundConnectionRateLimiter.consume(host, 1) } catch { … }`
  abbrev pub rate : RemoteAddr → L → L × Bool
  rate a l = if a.is_thin_waist then consume a.host l else (l, true)

  -- The checks behind the one of the pending connections.
  abbrev check_rate_and_count : Manager → L × Bool → Bool × Manager × L
  check_rate_and_count m (l, within) =
      if within
      then (if under (length (get_connections m)) m.max_connections
          then (true, admit m, l)
          else (false, m, l))
      else (false, m, l)

  unfoldable pub accept_incoming_connection : Manager → RemoteAddr → L → Bool × Manager × L
  accept_incoming_connection m a l =
      if listed m.deny a
      then (false, m, l)
      else if listed m.allow a
      then (true, admit m, l)
      else if equals m.incoming_pending_connections m.max_incoming_pending_connections
      then (false, m, l)
      else check_rate_and_count m (rate a l)

  -- When an incoming connection is to be let in.
  abbrev pub Admissible : Manager → RemoteAddr → L → Type 0
  Admissible m a l =
      (listed m.deny a ≡ false)
      × ((listed m.allow a ≡ true)
          ⊎ ((m.incoming_pending_connections ≢ pos m.max_incoming_pending_connections)
              × ((rate a l).1 ≡ true)
              × (under (length (get_connections m)) m.max_connections ≡ true)))

  equals_iff : (z : ℤ) (n : ℕ) → (equals z n ≡ true) ↔ (z ≡ pos n)
  equals_iff (pos m) n = ground arith
  equals_iff (negsuc m) n = ground arith

  -- An incoming connection is let in exactly if its address is not on the deny list and either is
  -- on the allow list, or the pending connections are not as many as their maximum, the limiter
  -- lets the host pass, and fewer than the maximum of connections are tracked.
  pub accept_incoming_connection_iff :
      (m : Manager) (a : RemoteAddr) (l : L)
      → ((accept_incoming_connection m a l).0 ≡ true) ↔ Admissible m a l
  unfolding accept_incoming_connection
  accept_incoming_connection_iff m a l =
      ground (arith, equals_iff m.incoming_pending_connections m.max_incoming_pending_connections)

  -- A connection that is let in is counted as pending, and one that is refused changes nothing of the manager.
  pub accept_incoming_connection-state :
      (m : Manager) (a : RemoteAddr) (l : L)
      → let r = accept_incoming_connection m a l in r.1 ≡ (if r.0 then admit m else m)
  unfolding accept_incoming_connection
  accept_incoming_connection-state m a l = ground arith

  -- The inbound connections of a node over time: `n` of them are between the acceptance and the end
  -- of the upgrade, which calls `afterUpgradeInbound` however it ends.
  pub data Reach (start : Manager) : Manager → ℕ → Type 0 where
    none_yet : Reach start start 0
    arrives :
        {m : Manager} {n : ℕ} (a : RemoteAddr) (l : L)
        → Reach start m n
        → (accept_incoming_connection m a l).0 ≡ true
        → Reach start (accept_incoming_connection m a l).1 (suc n)
    refused :
        {m : Manager} {n : ℕ} (a : RemoteAddr) (l : L)
        → Reach start m n
        → (accept_incoming_connection m a l).0 ≡ false
        → Reach start (accept_incoming_connection m a l).1 n
    finished :
        {m : Manager} {n : ℕ} → Reach start m (suc n) → Reach start (after_upgrade_inbound m) n
