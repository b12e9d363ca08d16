-- ===== src/Tests/Upgrades.antt =====
-- The upgrader at concrete inputs: a raw connection is a text.
use state_channels.Common.{
  ℕ, zero, suc, ◌≡◌, refl, Bool, true, false, none, some, [], ◌∷◌, String, sym, ◌∙◌, subst, str_dec,
  eq_of_some, none_ne_some,
}
use state_channels.Common.Int.{pos}
use state_channels.Common.StringMap
use state_channels.Errors.{ok}
use state_channels.Manager.{Manager, finite, infinite, inbound, outbound}
use state_channels.Manager.Admission.{RemoteAddr, accept_incoming_connection}
use state_channels.Upgrader.Upgrading.{
  Upgrader, Gater, ConnectionEncrypter, UpgraderOptions, Upgraded, upgrade_inbound,
  upgrade_outbound, inbound_body, secure_inbound, encrypt_inbound, check_outbound, protected,
  outbound_secured, secure_outbound, encrypt_outbound,
}
use state_channels.Upgrader.Upgrading.Inbound.{IsChecked, upgrade_inbound-IsChecked}
use state_channels.Upgrader.Upgrading.Outbound.{IsAuthentic, upgrade_outbound-remote_peer}

abbrev manager : Manager
manager = record {
  opts = record {
    max_connections = finite 1;
    min_connections = 0;
    max_event_loop_delay = infinite;
    max_incoming_pending_connections = 10;
  };
  connections = [];
  started = true;
  allow = "/ip4/10." ∷ [];
  deny = [];
  incoming_pending_connections = pos 0;
}

abbrev remote : RemoteAddr
remote = record { text = "/ip4/10.0.0.1/tcp/1"; is_thin_waist = true; host = "10.0.0.1" }

abbrev consume : String → ℕ → ℕ × Bool
consume h zero = (zero, false)
consume h (suc n) = (n, true)

-- An encrypter that finds the peer "p" at the other end, whatever it is told.
abbrev noise : ConnectionEncrypter String
noise = record { protocol = "/noise"; secure_inbound = λ _. some "p"; secure_outbound = λ _ q. q }

abbrev upgrader : Upgrader String
upgrader = record {
  connection_encryption = ("/noise", noise) ∷ [];
  muxers = [];
  protect = some (λ t. ok t);
  handle = λ _ _. some "/noise";
  select = λ _ _. some "/noise";
  peer_id_of = λ _. some "p";
}

abbrev gater : Gater String
gater = record {
  deny_inbound_connection = λ _. false;
  deny_inbound_encrypted_connection = λ _ _. false;
  deny_inbound_upgraded_connection = λ _ _. false;
  deny_outbound_connection = λ _ _. false;
  deny_outbound_encrypted_connection = λ _ _. false;
  deny_outbound_upgraded_connection = λ _ _. false;
}

abbrev options : UpgraderOptions
options = record { skip_encryption = false; skip_protection = false; muxer_factory = none }

abbrev came_in : Upgraded
came_in = record {
  direction = inbound;
  remote_peer = "p";
  encryption = "/noise";
  multiplexer = none;
}

abbrev went_out : Upgraded
went_out = record {
  direction = outbound;
  remote_peer = "p";
  encryption = "/noise";
  multiplexer = none;
}

is_upgraded : (upgrade_inbound upgrader gater options consume manager remote 5 "ma").2 ≡ ok came_in
unfolding upgrade_inbound inbound_body secure_inbound encrypt_inbound accept_incoming_connection
is_upgraded = rw (StringMap.get_here "/noise" "/noise" noise [] refl) refl

upgrade_inbound-IsChecked_example :
    ((accept_incoming_connection consume manager remote 5).0 ≡ true)
    × IsChecked upgrader gater options "ma" came_in
upgrade_inbound-IsChecked_example =
    upgrade_inbound-IsChecked upgrader gater options consume manager remote 5 "ma" came_in
      is_upgraded

is_authentic : IsAuthentic upgrader gater options
is_authentic k e ma p q h x = elim (str_dec "/noise" k) [
  | yes y ↦
      let z : noise ≡ e = eq_of_some (sym (StringMap.get_here k "/noise" noise [] y) ∙ h) in
      sym (eq_of_some (subst (λ c. c.secure_outbound ma (some p) ≡ some q) (sym z) x))
  | no n ↦ absurd (
      none_ne_some (
        sym (StringMap.get_of_Absent {V = ConnectionEncrypter String} k [] tt)
        ∙ sym (StringMap.get_there k "/noise" noise [] n)
        ∙ h))
]

is_sent : (upgrade_outbound upgrader gater options "ma").result ≡ ok went_out
unfolding upgrade_outbound check_outbound outbound_secured secure_outbound encrypt_outbound
is_sent = rw (StringMap.get_here "/noise" "/noise" noise [] refl) refl

upgrade_outbound-remote_peer_example :
    (safe : String) × ((protected upgrader false upgrader.protect "ma" ≡ ok safe)
      × ((went_out.remote_peer ≡ "p")
          × ((gater.deny_outbound_connection "p" "ma" ≡ false)
              × (gater.deny_outbound_upgraded_connection "p" safe ≡ false))))
upgrade_outbound-remote_peer_example =
    upgrade_outbound-remote_peer upgrader gater options "ma" "p" went_out is_authentic refl is_sent
