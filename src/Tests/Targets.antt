-- ===== src/Tests/Targets.antt =====
-- The targets of dials at a concrete network: multiaddrs are texts, which name themselves as peers, and "name" resolves to "a" and "b".
use state_channels.Common.{
  ℕ, ◌<◌, ◌≡◌, refl, Bool, true, false, Option, none, some, List, [], ◌∷◌, All, String, arith,
  if◌then◌else◌,
}
use state_channels.Common.StringMap
use state_channels.Common.Texts.{unique}
use state_channels.Errors.{Result, ok}
use state_channels.Manager.{Connection}
use state_channels.Manager.Opening.{PeerAddress}
use state_channels.TransportManager.{
  Transport, fatal_all, failed, first_transport, transport_for_multiaddr,
}
use state_channels.Dialer.{Dialer}
use state_channels.Dialer.Target.{
  Network, DialTarget, target_of, with_peer_id, or_none_found, begin_dial,
}
use state_channels.Dialer.Target.Resolving.{IsDepth}
use state_channels.Dialer.Target.Dialing.{Ends, begin_dial-Ends}

abbrev protos : String → List String
protos t = if text.Mathlib.Text.◌==◌ t "name" then "dnsaddr" ∷ [] else []

abbrev records : String → Option (List String)
records t = if text.Mathlib.Text.◌==◌ t "name" then some ("a" ∷ "b" ∷ []) else none

abbrev tcp : Transport String Connection
tcp = record { tag = some "tcp"; filter = λ l. l; dial = λ m. failed none; can_listen = λ m. true }

abbrev net : Network String
net = record {
  own_peer = "me";
  proto_names = protos;
  resolve = records;
  to_string = λ t. t;
  multiaddr = λ t. t;
  equals = λ s t. text.Mathlib.Text.◌==◌ s t;
  get_peer_id = λ t. some t;
  encapsulate = λ t p. p;
  transports = record {
    transports = ("tcp", tcp) ∷ [];
    listeners = [];
    fault_tolerance = fatal_all;
    started = true;
  };
  deny_dial_peer = λ p. false;
  deny_dial_multiaddr = λ p ma. text.Mathlib.Text.◌==◌ ma "b";
  addresses = λ p.
      (record { multiaddr = "a"; is_certified = false })
      ∷ (record { multiaddr = "b"; is_certified = true })
      ∷ [];
  goes_after = λ a b. false;
}

abbrev depth : String → ℕ
depth t = if text.Mathlib.Text.◌==◌ t "name" then 1 else 0

is_name-IsDepth :
    (b : Bool)
    → All
        (λ m. depth m < (if b then 1 else 0))
        (or_none_found (if b then some ("a" ∷ "b" ∷ []) else none))
is_name-IsDepth true = (omega arith, (omega arith, tt))
is_name-IsDepth false = tt

depth-IsDepth : IsDepth net depth
depth-IsDepth ma h = is_name-IsDepth (text.Mathlib.Text.◌==◌ ma "name")

abbrev dialer : Dialer
dialer = record {
  started = true;
  max_addrs_to_dial = 25;
  max_dials_per_peer = 4;
  keep_multiple_connections = false;
  tokens = 0 ∷ 1 ∷ 2 ∷ [];
  pending_dials = [];
  pending_dial_targets = [];
}

abbrev you : PeerAddress String
you = record { peer_id = some "you"; multiaddr = some "a" }

abbrev target : DialTarget String
target = record { id = "you"; addrs = with_peer_id net "you" "a" ∷ [] }

target_made : target_of net dialer you "random" ("a" ∷ []) ≡ ok target
unfolding target_of unique transport_for_multiaddr first_transport
target_made = refl

abbrev somewhere : PeerAddress String
somewhere = record { peer_id = none; multiaddr = some "a" }

abbrev anonymous : DialTarget String
anonymous = record { id = "random"; addrs = "a" ∷ [] }

no_target : StringMap.get "id" dialer.pending_dial_targets ≡ none
unfolding StringMap.get
no_target = refl

begin_dial-Ends_example :
    (r : Dialer × Result (ℕ × DialTarget String)) × ((begin_dial net 1 dialer somewhere "id"
          "random" 7
        ≡ some r)
      × Ends dialer 7 r)
begin_dial-Ends_example =
    begin_dial-Ends net depth 1 dialer somewhere "id" "random" 7 depth-IsDepth (omega arith, tt)
      no_target
