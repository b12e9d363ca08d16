-- ===== src/Tests/Addresses.antt =====
-- A connection that is closed, and the address manager, at concrete inputs.
use state_channels.Common.{◌≡◌, refl, true, false, none, some, [], ◌∷◌, String, if◌then◌else◌}
use state_channels.Connection.{create, begin_close, closing}
use state_channels.Connection.Closing.{
  created, closes, raw_failed, Phase, Reach-Phase, begin_close_failed,
}
use state_channels.Connection.Closing
use state_channels.AddressManager.{Multiaddrs, AddressManager}
use state_channels.AddressManager.Advertising.{add_observed_addr_lem}
use state_channels.AddressManager.{add_observed_addr, stripped, change_addresses}
use state_channels.Common.Texts.{has_text, OccursOnce}

closed_once : Closing.Reach (begin_close create none).0 0 1
unfolding begin_close create
closed_once = raw_failed (closes none created)

Reach-Phase_example : Phase (begin_close create none).0 0 1
Reach-Phase_example = Reach-Phase (begin_close create none).0 0 1 closed_once

now_closing : (begin_close create none).0.status ≡ closing
unfolding begin_close create
now_closing = refl

-- Addresses that are their own texts, of the peer "me".
abbrev texts : Multiaddrs String
texts = record {
  own_peer = "me";
  multiaddr = λ t. t;
  to_string = λ t. t;
  get_peer_id = λ t. if text.Mathlib.Text.◌==◌ t "/tcp" then none else some "me";
  is_path = λ t. false;
  without_own_peer = λ t. t;
  with_own_peer = λ t. "/tcp/p2p/me";
}

abbrev node : AddressManager String
node = record { listen = []; announce = []; observed = "/udp" ∷ []; announce_filter = λ l. l }

add_observed_addr_lem_example :
    let (m', es) = add_observed_addr texts node "/tcp" in
    OccursOnce m'.observed
    × (has_text (stripped texts "/tcp") m'.observed ≡ true)
    × (es ≡ (if has_text (stripped texts "/tcp") node.observed then [] else change_addresses ∷ []))
    × (add_observed_addr texts m' "/tcp" ≡ (m', []))
add_observed_addr_lem_example = add_observed_addr_lem texts node "/tcp" (refl, tt)
