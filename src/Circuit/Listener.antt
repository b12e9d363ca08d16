-- ===== src/Circuit/Listener.antt =====
-- js-libp2p/src/circuit/listener.ts: the listener over relays. An address is the list of its segments; its parts are those
-- between segments `p2p-circuit`.
pub mod Announcing
use state_channels.Common.{
  Bool, true, false, Option, none, some, List, [], ◌∷◌, ◌++◌, String, if◌then◌else◌,
}
use state_channels.Common.StringMap
use state_channels.Common.StringMap.{StringMap}
use state_channels.Errors.{Result, ok, err}
use state_channels.Manager.{Connection}
use state_channels.Circuit.Transport.{split}

-- `listeningAddrs`
abbrev pub ListeningAddrs : Type 0 → Type 0
ListeningAddrs M = StringMap M

pub data Event : Type 0 where
  listening close : Event

-- `addr.toString().split('/p2p-circuit').find(a => a !== '')`
abbrev pub first_part : List (List String) → List String
first_part [] = []
first_part ([] ∷ ps) = first_part ps
first_part ((s ∷ ss) ∷ ps) = s ∷ ss

module _ {M : Type 0} where
  -- `relayed_addr` is the address of a connection with `/p2p-circuit`.
  abbrev pub listen_over :
      (Connection → M) → ListeningAddrs M → Result Connection → ListeningAddrs M × Bool
  listen_over relayed_addr m (err e) = (m, false)
  listen_over relayed_addr m (ok c) = (StringMap.set c.remote_peer (relayed_addr c) m, true)

  abbrev pub listen_to :
      (Connection → M)
      → (String → Result Connection)
      → ListeningAddrs M
      → Option String
      → ListeningAddrs M × Bool
  listen_to relayed_addr open_connection m none = (m, false)
  listen_to relayed_addr open_connection m (some relay) =
      listen_over relayed_addr m (open_connection relay)

  -- `listen`: the addresses after it, and whether it succeeds; `peer_id` is `getPeerId`.
  unfoldable pub listen :
      (Connection → M)
      → (String → Result Connection)
      → (List String → Option String)
      → ListeningAddrs M
      → List String
      → ListeningAddrs M × Bool
  unfolding split
  listen relayed_addr open_connection peer_id m addr =
      listen_to relayed_addr open_connection m (peer_id (first_part (split addr)))

  -- 'peer:disconnect'
  unfoldable pub on_disconnect : ListeningAddrs M → String → ListeningAddrs M × List Event
  on_disconnect m peer = (StringMap.delete peer m, if StringMap.has peer m then close ∷ [] else [])

  -- `getAddrs`
  abbrev pub get_addrs : ListeningAddrs M → List M
  get_addrs = StringMap.values

  -- `close`
  unfoldable pub close_listener : ListeningAddrs M → ListeningAddrs M
  close_listener m = m
