-- ===== src/Circuit/AutoRelay.antt =====
-- js-libp2p/src/circuit/auto-relay.ts: `AutoRelay`. How an attempt to listen over a relay ends, whether a peer answers and
-- what the peer store and the network know of are arguments.
pub mod Listening
pub mod Overlapping
use state_channels.Common.{
  ℕ, Bool, true, false, not, ◌&&◌, Option, none, some, List, [], ◌∷◌, ◌++◌, String, ite, str_dec,
  if◌then◌else◌, length, leb, any,
}
use state_channels.Common.Texts.{has_text}
use state_channels.Circuit.Transport.{relay_codec}

pub record AutoRelay : Type 0 where
  pub listen_relays : List String  -- a Set
  pub max_listeners : ℕ

-- `maxListeners ?? 1`
unfoldable pub new : Option ℕ → AutoRelay
new none = record { listen_relays = []; max_listeners = 1 }
new (some n) = record { listen_relays = []; max_listeners = n }

-- What the peer store says of a peer, and whether there are connections to it.
pub record KnownPeer : Type 0 where
  pub id : String
  pub supports_hop : Bool
  pub connected : Bool

-- A provider that content routing finds.
pub record Provider : Type 0 where
  pub id : String
  pub has_multiaddrs : Bool

-- `Set.add` and `Set.delete`
abbrev pub add_text : String → List String → List String
add_text id ids = if has_text id ids then ids else ids ++ id ∷ []

abbrev pub delete_text : String → List String → List String
delete_text id [] = []
delete_text id (i ∷ ids) = let rest = delete_text id ids in ite (str_dec i id) rest (i ∷ rest)

abbrev pub is_full : AutoRelay → Bool
is_full s = leb s.max_listeners (length s.listen_relays)

-- `_addListenRelay` after its first `await`: whether listening has succeeded at each address of the relay, or `none` if the
-- address book has thrown.
abbrev pub end_attempt : AutoRelay → String → Option (List Bool) → AutoRelay
end_attempt s id none = record s { listen_relays = delete_text id s.listen_relays }
end_attempt s id (some results) =
    if any (λ r. r) results then record s { listen_relays = add_text id s.listen_relays } else s

module _ (listen : String → Option (List Bool)) where
  -- `_addListenRelay`
  unfoldable pub add_listen_relay : AutoRelay → String → AutoRelay
  add_listen_relay s id = if is_full s then s else end_attempt s id (listen id)

  -- `_handleProtocols` on the first connection to a peer that has the protocol.
  abbrev pub use_connection : AutoRelay → String → Option Bool → Bool → AutoRelay
  use_connection s id none supports_hop = s
  use_connection s id (some true) supports_hop = s
  use_connection s id (some false) supports_hop = if supports_hop then add_listen_relay s id else s

  -- The first loop of `_listenOnAvailableHopRelays`: whether it returns, and the peers that are left to be dialled.
  unfoldable pub listen_connected :
      List String → List KnownPeer → AutoRelay → List String → AutoRelay × Bool × List String
  unfolding add_listen_relay
  listen_connected ignore [] s dial = (s, false, dial)
  listen_connected ignore (p ∷ ps) s dial =
      let skipped = listen_connected ignore ps s dial in
      let postponed = listen_connected ignore ps s (dial ++ p.id ∷ []) in
      let s' = add_listen_relay s p.id in
      let rest = listen_connected ignore ps s' dial in
      if has_text p.id s.listen_relays
      then skipped
      else if has_text p.id ignore
      then skipped
      else if not p.supports_hop
      then skipped
      else if not p.connected
      then postponed
      else if is_full s'
      then (s', true, dial)
      else rest

  module _ (opens : String → Bool) where
    -- `_tryToListenOnRelay`; `opens` says whether `openConnection` succeeds.
    unfoldable pub try_to_listen_on_relay : AutoRelay → String → AutoRelay
    unfolding add_listen_relay
    try_to_listen_on_relay s id = if opens id then add_listen_relay s id else s

    -- The second loop.
    unfoldable pub listen_dialed : List String → AutoRelay → AutoRelay × Bool
    unfolding try_to_listen_on_relay
    listen_dialed [] s = (s, false)
    listen_dialed (id ∷ ids) s =
        let s' = try_to_listen_on_relay s id in
        let rest = listen_dialed ids s' in if is_full s' then (s', true) else rest

    -- The third loop.
    unfoldable pub listen_found : String → List Provider → AutoRelay → AutoRelay
    unfolding try_to_listen_on_relay
    listen_found own [] s = s
    listen_found own (p ∷ ps) s =
        let skipped = listen_found own ps s in
        let s' = try_to_listen_on_relay s p.id in
        let rest = listen_found own ps s' in
        if not p.has_multiaddrs
        then skipped
        else if ite (str_dec p.id own) true false
        then skipped
        else if is_full s'
        then s'
        else rest

    module _ (own : String) (peers : List KnownPeer) (providers : List Provider) where
      -- `_listenOnAvailableHopRelays`
      unfoldable pub listen_on_available_hop_relays : AutoRelay → List String → AutoRelay
      unfolding listen_connected listen_dialed listen_found
      listen_on_available_hop_relays s ignore =
          let (s₁, done₁, dial) = listen_connected ignore peers s [] in
          let (s₂, done₂) = listen_dialed dial s₁ in
          if is_full s
          then s
          else if done₁
          then s₁
          else if done₂
          then s₂
          else listen_found own providers s₂

      -- `_removeListenRelay`
      unfoldable pub remove_listen_relay : AutoRelay → String → AutoRelay
      unfolding listen_on_available_hop_relays
      remove_listen_relay s id =
          if has_text id s.listen_relays
          then listen_on_available_hop_relays
              (record s { listen_relays = delete_text id s.listen_relays }) (id ∷ [])
          else s

      -- `_onPeerDisconnected`
      unfoldable pub on_peer_disconnected : AutoRelay → String → AutoRelay
      unfolding remove_listen_relay
      on_peer_disconnected s id =
          if not (has_text id s.listen_relays) then s else remove_listen_relay s id

      -- `_handleProtocols`: whether the first connection to the peer, if there is one, is relayed, and what `canHop` says.
      unfoldable pub handle_protocols :
          AutoRelay → String → List String → Option Bool → Bool → AutoRelay
      unfolding remove_listen_relay add_listen_relay
      handle_protocols s id protocols relayed supports_hop =
          if not (has_text relay_codec protocols)
          then if has_text id s.listen_relays then remove_listen_relay s id else s
          else if has_text id s.listen_relays
          then s
          else use_connection s id relayed supports_hop
