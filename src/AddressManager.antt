-- ===== src/AddressManager.antt =====
-- js-libp2p/src/address-manager/index.ts: `DefaultAddressManager`. Multiaddrs are another package's: what the manager asks of
-- them is the record `Multiaddrs`. The addresses of the transports are an argument.
pub mod Advertising
use state_channels.Common.{
  ℕ, ◌≡◌, Bool, true, false, ◌||◌, Option, none, some, List, [], ◌∷◌, ◌++◌, map, String, ite,
  str_dec, if◌then◌else◌,
}
use state_channels.Common.Texts.{has_text, unique}

pub record Multiaddrs (M : Type 0) : Type 0 where
  pub own_peer : String  -- components.peerId.toString()
  pub multiaddr : String → M
  pub to_string : M → String
  pub get_peer_id : M → Option String
  pub is_path : M → Bool  -- ma.protos().pop()?.path === true
  pub without_own_peer : M → M  -- ma.decapsulate(multiaddr(`/p2p/${own_peer}`))
  pub with_own_peer : M → M  -- ma.encapsulate(`/p2p/${own_peer}`)

-- The sets `announce` and `observed` are lists in insertion order.
pub record AddressManager (M : Type 0) : Type 0 where
  pub listen : List String
  pub announce : List String
  pub observed : List String
  pub announce_filter : List M → List M

pub data Event : Type 0 where
  change_addresses : Event

pub record AddressManagerInit (M : Type 0) : Type 0 where
  pub announce_filter : Option (List M → List M)
  pub listen : Option (List String)
  pub announce : Option (List String)

abbrev or_empty : Option (List String) → List String
or_empty none = []
or_empty (some l) = l

module _ {M : Type 0} where
  abbrev or_all : Option (List M → List M) → List M → List M
  or_all none addrs = addrs
  or_all (some f) addrs = f addrs

  unfoldable pub new : AddressManagerInit M → AddressManager M
  unfolding unique
  new i = record {
    listen = or_empty i.listen;
    announce = unique [] (or_empty i.announce);
    observed = [];
    announce_filter = or_all i.announce_filter;
  }

module _ {M : Type 0} (mas : Multiaddrs M) where
  abbrev pub parse : List String → List M
  parse = map (λ t. mas.multiaddr t)

  abbrev pub print : List M → List String
  print = map (λ ma. mas.to_string ma)

  unfoldable pub get_listen_addrs : AddressManager M → List M
  get_listen_addrs m = parse m.listen

  unfoldable pub get_announce_addrs : AddressManager M → List M
  get_announce_addrs m = parse m.announce

  unfoldable pub get_observed_addrs : AddressManager M → List M
  get_observed_addrs m = parse m.observed

  abbrev pub is_own : Option String → Bool
  is_own none = false
  is_own (some p) = ite (str_dec p mas.own_peer) true false

  -- The text of an address that is observed, without the peer's own id.
  abbrev pub stripped : M → String
  stripped ma = mas.to_string (if is_own (mas.get_peer_id ma) then mas.without_own_peer ma else ma)

  unfoldable pub add_observed_addr : AddressManager M → M → AddressManager M × List Event
  add_observed_addr m ma =
      if has_text (stripped ma) m.observed
      then (m, [])
      else (record m { observed = m.observed ++ stripped ma ∷ [] }, change_addresses ∷ [])

  abbrev pub announced_or : List String → List M → List String
  announced_or [] transport_addrs = print transport_addrs
  announced_or (a ∷ announced) transport_addrs = a ∷ announced

  abbrev pub with_peer : M → M
  with_peer ma =
      if mas.is_path ma
      then ma
      else if is_own (mas.get_peer_id ma)
      then ma
      else mas.with_own_peer ma

  -- `getAddresses`, with the addresses of the transport manager.
  unfoldable pub get_addresses : AddressManager M → List M → List M
  unfolding unique get_announce_addrs get_observed_addrs
  get_addresses m transport_addrs =
      let addrs = announced_or (print (get_announce_addrs m)) transport_addrs in
      let all = unique [] (addrs ++ print (get_observed_addrs m)) in
      map with_peer (m.announce_filter (parse all))
