-- ===== src/Registrar.antt =====
-- js-libp2p/src/registrar.ts: `DefaultRegistrar`. A topology and a stream handler are other packages': the registrar keeps
-- them and tells topologies of peers. The peer store's protocols of a peer are an argument.
pub mod Handlers
pub mod Ids
pub mod Topologies
pub mod Protocols
pub mod Notices
use state_channels.Common.{
  ℕ, Bool, true, false, Option, none, some, List, [], ◌∷◌, ◌++◌, map, flat_map, any, not, String,
  ite, str_dec, if◌then◌else◌, head?,
}
use state_channels.Common.StringMap
use state_channels.Common.StringMap.{StringMap}
use state_channels.Common.Texts.{has_text, unique}
use state_channels.Common.Sort.{sort}
use state_channels.Errors.{
  Code, Result, ok, err, ◌>>=◌, ◌>>◌, throw_if, or_throw, err_no_handler_for_protocol,
  err_protocol_handler_already_registered, err_invalid_parameters,
}
use state_channels.Manager.{Manager, Connection, get_connections_of}

abbrev pub default_max_inbound_streams : ℕ
default_max_inbound_streams = 32

abbrev pub default_max_outbound_streams : ℕ
default_max_outbound_streams = 64

pub record StreamHandlerOptions : Type 0 where
  pub max_inbound_streams : Option ℕ
  pub max_outbound_streams : Option ℕ

pub record StreamHandlerRecord (H : Type 0) : Type 0 where
  pub handler : H
  pub max_inbound_streams : ℕ
  pub max_outbound_streams : ℕ

pub record Registrar (H T : Type 0) : Type 0 where
  pub topologies : StringMap (StringMap T)
  pub handlers : StringMap (StreamHandlerRecord H)

-- What the registrar tells others: the protocols of the peer itself, and peers that come and go.
pub data Effect (T : Type 0) : Type 0 where
  add_protocols : List String → Effect T
  remove_protocols : List String → Effect T
  topology_connect : T → String → Connection → Effect T
  topology_disconnect : T → String → Effect T

abbrev pub or_default {ℓ} : {A : Type ℓ} → Option A → A → A
or_default none d = d
or_default (some a) d = a

-- `[...map.values()]` of a map that may be missing
abbrev pub values_or_empty {ℓ} : {V : Type ℓ} → Option (StringMap V) → List V
values_or_empty none = []
values_or_empty (some m) = StringMap.values m

-- `ps.filter(p => !qs.includes(p))`
unfoldable pub except : List String → List String → List String
except qs [] = []
except qs (p ∷ ps) = let rest = except qs ps in if has_text p qs then rest else p ∷ rest

module _ {H : Type 0} where
  -- The record that `handle` keeps: the defaults, overridden by the options that are given.
  abbrev pub handler_record : H → StreamHandlerOptions → StreamHandlerRecord H
  handler_record h o = record {
    handler = h;
    max_inbound_streams = or_default o.max_inbound_streams default_max_inbound_streams;
    max_outbound_streams = or_default o.max_outbound_streams default_max_outbound_streams;
  }

  abbrev pub delete_all :
      List String → StringMap (StreamHandlerRecord H) → StringMap (StreamHandlerRecord H)
  delete_all [] m = m
  delete_all (p ∷ ps) m = delete_all ps (StringMap.delete p m)

module _ {T : Type 0} where
  abbrev pub or_new : Option (StringMap T) → StringMap T
  or_new none = []
  or_new (some m) = m

  abbrev pub unless_empty : String → StringMap T → StringMap (StringMap T) → StringMap (StringMap T)
  unless_empty protocol [] rest = rest
  unless_empty protocol (e ∷ m) rest = (protocol, e ∷ m) ∷ rest

  -- The loop of `unregister`.
  unfoldable pub unregister_each : String → StringMap (StringMap T) → StringMap (StringMap T)
  unregister_each id [] = []
  unregister_each id ((protocol, m) ∷ rest) =
      let rest' = unregister_each id rest in
      if StringMap.has id m
      then unless_empty protocol (StringMap.delete id m) rest'
      else (protocol, m) ∷ rest'

  abbrev pub connect_first : Option Connection → String → T → List (Effect T)
  connect_first none p t = []
  connect_first (some c) p t = topology_connect t p c ∷ []

module _ {H T : Type 0} where
  unfoldable pub new : Registrar H T
  new = record { topologies = []; handlers = [] }

  -- `getProtocols`; `after` is the order of `Array.prototype.sort`.
  unfoldable pub get_protocols : (String → String → Bool) → Registrar H T → List String
  unfolding unique
  get_protocols after r =
      sort after (unique [] (StringMap.keys r.topologies ++ StringMap.keys r.handlers))

  unfoldable pub get_handler : Registrar H T → String → Result (StreamHandlerRecord H)
  get_handler r protocol = or_throw (StringMap.get protocol r.handlers) err_no_handler_for_protocol

  unfoldable pub get_topologies : Registrar H T → String → List T
  get_topologies r protocol = values_or_empty (StringMap.get protocol r.topologies)

  unfoldable pub handle :
      Registrar H T → String → H → StreamHandlerOptions → Result (Registrar H T × List (Effect T))
  handle r protocol h o = do
    throw_if (StringMap.has protocol r.handlers) err_protocol_handler_already_registered
    ok (
      record r { handlers = StringMap.set protocol (handler_record h o) r.handlers },
      add_protocols (protocol ∷ []) ∷ [],
    )

  unfoldable pub unhandle : Registrar H T → List String → Registrar H T × List (Effect T)
  unhandle r protocols =
      (record r { handlers = delete_all protocols r.handlers }, remove_protocols protocols ∷ [])

  -- `register`: `id` is the random id that it makes, `is_topology` the test of the interface's package.
  unfoldable pub register :
      (T → Bool) → Registrar H T → String → T → String → Result (Registrar H T × String)
  register is_topology r protocol t id = do
    throw_if (not (is_topology t)) err_invalid_parameters
    ok (
      record r {
        topologies =
            StringMap.set protocol
              (StringMap.set id t (or_new (StringMap.get protocol r.topologies))) r.topologies;
      },
      id,
    )

  unfoldable pub unregister : Registrar H T → String → Registrar H T
  unfolding unregister_each
  unregister r id = record r { topologies = unregister_each id r.topologies }

  -- `_onDisconnect`, once the peer store has returned the protocols of the peer.
  unfoldable pub on_disconnect : Registrar H T → String → List String → List (Effect T)
  unfolding get_topologies
  on_disconnect r p protocols =
      flat_map (λ protocol. map (λ t. topology_disconnect t p) (get_topologies r protocol))
        protocols

  -- `_onConnect`
  unfoldable pub on_connect : Registrar H T → Connection → List String → List (Effect T)
  unfolding get_topologies
  on_connect r c protocols =
      flat_map
        (λ protocol. map (λ t. topology_connect t c.remote_peer c) (get_topologies r protocol))
        protocols

  -- `_onProtocolChange`, with the manager as it is when the event comes.
  unfoldable pub on_protocol_change :
      Manager → Registrar H T → String → List String → List String → List (Effect T)
  unfolding get_topologies except
  on_protocol_change m r p protocols old_protocols =
      let removed = except protocols old_protocols in
      let added = except old_protocols protocols in
      flat_map (λ protocol. map (λ t. topology_disconnect t p) (get_topologies r protocol)) removed
      ++ flat_map
          (λ protocol.
            flat_map (connect_first (head? (get_connections_of m p)) p) (get_topologies r protocol))
          added
