-- ===== src/Node.antt =====
-- js-libp2p/src/libp2p.ts: `Libp2pNode`. A service answers each call of its hooks with success or an error; the keychain's
-- answers are arguments. Of several services that fail in one phase the first listed one stands for the one that fails first.
pub mod Lifecycle
pub mod Peers
pub mod Handling
use state_channels.Common.{
  ℕ, Bool, true, false, not, ◌&&◌, Option, none, some, List, [], ◌∷◌, ◌++◌, map, String, ite,
  str_dec, if◌then◌else◌, length,
}
use state_channels.Common.Texts.{unique}
use state_channels.Errors.{
  Code, Result, ok, err, ◌>>=◌, ◌>>◌, throw_if, err_invalid_protocols_for_stream,
  err_discovered_self,
}
use state_channels.Manager.{Manager, Connection, get_connections}
use state_channels.Registrar.{Registrar, StreamHandlerOptions, handle, unhandle}

pub data Phase : Type 0 where
  before_start start_phase after_start before_stop stop_phase after_stop : Phase

-- A service of the list `services`; `start` and `stop` are there always, the other hooks need not be.
pub record Service : Type 0 where
  pub name : String
  pub has_before_start : Bool
  pub has_after_start : Bool
  pub has_before_stop : Bool
  pub has_after_stop : Bool

pub record Node : Type 0 where
  pub started : Bool
  pub services : List Service

-- A hook of a service is called.
pub record Call : Type 0 where
  pub phase : Phase
  pub service : String

abbrev pub has_hook : Phase → Service → Bool
has_hook before_start s = s.has_before_start
has_hook start_phase s = true
has_hook after_start s = s.has_after_start
has_hook before_stop s = s.has_before_stop
has_hook stop_phase s = true
has_hook after_stop s = s.has_after_stop

-- How the calls of hooks end.
abbrev pub Answers : Type 0
Answers = Phase → String → Result (Unit {0})

-- What the calls have been, and how it ends.
pub record Done : Type 0 where
  pub calls : List Call
  pub result : Result (Unit {0})

-- `await Promise.all(services.map(…))`: every hook is called, whatever the others answer.
abbrev pub calls_of : Phase → List Service → List Call
calls_of ph [] = []
calls_of ph (s ∷ ss) =
    if has_hook ph s
    then record { phase = ph; service = s.name } ∷ calls_of ph ss
    else calls_of ph ss

abbrev pub answer_of : Answers → Phase → Service → Result (Unit {0})
answer_of answers ph s = if has_hook ph s then answers ph s.name else ok tt

abbrev pub all_of : Answers → Phase → List Service → Result (Unit {0})
all_of answers ph [] = ok tt
all_of answers ph (s ∷ ss) = answer_of answers ph s >> all_of answers ph ss

unfoldable pub run_phase : Answers → Phase → List Service → Done
run_phase answers ph ss = record { calls = calls_of ph ss; result = all_of answers ph ss }

-- One phase after the other, as long as they succeed.
abbrev pub then_phase : Done → Done → Done
then_phase d rest = elim d.result [
  | ok _ ↦ record { calls = d.calls ++ rest.calls; result = rest.result }
  | err e ↦ d
]

module _ (answers : Answers) where
  abbrev pub three_phases : Phase → Phase → Phase → List Service → Done
  unfolding run_phase
  three_phases p q r ss =
      then_phase (run_phase answers p ss)
        (then_phase (run_phase answers q ss) (run_phase answers r ss))

  -- `stop`
  unfoldable pub stop : Node → Node × Done
  stop n =
      if not n.started
      then (n, record { calls = []; result = ok tt })
      else (record n { started = false }, three_phases before_stop stop_phase after_stop n.services)

  -- The `catch` of `start`.
  abbrev pub stop_on_error : Node → Done → Result (Unit {0}) → Node × Done
  unfolding stop
  stop_on_error n d (ok _) = (n, d)
  stop_on_error n d (err e) =
      let (n', d') = stop n in
      (n', record { calls = d.calls ++ d'.calls; result = d'.result >> err e })

  abbrev pub with_keys : Node → Result (Unit {0}) → Node × Done
  with_keys n (err e) = (n, record { calls = []; result = err e })
  with_keys n (ok _) =
      let d = three_phases before_start start_phase after_start n.services in
      stop_on_error n d d.result

  -- `start`. `listed` says whether the keychain lists a key named "self", `imported` how the import of one ends.
  unfoldable pub start : Result Bool → Result (Unit {0}) → Node → Node × Done
  start listed imported n =
      let keys = do has_self ← listed; if has_self then ok tt else imported
      in if n.started
        then (n, record { calls = []; result = ok tt })
        else with_keys (record n { started = true }) keys

-- `configureComponent`
abbrev pub configure_component : Node → Option Service → Node
configure_component n none = n
configure_component n (some s) = record n { services = n.services ++ s ∷ [] }

-- `getPeers`
abbrev pub remote_peers : List Connection → List String
remote_peers [] = []
remote_peers (c ∷ cs) = c.remote_peer ∷ remote_peers cs

unfoldable pub get_peers : Manager → List String
unfolding unique
get_peers m = unique [] (remote_peers (get_connections m))

-- `dialProtocol`; `dial` is `openConnection`, `new_stream` how the connection opens a stream.
unfoldable pub dial_protocol :
    {S : Type 0}
    → Result Connection
    → (Connection → List String → Result S)
    → Option (List String)
    → Result S
dial_protocol dial new_stream none = err err_invalid_protocols_for_stream
dial_protocol dial new_stream (some []) = err err_invalid_protocols_for_stream
dial_protocol dial new_stream (some (p ∷ ps)) = do c ← dial; new_stream c (p ∷ ps)

-- `onDiscoveryPeer`: what it does.
pub data Discovery (M : Type 0) : Type 0 where
  add_addresses : String → List M → Discovery M
  set_protocols : String → List String → Discovery M
  discovered : String → Discovery M

abbrev pub unless_none {ℓ κ} : {A : Type ℓ} {E : Type κ} → List A → List E → List E
unless_none [] es = []
unless_none (a ∷ as') es = es

unfoldable pub on_discovery_peer :
    {M : Type 0} → String → String → List M → List String → List (Discovery M)
on_discovery_peer own peer multiaddrs protocols =
    if ite (str_dec peer own) true false
    then []
    else unless_none multiaddrs (add_addresses peer multiaddrs ∷ [])
      ++ (unless_none protocols (set_protocols peer protocols ∷ []) ++ discovered peer ∷ [])

module _ {H T : Type 0} (h : H) (o : StreamHandlerOptions) where
  -- `handle` of several protocols: `registrar.handle` is called for each.
  unfoldable pub handle_all : Registrar H T → List String → Registrar H T × Result (Unit {0})
  handle_all r [] = (r, ok tt)
  handle_all r (p ∷ ps) = elim (handle r p h o) [
    | ok (r', es) ↦ handle_all r' ps
    | err e ↦ ((handle_all r ps).0, err e)
  ]

-- `unhandle` of several protocols
unfoldable pub unhandle_all : {H T : Type 0} → Registrar H T → List String → Registrar H T
unhandle_all r [] = r
unhandle_all r (p ∷ ps) = unhandle_all ((unhandle r (p ∷ [])).0) ps
