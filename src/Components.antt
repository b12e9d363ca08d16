-- ===== src/Components.antt =====
-- js-libp2p/src/components.ts: `DefaultComponents`, the fields in which the parts of a node find each other. A part is a value
-- of one type, and `as_startable` is the test `isStartable` with the hooks that the part has.
pub mod Starting
use state_channels.Common.{
  ℕ, ◌==◌, Bool, true, false, Option, none, some, List, [], ◌∷◌, ◌++◌, String, if◌then◌else◌,
}
use state_channels.Errors.{Result, ok, err}
use state_channels.Node.{
  Service, Done, Answers, Phase, before_start, start_phase, after_start, before_stop, stop_phase,
  after_stop, run_phase,
}

-- The fields of the class, in their order.
pub data Slot : Type 0 where
  peer_id address_manager peer_store upgrader metrics registrar connection_manager
        transport_manager :
      Slot
  connection_gater content_routing peer_routing datastore connection_protector dht pubsub dialer :
      Slot

abbrev pub all_slots : List Slot
all_slots =
    peer_id ∷ address_manager ∷ peer_store ∷ upgrader ∷ metrics ∷ registrar ∷ connection_manager
    ∷ transport_manager ∷ connection_gater ∷ content_routing ∷ peer_routing ∷ datastore
    ∷ connection_protector ∷ dht ∷ pubsub ∷ dialer ∷ []

abbrev pub position : Slot → ℕ
position peer_id = 0
position address_manager = 1
position peer_store = 2
position upgrader = 3
position metrics = 4
position registrar = 5
position connection_manager = 6
position transport_manager = 7
position connection_gater = 8
position content_routing = 9
position peer_routing = 10
position datastore = 11
position connection_protector = 12
position dht = 13
position pubsub = 14
position dialer = 15

-- The getters of these fields return what is there, if anything; the others throw.
abbrev pub is_optional : Slot → Bool
is_optional metrics = true
is_optional connection_protector = true
is_optional dht = true
is_optional pubsub = true
is_optional _ = false

-- What a getter comes to; the code of its error is "ERR_SERVICE_MISSING".
pub data Found (C : Type 0) : Type 0 where
  found : C → Found C
  undefined_found err_service_missing : Found C

pub record Components (C : Type 0) : Type 0 where
  pub started : Bool
  pub slots : Slot → Option C

module _ {C : Type 0} where
  -- The constructor, of the fields of its argument
  unfoldable pub new : (Slot → Option C) → Components C
  new init = record { started = false; slots = init }

  abbrev pub or_missing : Bool → Option C → Found C
  or_missing optional (some c) = found c
  or_missing true none = undefined_found
  or_missing false none = err_service_missing

  -- The getters
  unfoldable pub get : Components C → Slot → Found C
  get x s = or_missing (is_optional s) (x.slots s)

  -- The setters
  unfoldable pub set : Components C → Slot → Option C → Components C
  set x s c = record x { slots = λ t. if position s == position t then c else x.slots t }

  abbrev pub if_done : Components C → Bool → Result (Unit {0}) → Components C
  if_done x b (ok _) = record x { started = b }
  if_done x b (err e) = x

  module _ (as_startable : C → Option Service) where
    -- `Object.values(this).filter(obj => isStartable(obj))`
    abbrev pub startable_in : Option C → List Service
    startable_in none = []
    startable_in (some c) = elim (as_startable c) [ none ↦ [] | some s ↦ s ∷ [] ]

    abbrev pub startables_of : Components C → List Slot → List Service
    startables_of x [] = []
    startables_of x (s ∷ ss) = startable_in (x.slots s) ++ startables_of x ss

    abbrev pub startables : Components C → List Service
    startables x = startables_of x all_slots

    module _ (answers : Answers) where
      -- `beforeStart`, `afterStart`, `beforeStop` and `afterStop`
      unfoldable pub hooks : Phase → Components C → Done
      unfolding run_phase
      hooks ph x = run_phase answers ph (startables x)

      -- `start` and `stop`
      unfoldable pub start : Components C → Components C × Done
      unfolding run_phase
      start x = let d = run_phase answers start_phase (startables x) in (if_done x true d.result, d)

      unfoldable pub stop : Components C → Components C × Done
      unfolding run_phase
      stop x = let d = run_phase answers stop_phase (startables x) in (if_done x false d.result, d)
