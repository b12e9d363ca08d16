-- ===== src/Circuit/Service.antt =====
-- js-libp2p/src/circuit/index.ts: `Relay`, which advertises the service. The content routing's answer is an argument.
use state_channels.Common.{Bool, true, false, ◌&&◌, List, [], ◌∷◌, if◌then◌else◌}
use state_channels.Errors.{Code, Result, ok, err, err_no_routers_available}

-- `started`, and whether the interval of the advertisement is set, has been cleared, or has never been set
pub data Timeout : Type 0 where
  never running cleared : Timeout

pub record Relay : Type 0 where
  pub started : Bool
  pub timeout : Timeout

pub data Effect : Type 0 where
  set_interval clear_interval : Effect

unfoldable pub new : Relay
new = record { started = false; timeout = never }

-- `start`; the options `hop.enabled` and `advertise.enabled` count unless they are false.
unfoldable pub start : Bool → Bool → Relay → Relay × List Effect
start hop_enabled advertise_enabled s =
    if hop_enabled && advertise_enabled
    then (record { started = true; timeout = running }, set_interval ∷ [])
    else (record s { started = true }, [])

abbrev pub clear_timeout : Timeout → Timeout × List Effect
clear_timeout never = (never, [])
clear_timeout running = (cleared, clear_interval ∷ [])
clear_timeout cleared = (cleared, clear_interval ∷ [])

-- `stop`
unfoldable pub stop : Relay → Relay × List Effect
stop s = let (t, es) = clear_timeout s.timeout in (record { started = false; timeout = t }, es)

-- `_advertiseService`: without a content router the service stops.
abbrev pub is_no_routers : Code → Bool
is_no_routers err_no_routers_available = true
is_no_routers _ = false

unfoldable pub advertise_service : Relay → Result (Unit {0}) → Relay × List Effect
unfolding stop
advertise_service s (ok u) = (s, [])
advertise_service s (err e) = if is_no_routers e then stop s else (s, [])
