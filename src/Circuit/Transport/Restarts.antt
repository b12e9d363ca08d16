-- ===== src/Circuit/Transport/Restarts.antt =====
-- Starting and stopping the transport over a relay.
use state_channels.Common.{◌≡◌, refl, true, none, List, [], ◌∷◌, arith}
use state_channels.Common.StringMap
use state_channels.Common.StringMap.{HasDistinctKeys}
use state_channels.Errors.{err, err_no_handler_for_protocol}
use state_channels.Registrar.{StreamHandlerOptions, get_handler, unhandle}
use state_channels.Circuit.Transport.{Circuit, relay_codec, start, stop_circuit}

-- A call of the transport's `start` or `stop`.
pub data Call (H : Type 0) : Type 0 where
  start_call : H → StreamHandlerOptions → Call H
  stop_call : Call H

module _ {H T : Type 0} where
  abbrev pub call : Call H → Circuit H T → Circuit H T
  call (start_call h o) s = start h o s
  call stop_call s = stop_circuit s

  abbrev pub call_all : List (Call H) → Circuit H T → Circuit H T
  call_all [] s = s
  call_all (c ∷ cs) s = call_all cs (call c s)

  -- The transport takes itself for started, and the relay's protocol has no handler.
  abbrev pub IsDeaf : Circuit H T → Type 0
  IsDeaf s = (s.started ≡ true) × (StringMap.get relay_codec s.registrar.handlers ≡ none)

  call-IsDeaf : (c : Call H) (s : Circuit H T) → IsDeaf s → IsDeaf (call c s)
  unfolding start stop_circuit unhandle
  call-IsDeaf (start_call h o) s (e, f) = ground (arith, e, f)
  call-IsDeaf stop_call s (e, f) =
      (e, rw (StringMap.delete_of_get-none relay_codec s.registrar.handlers f) f)

  call_all-IsDeaf : (cs : List (Call H)) (s : Circuit H T) → IsDeaf s → IsDeaf (call_all cs s)
  call_all-IsDeaf [] s d = d
  call_all-IsDeaf (c ∷ cs) s d = call_all-IsDeaf cs (call c s) (call-IsDeaf c s d)

  -- If the protocols with handlers are distinct, a transport that has been started and is stopped has no handler for the relay's protocol, whatever sequence of calls of
  -- `start` and `stop` follows: it cannot be started again.
  pub call_all-stop_circuit :
      (cs : List (Call H)) (s : Circuit H T)
      → HasDistinctKeys s.registrar.handlers
      → s.started ≡ true
      → get_handler (call_all cs (stop_circuit s)).registrar relay_codec
        ≡ err err_no_handler_for_protocol
  unfolding stop_circuit unhandle get_handler
  call_all-stop_circuit cs s d e =
      let f = StringMap.get-delete_self relay_codec s.registrar.handlers d in
      let (_, g) = call_all-IsDeaf cs (stop_circuit s) (e, f) in rw g refl
