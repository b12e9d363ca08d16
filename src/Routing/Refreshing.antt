-- ===== src/Routing/Refreshing.antt =====
-- The refresh manager after the peer routing has been stopped.
use state_channels.Common.{◌≡◌, refl, Bool, true, false, List, [], ◌∷◌, arith}
use state_channels.Routing.{PeerRouting, Effect, start, stop, begin_query, end_query}

-- A call, and the beginning or the end of a query.
pub data Call : Type 0 where
  start_call : Bool → Bool → Call
  stop_call begin_call end_call : Call

abbrev pub call : Call → PeerRouting → PeerRouting × List Effect
call (start_call has_routers enabled) s = start has_routers enabled s
call stop_call s = stop s
call begin_call s = ((begin_query s).0, [])
call end_call s = (end_query s, [])

abbrev pub call_all : List Call → PeerRouting → PeerRouting
call_all [] s = s
call_all (c ∷ cs) s = call_all cs ((call c s).0)

-- `timeoutId` is never cleared.
call-has_timeout :
    (c : Call) (s : PeerRouting) → s.has_timeout ≡ true → (call c s).0.has_timeout ≡ true
unfolding start stop begin_query end_query
call-has_timeout (start_call has_routers enabled) s h = ground (arith, h)
call-has_timeout stop_call s h = h
call-has_timeout begin_call s h = ground (arith, h)
call-has_timeout end_call s h = h

-- It is started no more, whatever is called.
call-started :
    (c : Call) (s : PeerRouting)
    → s.has_timeout ≡ true
    → s.started ≡ false
    → (call c s).0.started ≡ false
unfolding start stop begin_query end_query
call-started (start_call has_routers enabled) s h k = ground (arith, h, k)
call-started stop_call s h k = refl
call-started begin_call s h k = ground (arith, h, k)
call-started end_call s h k = k

call_all-started :
    (cs : List Call) (s : PeerRouting)
    → s.has_timeout ≡ true
    → s.started ≡ false
    → (call_all cs s).started ≡ false
call_all-started [] s h k = k
call_all-started (c ∷ cs) s h k =
    call_all-started cs _ (call-has_timeout c s h) (call-started c s h k)

-- A peer routing whose refresh manager has been started is not started again after `stop`, whatever is called then.
pub call_all-stop :
    (cs : List Call) (s : PeerRouting)
    → s.has_timeout ≡ true
    → (call_all cs ((stop s).0)).started ≡ false
unfolding stop
call_all-stop cs s h = call_all-started cs (record s { started = false }) h refl
