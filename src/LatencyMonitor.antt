-- ===== src/LatencyMonitor.antt =====
-- js-libp2p/src/connection-manager/latency-monitor.ts: `LatencyMonitor`. A measured delay is a number of the platform: the
-- record `Numbers` has what is done with them. Timers are kept by whether they are set.
pub mod Measuring
use state_channels.Common.{
  ℕ, suc, ◌+◌, ◌==◌, Bool, true, false, not, Option, none, some, List, [], ◌∷◌, ◌++◌, if◌then◌else◌,
}

pub record Numbers : Type 1 where
  pub Carrier : Type 0
  pub zero_ms : Carrier
  pub add : Carrier → Carrier → Carrier
  pub min_of : Carrier → Carrier → Carrier
  pub max_of : Carrier → Carrier → Carrier
  pub divide : Carrier → ℕ → Carrier

-- `latencyData`: `none` stands for the infinite minimum and maximum of no events.
pub record LatencyData (D : Type 0) : Type 0 where
  pub events : ℕ
  pub min_ms : Option D
  pub max_ms : Option D
  pub total_ms : D

pub record SummaryObject (D : Type 0) : Type 0 where
  pub events : ℕ
  pub min_ms : Option D
  pub max_ms : Option D
  pub avg_ms : Option D

-- `checking` is whether `checkLatencyID` is set, `emitting` whether `emitIntervalID` is, and `watching` whether there is a
-- `visibilityChangeEmitter`.
pub record LatencyMonitor (D : Type 0) : Type 0 where
  pub emits : Bool
  pub checking : Bool
  pub emitting : Bool
  pub watching : Bool
  pub latency_data : LatencyData D

-- The interval of the option, in milliseconds: 0 and null turn the summaries off, and the default is 5 seconds.
pub data IntervalOption : Type 0 where
  undefined_option null_option : IntervalOption
  given : ℕ → IntervalOption

abbrev pub emits_with : IntervalOption → Bool
emits_with undefined_option = true
emits_with null_option = false
emits_with (given n) = not (n == 0)

module _ (d : Numbers) where
  -- `initLatencyData`
  abbrev pub init_latency_data : LatencyData d.Carrier
  init_latency_data = record { events = 0; min_ms = none; max_ms = none; total_ms = d.zero_ms }

  unfoldable pub new : IntervalOption → LatencyMonitor d.Carrier
  new o = record {
    emits = emits_with o;
    checking = false;
    emitting = false;
    watching = false;
    latency_data = init_latency_data;
  }

  abbrev pub extreme :
      (d.Carrier → d.Carrier → d.Carrier) → Option d.Carrier → d.Carrier → d.Carrier
  extreme f none x = x
  extreme f (some y) x = f y x

  -- The data point of a callback.
  abbrev pub add_point : LatencyData d.Carrier → d.Carrier → LatencyData d.Carrier
  add_point l x = record {
    events = suc l.events;
    min_ms = some (extreme d.min_of l.min_ms x);
    max_ms = some (extreme d.max_of l.max_ms x);
    total_ms = d.add l.total_ms x;
  }

  -- `_startTimers`
  unfoldable pub start_timers : LatencyMonitor d.Carrier → LatencyMonitor d.Carrier
  start_timers m = if m.checking then m else record m { checking = true; emitting = m.emits }

  -- `_stopTimers`
  unfoldable pub stop_timers : LatencyMonitor d.Carrier → LatencyMonitor d.Carrier
  stop_timers m = record m { checking = false; emitting = false }

  -- `getSummary`
  abbrev pub average : LatencyData d.Carrier → Option d.Carrier
  average l = if l.events == 0 then none else some (d.divide l.total_ms l.events)

  unfoldable pub get_summary :
      LatencyMonitor d.Carrier → LatencyMonitor d.Carrier × SummaryObject d.Carrier
  get_summary m =
      let l = m.latency_data in
      (
        record m { latency_data = init_latency_data },
        record { events = l.events; min_ms = l.min_ms; max_ms = l.max_ms; avg_ms = average l },
      )

  -- `_emitSummary`
  unfoldable pub emit_summary :
      LatencyMonitor d.Carrier → LatencyMonitor d.Carrier × List (SummaryObject d.Carrier)
  unfolding get_summary
  emit_summary m = let (m', s) = get_summary m in (m', if s.events == 0 then [] else s ∷ [])

  -- `start`, in a browser or not, with the page visible or not
  unfoldable pub start : Bool → Bool → LatencyMonitor d.Carrier → LatencyMonitor d.Carrier
  unfolding start_timers
  start is_browser is_visible m =
      let m' = if is_browser then record m { watching = true } else m in
      if m'.watching then (if is_visible then start_timers m' else m') else m'

  -- 'visibilityChange', which only a watching monitor hears of
  unfoldable pub visibility_change :
      Bool → LatencyMonitor d.Carrier → LatencyMonitor d.Carrier × List (SummaryObject d.Carrier)
  unfolding start_timers stop_timers emit_summary
  visibility_change in_focus m =
      let (m', es) = emit_summary m in
      if not m.watching
      then (m, [])
      else if in_focus
      then (start_timers m, [])
      else (stop_timers m', es)

  -- The callback of `checkLatency`, with the delay that it has measured.
  unfoldable pub callback : d.Carrier → LatencyMonitor d.Carrier → LatencyMonitor d.Carrier
  callback x m =
      if not m.checking then m else record m { latency_data = add_point m.latency_data x }

  -- The interval, which runs only while it is set.
  unfoldable pub tick :
      LatencyMonitor d.Carrier → LatencyMonitor d.Carrier × List (SummaryObject d.Carrier)
  unfolding emit_summary
  tick m = let r = emit_summary m in if m.emitting then r else (m, [])
