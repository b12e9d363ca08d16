-- ===== src/LatencyMonitor/Measuring.antt =====
-- When the monitor measures, and what a summary is made of.
use state_channels.Common.{◌≡◌, refl, ap, ◌∙◌, Bool, false, List, [], ◌∷◌, ◌++◌, arith}
use state_channels.LatencyMonitor.{
  Numbers, SummaryObject, LatencyMonitor, start, start_timers, stop_timers, visibility_change,
  callback, tick, emit_summary, get_summary,
}

module _ (d : Numbers) where
  -- What happens to a monitor outside a browser.
  pub data Event : Type 0 where
    started : Bool → Event
    stopped ticked : Event
    focus : Bool → Event
    called : d.Carrier → Event

  abbrev pub on_event :
      LatencyMonitor d.Carrier → Event → LatencyMonitor d.Carrier × List (SummaryObject d.Carrier)
  on_event m (started is_visible) = (start d false is_visible m, [])
  on_event m stopped = (stop_timers d m, [])
  on_event m ticked = tick d m
  on_event m (focus b) = visibility_change d b m
  on_event m (called x) = (callback d x m, [])

  abbrev pub summaries : LatencyMonitor d.Carrier → List Event → List (SummaryObject d.Carrier)
  summaries m [] = []
  summaries m (e ∷ es) = let (m', ss) = on_event m e in ss ++ summaries m' es

  -- No timer is set, and nothing watches the page.
  abbrev pub IsIdle : LatencyMonitor d.Carrier → Type 0
  IsIdle m = (m.checking ≡ false) × ((m.emitting ≡ false) × (m.watching ≡ false))

  on_event-IsIdle :
      (m : LatencyMonitor d.Carrier) (e : Event)
      → IsIdle m
      → IsIdle ((on_event m e).0) × ((on_event m e).1 ≡ [])
  unfolding start start_timers stop_timers visibility_change callback tick emit_summary get_summary
  on_event-IsIdle m (started v) (a, (b, c)) = ground (arith, a, b, c)
  on_event-IsIdle m stopped (a, (b, c)) = ((refl, (refl, c)), refl)
  on_event-IsIdle m ticked (a, (b, c)) = ground (arith, a, b, c)
  on_event-IsIdle m (focus v) (a, (b, c)) = ground (arith, a, b, c)
  on_event-IsIdle m (called x) (a, (b, c)) = ground (arith, a, b, c)

  -- Outside a browser a monitor that is idle, as a new one is, never emits a summary, whatever happens to it.
  pub summaries_idle :
      (m : LatencyMonitor d.Carrier) (es : List Event) → IsIdle m → summaries m es ≡ []
  summaries_idle m [] i = refl
  summaries_idle m (e ∷ es) i =
      let (j, h) = on_event-IsIdle m e i in
      ap (λ ss. ss ++ summaries ((on_event m e).0) es) h ∙ summaries_idle ((on_event m e).0) es j
