-- ===== src/Connection/Closing.antt =====
-- Calls of `close`, in any number and any order, as the code between two waits runs without a break.
use state_channels.Common.{
  ℕ, suc, ◌+◌, ◌≤◌, ◌≡◌, ◌≢◌, refl, subst, Bool, true, false, Option, none, some, List, [], ◌∷◌,
  ◌++◌, arith,
}
use state_channels.Connection.{
  ConnectionImpl, Status, open_, closing, closed, Stream, Effect, close_stream, close_raw, create,
  new_stream, begin_close, end_close, close_streams, set_close_time, or_now,
}

-- The raw closes among the effects.
abbrev pub raw_closes : List Effect → ℕ
raw_closes [] = 0
raw_closes (close_stream i ∷ es) = raw_closes es
raw_closes (close_raw ∷ es) = suc (raw_closes es)

raw_closes-streams :
    (ss : Option (List Stream)) → raw_closes (close_streams ss ++ close_raw ∷ []) ≡ 1
raw_closes-streams none = refl
raw_closes-streams (some []) = refl
raw_closes-streams (some (s ∷ ss)) = raw_closes-streams (some ss)

-- A connection in its life: `waiting` raw closes have been called and not returned, `called` have been called.
pub data Reach : ConnectionImpl → ℕ → ℕ → Type 0 where
  created : Reach create 0 0
  closes :
      {c : ConnectionImpl} {waiting called : ℕ} (streams : Option (List Stream))
      → Reach c waiting called
      → Reach
          (begin_close c streams).0
          (waiting + raw_closes (begin_close c streams).1)
          (called + raw_closes (begin_close c streams).1)
  raw_closed :
      {c : ConnectionImpl} {waiting called : ℕ} (now : ℕ)
      → Reach c (suc waiting) called
      → Reach (end_close c now) waiting called
  raw_sets_time :
      {c : ConnectionImpl} {waiting called : ℕ} (now : ℕ)
      → Reach c waiting called
      → Reach (set_close_time c now) waiting called
  -- The raw connection throws: `close` ends there.
  raw_failed :
      {c : ConnectionImpl} {waiting called : ℕ}
      → Reach c (suc waiting) called
      → Reach c waiting called

-- The phases of a connection: open and never closed; closing, by one call that waits or that has failed; closed.
abbrev pub PhaseOf : Status → Bool → Option ℕ → ℕ → ℕ → Type 0
PhaseOf open_ busy time waiting called = (busy ≡ false) × (waiting ≡ 0) × (called ≡ 0)
PhaseOf closing busy time waiting called = (busy ≡ true) × (waiting ≤ 1) × (called ≡ 1)
PhaseOf closed busy time waiting called =
    (busy ≡ false) × (waiting ≡ 0) × (called ≡ 1) × (time ≢ none)

abbrev pub Phase : ConnectionImpl → ℕ → ℕ → Type 0
Phase c = PhaseOf c.status c.is_closing c.close_time

begin_close-Phase :
    (status : Status) (busy : Bool) (time : Option ℕ) (streams : Option (List Stream))
    (waiting called : ℕ)
    → PhaseOf status busy time waiting called
    → let (c, es) =
        begin_close (record { status = status; is_closing = busy; close_time = time }) streams in
      Phase c (waiting + raw_closes es) (called + raw_closes es)
unfolding begin_close
begin_close-Phase open_ true time streams waiting called h = cc
begin_close-Phase open_ false time streams waiting called h =
    ground (arith, h, raw_closes-streams streams)
begin_close-Phase closing true time streams waiting called h = ground (arith, h)
begin_close-Phase closing false time streams waiting called h = cc
begin_close-Phase closed busy time streams waiting called h = ground (arith, h)

end_close-Phase :
    (status : Status) (busy : Bool) (time : Option ℕ) (now waiting called : ℕ)
    → PhaseOf status busy time (suc waiting) called
    → PhaseOf closed false (some now) waiting called
end_close-Phase open_ busy time now waiting called h = absurd (ground (arith, h))
end_close-Phase closing busy time now waiting called h = ground (arith, h)
end_close-Phase closed busy time now waiting called h = absurd (ground (arith, h))

set_close_time-Phase :
    (status : Status) (busy : Bool) (time : Option ℕ) (now waiting called : ℕ)
    → PhaseOf status busy time waiting called
    → PhaseOf status busy (some now) waiting called
set_close_time-Phase open_ busy time now waiting called h = h
set_close_time-Phase closing busy time now waiting called h = h
set_close_time-Phase closed busy time now waiting called h = ground (arith, h)

fail-Phase :
    (status : Status) (busy : Bool) (time : Option ℕ) (waiting called : ℕ)
    → PhaseOf status busy time (suc waiting) called
    → PhaseOf status busy time waiting called
fail-Phase open_ busy time waiting called h = absurd (ground (arith, h))
fail-Phase closing busy time waiting called h = ground (arith, h)
fail-Phase closed busy time waiting called h = absurd (ground (arith, h))

-- After any calls of `close`, any ends of its calls of the raw close, and any closings that the raw connection notes of its
-- own accord: a connection is open and has not called the raw close; or it is closing or closed and has called it exactly
-- once. If it is closed, no call of the raw close is under way and it has a close time.
pub Reach-Phase :
    (c : ConnectionImpl) (waiting called : ℕ) → Reach c waiting called → Phase c waiting called
unfolding create end_close set_close_time
Reach-Phase _ _ _ created = (refl, refl, refl)
Reach-Phase _ _ _ (closes {c} {waiting} {called} streams r) =
    begin_close-Phase c.status c.is_closing c.close_time streams waiting called
      (Reach-Phase c waiting called r)
Reach-Phase _ _ _ (raw_closed {c} {waiting} {called} now r) =
    end_close-Phase c.status c.is_closing c.close_time now waiting called
      (Reach-Phase c (suc waiting) called r)
Reach-Phase _ _ _ (raw_sets_time {c} {waiting} {called} now r) =
    set_close_time-Phase c.status c.is_closing c.close_time (or_now c.close_time now) waiting called
      (Reach-Phase c waiting called r)
Reach-Phase _ _ _ (raw_failed {c} {waiting} {called} r) =
    fail-Phase c.status c.is_closing c.close_time waiting called
      (Reach-Phase c (suc waiting) called r)

-- A connection that is closing and has no raw close under way, since it has failed, stays so: a
-- further `close` has no effect at all, and no stream is opened.
pub begin_close_failed :
    (c : ConnectionImpl) (called : ℕ) (streams : Option (List Stream))
    → Reach c 0 called
    → c.status ≡ closing
    → (begin_close c streams ≡ (c, [])) × (new_stream c ≢ none)
unfolding begin_close new_stream
begin_close_failed c called streams r e =
    let p =
      subst (λ s. PhaseOf s c.is_closing c.close_time 0 called) e (Reach-Phase c 0 called r) in
    ground (arith, p.0, e)
