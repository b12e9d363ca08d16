-- ===== src/Dialer/Request/Results.antt =====
-- What holds of every request, from its first state on.
use mathlib.Core.List.{Perm, Nodup, Mem, mem-append_right}
use mathlib.Core.List.Perm
use state_channels.Common.{
  ℕ, zero, suc, inl, inr, ◌≤◌, ◌≡◌, refl, ap, ◌⊎◌, List, [], ◌∷◌, length, length-perm,
  length-append, arith,
}
use state_channels.Errors.{ok}
use state_channels.Dialer.{Dialer}
use state_channels.Dialer.Request.{Run, begin_run, settle, Step, Reach, HasResult}
use state_channels.Dialer.Request.Invariant.{held, Owns, Step-Owns, Reach-Owns, settle-perm}
use state_channels.Dialer.Request.Progress.{
  IsLive, Step-IsLive, Reach-IsLive, begin_run-Owns, begin_run-IsLive, steps_left, Step-steps_left,
  never_hangs,
}

length-held : (l : List (ℕ × ℕ)) → length (held l) ≡ length l
length-held [] = refl
length-held (a ∷ l) = ap suc (length-held l)

-- For a dialer whose free tokens are distinct: at no time does a request run more dial actions
-- than `maxDialsPerPeer`.
pub length-running_le :
    (d : Dialer) (total : ℕ) (start r : Run)
    → Nodup d.tokens
    → begin_run d total ≡ ok start
    → Reach start r
    → length r.running ≤ d.max_dials_per_peer
length-running_le d total start r once h reached =
    let v = Reach-IsLive (begin_run-IsLive d total start h) reached in
    let o = Reach-Owns d.tokens once (begin_run-Owns d total start h) reached in
    ground (
      arith,
      length-perm o.shared,
      length-append r.holder (held r.running),
      length-held r.running,
      v.bounded,
    )

-- For a dialer whose free tokens are distinct: in every state that a request reaches, it has a
-- result (an attempt has succeeded or all have ended), or some attempt can take a step: no
-- attempt waits for a token that nobody gives back.
pub Reach-never_hangs :
    (d : Dialer) (total : ℕ) (start r : Run)
    → Nodup d.tokens
    → begin_run d total ≡ ok start
    → Reach start r
    → HasResult r ⊎ ((s : Run) × Step r s)
Reach-never_hangs d total start r once h reached =
    never_hangs r (Reach-Owns d.tokens once (begin_run-Owns d total start h) reached)
      (Reach-IsLive (begin_run-IsLive d total start h) reached)

-- However a request goes on, it comes to a result: it has one, or some attempt can take a step, and after every step that
-- an attempt can take it comes to one.
pub data Ends : Run → Type 0 where
  has_result : {r : Run} → HasResult r → Ends r
  goes_on : {r : Run} (s : Run) → Step r s → ((t : Run) → Step r t → Ends t) → Ends r

ends_within :
    (n k : ℕ) (all : List ℕ) (r : Run)
    → Nodup all
    → Owns all r
    → IsLive k r
    → steps_left r ≤ n
    → Ends r
ends_within zero k all r once o v l = elim (never_hangs r o v) [
  | inl h ↦ has_result h
  | inr (s, st) ↦ absurd (omega (arith, Step-steps_left st, l))
]
ends_within (suc n) k all r once o v l = elim (never_hangs r o v) [
  | inl h ↦ has_result h
  | inr (s, st) ↦ goes_on s st (λ t p.
      ends_within n k all t once (Step-Owns all once p o) (Step-IsLive p v)
        (omega (arith, Step-steps_left p, l)))
]

-- For a dialer whose free tokens are distinct: from every state that a request reaches, whichever attempts go on and however
-- their dials end, it comes to a result after finitely many steps: an attempt succeeds or all have ended.
pub Reach-Ends :
    (d : Dialer) (total : ℕ) (start r : Run)
    → Nodup d.tokens
    → begin_run d total ≡ ok start
    → Reach start r
    → Ends r
Reach-Ends d total start r once h reached =
    ends_within (steps_left r) d.max_dials_per_peer d.tokens r once
      (Reach-Owns d.tokens once (begin_run-Owns d total start h) reached)
      (Reach-IsLive (begin_run-IsLive d total start h) reached) (omega arith)

-- For a dialer whose free tokens are distinct: whatever state a request of it has reached, if it
-- settles there, the dialer's free tokens are those that were free before the request, each once,
-- in some order.
pub begin_run-settle :
    (d : Dialer) (total : ℕ) (start r : Run)
    → Nodup d.tokens
    → begin_run d total ≡ ok start
    → Reach start r
    → Perm (settle r).free d.tokens
begin_run-settle d total start r once h = settle-perm d.tokens once (begin_run-Owns d total start h)

-- For a dialer whose free tokens are distinct: when a request settles, the token of an attempt
-- that still runs is free at once, so that the next request may get it while the attempt runs.
pub settle_while_running :
    (d : Dialer) (total : ℕ) (start r : Run) (t : ℕ)
    → Nodup d.tokens
    → begin_run d total ≡ ok start
    → Reach start r
    → Mem t (held r.running)
    → Mem t (settle r).free
settle_while_running d total start r t once h reached m =
    let o = Reach-Owns d.tokens once (begin_run-Owns d total start h) reached in
    let token = (Perm.mem_iff (Perm.symm o.shared)).0 (mem-append_right r.holder m) in
    (Perm.mem_iff
        (Perm.trans o.conserved (Perm.symm (begin_run-settle d total start r once h reached)))).0
      (mem-append_right r.free token)
