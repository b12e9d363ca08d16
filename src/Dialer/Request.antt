-- ===== src/Dialer/Request.antt =====
-- js-libp2p/src/connection-manager/dialer/dial-request.ts: `DialRequest.run` as a step relation. An attempt is the callback of one
-- address; its steps are what it does without a break: from `tokenHolder.shift()` to the dial action, and from the end of
-- the dial action on. `settled` is the `finally` of `run`.
pub mod Invariant
pub mod Progress
pub mod Results
use mathlib.Core.List.{Perm, erase}
use native.Mathlib.Decide.{ℕ_discrete}
use state_channels.Common.{
  ℕ, zero, suc, ◌+◌, ◌-◌, ◌≤◌, ◌≡◌, Bool, true, false, ◌⊎◌, List, [], ◌∷◌, ◌++◌, leb, ltb, length,
  map, if◌then◌else◌,
}
use state_channels.Errors.{Result, ok, err, ◌>>=◌, ◌>>◌, throw_if, err_no_dial_tokens}
use state_channels.Dialer.{Dialer, get_tokens, release_to, release_all, indices_from}

pub record Run : Type 0 where
  pub free : List ℕ  -- this.dialer.tokens
  pub total : ℕ  -- this.addrs.length
  pub holder : List ℕ  -- tokenHolder, the oldest token first
  pub tokens : List ℕ
  pub waiting : List ℕ  -- the attempts that wait for a token, by their index
  pub running : List (ℕ × ℕ)  -- the attempts in their dial action, with their tokens
  pub completed : ℕ  -- completedDials
  pub done : Bool
  pub settled : Bool

-- The request once it has its tokens `ts`, which it took from the dialer.
abbrev pub first_run : List ℕ → List ℕ → ℕ → Run
first_run ts free total = record {
  free = free;
  total = total;
  holder = ts;
  tokens = ts;
  waiting = indices_from 0 total;
  running = [];
  completed = 0;
  done = false;
  settled = false;
}

-- `run` up to its first `await`.
unfoldable pub begin_run : Dialer → ℕ → Result Run
begin_run d total =
    let (ts, d') = get_tokens d total in
    throw_if (ltb (length ts) 1) err_no_dial_tokens >> ok (first_run ts d'.tokens total)

-- `this.dialer.releaseToken(tokens.splice(tokens.indexOf(token), 1)[0])`
abbrev pub release : Run → ℕ → Run
release r t = record r { free = release_to r.free t; tokens = erase ℕ_discrete r.tokens t }

-- The attempt `i` gets the token `t`: it gives up if another has succeeded, or begins its dial action.
unfoldable pub get_token : Run → ℕ → List ℕ → ℕ → List ℕ → Run
get_token r t holder i waiting =
    let r' = record r { holder = holder; waiting = waiting } in
    if r.done then release r' t else record r' { running = (i, t) ∷ r.running }

-- The dial action of an attempt with the token `t` ends; `rest` are those that still run.
unfoldable pub end_dial : Run → ℕ → List (ℕ × ℕ) → Bool → Run
end_dial r t rest success =
    let r' = record r {
      running = rest;
      completed = suc r.completed;
      done = if success then true else r.done;
    } in
    if leb (length r.tokens) (r.total - suc r.completed)
    then record r' { holder = r.holder ++ t ∷ [] }
    else release r' t

-- The `finally` of `run`.
unfoldable pub settle : Run → Run
settle r = record r { free = release_all r.free r.tokens; settled = true }

pub data Step (r : Run) : Run → Type 0 where
  gets_token :
      (t i : ℕ) (holder waiting : List ℕ)
      → r.holder ≡ t ∷ holder
      → r.waiting ≡ i ∷ waiting
      → Step r (get_token r t holder i waiting)
  ends :
      (i t : ℕ) (rest : List (ℕ × ℕ)) (success : Bool)
      → Perm r.running ((i, t) ∷ rest)
      → Step r (end_dial r t rest success)

-- The states of a request that has not settled.
pub data Reach (start : Run) : Run → Type 0 where
  begun : Reach start start
  step : {r s : Run} → Reach start r → Step r s → Reach start s

-- `Promise.any` has its result: an attempt has succeeded, or all have failed.
abbrev pub HasResult : Run → Type 0
HasResult r = (r.done ≡ true) ⊎ (r.completed ≡ r.total)
