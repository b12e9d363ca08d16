-- ===== src/Tests/Requests.antt =====
-- A dial request of two addresses, of a dialer with three tokens that may use one for each peer.
use mathlib.Core.List.{Mem, Perm, Nodup, Nodup-cons, Pairwise, mem-cons, not-mem-nil, mem-cons_self}
use mathlib.Core.Logic.Or
use mathlib.Core.HLevel.{⊥_prop}
use state_channels.Common.{ℕ, ◌≤◌, ◌≡◌, ◌≢◌, refl, true, false, ◌⊎◌, List, [], ◌∷◌, ◌++◌, length}
use state_channels.Errors.{ok}
use state_channels.Dialer.{Dialer, get_tokens}
use state_channels.Dialer.Request.{
  Run, first_run, begin_run, get_token, settle, Step, gets_token, Reach, begun, step, HasResult,
}
use state_channels.Dialer.Request.Invariant.{held, Reach-perm}
use state_channels.Dialer.Request.Progress.{begin_run-Owns}
use state_channels.Dialer.Request.Results.{
  length-running_le, Reach-never_hangs, Ends, Reach-Ends, begin_run-settle, settle_while_running,
}

abbrev dialer : Dialer
dialer = record {
  started = true;
  max_addrs_to_dial = 25;
  max_dials_per_peer = 1;
  keep_multiple_connections = false;
  tokens = 0 ∷ 1 ∷ 2 ∷ [];
  pending_dials = [];
  pending_dial_targets = [];
}

not_in_cons : (t u : ℕ) (l : List ℕ) → t ≢ u → ¬ Mem t l → ¬ Mem t (u ∷ l)
not_in_cons t u l n k m = Or.elim ⊥_prop (mem-cons.0 m) n k

abbrev three : List ℕ
three = 0 ∷ 1 ∷ 2 ∷ []

tokens-Nodup : Nodup three
tokens-Nodup = Nodup-cons.1 (
  not_in_cons 0 1 (2 ∷ []) (λ e. cc) (not_in_cons 0 2 [] (λ e. cc) not-mem-nil),
  Nodup-cons.1 (not_in_cons 1 2 [] (λ e. cc) not-mem-nil, Nodup-cons.1 (not-mem-nil, Pairwise.nil)),
)

abbrev start : Run
start = first_run (0 ∷ []) (1 ∷ 2 ∷ []) 2

begins : begin_run dialer 2 ≡ ok start
unfolding begin_run get_tokens
begins = refl

-- The first attempt gets the token, and dials.
abbrev dialing : Run
dialing = get_token start 0 [] 0 (1 ∷ [])

dialing_reached : Reach start dialing
dialing_reached = step begun (gets_token 0 0 [] (1 ∷ []) refl refl)

begin_run-settle_example : Perm (settle dialing).free three
begin_run-settle_example =
    begin_run-settle dialer 2 start dialing tokens-Nodup begins dialing_reached

Reach-perm_example :
    Perm (dialing.free ++ (dialing.holder ++ held dialing.running)) three
    × Nodup (dialing.free ++ (dialing.holder ++ held dialing.running))
Reach-perm_example =
    Reach-perm three tokens-Nodup (begin_run-Owns dialer 2 start begins) dialing_reached

Reach-never_hangs_example : HasResult dialing ⊎ ((s : Run) × Step dialing s)
Reach-never_hangs_example =
    Reach-never_hangs dialer 2 start dialing tokens-Nodup begins dialing_reached

Reach-Ends_example : Ends dialing
Reach-Ends_example = Reach-Ends dialer 2 start dialing tokens-Nodup begins dialing_reached

length-running_le_example : length dialing.running ≤ 1
length-running_le_example =
    length-running_le dialer 2 start dialing tokens-Nodup begins dialing_reached

token_held : Mem 0 (held dialing.running)
unfolding get_token
token_held = mem-cons_self

settle_while_running_example : Mem 0 (settle dialing).free
settle_while_running_example =
    settle_while_running dialer 2 start dialing 0 tokens-Nodup begins dialing_reached token_held
