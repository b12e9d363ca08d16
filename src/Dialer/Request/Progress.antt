-- ===== src/Dialer/Request/Progress.antt =====
-- A request goes on until it settles.
use mathlib.Core.List.{Perm, perm_append_comm}
use mathlib.Core.List.Perm
use state_channels.Common.{
  ltb-false, ℕ, zero, suc, ◌+◌, ◌*◌, ◌≤◌, ◌<◌, ◌≡◌, refl, subst, ◌∙◌, ap, Bool, true, false, ◌⊎◌,
  inl, inr, Bool-cases, List, [], ◌∷◌, ◌++◌, length, append-nil, length-perm, length-append, ltb,
  arith,
}
use state_channels.Errors.{ok, err_no_dial_tokens, throw_if-ok, ok-inj}
use state_channels.Dialer.{Dialer, get_tokens, indices_from}
use state_channels.Dialer.Tokens.{length-erase_le, length-erase_ge, get_tokens_lem}
use state_channels.Dialer.Request.{
  Run, first_run, begin_run, get_token, end_dial, Step, gets_token, ends, Reach, begun, step,
  HasResult,
}
use state_channels.Dialer.Request.Invariant.{held, Owns}

-- While no attempt has succeeded, every attempt is waiting, running or over, and there is a token as long as one is not
-- over. The request never has more tokens than `k`.
pub record IsLive (k : ℕ) (r : Run) : Type 0 where
  pub bounded : length r.tokens ≤ k
  pub within : r.completed + length r.running + length r.waiting ≤ r.total
  pub counted : r.done ≡ false → r.completed + length r.running + length r.waiting ≡ r.total
  pub supplied : r.done ≡ false → (0 < length r.tokens) ⊎ (r.total ≤ r.completed)

get_token-IsLive :
    (k : ℕ) (r : Run) (t i : ℕ) (holder waiting : List ℕ)
    → r.waiting ≡ i ∷ waiting
    → IsLive k r
    → IsLive k (get_token r t holder i waiting)
unfolding get_token
get_token-IsLive k r t i holder waiting w v = elim (Bool-cases r.done) [
  | inl e ↦ grind (arith, length-erase_le r.tokens t, ap length w)
  | inr e ↦ grind (arith, ap length w)
]

end_dial-IsLive :
    (k : ℕ) (r : Run) (i t : ℕ) (rest : List (ℕ × ℕ)) (success : Bool)
    → Perm r.running ((i, t) ∷ rest)
    → IsLive k r
    → IsLive k (end_dial r t rest success)
unfolding end_dial
end_dial-IsLive k r i t rest success q v =
    grind (arith, length-perm q, length-erase_le r.tokens t, length-erase_ge r.tokens t)

pub Step-IsLive : {k : ℕ} {r s : Run} → Step r s → IsLive k r → IsLive k s
Step-IsLive {k} {r} (gets_token t i holder waiting h w) v =
    get_token-IsLive k r t i holder waiting w v
Step-IsLive {k} {r} (ends i t rest success q) v = end_dial-IsLive k r i t rest success q v

pub Reach-IsLive : {k : ℕ} {start r : Run} → IsLive k start → Reach start r → IsLive k r
Reach-IsLive v begun = v
Reach-IsLive v (step r st) = Step-IsLive st (Reach-IsLive v r)

length-indices_from : (i n : ℕ) → length (indices_from i n) ≡ n
length-indices_from i zero = refl
length-indices_from i (suc n) = ap suc (length-indices_from (suc i) n)

List-cases {ℓ} : {A : Type ℓ} (l : List A) → (l ≡ []) ⊎ ((a : A) × ((m : List A) × (l ≡ a ∷ m)))
List-cases [] = inl refl
List-cases (a ∷ m) = inr (a, (m, refl))

-- A request that begins has at least one token.
begin_run-ok :
    (d : Dialer) (total : ℕ) (r : Run)
    → begin_run d total ≡ ok r
    → let (ts, d') = get_tokens d total in (0 < length ts) × (first_run ts d'.tokens total ≡ r)
unfolding begin_run
begin_run-ok d total r h =
    let (ts, d') = get_tokens d total in
    let (e, f) =
      throw_if-ok (ltb (length ts) 1) err_no_dial_tokens (ok (first_run ts d'.tokens total)) r h in
    (ltb-false _ _ e, ok-inj f)

-- A request begins with the tokens of the dialer in one place each.
pub begin_run-Owns : (d : Dialer) (total : ℕ) (r : Run) → begin_run d total ≡ ok r → Owns d.tokens r
begin_run-Owns d total r h =
    let (ts, d') = get_tokens d total in
    let (n, e) = begin_run-ok d total r h in
    subst (Owns d.tokens) e (record {
      shared = rw (append-nil ts) (Perm.refl ts);
      conserved =
          Perm.trans (perm_append_comm d'.tokens ts)
            (subst (Perm (ts ++ d'.tokens)) (get_tokens_lem d total).1 (Perm.refl _));
    })

pub begin_run-IsLive :
    (d : Dialer) (total : ℕ) (r : Run) → begin_run d total ≡ ok r → IsLive d.max_dials_per_peer r
begin_run-IsLive d total r h =
    let (ts, d') = get_tokens d total in
    let (n, e) = begin_run-ok d total r h in
    let l = length-indices_from 0 total in
    let (m, _) = get_tokens_lem d total in
    subst (IsLive d.max_dials_per_peer) e (record {
      bounded = omega arith;
      within = omega arith;
      counted = λ _. omega arith;
      supplied = λ _. inl n;
    })

-- What is left to do: a waiting attempt takes two steps, a running one takes one.
abbrev pub steps_left : Run → ℕ
steps_left r = 2 * length r.waiting + length r.running

get_token-steps_left :
    (r : Run) (t i : ℕ) (holder waiting : List ℕ)
    → r.waiting ≡ i ∷ waiting
    → steps_left (get_token r t holder i waiting) < steps_left r
unfolding get_token
get_token-steps_left r t i holder waiting w = grind (arith, ap length w)

-- Each step leaves less to do.
pub Step-steps_left : {r s : Run} → Step r s → steps_left s < steps_left r
unfolding end_dial
Step-steps_left {r} (gets_token t i holder waiting h w) =
    get_token-steps_left r t i holder waiting w
Step-steps_left {r} (ends i t rest success q) = grind (arith, length-perm q)

-- A request without a result has an attempt that can go on.
pub never_hangs :
    {k : ℕ} {all : List ℕ} (r : Run)
    → Owns all r
    → IsLive k r
    → HasResult r ⊎ ((s : Run) × Step r s)
never_hangs r o v = elim (Bool-cases r.done) [
  | inl e ↦ inl (inl e)
  | inr e ↦ elim (List-cases r.running) [
    | inr ((i, t), (rest, q)) ↦ inr (_, ends i t rest true (subst (Perm r.running) q (Perm.refl _)))
    | inl q ↦ elim (List-cases r.waiting) [
      | inl w ↦ inl (inr (ground (arith, v.counted e, ap length q, ap length w)))
      | inr (i, (waiting, w)) ↦ elim (List-cases r.holder) [
        | inr (t, (holder, h)) ↦ inr (_, gets_token t i holder waiting h w)
        | inl h ↦
            let l = length-perm o.shared ∙ length-append r.holder (held r.running) in
            inl (
              inr (
                ground
                  (arith, l, v.supplied e, v.within, ap length h, ap (λ a. length (held a)) q)))
      ]
    ]
  ]
]
