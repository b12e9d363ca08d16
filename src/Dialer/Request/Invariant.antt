-- ===== src/Dialer/Request/Invariant.antt =====
-- Who holds which token while a request runs.
use mathlib.Core.List.{Perm, Nodup, Mem, perm_middle, mem-cons_self, perm_cons_erase}
use mathlib.Core.List.Perm
use native.Mathlib.Decide.{ℕ_discrete}
use state_channels.Common.{
  ℕ, suc, ◌-◌, ◌≡◌, sym, subst, Bool, if_both, List, [], ◌∷◌, ◌++◌, append_assoc, length, leb, map,
}
use state_channels.Dialer.Tokens.{release_to-perm, release_all-append}
use state_channels.Dialer.Request.{
  Run, release, get_token, end_dial, settle, Step, gets_token, ends, Reach, begun, step,
}

abbrev pub held : List (ℕ × ℕ) → List ℕ
held = map (λ a. a.1)

-- The tokens of the request are those that wait in the holder and those of the attempts that run; together with the free
-- ones they are the tokens `all`, each once.
pub record Owns (all : List ℕ) (r : Run) : Type 0 where
  pub shared : Perm r.tokens (r.holder ++ held r.running)
  pub conserved : Perm (r.free ++ r.tokens) all

module _ (all : List ℕ) (once : Nodup all) where
  -- A token that nothing holds any more goes back to the dialer.
  release-Owns :
      (r : Run) (t : ℕ)
      → Perm r.tokens (t ∷ (r.holder ++ held r.running))
      → Perm (r.free ++ r.tokens) all
      → Owns all (release r t)
  release-Owns r t p c =
      let m : Mem t r.tokens = (Perm.mem_iff p).1 mem-cons_self in
      record {
        shared = Perm.cons_inv (Perm.trans (Perm.symm (perm_cons_erase ℕ_discrete m)) p);
        conserved =
            Perm.trans (release_to-perm r.free r.tokens t (Perm.nodup (Perm.symm c) once) m) c;
      }

  get_token-Owns :
      (r : Run) (t i : ℕ) (holder waiting : List ℕ)
      → r.holder ≡ t ∷ holder
      → Owns all r
      → Owns all (get_token r t holder i waiting)
  unfolding get_token
  get_token-Owns r t i holder waiting h o =
      let p : Perm r.tokens (t ∷ (holder ++ held r.running)) =
        subst (λ l. Perm r.tokens (l ++ held r.running)) h o.shared in
      if_both (Owns all) r.done
        (release-Owns (record r { holder = holder; waiting = waiting }) t p o.conserved)
        (record {
          shared = Perm.trans p (Perm.symm (perm_middle holder (held r.running)));
          conserved = o.conserved;
        })

  end_dial-Owns :
      (r : Run) (i t : ℕ) (rest : List (ℕ × ℕ)) (success : Bool)
      → Perm r.running ((i, t) ∷ rest)
      → Owns all r
      → Owns all (end_dial r t rest success)
  unfolding end_dial
  end_dial-Owns r i t rest success q o =
      let p : Perm r.tokens (r.holder ++ t ∷ held rest) =
        Perm.trans o.shared (Perm.append_left r.holder (Perm.map (λ a. a.1) q)) in
      if_both (Owns all) (leb (length r.tokens) (r.total - suc r.completed))
        (record {
          shared = subst (Perm r.tokens) (sym (append_assoc r.holder (t ∷ []) (held rest))) p;
          conserved = o.conserved;
        })
        (release-Owns _ t (Perm.trans p (perm_middle r.holder (held rest))) o.conserved)

  -- Every step of an attempt keeps each token in exactly one place.
  pub Step-Owns : {r s : Run} → Step r s → Owns all r → Owns all s
  Step-Owns {r} (gets_token t i holder waiting h w) o = get_token-Owns r t i holder waiting h o
  Step-Owns {r} (ends i t rest success q) o = end_dial-Owns r i t rest success q o

  pub Reach-Owns : {start r : Run} → Owns all start → Reach start r → Owns all r
  Reach-Owns o begun = o
  Reach-Owns o (step r st) = Step-Owns st (Reach-Owns o r)

  -- In every state that a request reaches from one in which it owns its tokens, with `all` distinct tokens: the free
  -- tokens, those that wait in the holder and those of the running attempts are together the tokens `all`, in some order:
  -- none is lost, and none is in two places or with two attempts.
  pub Reach-perm :
      {start r : Run}
      → Owns all start
      → Reach start r
      → Perm (r.free ++ (r.holder ++ held r.running)) all
        × Nodup (r.free ++ (r.holder ++ held r.running))
  Reach-perm {r} o reached =
      let o' = Reach-Owns o reached in
      let p = Perm.trans (Perm.append_left r.free (Perm.symm o'.shared)) o'.conserved in
      (p, Perm.nodup (Perm.symm p) once)

  -- When the request settles, the dialer has all its tokens back, each once.
  pub settle-perm : {start r : Run} → Owns all start → Reach start r → Perm (settle r).free all
  unfolding settle
  settle-perm {r} o reached =
      let o' = Reach-Owns o reached in
      subst (λ l. Perm l all)
        (sym (release_all-append r.free r.tokens (Perm.nodup (Perm.symm o'.conserved) once)))
        o'.conserved
