-- ===== src/Dialer/Tokens.antt =====
-- The tokens that bound the number of concurrent dials: handed out by `getTokens`, taken back by `releaseToken`.
use mathlib.Core.List.{
  Perm, Nodup, Mem, mem-cons_self, mem-cons_of_mem, Nodup-append, erase, perm_cons_erase,
}
use mathlib.Core.List.Perm
use native.Mathlib.Decide.{ℕ_discrete}
use state_channels.Common.{
  ℕ, ◌+◌, ◌≤◌, min, ◌≡◌, sym, ◌∙◌, true, inl, inr, Bool-cases, List, [], ◌∷◌, ◌++◌, append_assoc,
  append-nil, take-append-drop, length, length-take, arith,
}
use state_channels.Dialer.{Dialer, get_tokens, includes, release_to, release_all}

includes-Mem : (t : ℕ) (ts : List ℕ) → includes t ts ≡ true → Mem t ts
includes-Mem t [] h = cc
includes-Mem t (u ∷ ts) h = elim (ℕ_discrete t u) [
  | yes e ↦ rw e mem-cons_self
  | no n ↦ mem-cons_of_mem u (includes-Mem t ts (ground arith))
]

-- A token that is not free is added; the others stay.
release_to_new : (free : List ℕ) (t : ℕ) → ¬ Mem t free → release_to free t ≡ free ++ t ∷ []
unfolding release_to
release_to_new free t n = elim (Bool-cases (includes t free)) [
  | inl e ↦ absurd (n (includes-Mem t free e))
  | inr e ↦ rw e
]

-- A token of the request that is taken back: it moves from the one list to the other.
pub release_to-perm :
    (free ts : List ℕ) (t : ℕ)
    → Nodup (free ++ ts)
    → Mem t ts
    → Perm (release_to free t ++ erase ℕ_discrete ts t) (free ++ ts)
release_to-perm free ts t d m =
    rw (release_to_new free t (λ f. (Nodup-append.0 d).2 t f m), append_assoc)
      (Perm.append_left free (Perm.symm (perm_cons_erase ℕ_discrete m)))

-- Taking back all tokens of a request at once, when none of them is free.
pub release_all-append : (free ts : List ℕ) → Nodup (free ++ ts) → release_all free ts ≡ free ++ ts
unfolding release_all
release_all-append free [] d = sym (append-nil free)
release_all-append free (t ∷ ts) d =
    rw (release_to_new free t (λ f. (Nodup-append.0 d).2 t f mem-cons_self)) (
      release_all-append (free ++ t ∷ []) ts (rw (append_assoc free (t ∷ []) ts) d)
      ∙ append_assoc free (t ∷ []) ts)

-- `getTokens` hands out no more tokens than it is asked for, than one peer may have, and than there are; what it hands
-- out and what stays free are the tokens that were free, in their order.
pub get_tokens_lem :
    (d : Dialer) (num : ℕ)
    → let (ts, d') = get_tokens d num in
      (length ts ≡ min num (min d.max_dials_per_peer (length d.tokens)))
      × (ts ++ d'.tokens ≡ d.tokens)
unfolding get_tokens
get_tokens_lem d num = (length-take _ d.tokens (omega arith), take-append-drop _ d.tokens)

pub length-erase_le : (ts : List ℕ) (t : ℕ) → length (erase ℕ_discrete ts t) ≤ length ts
length-erase_le [] t = omega arith
length-erase_le (u ∷ ts) t = ground (arith, length-erase_le ts t)

pub length-erase_ge : (ts : List ℕ) (t : ℕ) → length ts ≤ length (erase ℕ_discrete ts t) + 1
length-erase_ge [] t = omega arith
length-erase_ge (u ∷ ts) t = ground (arith, length-erase_ge ts t)
