-- ===== src/Upgrader/Limits.antt =====
-- The number of streams of a protocol on one connection.
use state_channels.Common.{
  ℕ, ◌≤◌, ◌≡◌, ◌≢◌, refl, sym, subst, ◌∙◌, false, inl, inr, Option-cases, List, [], ◌∷◌, ◌++◌,
  String, ◌==◌, arith,
}
use state_channels.Errors.{
  Result, ok, err, ok-inj, throw_if-ok, ◌>>=◌, err_too_many_inbound_protocol_streams,
  err_too_many_outbound_protocol_streams,
}
use state_channels.Manager.{Direction, inbound, outbound}
use state_channels.Common.StringMap
use state_channels.Registrar.{
  Registrar, get_handler, default_max_inbound_streams, default_max_outbound_streams,
}
use state_channels.Upgrader.{
  Stream, find_incoming_stream_limit, find_outgoing_stream_limit, count_streams, on_incoming_stream,
  new_stream,
}

-- The streams of a connection over time, while the handlers stay as they are.
pub data Reach {H T : Type 0} (r : Registrar H T) : List Stream → Type 0 where
  no_streams : Reach r []
  comes :
      {ss ss' : List Stream} (p : String)
      → Reach r ss
      → on_incoming_stream r ss p ≡ ok ss'
      → Reach r ss'
  goes : {ss ss' : List Stream} (p : String) → Reach r ss → new_stream r ss p ≡ ok ss' → Reach r ss'
  closes :
      (before : List Stream) (s : Stream) (after : List Stream)
      → Reach r (before ++ s ∷ after)
      → Reach r (before ++ after)

count_streams-append_le :
    (p : String) (d : Direction) (before : List Stream) (s : Stream) (after : List Stream)
    → count_streams p d (before ++ after) ≤ count_streams p d (before ++ s ∷ after)
unfolding count_streams
count_streams-append_le p d [] s after = ground arith
count_streams-append_le p d (x ∷ before) s after =
    ground (arith, count_streams-append_le p d before s after)

-- The limit of a protocol in a direction.
abbrev pub HasLimit : {H T : Type 0} → Registrar H T → String → Direction → ℕ → Type 0
HasLimit r p inbound n = find_incoming_stream_limit p r ≡ ok n
HasLimit r p outbound n = find_outgoing_stream_limit p r ≡ ok n

-- A call whose first part returns `n` goes on with it.
goes_on :
    {A : Type 0} (r : Result ℕ) (next : ℕ → Result A) (n : ℕ) (a : A)
    → r ≡ ok n
    → (r >>= next) ≡ ok a
    → next n ≡ ok a
goes_on (err e) next n a h k = cc
goes_on (ok m) next n a h k = subst (λ x. next x ≡ ok a) (ok-inj h) k

unequal : (a b : ℕ) → (a == b) ≡ false → a ≢ b
unequal a b h e = ground arith

-- A stream that comes first counts for its own protocol and direction alone.
added_le :
    (p q : String) (d e : Direction) (n : ℕ) (ss : List Stream)
    → count_streams q e ss ≤ n
    → (q ≡ p → e ≡ d → count_streams q e ss ≢ n)
    → count_streams q e (record { direction = d; protocol = p } ∷ ss) ≤ n
unfolding count_streams
added_le p q inbound inbound n ss h k = ground (arith, λ (x : q ≡ p). k x refl)
added_le p q outbound outbound n ss h k = ground (arith, λ (x : q ≡ p). k x refl)
added_le p q inbound outbound n ss h k = h
added_le p q outbound inbound n ss h k = h

module _ {H T : Type 0} where
  comes-ok :
      (r : Registrar H T) (ss ss' : List Stream) (p : String) (n : ℕ)
      → find_incoming_stream_limit p r ≡ ok n
      → on_incoming_stream r ss p ≡ ok ss'
      → (count_streams p inbound ss ≢ n) × (record { direction = inbound; protocol = p } ∷ ss ≡ ss')
  unfolding on_incoming_stream
  comes-ok r ss ss' p n l h =
      let k = goes_on (find_incoming_stream_limit p r) _ n ss' l h in
      let (e, f) =
        throw_if-ok (count_streams p inbound ss == n) err_too_many_inbound_protocol_streams _ ss'
          k in
      (unequal (count_streams p inbound ss) n e, ok-inj f)

  goes-ok :
      (r : Registrar H T) (ss ss' : List Stream) (p : String) (n : ℕ)
      → find_outgoing_stream_limit p r ≡ ok n
      → new_stream r ss p ≡ ok ss'
      → (count_streams p outbound ss ≢ n)
        × (record { direction = outbound; protocol = p } ∷ ss ≡ ss')
  unfolding new_stream
  goes-ok r ss ss' p n l h =
      let k = goes_on (find_outgoing_stream_limit p r) _ n ss' l h in
      let (e, f) =
        throw_if-ok (count_streams p outbound ss == n) err_too_many_outbound_protocol_streams _ ss'
          k in
      (unequal (count_streams p outbound ss) n e, ok-inj f)

  incoming_limit :
      (p : String) (r : Registrar H T) → (n : ℕ) × (find_incoming_stream_limit p r ≡ ok n)
  unfolding find_incoming_stream_limit get_handler
  incoming_limit p r = elim (Option-cases (StringMap.get p r.handlers)) [
    | inl e ↦ (default_max_inbound_streams, rw e refl)
    | inr (h, e) ↦ (h.max_inbound_streams, rw e refl)
  ]

  outgoing_limit :
      (p : String) (r : Registrar H T) → (n : ℕ) × (find_outgoing_stream_limit p r ≡ ok n)
  unfolding find_outgoing_stream_limit get_handler
  outgoing_limit p r = elim (Option-cases (StringMap.get p r.handlers)) [
    | inl e ↦ (default_max_outbound_streams, rw e refl)
    | inr (h, e) ↦ (h.max_outbound_streams, rw e refl)
  ]

  limit_unique :
      (r : Registrar H T) (p : String) (d : Direction) (n k : ℕ)
      → HasLimit r p d n
      → HasLimit r p d k
      → n ≡ k
  limit_unique r p inbound n k l m = ok-inj (sym l ∙ m)
  limit_unique r p outbound n k l m = ok-inj (sym l ∙ m)

  -- A stream of the protocol `p` that is let in with `k` as its limit.
  same_limit :
      (r : Registrar H T) (p q : String) (d e : Direction) (n k : ℕ) (ss : List Stream)
      → HasLimit r q e n
      → HasLimit r p d k
      → count_streams p d ss ≢ k
      → q ≡ p
      → e ≡ d
      → count_streams q e ss ≢ n
  same_limit r p q d e n k ss l m c x y z =
      let l' = subst (λ a. HasLimit r p a n) y (subst (λ a. HasLimit r a e n) x l) in
      let w = subst (λ a. count_streams p a ss ≡ n) y (subst (λ a. count_streams a e ss ≡ n) x z) in
      c (w ∙ limit_unique r p d n k l' m)

  -- While the handlers stay as they are, in every state that incoming, outgoing and closed streams lead to, a
  -- connection has no more streams of a protocol in a direction than the limit of the protocol's handler, or than the
  -- default limit if it has none.
  pub Reach-le-limit :
      (r : Registrar H T) (ss : List Stream) (q : String) (d : Direction) (n : ℕ)
      → HasLimit r q d n
      → Reach r ss
      → count_streams q d ss ≤ n
  unfolding count_streams
  Reach-le-limit r _ q d n l no_streams = omega arith
  Reach-le-limit r _ q d n l (comes {ss} {ss'} p reached h) =
      let (k, m) = incoming_limit p r in
      let (c, e) = comes-ok r ss ss' p k m h in
      subst (λ x. count_streams q d x ≤ n) e
        (added_le p q inbound d n ss (Reach-le-limit r ss q d n l reached)
          (same_limit r p q inbound d n k ss l m c))
  Reach-le-limit r _ q d n l (goes {ss} {ss'} p reached h) =
      let (k, m) = outgoing_limit p r in
      let (c, e) = goes-ok r ss ss' p k m h in
      subst (λ x. count_streams q d x ≤ n) e
        (added_le p q outbound d n ss (Reach-le-limit r ss q d n l reached)
          (same_limit r p q outbound d n k ss l m c))
  Reach-le-limit r _ q d n l (closes before s after reached) = ground (
    arith,
    count_streams-append_le q d before s after,
    Reach-le-limit r (before ++ s ∷ after) q d n l reached,
  )
