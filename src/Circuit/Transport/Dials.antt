-- ===== src/Circuit/Transport/Dials.antt =====
-- What a dial over a relay takes its address for, and what it leaves behind.
use state_channels.Common.{
  ◌≡◌, ◌≢◌, refl, sym, ap, ◌∙◌, str_dec, eq_of_some, none_ne_some, false, Option, none, some, List,
  [], ◌∷◌, ◌++◌, String, arith, if_pos, if_neg,
}
use state_channels.Common.Texts.{has_text}
use state_channels.Errors.{Code, Result, ok, err}
use state_channels.Manager.{Manager, Connection, get_connections_of}
use state_channels.Circuit.{CircuitRelay, Peer}
use state_channels.Circuit.Hop.{first_connection}
use state_channels.Circuit.Transport.{
  push, split, first_of, last_of, DialEnd, over, dial_opened, dial_over, dial_peers, dial,
}

split_here : (s : String) (ss : List String) → s ≡ "p2p-circuit" → split (s ∷ ss) ≡ [] ∷ split ss
unfolding split
split_here s ss e = if_pos (str_dec s "p2p-circuit") e _ _

split_there :
    (s : String) (ss : List String) → s ≢ "p2p-circuit" → split (s ∷ ss) ≡ push s (split ss)
unfolding split
split_there s ss n = if_neg (str_dec s "p2p-circuit") n _ _

-- The address has no part that is relayed.
abbrev pub IsDirect : List String → Type 0
IsDirect ma = has_text "p2p-circuit" ma ≡ false

split_direct : (ma : List String) → IsDirect ma → split ma ≡ ma ∷ []
unfolding split
split_direct [] d = refl
split_direct (s ∷ ss) d = ground (arith, d, split_direct ss)

-- A part that is not empty begins the list.
split_cons :
    (ma : List String) → (p : List String) × ((ps : List (List String)) × (split ma ≡ p ∷ ps))
unfolding split
split_cons [] = ([], ([], refl))
split_cons (s ∷ ss) =
    let (p, (ps, e)) = split_cons ss in
    elim (str_dec s "p2p-circuit") [
      | yes q ↦ ([], (split ss, split_here s ss q))
      | no n ↦ (s ∷ p, (ps, split_there s ss n ∙ ap (push s) e))
    ]

last_of-cons : (p : List String) (ma : List String) → last_of (p ∷ split ma) ≡ last_of (split ma)
last_of-cons p ma = let (q, (ps, e)) = split_cons ma in rw e refl

first_of-split :
    (ma rest : List String) → IsDirect ma → first_of (split (ma ++ "p2p-circuit" ∷ rest)) ≡ ma
unfolding split
first_of-split [] rest d = ground arith
first_of-split (s ∷ ss) rest d =
    let (p, (ps, e)) = split_cons (ss ++ "p2p-circuit" ∷ rest) in
    let ih = first_of-split ss rest in ground (arith, d, ih, e)

-- What stands after a part that is relayed is split as it is by itself.
split-append :
    (ma rest : List String)
    → (p : List String) × ((ps : List (List String)) × (split (ma ++ "p2p-circuit" ∷ rest)
          ≡ p ∷ (ps ++ split rest)))
unfolding split
split-append [] rest = ([], ([], ground arith))
split-append (s ∷ ss) rest =
    let (p, (ps, e)) = split-append ss rest in
    elim (str_dec s "p2p-circuit") [
      | yes q ↦ ([], (p ∷ ps, split_here s (ss ++ "p2p-circuit" ∷ rest) q ∙ ap (λ x. [] ∷ x) e))
      | no n ↦ (s ∷ p, (ps, split_there s (ss ++ "p2p-circuit" ∷ rest) n ∙ ap (push s) e))
    ]

last_of-append :
    (p : List String) (ps : List (List String)) (ma : List String)
    → last_of (p ∷ (ps ++ split ma)) ≡ last_of (split ma)
last_of-append p [] ma = last_of-cons p ma
last_of-append p (q ∷ ps) ma = last_of-append q ps ma

last_of-split :
    (ma rest : List String) → last_of (split (ma ++ "p2p-circuit" ∷ rest)) ≡ last_of (split rest)
last_of-split ma rest = let (p, (ps, e)) = split-append ma rest in rw e (last_of-append p ps rest)

module _ {B C : Type 0} (own : Peer B) (peer_id : List String → Option String)
    (bytes : List String → B) (open_connection : String → Result Connection)
    (respond : Connection → CircuitRelay B → Result (Option (CircuitRelay B)))
    (upgrade : Connection → Result C) where
  -- A dial leaves the connections to the relay as they should be: it opens one only to the peer that the relay's address
  -- names, and only if there is none, and closes it exactly if the dial fails.
  pub record IsTidy (m : Manager) (relay_addr : List String) (e : DialEnd C) : Type 0 where
    pub keeps : (x : C) → e.result ≡ ok x → e.closed ≡ none
    pub drops : (x : Code) → e.result ≡ err x → e.closed ≡ e.opened
    pub opens :
        (c : Connection)
        → e.opened ≡ some c
        → (relay : String) × ((peer_id relay_addr ≡ some relay)
            × (first_connection (get_connections_of m relay) ≡ none)
            × (open_connection relay ≡ ok c))

  -- A dial over several relays is the dial over the first of them alone: what the address names between the first relayed
  -- part and the last is not used.
  pub dial_first_relay :
      (m : Manager) (relay_addr middle addr : List String)
      → IsDirect relay_addr
      → dial own peer_id bytes open_connection respond upgrade m
          (relay_addr ++ "p2p-circuit" ∷ (middle ++ "p2p-circuit" ∷ addr))
        ≡ dial own peer_id bytes open_connection respond upgrade m
            (relay_addr ++ "p2p-circuit" ∷ addr)
  unfolding dial
  dial_first_relay m relay_addr middle addr d =
      let dial_at = λ (p q : List String).
        dial_peers own peer_id bytes open_connection respond upgrade m p q (peer_id p)
          (peer_id q) in
      let f =
        first_of-split relay_addr (middle ++ "p2p-circuit" ∷ addr) d
        ∙ sym (first_of-split relay_addr addr d) in
      let l =
        last_of-split relay_addr (middle ++ "p2p-circuit" ∷ addr)
        ∙ last_of-split middle addr
        ∙ sym (last_of-split relay_addr addr) in
      ap
        (λ p.
          dial_at p
            (last_of (split (relay_addr ++ "p2p-circuit" ∷ (middle ++ "p2p-circuit" ∷ addr)))))
        f
      ∙ ap (dial_at (first_of (split (relay_addr ++ "p2p-circuit" ∷ addr)))) l

  unopened-IsTidy :
      (m : Manager) (relay_addr : List String) (e : DialEnd C)
      → e.opened ≡ none
      → e.closed ≡ none
      → IsTidy m relay_addr e
  unopened-IsTidy m relay_addr e f g = record {
    keeps = λ x h. g;
    drops = λ x h. g ∙ sym f;
    opens = λ c h. absurd (none_ne_some (sym f ∙ h));
  }

  dial_opened-IsTidy :
      (m : Manager) (relay_addr : List String) (relay : String) (attempt : Connection → Result C)
      (s : Option (String × List String)) (r : Result Connection)
      → peer_id relay_addr ≡ some relay
      → first_connection (get_connections_of m relay) ≡ none
      → open_connection relay ≡ r
      → IsTidy m relay_addr (dial_opened attempt s r)
  dial_opened-IsTidy m relay_addr relay attempt s (err e) p f q =
      unopened-IsTidy m relay_addr _ refl refl
  dial_opened-IsTidy m relay_addr relay attempt s (ok c) p f q = record {
    keeps = λ x h. ap (λ r. over r (some c)) h;
    drops = λ x h. ap (λ r. over r (some c)) h;
    opens = λ d h. (relay, (p, f, q ∙ ap ok (eq_of_some h)));
  }

  dial_over-IsTidy :
      (m : Manager) (relay_addr : List String) (relay : String) (attempt : Connection → Result C)
      (o : Option Connection)
      → peer_id relay_addr ≡ some relay
      → first_connection (get_connections_of m relay) ≡ o
      → IsTidy m relay_addr (dial_over attempt (relay, relay_addr) o (open_connection relay))
  dial_over-IsTidy m relay_addr relay attempt none p f =
      dial_opened-IsTidy m relay_addr relay attempt _ (open_connection relay) p f refl
  dial_over-IsTidy m relay_addr relay attempt (some c) p f =
      unopened-IsTidy m relay_addr _ refl refl

  dial_peers-IsTidy :
      (m : Manager) (relay_addr addr : List String) (p q : Option String)
      → peer_id relay_addr ≡ p
      → IsTidy m relay_addr
          (dial_peers own peer_id bytes open_connection respond upgrade m relay_addr addr p q)
  dial_peers-IsTidy m relay_addr addr none q e = unopened-IsTidy m relay_addr _ refl refl
  dial_peers-IsTidy m relay_addr addr (some r) none e = unopened-IsTidy m relay_addr _ refl refl
  dial_peers-IsTidy m relay_addr addr (some r) (some d) e =
      dial_over-IsTidy m relay_addr r _ _ e refl

  -- However a dial over a relay ends, the connection that it has opened to the relay, if any, is closed exactly if the dial
  -- has failed; and it opens one only to the peer of the address before the first `/p2p-circuit`, if the manager has none to
  -- this peer.
  pub dial-IsTidy :
      (m : Manager) (ma : List String)
      → IsTidy m (first_of (split ma)) (dial own peer_id bytes open_connection respond upgrade m ma)
  unfolding dial
  dial-IsTidy m ma = dial_peers-IsTidy m (first_of (split ma)) (last_of (split ma)) _ _ refl
