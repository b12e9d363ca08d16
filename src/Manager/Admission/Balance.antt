-- ===== src/Manager/Admission/Balance.antt =====
-- The counter of pending connections over the life of a node.
use state_channels.Common.{
  ℕ, suc, String, ◌≡◌, refl, sym, ap, ◌∙◌, subst, Bool, true, false, if◌then◌else◌,
}
use state_channels.Common.Int.{pos, increment, decrement, increment-pos, decrement-pos}
use state_channels.Manager.{Manager}
use state_channels.Manager.Admission.{
  RemoteAddr, admit, after_upgrade_inbound, accept_incoming_connection,
  accept_incoming_connection-state, Reach, none_yet, arrives, refused, finished,
}

module _ {L : Type 0} (consume : String → L → L × Bool) where
  -- What a reachable manager keeps of the one that was started, and what its counter says.
  pub record Counts (start m : Manager) (n : ℕ) : Type 0 where
    pub counter : m.incoming_pending_connections ≡ pos n
    pub same_opts : m.opts ≡ start.opts
    pub same_allow : m.allow ≡ start.allow

  accepted_state :
      (m : Manager) (a : RemoteAddr) (l : L) (b : Bool)
      → (accept_incoming_connection consume m a l).0 ≡ b
      → (accept_incoming_connection consume m a l).1 ≡ (if b then admit m else m)
  accepted_state m a l b e =
      accept_incoming_connection-state consume m a l ∙ ap (λ x. if x then admit m else m) e

  -- If the counter of pending connections starts at 0, then in every state that arrivals,
  -- refusals and ends of upgrades lead to it is the number of accepted connections whose upgrade
  -- has not ended, and the options and the allow list are as at the start.
  pub Reach-Counts :
      {start m : Manager} {n : ℕ}
      → start.incoming_pending_connections ≡ pos 0
      → Reach consume start m n
      → Counts start m n
  unfolding after_upgrade_inbound
  Reach-Counts z none_yet = record { counter = z; same_opts = refl; same_allow = refl }
  Reach-Counts {start} z (arrives {m} {n} a l r e) =
      subst (λ x. Counts start x (suc n)) (sym (accepted_state m a l true e))
        (let c = Reach-Counts z r in
          record {
            counter = ap increment c.counter ∙ increment-pos n;
            same_opts = c.same_opts;
            same_allow = c.same_allow;
          })
  Reach-Counts {start} z (refused {m} {n} a l r e) =
      subst (λ x. Counts start x n) (sym (accepted_state m a l false e)) (Reach-Counts z r)
  Reach-Counts {start} z (finished {m} {n} r) =
      let c = Reach-Counts z r in
      record {
        counter = ap decrement c.counter ∙ decrement-pos n;
        same_opts = c.same_opts;
        same_allow = c.same_allow;
      }
