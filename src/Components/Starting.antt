-- ===== src/Components/Starting.antt =====
-- The parts of a node are started together.
use state_channels.Common.{
  ◌≡◌, refl, ap, ◌∙◌, ◌↔◌, true, false, Option, List, [], ◌∷◌, true_ne_false,
}
use state_channels.Errors.{Result, ok, err, ◌>>◌}
use state_channels.Node.{Service, Answers, start_phase, all_of, run_phase}
use state_channels.Node.Lifecycle.{Succeeds, all_of-Succeeds}
use state_channels.Components.{Components, startables, if_done, start}

Succeeds-all_of :
    (answers : Answers) (ph : _) (ss : List Service)
    → Succeeds answers ph ss
    → all_of answers ph ss ≡ ok tt
Succeeds-all_of answers ph [] a = refl
Succeeds-all_of answers ph (s ∷ ss) (h, a) =
    ap (λ r. r >> all_of answers ph ss) h ∙ Succeeds-all_of answers ph ss a

module _ {C : Type 0} (as_startable : C → Option Service) (answers : Answers) where
  if_done-true :
      (x : Components C) (r : Result (Unit {0}))
      → x.started ≡ false
      → (if_done x true r).started ≡ true
      → r ≡ ok tt
  if_done-true x (ok tt) h k = refl
  if_done-true x (err e) h k = absurd (true_ne_false k h)

  -- Components that are not started take themselves for started after `start` exactly if the start of every part that is
  -- startable succeeds.
  pub start-Succeeds :
      (x : Components C)
      → x.started ≡ false
      → ((start as_startable answers x).0.started ≡ true)
        ↔ Succeeds answers start_phase (startables as_startable x)
  unfolding start run_phase
  start-Succeeds x h = (
    λ k. all_of-Succeeds answers start_phase (startables as_startable x) (if_done-true x _ h k),
    λ a.
        ap (λ r. (if_done x true r).started)
          (Succeeds-all_of answers start_phase (startables as_startable x) a),
  )
