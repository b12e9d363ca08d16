-- ===== src/Node/Lifecycle.antt =====
-- Starting and stopping a node with its services.
use state_channels.Common.{
  ◌≡◌, refl, sym, ap, subst, ◌∙◌, Bool, true, false, List, [], ◌∷◌, ◌++◌, if◌then◌else◌, All,
}
use state_channels.Errors.{Code, Result, ok, err, ok_ne_err, ◌>>◌, then-ok}
use state_channels.Node.{
  Phase, before_start, start_phase, after_start, before_stop, stop_phase, after_stop, Service, Node,
  Call, Answers, Done, calls_of, answer_of, all_of, run_phase, then_phase, three_phases, stop,
  stop_on_error, start,
}

-- The hooks of a whole start and of a whole stop, in their order.
abbrev pub start_calls : List Service → List Call
start_calls ss = calls_of before_start ss ++ (calls_of start_phase ss ++ calls_of after_start ss)

-- Every service answers each of three phases with success.
abbrev pub Succeeds : Answers → Phase → List Service → Type 0
Succeeds answers ph ss = All (λ s. answer_of answers ph s ≡ ok tt) ss

pub all_of-Succeeds :
    (answers : Answers) (ph : Phase) (ss : List Service)
    → all_of answers ph ss ≡ ok tt
    → Succeeds answers ph ss
all_of-Succeeds answers ph [] h = tt
all_of-Succeeds answers ph (s ∷ ss) h =
    let (a, k) = then-ok (answer_of answers ph s) _ tt h in (a, all_of-Succeeds answers ph ss k)

then_phase_at :
    (cs : List Call) (r : Result (Unit {0})) (rest : Done)
    → (then_phase (record { calls = cs; result = r }) rest).result ≡ ok tt
    → (r ≡ ok tt)
      × ((rest.result ≡ ok tt)
          × ((then_phase (record { calls = cs; result = r }) rest).calls ≡ cs ++ rest.calls))
then_phase_at cs (ok tt) rest h = (refl, (h, refl))
then_phase_at cs (err e) rest h = absurd (ok_ne_err (sym h))

then_phase-ok :
    (d rest : Done)
    → (then_phase d rest).result ≡ ok tt
    → (d.result ≡ ok tt)
      × ((rest.result ≡ ok tt) × ((then_phase d rest).calls ≡ d.calls ++ rest.calls))
then_phase-ok d rest h = then_phase_at d.calls d.result rest h

done_eq :
    (d : Done) (cs : List Call) (r : Result (Unit {0}))
    → d.calls ≡ cs
    → d.result ≡ r
    → d ≡ record { calls = cs; result = r }
done_eq d cs r e f =
    let x : d ≡ record { calls = cs; result = d.result } =
      ap (λ c. record { calls = c; result = d.result }) e in
    x ∙ ap (λ t. record { calls = cs; result = t }) f

module _ (answers : Answers) where
  three_phases-ok :
      (p q r : Phase) (ss : List Service)
      → (three_phases answers p q r ss).result ≡ ok tt
      → ((three_phases answers p q r ss).calls ≡ calls_of p ss ++ (calls_of q ss ++ calls_of r ss))
        × (Succeeds answers p ss × (Succeeds answers q ss × Succeeds answers r ss))
  unfolding run_phase
  three_phases-ok p q r ss h =
      let (a, (b, c)) = then_phase-ok (run_phase answers p ss) _ h in
      let (d, (e, f)) = then_phase-ok (run_phase answers q ss) (run_phase answers r ss) b in
      (
        c ∙ ap (λ x. calls_of p ss ++ x) f,
        (
          all_of-Succeeds answers p ss a,
          (all_of-Succeeds answers q ss d, all_of-Succeeds answers r ss e),
        ),
      )

  -- The three ways in which a start of a node ends.
  pub data StartEnds (n : Node) : Node × Done → Type 0 where
    keys_failed :
        {e : Code}
        → StartEnds n (record n { started = true }, record { calls = []; result = err e })
    all_started :
        Succeeds answers before_start n.services
        → Succeeds answers start_phase n.services
        → Succeeds answers after_start n.services
        → StartEnds n
            (record n { started = true }, record { calls = start_calls n.services; result = ok tt })
    stopped_again :
        {e : Code}
        → (three_phases answers before_start start_phase after_start n.services).result ≡ err e
        → StartEnds n (
          record n { started = false },
          record {
            calls =
                (three_phases answers before_start start_phase after_start n.services).calls
                ++ (three_phases answers before_stop stop_phase after_stop n.services).calls;
            result =
                (three_phases answers before_stop stop_phase after_stop n.services).result >> err e;
          },
        )

  stop_on_error-StartEnds :
      (n : Node) (d : Done) (r : Result (Unit {0}))
      → three_phases answers before_start start_phase after_start n.services ≡ d
      → d.result ≡ r
      → StartEnds n (stop_on_error answers (record n { started = true }) d r)
  unfolding stop
  stop_on_error-StartEnds n d (ok tt) e h =
      let (cs, (b, (s, a))) =
        three_phases-ok before_start start_phase after_start n.services
          (ap (λ x. x.result) e ∙ h) in
      subst (λ x. StartEnds n (record n { started = true }, x))
        (sym (done_eq d (start_calls n.services) (ok tt) (sym (ap (λ x. x.calls) e) ∙ cs) h))
        (all_started b s a)
  stop_on_error-StartEnds n d (err c) e h =
      subst (λ x. StartEnds n (stop_on_error answers (record n { started = true }) x (err c))) e
        (stopped_again (ap (λ x. x.result) e ∙ h))

  unless_started :
      (n : Node) (x y : Node × Done)
      → n.started ≡ false
      → StartEnds n y
      → StartEnds n (if n.started then x else y)
  unless_started n x y h e = subst (λ b. StartEnds n (if b then x else y)) (sym h) e

  -- A start of a node that is not started ends in one of three ways: the keychain fails, and no hook is called; every
  -- service succeeds in every phase, each hook having been called, phase by phase, and the node is started; or a service
  -- fails, the hooks called next are those of `stop`, and the node is not started.
  pub start-StartEnds :
      (listed : Result Bool) (imported : Result (Unit {0})) (n : Node)
      → n.started ≡ false
      → StartEnds n (start answers listed imported n)
  unfolding start
  start-StartEnds (err c) imported n h = unless_started n _ _ h keys_failed
  start-StartEnds (ok true) imported n h =
      unless_started n _ _ h (stop_on_error-StartEnds n _ _ refl refl)
  start-StartEnds (ok false) (ok tt) n h =
      unless_started n _ _ h (stop_on_error-StartEnds n _ _ refl refl)
  start-StartEnds (ok false) (err c) n h = unless_started n _ _ h keys_failed

-- A node whose keychain has failed during `start` takes itself for started: a later `start` calls no hook of any service and
-- reports success, whatever the keychain and the services would answer.
pub start-keys_failed :
    (answers later : Answers) (e : Code) (imported imported' : Result (Unit {0}))
    (listed : Result Bool) (n : Node)
    → n.started ≡ false
    → start later listed imported' ((start answers (err e) imported n).0)
      ≡ (record n { started = true }, record { calls = []; result = ok tt })
unfolding start
start-keys_failed answers later e imported imported' listed n h = rw h refl
