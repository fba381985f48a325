-- ===== src/NeuroSymbolic/Think/Bounds.antt =====
-- How often one run of `think` verifies, calls the language model and counts a task.
use Prim.Native.String.{String}
use noema.Prelude.{
  ℕ, zero, suc, ◌+◌, ◌-◌, ◌*◌, ◌≤◌, ◌<◌, Bool, true, false, List, [], ◌∷◌, length, length-append,
  Result, ok, raise, ltb, ltb→lt, arith, Bool-cases, inl, inr,
}
use noema.NeuroSymbolic.Think.State.{
  Act, Round, Event, Run, pure, yield_event, count_up, record_round, call, throw, rounds_so_far,
}
use noema.NeuroSymbolic.Think.Rules.{Grows, Grows-bind, Grows-then, Grows-if, Grows-try}
use noema.NeuroSymbolic.Think.{
  TraceOutcome, Services, Engine, count_llm_call, count_refinement, count_success, count_failure,
  commit_trace, record_outcome, causal_stage, accept, give_up, refine, verify_attempt, attempt_loop,
  reason, report, reason_guarded, validated, think,
}

module _ {W E Raw Task Graph Hyp Static Causal : Type 0}
    (s : Services W E Raw Task Graph Hyp Static Causal) (engine : Engine)
    -- A measure, and by how much a round, a model call and a counted task raise it.
    (μ : Run W E Hyp Static Causal → ℕ) (per_round per_model_call per_task : ℕ)
    (yields : (e : Event E Hyp Static Causal) → Grows μ 0 (yield_event e))
    (calls : (A : Type 0) (act : Act W E A) → Grows μ 0 (call act))
    (rounds : (x : Round Hyp Static) → Grows μ per_round (record_round x))
    (models : Grows μ per_model_call (count_up count_llm_call))
    (refinements : Grows μ per_model_call (count_up count_refinement))
    (successes : Grows μ per_task (count_up count_success))
    (failures : Grows μ per_task (count_up count_failure)) where
  Grows-commit :
      (task : Task) (outcome : TraceOutcome) (n : ℕ)
      → Grows μ 0 (commit_trace s engine task outcome n)
  unfolding commit_trace pure rounds_so_far
  Grows-commit task outcome n =
      Grows-if μ 0 engine.has_trace_dir _ (pure tt)
        (Grows-then μ 0 rounds_so_far _ (λ r. omega arith) (λ x. calls _ _)) (λ r. omega arith)

  Grows-outcome :
      (task : Task) (h : Hyp) (good : Bool) (vs : List String)
      → Grows μ 0 (record_outcome s engine task h good vs)
  unfolding record_outcome pure
  Grows-outcome task h good vs =
      Grows-if μ 0 engine.enable_evolution _ (pure tt) (calls _ (s.record_outcome task h good vs))
        (λ r. omega arith)

  Grows-causal : (task : Task) → Grows μ 0 (causal_stage s engine task)
  unfolding causal_stage pure
  Grows-causal task =
      Grows-if μ 0 engine.enable_causal _ (pure [])
        (Grows-then μ 0 (yield_event Event.causal_started) _ (yields Event.causal_started) (λ _.
          Grows-then μ 0 (call (s.run_causal_analysis task)) _
            (calls _ (s.run_causal_analysis task))
            (λ analysis.
              Grows-then μ 0 (yield_event (Event.causal_completed _)) _
                (yields (Event.causal_completed _)) (λ _ r. omega arith))))
        (λ r. omega arith)

  Grows-accept :
      (task : Task) (n : ℕ) (h : Hyp) (v : Static) → Grows μ per_task (accept s engine task n h v)
  unfolding accept
  Grows-accept task n h v =
      Grows-bind μ per_task 0 per_task (count_up count_success) _ (omega arith) successes (λ _.
        Grows-then μ 0 (record_outcome s engine task h true []) _ (Grows-outcome task h true [])
          (λ _. Grows-then μ 0 (causal_stage s engine task) _ (Grows-causal task) (λ x.
            Grows-then μ 0 (yield_event (Event.completed h (n + 1) v x)) _
              (yields (Event.completed h (n + 1) v x))
              (λ _. Grows-commit task TraceOutcome.completed (n + 1)))))

  Grows-give_up :
      (task : Task) (h : Hyp) (v : Static) (vs : List String)
      → Grows μ per_task (give_up s engine task h v vs)
  unfolding give_up
  Grows-give_up task h v vs =
      Grows-bind μ per_task 0 per_task (count_up count_failure) _ (omega arith) failures (λ _.
        Grows-then μ 0 (record_outcome s engine task h false vs) _ (Grows-outcome task h false vs)
          (λ _.
            Grows-then μ 0 (yield_event (Event.failed engine.max_refinement_attempts v)) _
              (yields (Event.failed engine.max_refinement_attempts v))
              (λ _. Grows-commit task TraceOutcome.failed engine.max_refinement_attempts)))

  -- A refinement is made only where another attempt follows.
  Grows-refine :
      (task : Task) (n : ℕ) (h : Hyp) (vs : List String) (k : ℕ)
      → (n + 1 < engine.max_refinement_attempts → per_model_call ≤ k)
      → Grows μ k (refine s engine task n h vs)
  unfolding refine pure
  Grows-refine task n h vs k le = elim (Bool-cases (ltb (n + 1) engine.max_refinement_attempts)) [
    | inr e ↦ rw e (λ r. omega arith)
    | inl e ↦ rw e (
        Grows-then μ k (yield_event (Event.refinement_started (n + 1))) _
          (yields (Event.refinement_started (n + 1)))
          (λ _.
            Grows-then μ k (call (s.refine_hypothesis h vs task)) _
              (calls _ (s.refine_hypothesis h vs task))
              (λ better.
                Grows-bind μ per_model_call 0 k (count_up count_refinement) _
                  (omega (arith, le (ltb→lt (n + 1) engine.max_refinement_attempts e))) refinements
                  (λ _.
                    Grows-then μ 0 (yield_event (Event.refinement_completed (n + 1))) _
                      (yields (Event.refinement_completed (n + 1))) (λ _ r. omega arith)))))
  ]

  Grows-verify :
      (graph : Graph) (n : ℕ) (h : Hyp) → Grows μ per_round (verify_attempt s engine graph n h)
  unfolding verify_attempt pure
  Grows-verify graph n h =
      Grows-then μ per_round (call (s.analyze_solution_static h)) _
        (calls _ (s.analyze_solution_static h))
        (λ v.
          Grows-then μ per_round (yield_event (Event.verification_started (n + 1) v)) _
            (yields (Event.verification_started (n + 1) v))
            (λ _.
              Grows-then μ per_round (call (s.verify_solution h graph)) _
                (calls _ (s.verify_solution h graph))
                (λ (valid, vs).
                  Grows-bind μ per_round 0 per_round (record_round _) _ (omega arith) (rounds _)
                    (λ _.
                      Grows-then μ 0 (yield_event (Event.verification_completed (n + 1) valid _ v))
                        _ (yields (Event.verification_completed (n + 1) valid _ v))
                        (λ _ r. omega arith)))))

  Grows-attempts :
      (task : Task) (graph : Graph) (left n : ℕ) (h : Hyp)
      → engine.max_refinement_attempts ≤ n + left + 1
      → Grows μ
          (per_round * (left + 1) + per_model_call * left + per_task)
          (attempt_loop s engine task graph left n h)
  unfolding attempt_loop
  Grows-attempts task graph zero n h le =
      Grows-bind μ per_round per_task _ (verify_attempt s engine graph n h) _ (grind arith)
        (Grows-verify graph n h)
        (λ (v, valid, vs). Grows-if μ per_task valid _ _ (Grows-accept task n h v) (
          Grows-then μ per_task (refine s engine task n h vs) _
            (Grows-refine task n h vs 0 (λ lt. absurd (omega arith)))
            (λ last. Grows-give_up task last v vs)))
  Grows-attempts task graph (suc left) n h le =
      Grows-bind μ per_round
        (per_model_call + (per_round * (left + 1) + per_model_call * left + per_task)) _
        (verify_attempt s engine graph n h) _ (grind arith) (Grows-verify graph n h)
        (λ (v, valid, vs).
          Grows-if μ _ valid _ _ (λ r. omega (arith, Grows-accept task n h v r))
            (Grows-bind μ per_model_call (per_round * (left + 1) + per_model_call * left + per_task)
              _ (refine s engine task n h vs) _ (omega arith)
              (Grows-refine task n h vs per_model_call (λ lt. omega arith))
              (λ better. Grows-attempts task graph left (n + 1) better (omega arith))))

  abbrev reason_growth : ℕ
  reason_growth =
      per_model_call
      + (per_round * (engine.max_refinement_attempts - 1 + 1)
          + per_model_call * (engine.max_refinement_attempts - 1)
          + per_task)

  Grows-reason : (task : Task) → Grows μ reason_growth (reason s engine task)
  unfolding reason
  Grows-reason task =
      let last = engine.max_refinement_attempts - 1 in
      let loop = per_round * (last + 1) + per_model_call * last + per_task in
      Grows-then μ reason_growth (yield_event Event.parsing_started) _
        (yields Event.parsing_started)
        (λ _.
          Grows-then μ reason_growth (call (s.parse_task task)) _ (calls _ (s.parse_task task))
            (λ graph.
              Grows-then μ reason_growth (yield_event Event.parsing_completed) _
                (yields Event.parsing_completed)
                (λ _.
                  Grows-then μ reason_growth (yield_event Event.hypothesis_started) _
                    (yields Event.hypothesis_started)
                    (λ _.
                      Grows-then μ reason_growth (call (s.generate_hypothesis task)) _
                        (calls _ (s.generate_hypothesis task))
                        (λ h.
                          Grows-bind μ per_model_call loop reason_growth (count_up count_llm_call) _
                            (omega arith) models
                            (λ _.
                              Grows-then μ loop (yield_event (Event.hypothesis_completed h)) _
                                (yields (Event.hypothesis_completed h))
                                (λ _. Grows-attempts task graph last 0 h (omega arith))))))))

  Grows-report : (task : Task) (e : E) → Grows μ per_task (report s engine task e)
  unfolding report rounds_so_far
  Grows-report task e =
      Grows-bind μ per_task 0 per_task (count_up count_failure) _ (omega arith) failures (λ _.
        Grows-then μ 0 (yield_event (Event.error e)) _ (yields (Event.error e)) (λ _.
          Grows-then μ 0 rounds_so_far _ (λ r. omega arith)
            (λ x. Grows-commit task TraceOutcome.error _)))

  Grows-input : (v : Result E Task) → Grows μ (reason_growth + per_task) (validated s engine v)
  unfolding validated reason_guarded throw
  Grows-input (raise e) = λ r. omega arith
  Grows-input (ok task) =
      Grows-try μ reason_growth per_task _ (reason s engine task) (report s engine task)
        (omega arith) (Grows-reason task) (λ e. Grows-report task e)

  pub think-Grows : (raw : Raw) → Grows μ (reason_growth + per_task) (think s engine raw)
  unfolding think throw
  think-Grows raw =
      Grows-if μ (reason_growth + per_task) engine.started (validated s engine (s.validate raw))
        (throw s.not_started) (Grows-input (s.validate raw)) (λ r. omega arith)

module _ {W E Raw Task Graph Hyp Static Causal : Type 0}
    (s : Services W E Raw Task Graph Hyp Static Causal) (engine : Engine) where
  rounds-le :
      (raw : Raw) (r : Run W E Hyp Static Causal)
      → length (think s engine raw r).0.rounds
        ≤ length r.rounds + (1 * (engine.max_refinement_attempts - 1 + 1))
  unfolding yield_event call count_up record_round
  rounds-le raw r =
      let bound =
        think-Grows s engine (λ r. length r.rounds) 1 0 0 (λ e r. omega arith)
          (λ A act r. omega arith) (λ x r. omega (arith, length-append r.rounds (x ∷ [])))
          (λ r. omega arith) (λ r. omega arith) (λ r. omega arith) (λ r. omega arith) raw r in
      omega arith

  model_calls-le :
      (raw : Raw) (r : Run W E Hyp Static Causal)
      → (think s engine raw r).0.metrics.total_llm_calls
        ≤ r.metrics.total_llm_calls + (engine.max_refinement_attempts - 1 + 1)
  unfolding yield_event call count_up record_round
  model_calls-le raw r =
      let bound =
        think-Grows s engine (λ r. r.metrics.total_llm_calls) 0 1 0 (λ e r. omega arith)
          (λ A act r. omega arith) (λ x r. omega arith) (λ r. omega arith) (λ r. omega arith)
          (λ r. omega arith) (λ r. omega arith) raw r in
      omega arith

  tasks-le :
      (raw : Raw) (r : Run W E Hyp Static Causal)
      → (think s engine raw r).0.metrics.tasks_processed ≤ r.metrics.tasks_processed + 2
  unfolding yield_event call count_up record_round
  tasks-le raw r =
      let bound =
        think-Grows s engine (λ r. r.metrics.tasks_processed) 0 0 1 (λ e r. omega arith)
          (λ A act r. omega arith) (λ x r. omega arith) (λ r. omega arith) (λ r. omega arith)
          (λ r. omega arith) (λ r. omega arith) raw r in
      omega arith

  -- An engine with a positive bound on its attempts, whatever its services do: one run of `think`
  -- records at most that many verification rounds, counts at most that many calls of the language
  -- model, and counts at most two processed tasks.
  pub think_bounded :
      (raw : Raw) (r : Run W E Hyp Static Causal)
      → 1 ≤ engine.max_refinement_attempts
      → let r' = (think s engine raw r).0 in
        (length r'.rounds ≤ length r.rounds + engine.max_refinement_attempts)
        × (r'.metrics.total_llm_calls ≤ r.metrics.total_llm_calls + engine.max_refinement_attempts)
        × (r'.metrics.tasks_processed ≤ r.metrics.tasks_processed + 2)
  think_bounded raw r h =
      (omega (arith, rounds-le raw r), omega (arith, model_calls-le raw r), tasks-le raw r)
