-- ===== src/NeuroSymbolic/Think/Invariants.antt =====
-- A rule for invariants of `think`: what each single effect keeps, the whole run keeps. The event
-- that hands out a solution has to keep it only where the verifier accepted that solution.
use Prim.Native.String.{String}
use noema.Prelude.{
  ℕ, zero, suc, ◌+◌, ◌≡◌, ap, ◌∙◌, Bool, true, false, List, [], Result, ok, raise, ltb, arith,
}
use noema.NeuroSymbolic.Think.State.{
  Act, Metrics, Round, Event, Run, pure, yield_event, count_up, record_round, call, rounds_so_far,
  throw,
}
use noema.NeuroSymbolic.Think.Rules.{
  Triple, Keeps, triple_bind, triple_then, Keeps-bind, Keeps-then, Keeps-if, Keeps-try,
}
use noema.NeuroSymbolic.Think.{
  TraceOutcome, Services, Engine, commit_trace, record_outcome, causal_stage, accept, give_up,
  refine, verify_attempt, attempt_loop, reason, report, reason_guarded, validated, think,
}

valid_of :
    {E Static : Type 0} (x a : Static × Bool × List String)
    → ◌≡◌ {A = Result E (Static × Bool × List String)} (ok x) (ok a)
    → a.1 ≡ true
    → x.1 ≡ true
valid_of x a e v = let same : x ≡ a = cc in ap (λ t. t.1) same ∙ v

module _ {W E Raw Task Graph Hyp Static Causal : Type 0}
    (s : Services W E Raw Task Graph Hyp Static Causal) (engine : Engine) where
  -- In some world the verifier accepted this hypothesis for some task graph.
  abbrev pub IsVerified : Hyp → Type 0
  IsVerified h =
      (graph : Graph) × (w : W) × (violations : List String) × ((s.verify_solution h graph w).1
        ≡ ok (true, violations))

  -- An event that hands out a solution hands out a verified one.
  abbrev pub IsBacked : Event E Hyp Static Causal → Type 0
  IsBacked (Event.completed h n verdict analysis) = IsVerified h
  IsBacked _ = Unit

  abbrev pub IsBalanced : Metrics → Type 0
  IsBalanced m = m.tasks_processed ≡ m.tasks_successful + m.tasks_failed

  module _ (Good : Run W E Hyp Static Causal → Type 0)
      (keeps_yield : (e : Event E Hyp Static Causal) → IsBacked e → Keeps Good (yield_event e))
      (keeps_call : (A : Type 0) (act : Act W E A) → Keeps Good (call act))
      (keeps_count : (f : Metrics → Metrics)
        → ((m : Metrics) → IsBalanced m → IsBalanced (f m))
        → Keeps Good (count_up f))
      (keeps_round : (x : Round Hyp Static) → Keeps Good (record_round x)) where
    Keeps-commit :
        (task : Task) (outcome : TraceOutcome) (n : ℕ)
        → Keeps Good (commit_trace s engine task outcome n)
    unfolding commit_trace pure
    Keeps-commit task outcome n =
        Keeps-if Good engine.has_trace_dir _ (pure tt)
          (λ e.
            Keeps-then Good rounds_so_far _ (unfold rounds_so_far in λ r g. g)
              (λ rounds. keeps_call _ _))
          (λ r g. g)

    Keeps-outcome :
        (task : Task) (h : Hyp) (good : Bool) (violations : List String)
        → Keeps Good (record_outcome s engine task h good violations)
    unfolding record_outcome pure
    Keeps-outcome task h good violations =
        Keeps-if Good engine.enable_evolution _ (pure tt)
          (λ e. keeps_call _ (s.record_outcome task h good violations)) (λ r g. g)

    Keeps-causal : (task : Task) → Keeps Good (causal_stage s engine task)
    unfolding causal_stage pure
    Keeps-causal task =
        Keeps-if Good engine.enable_causal _ (pure [])
          (λ e.
            Keeps-then Good (yield_event Event.causal_started) _
              (keeps_yield Event.causal_started tt)
              (λ _.
                Keeps-then Good (call (s.run_causal_analysis task)) _
                  (keeps_call _ (s.run_causal_analysis task))
                  (λ analysis.
                    Keeps-then Good (yield_event (Event.causal_completed _)) _
                      (keeps_yield (Event.causal_completed _) tt) (λ _ r g. g))))
          (λ r g. g)

    Keeps-accept :
        (task : Task) (attempt : ℕ) (h : Hyp) (verdict : Static)
        → IsVerified h
        → Keeps Good (accept s engine task attempt h verdict)
    unfolding accept
    Keeps-accept task attempt h verdict v =
        Keeps-then Good (count_up _) _ (keeps_count _ (λ m b. omega arith)) (λ _.
          Keeps-then Good (record_outcome s engine task h true []) _ (Keeps-outcome task h true [])
            (λ _. Keeps-then Good (causal_stage s engine task) _ (Keeps-causal task) (λ analysis.
              Keeps-then Good (yield_event (Event.completed h (attempt + 1) verdict analysis)) _
                (keeps_yield (Event.completed h (attempt + 1) verdict analysis) v)
                (λ _. Keeps-commit task TraceOutcome.completed (attempt + 1)))))

    Keeps-give_up :
        (task : Task) (h : Hyp) (verdict : Static) (violations : List String)
        → Keeps Good (give_up s engine task h verdict violations)
    unfolding give_up
    Keeps-give_up task h verdict violations =
        Keeps-then Good (count_up _) _ (keeps_count _ (λ m b. omega arith)) (λ _.
          Keeps-then Good (record_outcome s engine task h false violations) _
            (Keeps-outcome task h false violations)
            (λ _.
              Keeps-then Good (yield_event (Event.failed engine.max_refinement_attempts verdict)) _
                (keeps_yield (Event.failed engine.max_refinement_attempts verdict) tt)
                (λ _. Keeps-commit task TraceOutcome.failed engine.max_refinement_attempts)))

    Keeps-refine :
        (task : Task) (attempt : ℕ) (h : Hyp) (violations : List String)
        → Keeps Good (refine s engine task attempt h violations)
    unfolding refine pure
    Keeps-refine task attempt h violations =
        Keeps-if Good (ltb (attempt + 1) engine.max_refinement_attempts) _ (pure h)
          (λ e.
            Keeps-then Good (yield_event (Event.refinement_started (attempt + 1))) _
              (keeps_yield (Event.refinement_started (attempt + 1)) tt)
              (λ _.
                Keeps-then Good (call (s.refine_hypothesis h violations task)) _
                  (keeps_call _ (s.refine_hypothesis h violations task))
                  (λ better.
                    Keeps-then Good (count_up _) _ (keeps_count _ (λ m b. omega arith)) (λ _.
                      Keeps-then Good (yield_event (Event.refinement_completed (attempt + 1))) _
                        (keeps_yield (Event.refinement_completed (attempt + 1)) tt) (λ _ r g. g)))))
          (λ r g. g)

    verdict_call :
        (graph : Graph) (h : Hyp)
        → Triple Good (call (s.verify_solution h graph)) (λ a. a.0 ≡ true → IsVerified h)
    unfolding call
    verdict_call graph h r g = (
      keeps_call _ (s.verify_solution h graph) r g,
      λ a e valid. (graph, r.world, a.1, e ∙ ap ok (pair_eq a valid)),
    )
      where
        pair_eq : (a : Bool × List String) → a.0 ≡ true → a ≡ (true, a.1)
        pair_eq (b, vs) p = ap (λ x. (x, vs)) p

    -- An attempt that reports a valid verdict has run the verifier on its hypothesis.
    verify_attempt_triple :
        (graph : Graph) (attempt : ℕ) (h : Hyp)
        → Triple Good (verify_attempt s engine graph attempt h) (λ a. a.1 ≡ true → IsVerified h)
    unfolding verify_attempt record_round pure
    verify_attempt_triple graph attempt h =
        let Valid : Static × Bool × List String → Type 0 = λ a. a.1 ≡ true → IsVerified h in
        triple_then Good Valid (call (s.analyze_solution_static h)) _
          (keeps_call _ (s.analyze_solution_static h))
          (λ verdict.
            triple_then Good Valid (yield_event (Event.verification_started (attempt + 1) verdict))
              _ (keeps_yield (Event.verification_started (attempt + 1) verdict) tt)
              (λ _.
                triple_bind Good (λ a. a.0 ≡ true → IsVerified h) Valid
                  (call (s.verify_solution h graph)) _ (verdict_call graph h)
                  (λ (valid, violations) sound.
                    triple_then Good Valid (record_round _) _ (keeps_round _) (λ _.
                      triple_then Good Valid
                        (yield_event (Event.verification_completed (attempt + 1) valid _ verdict)) _
                        (keeps_yield (Event.verification_completed (attempt + 1) valid _ verdict)
                          tt)
                        (λ _ r g.
                          (g, λ a e v. sound (valid_of (verdict, valid, violations) a e v)))))))

    Keeps-attempts :
        (task : Task) (graph : Graph) (left attempt : ℕ) (h : Hyp)
        → Keeps Good (attempt_loop s engine task graph left attempt h)
    unfolding attempt_loop
    Keeps-attempts task graph zero attempt h =
        Keeps-bind Good (λ a. a.1 ≡ true → IsVerified h) (verify_attempt s engine graph attempt h) _
          (verify_attempt_triple graph attempt h)
          (λ (verdict, valid, violations) sound.
            Keeps-if Good valid _ _ (λ v. Keeps-accept task attempt h verdict (sound v))
              (Keeps-then Good (refine s engine task attempt h violations) _
                (Keeps-refine task attempt h violations)
                (λ last. Keeps-give_up task last verdict violations)))
    Keeps-attempts task graph (suc left) attempt h =
        Keeps-bind Good (λ a. a.1 ≡ true → IsVerified h) (verify_attempt s engine graph attempt h) _
          (verify_attempt_triple graph attempt h)
          (λ (verdict, valid, violations) sound.
            Keeps-if Good valid _ _ (λ v. Keeps-accept task attempt h verdict (sound v))
              (Keeps-then Good (refine s engine task attempt h violations) _
                (Keeps-refine task attempt h violations)
                (λ better. Keeps-attempts task graph left (attempt + 1) better)))

    Keeps-reason : (task : Task) → Keeps Good (reason s engine task)
    unfolding reason
    Keeps-reason task =
        Keeps-then Good (yield_event Event.parsing_started) _ (keeps_yield Event.parsing_started tt)
          (λ _.
            Keeps-then Good (call (s.parse_task task)) _ (keeps_call _ (s.parse_task task))
              (λ graph.
                Keeps-then Good (yield_event Event.parsing_completed) _
                  (keeps_yield Event.parsing_completed tt)
                  (λ _.
                    Keeps-then Good (yield_event Event.hypothesis_started) _
                      (keeps_yield Event.hypothesis_started tt)
                      (λ _.
                        Keeps-then Good (call (s.generate_hypothesis task)) _
                          (keeps_call _ (s.generate_hypothesis task))
                          (λ h.
                            Keeps-then Good (count_up _) _ (keeps_count _ (λ m b. omega arith))
                              (λ _.
                                Keeps-then Good (yield_event (Event.hypothesis_completed h)) _
                                  (keeps_yield (Event.hypothesis_completed h) tt)
                                  (λ _. Keeps-attempts task graph _ 0 h)))))))

    Keeps-report : (task : Task) (e : E) → Keeps Good (report s engine task e)
    unfolding report
    Keeps-report task e = Keeps-then Good (count_up _) _ (keeps_count _ (λ m b. omega arith)) (λ _.
        Keeps-then Good (yield_event (Event.error e)) _ (keeps_yield (Event.error e) tt) (λ _.
          Keeps-then Good rounds_so_far _ (unfold rounds_so_far in λ r g. g)
            (λ rounds. Keeps-commit task TraceOutcome.error _)))

    from_input : (v : Result E Task) → Keeps Good (validated s engine v)
    unfolding validated reason_guarded throw
    from_input (raise e) = λ t b. b
    from_input (ok task) =
        Keeps-try Good (reason s engine task) (report s engine task) (Keeps-reason task)
          (λ e. Keeps-report task e)

    pub think-Keeps : (raw : Raw) → Keeps Good (think s engine raw)
    unfolding think throw
    think-Keeps raw =
        Keeps-if Good engine.started (validated s engine (s.validate raw)) (throw s.not_started)
          (λ _. from_input (s.validate raw)) (λ t b. b)
