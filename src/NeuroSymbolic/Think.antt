-- ===== src/NeuroSymbolic/Think.antt =====
-- `NeuroSymbolicEngine.think` of noema/neurosymbolic/engine.py: its events, counters, recorded
-- rounds and committed traces, on every path, exceptions included. The components that the engine
-- owns (solver, language model, causal analysis, evolution, static analysis, trace files) are
-- services over a world `W`, which may raise. The consumer of the event stream is taken to read it
-- to its end; identifiers, the causal engine's own counters and logging are left out.
pub mod State
pub mod Rules
pub mod Invariants
pub mod Verified
pub mod Bounds
use Prim.Native.String.{String}
use noema.Prelude.{
  ℕ, zero, suc, ◌+◌, ◌-◌, Bool, true, false, List, [], ◌∷◌, ◌++◌, ltb, ◌==◌, if◌then◌else◌, length,
  Result, ok, raise,
}
use noema.NeuroSymbolic.Think.State.{
  Act, Metrics, Round, Event, Run, Stream, ◌>>=◌, ◌>>◌, pure, yield_event, count_up, record_round,
  call, throw, try_except, rounds_so_far,
}

pub data TraceOutcome : Type 0 where
  completed failed error : TraceOutcome

-- What `_commit_trace` is given; its `final_…` arguments are those of the last round.
pub record Commit (Task Hyp Static : Type 0) : Type 0 where
  pub task : Task
  pub rounds : List (Round Hyp Static)
  pub outcome : TraceOutcome
  pub attempts : ℕ

pub record Services (W E Raw Task Graph Hyp Static Causal : Type 0) : Type 0 where
  pub not_started : E
  pub validate : Raw → Result E Task
  pub parse_task : Task → Act W E Graph
  pub generate_hypothesis : Task → Act W E Hyp
  pub analyze_solution_static : Hyp → Act W E Static
  pub verify_solution : Hyp → Graph → Act W E (Bool × List String)
  pub refine_hypothesis : Hyp → List String → Task → Act W E Hyp
  pub record_outcome : Task → Hyp → Bool → List String → Act W E (Unit {0})
  pub run_causal_analysis : Task → Act W E (List Causal)
  pub commit_reasoning_trace : Commit Task Hyp Static → Act W E (Unit {0})

pub record Engine : Type 0 where
  pub started : Bool
  pub max_refinement_attempts : ℕ
  pub enable_evolution : Bool
  pub enable_causal : Bool
  pub has_trace_dir : Bool

abbrev pub count_llm_call : Metrics → Metrics
count_llm_call m = record m { total_llm_calls = m.total_llm_calls + 1 }

abbrev pub count_refinement : Metrics → Metrics
count_refinement m = record m {
  total_llm_calls = m.total_llm_calls + 1;
  total_refinements = m.total_refinements + 1;
}

abbrev pub count_success : Metrics → Metrics
count_success m = record m {
  tasks_successful = m.tasks_successful + 1;
  tasks_processed = m.tasks_processed + 1;
}

abbrev pub count_failure : Metrics → Metrics
count_failure m = record m {
  tasks_failed = m.tasks_failed + 1;
  tasks_processed = m.tasks_processed + 1;
}

module _ {W E Raw Task Graph Hyp Static Causal : Type 0}
    (s : Services W E Raw Task Graph Hyp Static Causal) (engine : Engine) where
  abbrev Think : Type 0 → Type 0
  Think A = Stream (Run W E Hyp Static Causal) E A

  -- `_commit_trace`
  unfoldable pub commit_trace : Task → TraceOutcome → ℕ → Think (Unit {0})
  commit_trace task outcome attempts =
      if engine.has_trace_dir
      then (do
        rounds ← rounds_so_far
        call (
            s.commit_reasoning_trace
              (record { task = task; rounds = rounds; outcome = outcome; attempts = attempts })))
      else pure tt

  unfoldable pub record_outcome : Task → Hyp → Bool → List String → Think (Unit {0})
  record_outcome task hypothesis is_successful violations =
      if engine.enable_evolution
      then call (s.record_outcome task hypothesis is_successful violations)
      else pure tt

  unfoldable pub causal_stage : Task → Think (List Causal)
  causal_stage task =
      if engine.enable_causal
      then (do
        yield_event Event.causal_started
        analysis ← call (s.run_causal_analysis task)
        yield_event (Event.causal_completed (length analysis))
        pure analysis)
      else pure []

  -- The branch `if is_valid:` of the loop.
  unfoldable pub accept : Task → ℕ → Hyp → Static → Think (Unit {0})
  accept task attempt hypothesis static_verdict = do
    count_up count_success
    record_outcome task hypothesis true []
    analysis ← causal_stage task
    yield_event (Event.completed hypothesis (attempt + 1) static_verdict analysis)
    commit_trace task TraceOutcome.completed (attempt + 1)

  -- What follows the loop when no attempt was valid.
  unfoldable pub give_up : Task → Hyp → Static → List String → Think (Unit {0})
  give_up task hypothesis static_verdict violations = do
    count_up count_failure
    record_outcome task hypothesis false violations
    yield_event (Event.failed engine.max_refinement_attempts static_verdict)
    commit_trace task TraceOutcome.failed engine.max_refinement_attempts

  -- The refinement at the end of an attempt that is not the last.
  unfoldable pub refine : Task → ℕ → Hyp → List String → Think Hyp
  refine task attempt hypothesis violations =
      if ltb (attempt + 1) engine.max_refinement_attempts
      then (do
        yield_event (Event.refinement_started (attempt + 1))
        better ← call (s.refine_hypothesis hypothesis violations task)
        count_up count_refinement
        yield_event (Event.refinement_completed (attempt + 1))
        pure better)
      else pure hypothesis

  -- One attempt up to its verdict.
  unfoldable pub verify_attempt : Graph → ℕ → Hyp → Think (Static × Bool × List String)
  verify_attempt graph attempt hypothesis = do
    static_verdict ← call (s.analyze_solution_static hypothesis)
    yield_event (Event.verification_started (attempt + 1) static_verdict)
    (is_valid, violations) ← call (s.verify_solution hypothesis graph)
    record_round (record {
      attempt = attempt + 1;
      hypothesis = hypothesis;
      static_verdict = static_verdict;
      symbolic_valid = is_valid;
      violations = violations;
    })
    yield_event
        (Event.verification_completed (attempt + 1) is_valid (length violations) static_verdict)
    pure (static_verdict, is_valid, violations)

  -- The loop from attempt `attempt` on, with the attempts left. The constructor refuses a bound
  -- below 1, so the loop is entered by `attempt_loop`, which has a first attempt.
  unfoldable pub attempt_loop : Task → Graph → ℕ → ℕ → Hyp → Think (Unit {0})
  attempt_loop task graph zero attempt hypothesis = do
    (static_verdict, is_valid, violations) ← verify_attempt graph attempt hypothesis
    if is_valid then accept task attempt hypothesis static_verdict else (do
      last ← refine task attempt hypothesis violations
      give_up task last static_verdict violations)
  attempt_loop task graph (suc left) attempt hypothesis = do
    (static_verdict, is_valid, violations) ← verify_attempt graph attempt hypothesis
    if is_valid then accept task attempt hypothesis static_verdict else (do
      better ← refine task attempt hypothesis violations
      attempt_loop task graph left (attempt + 1) better)

  -- The `try` block.
  unfoldable pub reason : Task → Think (Unit {0})
  reason task = do
    yield_event Event.parsing_started
    graph ← call (s.parse_task task)
    yield_event Event.parsing_completed
    yield_event Event.hypothesis_started
    hypothesis ← call (s.generate_hypothesis task)
    count_up count_llm_call
    yield_event (Event.hypothesis_completed hypothesis)
    attempt_loop task graph (engine.max_refinement_attempts - 1) 0 hypothesis

  -- The `except` block; `len(trace_rounds) or 1`.
  unfoldable pub report : Task → E → Think (Unit {0})
  report task exc = do
    count_up count_failure
    yield_event (Event.error exc)
    rounds ← rounds_so_far
    commit_trace task TraceOutcome.error (if length rounds == 0 then 1 else length rounds)

  unfoldable pub reason_guarded : Task → Think (Unit {0})
  reason_guarded task = try_except (reason task) (report task)

  validated : Result E Task → Think (Unit {0})
  unfolding reason_guarded
  validated (raise e) = throw e
  validated (ok task) = reason_guarded task

  -- `think`, from its entry to the end of its stream.
  unfoldable pub think : Raw → Think (Unit {0})
  unfolding validated
  think raw = if engine.started then validated (s.validate raw) else throw s.not_started
