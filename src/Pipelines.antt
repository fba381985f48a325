-- ===== src/Pipelines.antt =====
-- The class `Pipeline` of noema/pipelines/engine.py. A world `W` holds what kernels, functions and hooks
-- depend on; their awaited calls, and whether they time out, are the parameters in `Services`. A
-- condition stands outside the `try`, so that what it raises ends the run. Durations
-- and logging are left out.
pub mod Success
pub mod Attempts
mod Tests
use Prim.Native.String.{String, ◌++◌ as append}
use text.Mathlib.Text.{◌==◌ as str_eq}
use noema.Prelude.{
  ℕ, zero, suc, Bool, true, false, not, List, [], ◌∷◌, ◌++◌, Option, none, some, if◌then◌else◌,
  Result, ok, raise, insert,
}

pub data StepStatus : Type 0 where
  pending running completed failed skipped : StepStatus

abbrev pub Context : Type 0
Context = List (String × String)

pub record PipelineStep : Type 0 where
  pub name : String
  pub kernel_name : Option String
  pub has_func : Bool
  -- A condition may raise.
  pub condition : Option (Context → Result String Bool)
  pub retry_count : ℕ
  pub timeout : String
  pub status : StepStatus
  pub result : String
  pub error : Option String

pub record PipelineResult : Type 0 where
  pub steps : List PipelineStep
  pub final_output : Context
  pub success : Bool

-- How one awaited call ended.
pub data Attempt : Type 0 where
  returned : String → Attempt
  timed_out : Attempt
  raised : String → Attempt

pub record Services (W : Type 0) : Type 0 where
  -- `noema` is given, and `noema.kernels.get` finds the kernel.
  pub has_noema : Bool
  pub has_kernel : String → Bool
  pub run_kernel : PipelineStep → W → W × Attempt
  pub run_func : PipelineStep → Context → W → W × Attempt
  -- All hooks of one list, in order, up to the first that raises.
  pub on_step_complete : PipelineStep → W → W × Option String
  pub on_error : PipelineStep → W → W × Option String

unfoldable pub add_step :
    String
    → Option String
    → Bool
    → Option (Context → Result String Bool)
    → ℕ
    → String
    → List PipelineStep
    → List PipelineStep
add_step name kernel_name has_func condition retry_count timeout steps =
    steps
    ++ record {
      name = name;
      kernel_name = kernel_name;
      has_func = has_func;
      condition = condition;
      retry_count = retry_count;
      timeout = timeout;
      status = StepStatus.pending;
      result = "{}";
      error = none;
    }
      ∷ []

abbrev pub is_failed : StepStatus → Bool
is_failed StepStatus.failed = true
is_failed _ = false

abbrev pub is_completed : StepStatus → Bool
is_completed StepStatus.completed = true
is_completed _ = false

-- `completed_steps` and `failed_steps`
unfoldable pub count : (StepStatus → Bool) → List PipelineStep → ℕ
count test [] = 0
count test (s ∷ ss) = let rest = count test ss in if test s.status then suc rest else rest

abbrev pub not_held : Result String Bool → Result String Bool
not_held (ok held) = ok (not held)
not_held (raise exc) = raise exc

unfoldable pub is_skipped : PipelineStep → Context → Result String Bool
is_skipped step context = elim step.condition [
  | none ↦ ok false
  | some test ↦ not_held (test context)
]

module _ {W : Type 0} (services : Services W) where
  unfoldable pub func_or_noop : PipelineStep → Context → W → W × Attempt
  func_or_noop step context w =
      if step.has_func
      then services.run_func step context w
      else (w, Attempt.returned "{\"status\": \"noop\"}")

  -- The body of the `try`; an empty kernel name counts as none.
  unfoldable pub try_step : PipelineStep → Option String → Context → W → W × Attempt
  unfolding func_or_noop
  try_step step none context w = func_or_noop step context w
  try_step step (some kernel_name) context w =
      if str_eq kernel_name ""
      then func_or_noop step context w
      else if not services.has_noema
      then func_or_noop step context w
      else if services.has_kernel kernel_name
      then services.run_kernel step w
      else (w, Attempt.returned (append "error: Kernel not found: " kernel_name))

  abbrev pub complete : String → PipelineStep → PipelineStep
  complete result step = record step { result = result; status = StepStatus.completed }

  abbrev pub timeout_error : PipelineStep → String
  timeout_error step = append "Timeout after " (append step.timeout "s")

  -- The `except` clauses of the last attempt.
  abbrev pub fail : String → PipelineStep → PipelineStep
  fail error step = record step { error = some error; status = StepStatus.failed }

  abbrev pub note_error : String → PipelineStep → PipelineStep
  note_error error step = record step { error = some error }

  -- What follows one attempt: `retry` is the rest of the loop, `give_up` the end of the last attempt.
  unfoldable pub after_try :
      (PipelineStep → W → W × PipelineStep) → PipelineStep → W × Attempt → W × PipelineStep
  after_try on_failure step (w, Attempt.returned result) = (w, complete result step)
  after_try on_failure step (w, Attempt.timed_out) =
      on_failure (note_error (timeout_error step) step) w
  after_try on_failure step (w, Attempt.raised error) = on_failure (note_error error step) w

  abbrev pub give_up : PipelineStep → W → W × PipelineStep
  give_up step w = (w, record step { status = StepStatus.failed })

  -- The loop over the attempts, with the number of those that may follow.
  unfoldable pub attempt_loop : ℕ → Context → PipelineStep → W → W × PipelineStep
  unfolding after_try try_step
  attempt_loop zero context step w =
      after_try give_up step (try_step step step.kernel_name context w)
  attempt_loop (suc left) context step w =
      after_try (attempt_loop left context) step (try_step step step.kernel_name context w)

  -- `self._context[step.name] = step.result`, of a step that has completed.
  unfoldable pub remember : PipelineStep → Context → Context
  remember step context =
      if is_completed step.status then insert step.name step.result context else context

  -- The hooks after a step; one that raises ends the run.
  unfoldable pub call_error_hooks : PipelineStep → W → W × Option String
  call_error_hooks step w = if is_failed step.status then services.on_error step w else (w, none)

  unfoldable pub and_then :
      {A : Type 0} → W × Option String → (W → W × Result String A) → W × Result String A
  and_then (w, some exc) next = (w, raise exc)
  and_then (w, none) next = next w

  unfoldable pub call_hooks :
      PipelineStep → W → (W → W × Result String PipelineResult) → W × Result String PipelineResult
  unfolding and_then call_error_hooks
  call_hooks step w next =
      and_then (services.on_step_complete step w) (λ w'. and_then (call_error_hooks step w') next)

  abbrev pub begin : PipelineStep → PipelineStep
  begin step = record step { status = StepStatus.running }

  -- The loop over the steps: those still to run, those that have run, the context and `success`.
  unfoldable pub run_steps :
      List PipelineStep → List PipelineStep → Context → Bool → W → W × Result String PipelineResult
  unfolding call_hooks remember attempt_loop
  run_steps [] done context success w =
      (w, ok (record { steps = done; final_output = context; success = success }))
  run_steps (step ∷ steps) done context success w = elim (is_skipped step context) [
    | raise exc ↦ (w, raise exc)
    | ok skip ↦
        if skip
        then run_steps steps (done ++ record step { status = StepStatus.skipped } ∷ []) context
            success w
        else (let (w', ended) = attempt_loop step.retry_count context (begin step) w in
            call_hooks ended w' (λ w''.
              run_steps steps (done ++ ended ∷ []) (remember ended context)
                (if is_failed ended.status then false else success) w''))
  ]

  unfoldable pub execute :
      List PipelineStep → String → Context → W → W × Result String PipelineResult
  unfolding run_steps
  execute steps task initial_context w =
      run_steps steps [] (insert "task" task initial_context) true w
