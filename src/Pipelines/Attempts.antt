-- ===== src/Pipelines/Attempts.antt =====
-- How many calls of kernels and functions a run of noema/pipelines/engine.py makes.
use Prim.Native.String.{String}
use text.Mathlib.Text.{◌==◌ as str_eq}
use noema.Prelude.{
  ℕ, zero, suc, ◌+◌, ◌≤◌, ◌≡◌, refl, inl, inr, ◌⊎◌, Bool, true, false, List, [], ◌∷◌, ◌++◌, Option,
  none, some, arith, if◌then◌else◌, Bool-cases, Result, ok, raise, insert,
}
use noema.Pipelines.{
  StepStatus, Context, PipelineStep, PipelineResult, Attempt, Services, is_failed, func_or_noop,
  try_step, after_try, give_up, attempt_loop, remember, is_skipped, call_hooks, call_error_hooks,
  and_then, run_steps, execute, begin, note_error, timeout_error,
}

-- The attempts that the steps allow.
unfoldable pub allowed : List PipelineStep → ℕ
allowed [] = 0
allowed (s ∷ ss) = s.retry_count + 1 + allowed ss

test-cases :
    (t : Result String Bool) → ((exc : String) × (t ≡ raise exc)) ⊎ ((t ≡ ok true) ⊎ (t ≡ ok false))
test-cases (raise exc) = inl (exc, refl)
test-cases (ok true) = inr (inl refl)
test-cases (ok false) = inr (inr refl)

module _ {W : Type 0} (services : Services W) (calls : W → ℕ)
    (kernel : (s : PipelineStep) (w : W) → calls (services.run_kernel s w).0 ≤ calls w + 1)
    (func : (s : PipelineStep) (c : Context) (w : W)
      → calls (services.run_func s c w).0 ≤ calls w + 1)
    (complete_hooks : (s : PipelineStep) (w : W)
      → calls (services.on_step_complete s w).0 ≤ calls w)
    (error_hooks : (s : PipelineStep) (w : W) → calls (services.on_error s w).0 ≤ calls w) where
  calls-if :
      (b : Bool) (x y : W × Attempt) (bound : ℕ)
      → calls x.0 ≤ bound
      → calls y.0 ≤ bound
      → calls (if b then x else y).0 ≤ bound
  calls-if true x y bound h h' = h
  calls-if false x y bound h h' = h'

  calls-func_or_noop :
      (s : PipelineStep) (c : Context) (w : W) → calls (func_or_noop services s c w).0 ≤ calls w + 1
  unfolding func_or_noop
  calls-func_or_noop s c w =
      calls-if s.has_func (services.run_func s c w) (w, _) (calls w + 1) (func s c w) (omega arith)

  calls-try_step :
      (s : PipelineStep) (k : Option String) (c : Context) (w : W)
      → calls (try_step services s k c w).0 ≤ calls w + 1
  unfolding try_step
  calls-try_step s none c w = calls-func_or_noop s c w
  calls-try_step s (some k) c w = elim (Bool-cases (str_eq k "")) [
    | inl y ↦ rw (y) (calls-func_or_noop s c w)
    | inr n ↦ elim (Bool-cases services.has_noema) [
      | inr m ↦ rw (n, m) (calls-func_or_noop s c w)
      | inl m ↦ elim (Bool-cases (services.has_kernel k)) [
        | inl h ↦ rw (n, m, h) (kernel s w)
        | inr h ↦ rw (n, m, h) (omega arith)
      ]
    ]
  ]

  calls-after_try :
      (on_failure : PipelineStep → W → W × PipelineStep) (left : ℕ)
      → ((s : PipelineStep) (w : W) → calls (on_failure s w).0 ≤ calls w + left)
      → (step : PipelineStep) (tried : W × Attempt)
      → calls (after_try services on_failure step tried).0 ≤ calls tried.0 + left
  unfolding after_try
  calls-after_try on_failure left few step (w, Attempt.returned v) = omega arith
  calls-after_try on_failure left few step (w, Attempt.timed_out) =
      few (note_error services (timeout_error services step) step) w
  calls-after_try on_failure left few step (w, Attempt.raised e) =
      few (note_error services e step) w

  calls-attempt_loop :
      (left : ℕ) (c : Context) (step : PipelineStep) (w : W)
      → calls (attempt_loop services left c step w).0 ≤ calls w + (left + 1)
  unfolding attempt_loop
  calls-attempt_loop zero c step w =
      let tried = try_step services step step.kernel_name c w in
      omega (
        arith,
        calls-after_try (give_up services) 0 (λ s w'. omega arith) step tried,
        calls-try_step step step.kernel_name c w,
      )
  calls-attempt_loop (suc left) c step w =
      let tried = try_step services step step.kernel_name c w in
      omega (
        arith,
        calls-after_try (attempt_loop services left c) (left + 1)
            (λ s w'. calls-attempt_loop left c s w') step tried,
        calls-try_step step step.kernel_name c w,
      )

  calls-and_then :
      {A : Type 0} (x : W × Option String) (next : W → W × Result String A) (bound : ℕ)
      → calls x.0 ≤ bound
      → ((w : W) → calls w ≤ calls x.0 → calls (next w).0 ≤ bound)
      → calls (and_then services x next).0 ≤ bound
  unfolding and_then
  calls-and_then (w, none) next bound h few = few w (omega arith)
  calls-and_then (w, some e) next bound h few = h

  calls-call_error_hooks :
      (s : PipelineStep) (w : W) → calls (call_error_hooks services s w).0 ≤ calls w
  unfolding call_error_hooks
  calls-call_error_hooks s w = elim (Bool-cases (is_failed s.status)) [
    | inl y ↦ rw (y) (error_hooks s w)
    | inr n ↦ rw (n) (omega arith)
  ]

  calls-call_hooks :
      (s : PipelineStep) (w : W) (next : W → W × Result String PipelineResult) (more : ℕ)
      → ((w' : W) → calls (next w').0 ≤ calls w' + more)
      → calls (call_hooks services s w next).0 ≤ calls w + more
  unfolding call_hooks
  calls-call_hooks s w next more few =
      let first = services.on_step_complete s w in
      calls-and_then first (λ w'. and_then services (call_error_hooks services s w') next)
        (calls w + more) (omega (arith, complete_hooks s w))
        (λ w' h.
          calls-and_then (call_error_hooks services s w') next (calls w + more)
            (omega (arith, calls-call_error_hooks s w', h, complete_hooks s w))
            (λ w'' h'.
              omega (arith, few w'', h', calls-call_error_hooks s w', h, complete_hooks s w)))

  calls-run_steps :
      (steps done : List PipelineStep) (c : Context) (success : Bool) (w : W)
      → calls (run_steps services steps done c success w).0 ≤ calls w + allowed steps
  unfolding run_steps allowed
  calls-run_steps [] done c success w = omega arith
  calls-run_steps (step ∷ steps) done c success w = elim (test-cases (is_skipped step c)) [
    | inl (exc, h) ↦ rw (run_steps, h) (omega arith)
    | inr (inl y) ↦
        let skipped = record step { status = StepStatus.skipped } in
        rw (run_steps, y) (omega (arith, calls-run_steps steps (done ++ skipped ∷ []) c success w))
    | inr (inr n) ↦
        let tried = attempt_loop services step.retry_count c (begin services step) w in
        rw (run_steps, n)
          (omega (
            arith,
            calls-attempt_loop step.retry_count c (begin services step) w,
            calls-call_hooks tried.1 tried.0
                (run_steps services steps (done ++ tried.1 ∷ []) (remember services tried.1 c)
                  (if is_failed tried.1.status then false else success))
                (allowed steps)
                (calls-run_steps steps (done ++ tried.1 ∷ []) (remember services tried.1 c)
                  (if is_failed tried.1.status then false else success)),
          ))
  ]

  -- With hooks that call no kernel or function, a run calls kernels and functions at most as often as the
  -- steps allow attempts together, one and `retry_count` more for each, whatever fails.
  pub calls-execute-within :
      (steps : List PipelineStep) (task : String) (context : Context) (w : W)
      → calls (execute services steps task context w).0 ≤ calls w + allowed steps
  unfolding execute
  calls-execute-within steps task context w =
      calls-run_steps steps [] (insert "task" task context) true w
