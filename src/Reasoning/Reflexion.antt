-- ===== src/Reasoning/Reflexion.antt =====
-- `ChainOfThought.reason_with_reflexion` of noema/core/chain_of_thought.py. `reason` is a parameter,
-- an action on a world that may raise; it is given the attempt and the errors so far.
use Prim.Native.String.{String}
use text.Mathlib.Text.{◌==◌ as str_eq}
use noema.Prelude.{
  ℕ, zero, suc, ◌+◌, ◌≤◌, ◌≡◌, arith, inl, inr, false, ◌||◌, Bool-cases, List, [], ◌∷◌, ◌++◌,
  Option, none, some, ltb, subst, if◌then◌else◌, Result, ok, raise,
}

pub record ReflexionState : Type 0 where
  pub attempt : ℕ
  pub last_errors : List String
  pub max_attempts : ℕ

-- `reflexion_errors` and `reflexion_attempt`
abbrev pub Reason : Type 0 → Type 0 → Type 0 → Type 0
Reason W E C = Option (List String) → ℕ → W → W × Result E C

module _ {W E C : Type 0} (reason : Reason W E C) (message : ℕ → String)
    (judge_feedback : String) where
  unfoldable pub errors_for : ReflexionState → Option (List String)
  errors_for s = if ltb 1 s.attempt then some s.last_errors else none

  -- The state that goes with an answer.
  unfoldable pub answer : C → ReflexionState → C × Option ReflexionState
  answer context s = (context, if ltb 2 s.attempt then some s else none)

  -- `state` after an attempt that is not the last.
  abbrev pub advance : ReflexionState → ReflexionState
  advance s = record s {
    attempt = s.attempt + 1;
    last_errors = s.last_errors ++ message s.attempt ∷ [];
  }

  -- What follows the `await` of `reason`; `next` is the loop's next round.
  unfoldable pub judge :
      ReflexionState
      → (C → W → W × Result E (C × Option ReflexionState))
      → W × Result E C
      → W × Result E (C × Option ReflexionState)
  judge s next (w, raise e) = (w, raise e)
  judge s next (w, ok context) =
      let s' = record s { attempt = s.attempt + 1 } in
      if str_eq judge_feedback "" || ltb s.max_attempts s'.attempt
      then (w, ok (answer context s'))
      else next context w

  -- The `while` loop, with the rounds left and the last context.
  unfoldable pub reflect : ℕ → ReflexionState → C → W → W × Result E (C × Option ReflexionState)
  reflect zero s context w = (w, ok (context, some s))
  reflect (suc left) s context w =
      judge s (reflect left (advance s)) (reason (errors_for s) s.attempt w)

  unfoldable pub reason_with_reflexion : ℕ → C → W → W × Result E (C × Option ReflexionState)
  reason_with_reflexion max_attempts empty w =
      reflect max_attempts (record { attempt = 1; last_errors = []; max_attempts = max_attempts })
        empty w

  -- A run that raises, or the number of calls of `reason` that it makes.
  abbrev pub MakesCalls : (W → ℕ) → ℕ → W × Result E (C × Option ReflexionState) → Type 0
  MakesCalls calls n (w, ok r) = calls w ≡ n
  MakesCalls calls n (w, raise e) = calls w ≤ n

module _ {W E C : Type 0} (reason : Reason W E C) (message : ℕ → String) (feedback : String)
    (calls : W → ℕ)
    (once : (es : Option (List String)) (n : ℕ) (w : W)
      → calls (reason es n w).0 ≡ calls w + 1) where
  calls-judge :
      (left : ℕ) (s : ReflexionState) (next : C → W → W × Result E (C × Option ReflexionState))
      (r : W × Result E C)
      → str_eq feedback "" ≡ false
      → s.attempt + left ≡ s.max_attempts
      → ((context : C) (w : W)
          → MakesCalls reason message feedback calls (calls w + left) (next context w))
      → MakesCalls reason message feedback calls
          (calls r.0 + left)
          (judge reason message feedback s next r)
  unfolding judge
  calls-judge left s next (w, raise e) h b rest = omega arith
  calls-judge left s next (w, ok context) h b rest =
      elim (Bool-cases (ltb s.max_attempts (s.attempt + 1))) [
        | inl y ↦ rw (h, y) (ground (arith, y, b))
        | inr n ↦ rw (h, n) (rest context w)
      ]

  calls-reflect :
      (left : ℕ) (s : ReflexionState) (context : C) (w : W)
      → str_eq feedback "" ≡ false
      → s.attempt + left ≡ s.max_attempts + 1
      → MakesCalls reason message feedback calls
          (calls w + left)
          (reflect reason message feedback left s context w)
  unfolding reflect
  calls-reflect zero s context w h b = omega arith
  calls-reflect (suc left) s context w h b =
      subst
        (λ n.
          MakesCalls reason message feedback calls n
            (reflect reason message feedback (suc left) s context w))
        (omega (arith, once (errors_for reason message feedback s) s.attempt w))
        (calls-judge left s _ (reason (errors_for reason message feedback s) s.attempt w) h
          (omega (arith, b))
          (λ c v. calls-reflect left (advance reason message feedback s) c v h (omega (arith, b))))

  -- With a judge's feedback that is not empty, `reason` is called `max_attempts` times, whatever it
  -- answers, unless it raises before.
  pub reason_with_reflexion-MakesCalls :
      (max_attempts : ℕ) (empty : C) (w : W)
      → str_eq feedback "" ≡ false
      → MakesCalls reason message feedback calls
          (calls w + max_attempts)
          (reason_with_reflexion reason message feedback max_attempts empty w)
  unfolding reason_with_reflexion
  reason_with_reflexion-MakesCalls max_attempts empty w h =
      calls-reflect max_attempts _ empty w h (omega arith)
