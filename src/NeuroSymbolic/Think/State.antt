-- ===== src/NeuroSymbolic/Think/State.antt =====
-- The state of one `think` run and the computations over it: they may raise, and an exception keeps
-- what the run has done so far. (noema/neurosymbolic/engine.py)
use Prim.Native.String.{String}
use noema.Prelude.{ℕ, Bool, List, [], ◌∷◌, ◌++◌, Result, ok, raise}

-- An awaited call of a service.
abbrev pub Act : Type 0 → Type 0 → Type 0 → Type 0
Act W E A = W → W × Result E A

-- The engine's `_metrics`.
pub record Metrics : Type 0 where
  pub tasks_processed : ℕ
  pub tasks_successful : ℕ
  pub tasks_failed : ℕ
  pub total_refinements : ℕ
  pub total_llm_calls : ℕ

-- `VerificationRound`
pub record Round (Hyp Static : Type 0) : Type 0 where
  pub attempt : ℕ
  pub hypothesis : Hyp
  pub static_verdict : Static
  pub symbolic_valid : Bool
  pub violations : List String

-- `ThinkEvent`: a constructor for each stage and status that `think` yields.
pub data Event (E Hyp Static Causal : Type 0) : Type 0 where
  parsing_started : Event E Hyp Static Causal
  parsing_completed : Event E Hyp Static Causal
  hypothesis_started : Event E Hyp Static Causal
  hypothesis_completed : Hyp → Event E Hyp Static Causal
  verification_started : ℕ → Static → Event E Hyp Static Causal
  verification_completed : ℕ → Bool → ℕ → Static → Event E Hyp Static Causal
  causal_started : Event E Hyp Static Causal
  causal_completed : ℕ → Event E Hyp Static Causal
  completed : Hyp → ℕ → Static → List Causal → Event E Hyp Static Causal
  refinement_started : ℕ → Event E Hyp Static Causal
  refinement_completed : ℕ → Event E Hyp Static Causal
  failed : ℕ → Static → Event E Hyp Static Causal
  error : E → Event E Hyp Static Causal

pub record Run (W E Hyp Static Causal : Type 0) : Type 0 where
  pub world : W
  pub metrics : Metrics
  pub events : List (Event E Hyp Static Causal)
  pub rounds : List (Round Hyp Static)

-- Computations over a state that may raise.
abbrev pub Stream : Type 0 → Type 0 → Type 0 → Type 0
Stream S E A = S → S × Result E A

module _ {S E : Type 0} where
  unfoldable pub after : {A B : Type 0} → (A → Stream S E B) → S × Result E A → S × Result E B
  after f (s, ok a) = f a s
  after f (s, raise e) = (s, raise e)

  infixl 5 ◌>>=◌ ◌>>◌
  abbrev pub ◌>>=◌ : {A B : Type 0} → Stream S E A → (A → Stream S E B) → Stream S E B
  ◌>>=◌ m f s = after f (m s)

  abbrev pub ◌>>◌ : {B : Type 0} → Stream S E (Unit {0}) → Stream S E B → Stream S E B
  ◌>>◌ m k s = after (λ _. k) (m s)

  unfoldable pub pure : {A : Type 0} → A → Stream S E A
  pure a s = (s, ok a)

  unfoldable pub throw : {A : Type 0} → E → Stream S E A
  throw e s = (s, raise e)

  unfoldable pub handle :
      {A : Type 0} → (E → Stream S E (Unit {0})) → S × Result E A → S × Result E A
  handle handler (s, ok a) = (s, ok a)
  handle handler (s, raise e) = after (λ _ s'. (s', raise e)) (handler e s)

  -- `try: body  except Exception as exc: handler; raise`
  unfoldable pub try_except :
      {A : Type 0} → Stream S E A → (E → Stream S E (Unit {0})) → Stream S E A
  unfolding handle
  try_except body handler s = handle handler (body s)

module _ {W E Hyp Static Causal : Type 0} where
  unfoldable pub yield_event :
      Event E Hyp Static Causal → Stream (Run W E Hyp Static Causal) E (Unit {0})
  yield_event e s = (record s { events = s.events ++ e ∷ [] }, ok tt)

  unfoldable pub count_up : (Metrics → Metrics) → Stream (Run W E Hyp Static Causal) E (Unit {0})
  count_up f s = (record s { metrics = f s.metrics }, ok tt)

  unfoldable pub record_round : Round Hyp Static → Stream (Run W E Hyp Static Causal) E (Unit {0})
  record_round r s = (record s { rounds = s.rounds ++ r ∷ [] }, ok tt)

  unfoldable pub call : {A : Type 0} → Act W E A → Stream (Run W E Hyp Static Causal) E A
  call act s = (record s { world = (act s.world).0 }, (act s.world).1)

  -- The rounds so far, as `trace_rounds` and the `final_…` variables show them.
  unfoldable pub rounds_so_far : Stream (Run W E Hyp Static Causal) E (List (Round Hyp Static))
  rounds_so_far s = (s, ok s.rounds)
