-- ===== src/NeuroSymbolic/Think/Verified.antt =====
-- Fail-closed: no solution leaves `think` that the symbolic verifier has not accepted; and what the
-- engine's counters say when it is over.
use noema.Prelude.{List, [], ◌∷◌, ◌++◌}
use noema.NeuroSymbolic.Think.State.{Event, Run, yield_event, count_up, record_round, call}
use noema.NeuroSymbolic.Think.Invariants.{IsBacked, IsBalanced, think-Keeps}
use noema.NeuroSymbolic.Think.{Services, Engine, think}

module _ {W E Raw Task Graph Hyp Static Causal : Type 0}
    (s : Services W E Raw Task Graph Hyp Static Causal) (engine : Engine) where
  abbrev pub AllBacked : List (Event E Hyp Static Causal) → Type 0
  AllBacked [] = Unit
  AllBacked (e ∷ es) = IsBacked s engine e × AllBacked es

  AllBacked-append :
      (es : List (Event E Hyp Static Causal)) (e : Event E Hyp Static Causal)
      → AllBacked es
      → IsBacked s engine e
      → AllBacked (es ++ e ∷ [])
  AllBacked-append [] e h b = (b, tt)
  AllBacked-append (x ∷ es) e h b = (h.0, AllBacked-append es e h.1 b)

  -- Whatever the services do, exceptions included: if every solution that a run has handed out so
  -- far was accepted by the verifier, then so is every solution that it has handed out when `think`
  -- is over.
  pub think-AllBacked :
      (raw : Raw) (r : Run W E Hyp Static Causal)
      → AllBacked r.events
      → AllBacked (think s engine raw r).0.events
  unfolding yield_event call count_up record_round
  think-AllBacked raw =
      think-Keeps s engine (λ r. AllBacked r.events) (λ e b r g. AllBacked-append r.events e g b)
        (λ A act r g. g) (λ f h r g. g) (λ x r g. g) raw

  -- Whatever the services do: the tasks counted as processed stay as many as those counted as
  -- successful and those counted as failed together.
  pub think-IsBalanced :
      (raw : Raw) (r : Run W E Hyp Static Causal)
      → IsBalanced s engine r.metrics
      → IsBalanced s engine (think s engine raw r).0.metrics
  unfolding yield_event call count_up record_round
  think-IsBalanced raw =
      think-Keeps s engine (λ r. IsBalanced s engine r.metrics) (λ e b r g. g) (λ A act r g. g)
        (λ f h r g. h r.metrics g) (λ x r g. g) raw
