-- ===== src/Lib.antt =====
-- Noema's core, modelled and proved: the reasoning loop that lets no unverified solution out, the
-- audit chain with its logger and Merkle trees, the circuit breaker with its retries and the
-- federation that uses them, budgets and quotas, the planning and scheduling of reasoning steps, and
-- the event bus, queues, pools, pipelines and caches that carry the work.
--
-- NeuroSymbolic (noema/neurosymbolic/engine.py). `NeuroSymbolicEngine.think` is `think`, a
-- computation over the state of one run (`Run`: the world of the services, the engine's counters,
-- the events yielded, the rounds recorded) that may raise and keeps what it has done. Its `try`
-- block is `reason`, its loop is `attempt_loop`, structural in the attempts left, and its handler is
-- `report`. Solver, model, causal analysis, evolution, static analysis and trace files are a record
-- of parameters, `Services`.
--
-- Audit (noema/audit/merkle.py). `AuditBlock`, `MerkleProof` and `MerkleChainAudit` are records; the
-- methods keep their names. The digest, JSON and the encodings of an export are the parameter
-- `Codec`; what is documented of them is a hypothesis where a theorem uses it. The tree's loop has
-- the number of leaves as fuel, which is enough because every round makes a level shorter.
--
-- Resilience (noema/resilience/circuit_breaker.py). A call of `CircuitBreaker.execute` has two
-- halves, `admit` and `settle`, so that calls may interleave; `RetryPolicy.execute` is structural in
-- the retries left; `ResilientExecutor.execute` is `resilient_execute`. Times are milliseconds from a
-- clock that is a parameter.
--
-- Budget (noema/budget/token_budget.py). `TokenBudget` with `check`, `record` (`record_tokens`),
-- `should_degrade` and `reset`; fractions are in thousandths.
--
-- Reasoning (noema/core/chain_of_thought.py). Plan holds `StepPlanner.plan` and the dependencies of
-- `_build_dag`, Levels the loop of `_topological_levels`, with as many rounds as there are steps,
-- and Step `_execute_step`, with its calls of the budget. A step's name is a constructor of
-- `StepName`. Roles, previews of prompts and durations are left out.
--
-- Reflexion, beside Step, is the loop of `reason_with_reflexion`, structural in the attempts left.
--
-- Audit.Proofs (noema/audit/merkle_proof.py) holds the static tree and its inclusion proofs, with the
-- number of padded leaves as fuel of the loop. Audit.Incremental is `IncrementalMerkleTree`: `new` is
-- its constructor, a loop over levels is a recursion over their list, and Positions says what stands at
-- each position of each level, which the proofs compare both builders with.
--
-- Caching (noema/modules/caching/kernel.py). `LRUCache` is `LruCache`, with its ordered dictionary and
-- tag index as lists; Layers holds `MultiLayerCache`, whose methods get the suffix `_layered`.
--
-- Routing (noema/routing/model_router.py) has the tiers, `select`, and `complete`, which sends each
-- call of the chain through Resilience's breaker.
--
-- Access (noema/modules/auth/kernel.py) is `RBAC`, with its two dictionaries as association lists.
--
-- Events (noema/core/events.py) is `EventBus`: the consumer loop is the operations `dequeue` and
-- `deliver`, one handler at a time, between which other calls may come.
--
-- Queues (noema/modules/queues/kernel.py) is `JobQueue`: a round of `_worker_loop` is `take_next` and
-- `finish`, and the rounds of several workers interleave; a push that meets an equal key raises.
--
-- Pipelines (noema/pipelines/engine.py) is `Pipeline.execute`, with the awaited calls as services.
--
-- Audit.Logger (noema/audit/logger.py) is how `AuditLogger` seals and stores an event, on top of the
-- incremental tree, from its start on the database or on files; the hashes that these hold are arguments.
--
-- Workers (noema/workers/pool.py) is `WorkerPool`, with `submit` in three parts.
--
-- Quotas (noema/billing/quotas.py) is `QuotaManager`, with the queries of its two stores as services.
--
-- Degradation (noema/resilience/graceful_degradation.py) is `GracefulDegradation`, with Redis and
-- PostgreSQL as services that reply or fail.
--
-- Federation (noema/federation/router.py) is `FederationRouter`, whose delegations go through
-- Resilience's `resilient_execute`, with the cap of the ledger in noema/billing/ledger.py.
--
-- RateLimit (noema/api/rate_limit.py). `_SlidingWindowCounter` is `Counter`; `_periodic_cleanup` is
-- one round, `clean_up`.
--
-- Prelude passes library names on and holds Boolean tests, lists measured by native numbers,
-- dictionaries, and results that may raise. The Tests modules apply the theorems to concrete data.
--
-- Not modelled: logging and metrics sinks, random identifiers, wall clocks other than as arguments,
-- HTTP, gRPC, databases, containers, solvers and language models, which are parameters where a
-- modelled part calls them; and the other components that are named in the manifest.
pub mod Prelude
pub mod Resilience
pub mod Audit
pub mod NeuroSymbolic
pub mod Budget
pub mod Reasoning
pub mod Caching
pub mod Events
pub mod Queues
pub mod Pipelines
pub mod Degradation
pub mod Federation
pub mod Workers
pub mod Quotas
pub mod RateLimit
pub mod Routing
pub mod Access
