-- ===== src/Agent/Stream.antt =====
-- The run of a stream under its lease (data_agent/services/agent_service.py,
-- `ResourceBoundedAgentGraph.stream`): the loop over the graph's chunks, with the check of the ledger
-- and the deadline before each chunk is handed on. The graph's chunks are an argument.
pub mod Laws
mod Tests
use deep_data_agent.Prelude.{ℕ, Bool, true, false, Option, none, some, List, [], ◌∷◌, if◌then◌else◌}
use deep_data_agent.Recovery.Clock.{Seconds}
use deep_data_agent.Budget.{Step, run, invalidate_cache}
use deep_data_agent.Budget.Scope.{
  Exn, ledger, exception, base_exception, Exit, raised, World, modify, check_at, hold_run_budget,
}

-- The numbers of AgentTimeoutError and of GeneratorExit.
pub record Numbers : Type 0 where
  pub timeout : ℕ
  pub generator_exit : ℕ

-- A chunk: its value, what the graph did on the ledger before it, the time at which it is tested, and
-- whether the consumer asks for the next one or closes the stream.
pub record Chunk (s : Seconds) (A : Type 0) : Type 0 where
  pub value : A
  pub steps : List Step
  pub clock : s.T
  pub wanted : Bool

-- How the graph's stream ends: what it did on the ledger after its last chunk, and its end.
pub record Finish : Type 0 where
  pub steps : List Step
  pub exit : Exit (Unit {0})

-- With interrupts the answer is not cached.
unfoldable pub interrupt : Bool → ℕ → World → World
interrupt interrupts id w =
    if interrupts then record w { budgets = modify id invalidate_cache w.budgets } else w

module _ (s : Seconds) (e : Numbers) {A : Type 0} where
  -- The loop: the values that it hands on, how it ends, and the world then. There is no check after the last
  -- chunk.
  unfoldable pub relay :
      s.T → List (Chunk s A) → Finish → ℕ → World → List A × Exit (Unit {0}) × World
  relay deadline [] last id w =
      ([], last.exit, record w { budgets = modify id (run last.steps) w.budgets })
  relay deadline (c ∷ cs) last id w =
      let w' = record w { budgets = modify id (run c.steps) w.budgets } in
      let (values, exit, end) = relay deadline cs last id w' in
      elim (check_at id w') [
        | some refusal ↦ ([], raised (ledger refusal), w')
        | none ↦
            if s.lt deadline c.clock
            then ([], raised (exception e.timeout), w')
            else if c.wanted
            then (c.value ∷ values, exit, end)
            else (c.value ∷ [], raised (base_exception e.generator_exit), w')
      ]

  -- The body of `hold_run_budget` in `produce`.
  unfoldable pub produce :
      Bool → s.T → List (Chunk s A) → Finish → ℕ → World → List A × Exit (Unit {0}) × World
  produce interrupts deadline cs last id w = relay deadline cs last id (interrupt interrupts id w)

  -- The run under the lease: how it ends, and the world then.
  unfoldable pub stream_run :
      ℕ → ℕ → Bool → s.T → List (Chunk s A) → Finish → World → Exit (Unit {0}) × World
  stream_run model_limit tool_limit interrupts deadline cs last =
      hold_run_budget model_limit tool_limit
        (λ id w. let (values, exit, end) = produce interrupts deadline cs last id w in (exit, end))
