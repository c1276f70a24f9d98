-- ===== src/Agent/Stream/Tests.antt =====
-- A stream of two chunks, of which the second comes too late.
use deep_data_agent.Prelude.{ℕ, ◌≡◌, refl, true, none, List, [], ◌∷◌, map, take}
use deep_data_agent.Recovery.Tests.{whole_seconds}
use deep_data_agent.Budget as Budget
use deep_data_agent.Budget.{Kind, reserves, fresh, check, run}
use deep_data_agent.Budget.Scope.{World, returned, check_at, modify}
use deep_data_agent.Agent.Stream.{Numbers, Chunk, Finish, relay}
use deep_data_agent.Agent.Stream.Laws.{IsTested, Ends, relay-Ends}

abbrev numbers : Numbers
numbers = record { timeout = 1; generator_exit = 2 }

abbrev chunks : List (Chunk whole_seconds ℕ)
chunks =
    record { value = 5; steps = reserves Kind.model ∷ []; clock = 3; wanted = true }
    ∷ record { value = 6; steps = []; clock = 12; wanted = true }
    ∷ []

abbrev started : World
started = record { budgets = fresh 2 1 ∷ []; observations = []; active = none; observing = none }

-- The graph makes one call more after its last chunk, and returns.
abbrev finish : Finish
finish = record { steps = reserves Kind.tool ∷ []; exit = returned tt }

-- Only the first chunk is handed on.
relays : (relay whole_seconds numbers 10 chunks finish 0 started).0 ≡ 5 ∷ []
unfolding relay check_at check modify run fresh Budget.step Budget.reserve Budget.charge
relays = refl

relay-Ends_example :
    let (values, exit, end) = relay whole_seconds numbers 10 chunks finish 0 started in
    (n : ℕ) × (values ≡ map (λ c. c.value) (take n chunks))
    × IsTested whole_seconds numbers 10 0 (take n chunks) started
    × Ends whole_seconds numbers 10 chunks finish n 0 started exit end
relay-Ends_example = relay-Ends whole_seconds numbers 10 chunks finish 0 started
