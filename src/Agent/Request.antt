-- ===== src/Agent/Request.antt =====
-- `AgentService.ainvoke` of data_agent/services/agent_service.py: one request under its lease, with
-- the answer cache and the ledger of the run. Log events and the clock of `asyncio.timeout` are not
-- modelled: a deadline that passes is an exception of the call that it interrupts.
pub mod Laws
pub mod Cached
mod Tests
use deep_data_agent.Prelude.{
  ℕ, Bool, true, false, ◌&&◌, not, Option, none, some, List, [], ◌∷◌, String, str_eq, leb, length,
  if◌then◌else◌,
}
use deep_data_agent.Recovery.Clock.{Seconds}
use deep_data_agent.Gate.{Gate}
use deep_data_agent.Access.{User, agent_invoke_own, AuditEvent, ensure_permission}
use deep_data_agent.Cache.{Commands, Codec, aget, aset}
use deep_data_agent.Budget.{LedgerError, model_budget_exceeded, tool_budget_exceeded, unknown_kind}
use deep_data_agent.Budget.Scope.{
  Exn, ledger, budget_context_missing, exception, base_exception, Exit, observe_answer_cache,
  allows_cache,
}
use deep_data_agent.Lease.Table.{AgentLease}
use deep_data_agent.Lease.Manager.{Scripts, Subjects, Turn}
use deep_data_agent.Lease.Manager.Holding.{Held, hold}
use deep_data_agent.Lease.Manager.Holding as Holding
use deep_data_agent.Agent.{
  Failure, permission_denied, invalid_query, model_budget, tool_budget, other, base_other,
  timed_out, Answer, ok, err, GraphResult, complete_answer, validate_response_text, response_text,
  translate,
}
use deep_data_agent.Lease.Manager as Lease
use deep_data_agent.Cache as Cache
use deep_data_agent.Budget.Scope as Run
use Prim.Native.String.{count}

-- What the service asks of the settings, of Python's `str.strip`, of the search for a reference to a
-- managed file, of the digest that is the cache key, and of the failure that an exception of its
-- number is. `crash` is that of a cache call that passes one on.
pub record Service : Type 0 where
  pub query_max : ℕ
  pub response_max : ℕ
  pub strip : String → String
  pub has_managed_file_reference : String → Bool
  pub cache_key : String → ℕ → String
  pub failure : ℕ → Failure
  pub crash : Failure

-- `_validate_query`
unfoldable pub validate_query : Service → String → Bool
validate_query v query = not (str_eq (v.strip query) "") && leb (count query) v.query_max

-- The failure that an exception of the run is.
unfoldable pub failure_of : Service → Exn → Failure
failure_of v (ledger model_budget_exceeded) = model_budget
failure_of v (ledger tool_budget_exceeded) = tool_budget
failure_of v (ledger unknown_kind) = other
failure_of v budget_context_missing = other
failure_of v (exception n) = v.failure n
failure_of v (base_exception n) = v.failure n

-- The failure that `hold_async` raises around the request.
unfoldable pub unheld : Service → Held (Answer String) → Answer String
unheld v (Held.finished answer) = answer
unheld v (Held.raised n) = err (v.failure n)
unheld v Held.rejected = err other
unheld v Held.malformed = err other
unheld v Held.release_failed = err other
unheld v (Held.refused (Lease.acquired _)) = err other
unheld v (Held.refused (Lease.busy seconds)) = err (Failure.busy seconds)
unheld v (Held.refused (Lease.unavailable seconds)) = err (Failure.protection_unavailable seconds)
unheld v (Held.refused Lease.broken) = err other
unheld v (Held.refused Lease.pending) = err timed_out

unfoldable pub translated : Answer String → Answer String
unfolding translate
translated (ok text) = ok text
translated (err f) = err (translate f)

-- The cached values that the service makes and reads: JSON's null, and a text.
pub record Values (j : Codec) : Type 0 where
  pub is_null : j.V → Bool
  pub as_text : j.V → Option String
  pub of_text : String → j.V

-- What a request works on beside its lease: the answer cache and the budgets.
pub record Rest (gc : Gate) (r : Commands) (j : Codec) : Type 0 where
  pub cache : Cache.World gc r j
  pub run : Run.World

-- The readings at `aget` and at `aset`.
pub record CacheReadings (gc : Gate) (r : Commands) (j : Codec) : Type 0 where
  pub gets : Cache.Readings gc r j
  pub sets : Cache.Readings gc r j

module _ (gc : Gate) (r : Commands) (j : Codec) (x : Values j) (v : Service)
    (graph : String → Run.World → Exit GraphResult × Run.World) where
  -- A step of the request on the cache and the budgets.
  abbrev pub Work : Type 0 → Type 0
  Work A = Rest gc r j → Answer A × Rest gc r j

  -- `aset` of the answer, where the run may be cached.
  unfoldable pub store_answer : Bool → String → String → CacheReadings gc r j → Work String
  store_answer false key text now w = (ok text, w)
  store_answer true key text now w =
      let (stored, c) = aset gc r j key (x.of_text text) 86400 now.sets w.cache in
      (elim stored [ none ↦ err v.crash | some _ ↦ ok text ], record w { cache = c })

  -- The conditions of the `if` before `aset`; `o` is the observation of the run.
  unfoldable pub may_cache : String → ℕ → GraphResult → Run.World → Bool
  may_cache query o result w =
      not (v.has_managed_file_reference query) && allows_cache o w && complete_answer result

  -- The miss: the graph under a cache observation, its answer and its cache entry.
  unfoldable pub answer_fresh : String → String → CacheReadings gc r j → Work String
  answer_fresh query key now w =
      let o = length w.run.observations in
      let (exit, run) = observe_answer_cache (λ o. graph query) w.run in
      let w' : Rest gc r j = record w { run = run } in
      elim exit [
        | Run.raised e ↦ (err (failure_of v e), w')
        | Run.returned result ↦ elim (response_text v.response_max result) [
          | err f ↦ (err f, w')
          | ok text ↦ store_answer (may_cache query o result run) key text now w'
        ]
      ]

  -- What the lookup found: nothing, or null, is a miss.
  unfoldable pub after_lookup :
      String → String → CacheReadings gc r j → Option (Option j.V) → Work String
  after_lookup query key now none w = (err v.crash, w)
  after_lookup query key now (some none) w = answer_fresh query key now w
  after_lookup query key now (some (some cached)) w =
      if x.is_null cached
      then answer_fresh query key now w
      else (validate_response_text v.response_max (x.as_text cached), w)

  -- The `async with` block of `hold_async`.
  unfoldable pub answer : String → String → CacheReadings gc r j → Work String
  answer query key now w =
      if v.has_managed_file_reference query
      then answer_fresh query key now w
      else (let (found, c) = aget gc r j key now.gets w.cache in
          after_lookup query key now found (record w { cache = c }))

  module _ (g : Gate) (p : Scripts) (s : Seconds) (names : Subjects) where
    abbrev pub Context : Type 0
    Context = Holding.Context g p s names (Rest gc r j)

    -- The block on the context that `hold_async` gives it.
    unfoldable pub block :
        String
        → String
        → CacheReadings gc r j
        → AgentLease
        → Context
        → Held (Answer String) × Context
    block query key now lease c =
        let (reply, w) = answer query key now c.rest in (Held.finished reply, record c { rest = w })

    -- Where the request meets the lease: the id of a new one, the deadline of the wait, its turns, and
    -- the readings at the release.
    pub record Leasing : Type 0 where
      pub lease_id : String
      pub deadline : s.T
      pub turns : List (Turn g p s)
      pub leaves : Lease.Readings g p

    -- The `try` of `ainvoke`.
    unfoldable pub request :
        User → String → CacheReadings gc r j → Leasing → Context → Answer String × Context
    request actor query now l c =
        let key = v.cache_key query actor.id in
        let (held, c') =
          hold g p s names (Rest gc r j) (names.str actor.id) l.lease_id l.deadline l.turns l.leaves
            (block query key now) c in
        (translated (unheld v held), c')

    -- `ainvoke`, with the audit log: the permission, the actor's id and the query first.
    unfoldable pub ainvoke :
        User
        → String
        → CacheReadings gc r j
        → Leasing
        → List AuditEvent
        → Context
        → Answer String × List AuditEvent × Context
    ainvoke actor query now l log c =
        let (allowed, log') = ensure_permission actor agent_invoke_own log in
        if not (allowed && leb 1 actor.id)
        then (err permission_denied, log', c)
        else if not (validate_query v query)
        then (err invalid_query, log', c)
        else (let (reply, c') = request actor query now l c in (reply, log', c'))
