-- ===== src/Agent/Request/Tests.antt =====
-- A request with a graph that answers at once, and the theorems of the request there.
use deep_data_agent.Prelude.{◌≡◌, refl, ◌⊎◌, true, false, none, some, List, [], ◌∷◌, String}
use deep_data_agent.Recovery.Tests.{whole_seconds}
use deep_data_agent.Access.{User}
use deep_data_agent.Cache.{aget}
use deep_data_agent.Cache.Tests as CacheTests
use deep_data_agent.Lease.Manager.Tests as LeaseTests
use deep_data_agent.Budget.{Message, Kind, Step, reserves, observes, sequence}
use deep_data_agent.Budget.Evidence.{Cacheable}
use deep_data_agent.Budget.Scope.{World, Exit, returned, is_returned}
use deep_data_agent.Agent.{other, ok, GraphResult, mapping}
use deep_data_agent.Agent.Request.{Service, Values, Rest, CacheReadings, Leasing, Context, ainvoke}
use deep_data_agent.Agent.Request as Request
use deep_data_agent.Agent.{response_text, validate_response_text, complete_answer, last, translate}
use deep_data_agent.Lease.Manager.{subject_digest, acquire, try_acquire, read_reply, release}
use deep_data_agent.Lease.Manager.Holding.{hold, hold_new, run_held}
use deep_data_agent.Recovery.{get_client}
use deep_data_agent.Access.{ensure_permission, has_permission, is_session_permission}
use deep_data_agent.Cache.{with_client, get, set, store_text, load}
use deep_data_agent.Budget.{
  run, step, reserve, charge, check, observe_model_result, is_complete, is_final, is_stop,
  allows_answer_cache, finish, fresh,
}
use deep_data_agent.Budget.Scope.{
  observe_answer_cache, hold_run_budget, conclude, check_at, enter, modify, include, allows_cache,
  allows_ids, allows_budget,
}
use deep_data_agent.Agent.Request.Laws.{IsSound, ainvoke-IsSound}
use deep_data_agent.Agent.Request.Cached.{Entry, bounded_graph, ainvoke-Cacheable}
use text.Mathlib.Text.{starts_with}
use Prim.Native.String.{◌++◌}

abbrev service : Service
service = record {
  query_max = 100;
  response_max = 5;
  strip = λ q. q;
  has_managed_file_reference = λ q. starts_with q "__managed_file_v1__";
  cache_key = λ q n. "agent:" ++ q;
  failure = λ n. other;
  crash = other;
}

abbrev values : Values CacheTests.texts
values = record { is_null = λ v. false; as_text = λ v. some v; of_text = λ v. v }

abbrev final : Message
final = record {
  is_ai_message = true;
  finish_reason = some "stop";
  tool_calls = 0;
  invalid_tool_calls = 0;
}

abbrev steps : String → List Step
steps query = reserves Kind.model ∷ observes (sequence (final ∷ [])) ∷ []

abbrev exits : String → Exit GraphResult
exits query = returned (mapping false (some (record { message = final; content = some "hi" } ∷ [])))

abbrev graph : String → World → Exit GraphResult × World
graph = bounded_graph 3 1 steps exits

abbrev rest : Rest CacheTests.gate CacheTests.commands CacheTests.texts
rest = record {
  cache = CacheTests.empty;
  run = record { budgets = []; observations = []; active = none; observing = none };
}

abbrev now : CacheReadings CacheTests.gate CacheTests.commands CacheTests.texts
now = record { gets = CacheTests.readings; sets = CacheTests.readings }

abbrev context :
    Context CacheTests.gate CacheTests.commands CacheTests.texts values service graph
      LeaseTests.gate LeaseTests.scripts whole_seconds LeaseTests.names
context = record { world = LeaseTests.free; active = none; subject = none; rest = rest }

abbrev leasing :
    Leasing CacheTests.gate CacheTests.commands CacheTests.texts values service graph
      LeaseTests.gate LeaseTests.scripts whole_seconds LeaseTests.names
leasing = record {
  lease_id = "l1";
  deadline = 9;
  turns = LeaseTests.turn_at 3 ∷ [];
  leaves = LeaseTests.readings;
}

abbrev actor : User
actor = record { id = 7; role = "user" }

-- The answer of this run is given, and stored under the key of the query.
stores :
    let (answer, log, end) =
      ainvoke CacheTests.gate CacheTests.commands CacheTests.texts values service graph
        LeaseTests.gate LeaseTests.scripts whole_seconds LeaseTests.names actor "why?" now leasing
        [] context in
    (answer ≡ ok "hi") × (end.rest.cache.store "agent:why?" ≡ some "hi")
unfolding ainvoke Request.request Request.block Request.answer Request.answer_fresh
    Request.after_lookup Request.store_answer Request.may_cache Request.validate_query
    Request.translated Request.unheld hold hold_new run_held subject_digest acquire try_acquire
    read_reply release get_client ensure_permission has_permission is_session_permission
    response_text validate_response_text complete_answer last translate observe_answer_cache
    hold_run_budget conclude check_at enter modify include allows_cache allows_ids allows_budget run
    step reserve charge check observe_model_result is_complete is_final is_stop allows_answer_cache
    finish fresh with_client get set store_text load
stores = (refl, refl)

ainvoke-IsSound_example :
    IsSound service actor "why?"
      (ainvoke CacheTests.gate CacheTests.commands CacheTests.texts values service graph
        LeaseTests.gate LeaseTests.scripts whole_seconds LeaseTests.names actor "why?" now leasing
        [] context).0
ainvoke-IsSound_example =
    ainvoke-IsSound CacheTests.gate CacheTests.commands CacheTests.texts values service graph
      LeaseTests.gate LeaseTests.scripts whole_seconds LeaseTests.names actor "why?" now leasing []
      context

ainvoke-Cacheable_example :
    let end =
      ainvoke CacheTests.gate CacheTests.commands CacheTests.texts values service graph
        LeaseTests.gate LeaseTests.scripts whole_seconds LeaseTests.names actor "why?" now leasing
        [] context in
    let looked =
      (aget CacheTests.gate CacheTests.commands CacheTests.texts "agent:why?" now.gets
        CacheTests.empty).1 in
    (end.2.rest.cache ≡ CacheTests.empty)
    ⊎ (end.2.rest.cache ≡ looked)
    ⊎ (Entry CacheTests.gate CacheTests.commands CacheTests.texts values service graph "why?"
          "agent:why?" now rest.run looked end.2.rest.cache
        × Cacheable (is_returned (exits "why?")) 3 (steps "why?"))
ainvoke-Cacheable_example =
    ainvoke-Cacheable CacheTests.gate CacheTests.commands CacheTests.texts values service 3 1 steps
      exits LeaseTests.gate LeaseTests.scripts whole_seconds LeaseTests.names actor "why?" now
      leasing [] context
