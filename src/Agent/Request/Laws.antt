-- ===== src/Agent/Request/Laws.antt =====
-- What a request promises, whatever Redis, the graph and the lease do (`AgentService.ainvoke` of
-- data_agent/services/agent_service.py).
use deep_data_agent.Prelude.{
  ℕ, ◌≤◌, ◌≡◌, refl, ◌⊎◌, inl, inr, Bool, true, false, ◌&&◌, Option, none, some, List, String,
  arith, leb, ltb, length, Bool-cases, Option-cases,
}
use deep_data_agent.Recovery.Clock.{Seconds}
use deep_data_agent.Gate.{Gate}
use deep_data_agent.Access.{User, agent_invoke_own, AuditEvent, has_permission, ensure_permission}
use deep_data_agent.Cache.{Commands, Codec, aget, aset}
use deep_data_agent.Budget.Scope.{
  Exn, Exit, returned, raised, observe_answer_cache, allows_cache, hold_run_budget,
}
use deep_data_agent.Budget.Scope as Run
use deep_data_agent.Lease.Manager as Lease
use deep_data_agent.Lease.Manager.{Scripts, Subjects}
use deep_data_agent.Lease.Manager.Holding.Blocks.{Holds, hold-Holds}
use deep_data_agent.Lease.Manager.Holding.{Held}
use deep_data_agent.Agent.{
  Failure, model_limit, tool_limit, timed_out, other, Answer, ok, err, GraphResult,
  validate_response_text, response_text, translate, last,
}
use deep_data_agent.Agent.Request.{
  Service, validate_query, unheld, translated, Values, Rest, CacheReadings, store_answer, may_cache,
  answer_fresh, after_lookup, answer, block, Leasing, Context, request, ainvoke,
}
use Prim.Native.String.{count}

-- A failure that `ainvoke` may raise: no internal error.
abbrev pub IsPublic : Failure → Type 0
IsPublic model_limit = ⊥
IsPublic tool_limit = ⊥
IsPublic timed_out = ⊥
IsPublic other = ⊥
IsPublic _ = Unit

-- An answer within `max` characters.
abbrev pub IsBounded : ℕ → Answer String → Type 0
IsBounded max (ok text) = count text ≤ max
IsBounded max (err f) = Unit

translate-IsPublic : (f : Failure) → IsPublic (translate f)
unfolding translate
translate-IsPublic Failure.permission_denied = tt
translate-IsPublic Failure.invalid_query = tt
translate-IsPublic (Failure.busy n) = tt
translate-IsPublic (Failure.protection_unavailable n) = tt
translate-IsPublic Failure.model_budget = tt
translate-IsPublic model_limit = tt
translate-IsPublic Failure.tool_budget = tt
translate-IsPublic tool_limit = tt
translate-IsPublic Failure.response_too_large = tt
translate-IsPublic Failure.agent_timeout = tt
translate-IsPublic timed_out = tt
translate-IsPublic Failure.cancelled = tt
translate-IsPublic Failure.not_configured = tt
translate-IsPublic Failure.invocation = tt
translate-IsPublic other = tt
translate-IsPublic Failure.base_other = tt

validate_response_text-IsBounded :
    (max : ℕ) (found : Option String) → IsBounded max (validate_response_text max found)
unfolding validate_response_text
validate_response_text-IsBounded max none = tt
validate_response_text-IsBounded max (some text) = elim (Bool-cases (ltb max (count text))) [
  | inl e ↦ rw (e, validate_response_text) tt
  | inr e ↦ rw (e, validate_response_text) (ground arith)
]

response_text-IsBounded :
    (max : ℕ) (result : GraphResult) → IsBounded max (response_text max result)
unfolding response_text
response_text-IsBounded max GraphResult.unmapped = tt
response_text-IsBounded max (GraphResult.mapping i none) = tt
response_text-IsBounded max (GraphResult.mapping i (some ms)) = elim (Option-cases (last ms)) [
  | inl e ↦ rw (e, response_text) tt
  | inr (m, e) ↦ rw (e, response_text) (validate_response_text-IsBounded max m.content)
]

pub Answer-cases : (a : Answer String) → ((f : Failure) × (a ≡ err f)) ⊎ ((t : String) × (a ≡ ok t))
Answer-cases (ok t) = inr (t, refl)
Answer-cases (err f) = inl (f, refl)

pub Exit-cases :
    (a : Exit GraphResult) → ((e : Exn) × (a ≡ raised e)) ⊎ ((t : GraphResult) × (a ≡ returned t))
Exit-cases (returned t) = inr (t, refl)
Exit-cases (raised e) = inl (e, refl)

translated-IsBounded :
    (max : ℕ) (a : Answer String) → IsBounded max a → IsBounded max (translated a)
unfolding translated
translated-IsBounded max (ok t) h = h
translated-IsBounded max (err f) h = tt

module _ (gc : Gate) (r : Commands) (j : Codec) (x : Values j) (v : Service)
    (graph : String → Run.World → Exit GraphResult × Run.World) where
  store_answer-IsBounded :
      (c : Bool) (key text : String) (now : CacheReadings gc r j) (w : Rest gc r j)
      → count text ≤ v.response_max
      → IsBounded v.response_max (store_answer gc r j x v graph c key text now w).0
  unfolding store_answer
  store_answer-IsBounded false key text now w h = h
  store_answer-IsBounded true key text now w h =
      elim (Option-cases (aset gc r j key (x.of_text text) 86400 now.sets w.cache).0) [
        | inl e ↦ rw (e, store_answer) tt
        | inr (b, e) ↦ rw (e, store_answer) h
      ]

  answer_fresh-IsBounded :
      (query key : String) (now : CacheReadings gc r j) (w : Rest gc r j)
      → IsBounded v.response_max (answer_fresh gc r j x v graph query key now w).0
  unfolding answer_fresh
  answer_fresh-IsBounded query key now w =
      let end = observe_answer_cache (λ o. graph query) w.run in
      elim (Exit-cases end.0) [
        | inl (e, q) ↦ rw (q, answer_fresh) tt
        | inr (result, q) ↦ elim (Answer-cases (response_text v.response_max result)) [
          | inl (f, a) ↦ rw (q, answer_fresh) (rw (a, answer_fresh) tt)
          | inr (t, a) ↦
              rw (q, answer_fresh)
                (rw (a, answer_fresh)
                  (store_answer-IsBounded
                    (may_cache gc r j x v graph query (length w.run.observations) result end.1) key
                    t now (record w { run = end.1 })
                    (rw a at (response_text-IsBounded v.response_max result))))
        ]
      ]

  after_lookup-IsBounded :
      (query key : String) (now : CacheReadings gc r j) (found : Option (Option j.V))
      (w : Rest gc r j)
      → IsBounded v.response_max (after_lookup gc r j x v graph query key now found w).0
  unfolding after_lookup
  after_lookup-IsBounded query key now none w = tt
  after_lookup-IsBounded query key now (some none) w = answer_fresh-IsBounded query key now w
  after_lookup-IsBounded query key now (some (some cached)) w =
      elim (Bool-cases (x.is_null cached)) [
        | inl e ↦ rw (e, after_lookup) (answer_fresh-IsBounded query key now w)
        | inr e ↦
            rw (e, after_lookup)
              (validate_response_text-IsBounded v.response_max (x.as_text cached))
      ]

  answer-IsBounded :
      (query key : String) (now : CacheReadings gc r j) (w : Rest gc r j)
      → IsBounded v.response_max (answer gc r j x v graph query key now w).0
  unfolding answer
  answer-IsBounded query key now w =
      let (found, c) = aget gc r j key now.gets w.cache in
      elim (Bool-cases (v.has_managed_file_reference query)) [
        | inl e ↦ rw (e, answer) (answer_fresh-IsBounded query key now w)
        | inr e ↦
            rw (e, answer) (after_lookup-IsBounded query key now found (record w { cache = c }))
      ]

  block-Holds :
      (g : Gate) (p : Scripts) (sec : Seconds) (names : Subjects) (query key : String)
      (now : CacheReadings gc r j)
      → Holds g p sec names
          (Rest gc r j)
          (λ held e e'. IsBounded v.response_max (unheld v held))
          (block gc r j x v graph g p sec names query key now)
  unfolding block unheld
  block-Holds g p sec names query key now = record {
    block = λ lease c. answer_fresh_or_cached c.rest;
    refusals = λ e. (tt, tt, refused);
    failing = λ exit e e' h. tt;
  }
    where
      answer_fresh_or_cached :
          (w : Rest gc r j) → IsBounded v.response_max (answer gc r j x v graph query key now w).0
      answer_fresh_or_cached w = answer-IsBounded query key now w

      refused : (o : Lease.Outcome) → IsBounded v.response_max (unheld v (Held.refused o))
      refused (Lease.acquired l) = tt
      refused (Lease.busy n) = tt
      refused (Lease.unavailable n) = tt
      refused Lease.broken = tt
      refused Lease.pending = tt

-- What a request may answer: a text within the budget, to an actor with the permission and for a query
-- that is valid, or a failure that is public.
abbrev pub IsSound : Service → User → String → Answer String → Type 0
IsSound v actor query (ok text) =
    (has_permission actor.role agent_invoke_own ≡ true)
    × (1 ≤ actor.id)
    × (validate_query v query ≡ true)
    × (count text ≤ v.response_max)
IsSound v actor query (err f) = IsPublic f

translated-IsSound :
    (v : Service) (actor : User) (query : String) (a : Answer String)
    → has_permission actor.role agent_invoke_own ≡ true
    → 1 ≤ actor.id
    → validate_query v query ≡ true
    → IsBounded v.response_max a
    → IsSound v actor query (translated a)
unfolding translated
translated-IsSound v actor query (ok t) h i q b = (h, i, q, b)
translated-IsSound v actor query (err f) h i q b = translate-IsPublic f

allowed_iff :
    (actor : User) (log : List AuditEvent)
    → (ensure_permission actor agent_invoke_own log).0 ≡ has_permission actor.role agent_invoke_own
unfolding ensure_permission
allowed_iff actor log = ground arith

-- A request answers with a text of at most the budget's characters, and that only to an actor who
-- has the permission and for a valid query, or raises a failure that is no internal one.
pub ainvoke-IsSound :
    (gc : Gate) (r : Commands) (j : Codec) (x : Values j) (v : Service)
    (graph : String → Run.World → Exit GraphResult × Run.World) (g : Gate) (p : Scripts)
    (s : Seconds) (names : Subjects) (actor : User) (query : String) (now : CacheReadings gc r j)
    (l : Leasing gc r j x v graph g p s names) (log : List AuditEvent)
    (c : Context gc r j x v graph g p s names)
    → IsSound v actor query (ainvoke gc r j x v graph g p s names actor query now l log c).0
unfolding ainvoke request
ainvoke-IsSound gc r j x v graph g p s names actor query now l log c =
    elim (Bool-cases ((ensure_permission actor agent_invoke_own log).0 && leb 1 actor.id)) [
      | inr e ↦ rw (e, ainvoke) tt
      | inl e ↦ elim (Bool-cases (validate_query v query)) [
        | inr q ↦ rw (e, ainvoke) (rw (q, ainvoke) tt)
        | inl q ↦
            rw (e, ainvoke)
              (rw (q, ainvoke)
                (translated-IsSound v actor query _ (ground (arith, allowed_iff actor log))
                  (ground arith) q
                  (hold-Holds g p s names (Rest gc r j)
                    (λ held e e'. IsBounded v.response_max (unheld v held)) (names.str actor.id)
                    l.lease_id l.deadline l.turns l.leaves _ c
                    (block-Holds gc r j x v graph g p s names query (v.cache_key query actor.id)
                      now))))
      ]
    ]
