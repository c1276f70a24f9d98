-- ===== src/Agent/Request/Cached.antt =====
-- When a request reads and writes the answer cache (`AgentService.ainvoke` of
-- data_agent/services/agent_service.py).
use deep_data_agent.Prelude.{
  ℕ, ◌≡◌, refl, ◌⊎◌, inl, inr, Bool, true, false, ◌&&◌, Option, none, some, List, String, arith,
  leb, length, Bool-cases,
}
use deep_data_agent.Recovery.Clock.{Seconds}
use deep_data_agent.Gate.{Gate}
use deep_data_agent.Access.{User, agent_invoke_own, AuditEvent, ensure_permission}
use deep_data_agent.Cache.{Commands, Codec, aget, aset}
use deep_data_agent.Cache as Cache
use deep_data_agent.Budget.{Step}
use deep_data_agent.Budget.Evidence.{Cacheable}
use deep_data_agent.Budget.Scope.{
  Exn, Exit, returned, raised, observe_answer_cache, allows_cache, hold_run_budget, is_returned,
}
use deep_data_agent.Budget.Scope.Laws.{acts, observed_run_allows_cache}
use deep_data_agent.Budget.Scope as Run
use deep_data_agent.Lease.Manager.{Scripts, Subjects}
use deep_data_agent.Lease.Manager.Holding.Blocks.{Holds, hold-Holds}
use deep_data_agent.Agent.{ok, GraphResult, complete_answer, response_text}
use deep_data_agent.Agent.Request.Laws.{Answer-cases, Exit-cases}
use deep_data_agent.Agent.Request.{
  Service, validate_query, Values, Rest, CacheReadings, store_answer, may_cache, answer_fresh,
  after_lookup, answer, block, Leasing, Context, request, ainvoke,
}

module _ (gc : Gate) (r : Commands) (j : Codec) (x : Values j) (v : Service)
    (graph : String → Run.World → Exit GraphResult × Run.World) where
  -- The entry that a run in the world `run` admits, after a lookup that left the cache `looked`: the
  -- query refers to no managed file, the graph returned a complete answer with this text, and the
  -- observation of the run allows it.
  pub record Entry (query key : String) (now : CacheReadings gc r j) (run : Run.World)
      (looked cache : Cache.World gc r j) : Type 0 where
    pub result : GraphResult
    pub text : String
    pub unreferenced : v.has_managed_file_reference query ≡ false
    pub ran : (observe_answer_cache (λ o. graph query) run).0 ≡ returned result
    pub allowed :
        allows_cache (length run.observations) (observe_answer_cache (λ o. graph query) run).1
        ≡ true
    pub complete : complete_answer result ≡ true
    pub answered : response_text v.response_max result ≡ ok text
    pub written : cache ≡ (aset gc r j key (x.of_text text) 86400 now.sets looked).1

  -- The cache after a request that began in `w`: as it was, as the lookup left it, or with an entry.
  abbrev pub Caches :
      String → String → CacheReadings gc r j → Rest gc r j → Cache.World gc r j → Type 0
  Caches query key now w cache =
      (cache ≡ w.cache)
      ⊎ (cache ≡ (aget gc r j key now.gets w.cache).1)
      ⊎ Entry query key now w.run (aget gc r j key now.gets w.cache).1 cache

  may_cache_lem :
      (query : String) (o : ℕ) (result : GraphResult) (w : Run.World)
      → may_cache gc r j x v graph query o result w ≡ true
      → (v.has_managed_file_reference query ≡ false)
        × (allows_cache o w ≡ true)
        × (complete_answer result ≡ true)
  unfolding may_cache
  may_cache_lem query o result w h = ground arith

  store_answer_lem :
      (b : Bool) (key text : String) (now : CacheReadings gc r j) (w : Rest gc r j)
      → ((store_answer gc r j x v graph b key text now w).1.cache ≡ w.cache)
        ⊎ ((b ≡ true)
            × ((store_answer gc r j x v graph b key text now w).1.cache
                ≡ (aset gc r j key (x.of_text text) 86400 now.sets w.cache).1))
  unfolding store_answer
  store_answer_lem false key text now w = inl refl
  store_answer_lem true key text now w = inr (refl, refl)

  -- A fresh answer changes the cache by an entry only.
  answer_fresh_lem :
      (query key : String) (now : CacheReadings gc r j) (w : Rest gc r j)
      → let cache = (answer_fresh gc r j x v graph query key now w).1.cache in
        (cache ≡ w.cache) ⊎ Entry query key now w.run w.cache cache
  unfolding answer_fresh
  answer_fresh_lem query key now w =
      let end = observe_answer_cache (λ o. graph query) w.run in
      elim (Exit-cases end.0) [
        | inl (e, q) ↦ rw (q, answer_fresh) (inl refl)
        | inr (result, q) ↦ elim (Answer-cases (response_text v.response_max result)) [
          | inl (f, a) ↦ rw (q, answer_fresh) (rw (a, answer_fresh) (inl refl))
          | inr (t, a) ↦
              rw (q, answer_fresh)
                (rw (a, answer_fresh)
                  (let b =
                      may_cache gc r j x v graph query (length w.run.observations) result end.1 in
                    elim (store_answer_lem b key t now (record w { run = end.1 })) [
                      | inl same ↦ inl same
                      | inr (yes_, wrote) ↦
                          let (u, al, co) =
                            may_cache_lem query (length w.run.observations) result end.1 yes_ in
                          inr (record {
                            result = result;
                            text = t;
                            unreferenced = u;
                            ran = q;
                            allowed = al;
                            complete = co;
                            answered = a;
                            written = wrote;
                          })
                    ]))
        ]
      ]

  answer-bypass :
      (query key : String) (now : CacheReadings gc r j) (w : Rest gc r j)
      → v.has_managed_file_reference query ≡ true
      → (answer gc r j x v graph query key now w).1.cache ≡ w.cache
  unfolding answer
  answer-bypass query key now w h =
      rw (h, answer)
        (elim (answer_fresh_lem query key now w) [
          | inl same ↦ same
          | inr entry ↦ absurd (ground (arith, entry.unreferenced))
        ])

  after_lookup_lem :
      (query key : String) (now : CacheReadings gc r j) (found : Option (Option j.V))
      (w : Rest gc r j)
      → let cache = (after_lookup gc r j x v graph query key now found w).1.cache in
        (cache ≡ w.cache) ⊎ Entry query key now w.run w.cache cache
  unfolding after_lookup
  after_lookup_lem query key now none w = inl refl
  after_lookup_lem query key now (some none) w = answer_fresh_lem query key now w
  after_lookup_lem query key now (some (some cached)) w = elim (Bool-cases (x.is_null cached)) [
    | inl e ↦ rw (e, after_lookup) (answer_fresh_lem query key now w)
    | inr e ↦ rw (e, after_lookup) (inl refl)
  ]

  answer-Caches :
      (query key : String) (now : CacheReadings gc r j) (w : Rest gc r j)
      → Caches query key now w (answer gc r j x v graph query key now w).1.cache
  unfolding answer
  answer-Caches query key now w = elim (Bool-cases (v.has_managed_file_reference query)) [
    | inl e ↦ inl (answer-bypass query key now w e)
    | inr e ↦
        let (found, c) = aget gc r j key now.gets w.cache in
        inr (rw (e, answer) (after_lookup_lem query key now found (record w { cache = c })))
  ]

  -- A relation of the cache before and after that the block keeps, the request keeps.
  request-Holds :
      (g : Gate) (p : Scripts) (s : Seconds) (names : Subjects)
      (Q : Rest gc r j → Cache.World gc r j → Type 0) (query key : String)
      (now : CacheReadings gc r j)
      → ((w : Rest gc r j) → Q w w.cache)
      → ((w : Rest gc r j) → Q w (answer gc r j x v graph query key now w).1.cache)
      → Holds g p s names
          (Rest gc r j)
          (λ held w w'. Q w w'.cache)
          (block gc r j x v graph g p s names query key now)
  unfolding block
  request-Holds g p s names Q query key now same step = record {
    block = λ lease c. step c.rest;
    refusals = λ w. (same w, same w, λ o. same w);
    failing = λ exit w w' h. h;
  }

  -- What the block keeps of the cache, `ainvoke` keeps.
  ainvoke-keeps :
      (g : Gate) (p : Scripts) (s : Seconds) (names : Subjects)
      (Q : Rest gc r j → Cache.World gc r j → Type 0) (actor : User) (query : String)
      (now : CacheReadings gc r j) (l : Leasing gc r j x v graph g p s names)
      (log : List AuditEvent) (c : Context gc r j x v graph g p s names)
      → ((w : Rest gc r j) → Q w w.cache)
      → ((w : Rest gc r j)
          → Q w (answer gc r j x v graph query (v.cache_key query actor.id) now w).1.cache)
      → Q c.rest (ainvoke gc r j x v graph g p s names actor query now l log c).2.rest.cache
  unfolding ainvoke request
  ainvoke-keeps g p s names Q actor query now l log c same step =
      elim (Bool-cases ((ensure_permission actor agent_invoke_own log).0 && leb 1 actor.id)) [
        | inr e ↦ rw (e, ainvoke) (same c.rest)
        | inl e ↦ elim (Bool-cases (validate_query v query)) [
          | inr q ↦ rw (e, ainvoke) (rw (q, ainvoke) (same c.rest))
          | inl q ↦
              rw (e, ainvoke)
                (rw (q, ainvoke)
                  (hold-Holds g p s names (Rest gc r j) (λ held w w'. Q w w'.cache)
                    (names.str actor.id) l.lease_id l.deadline l.turns l.leaves _ c
                    (request-Holds g p s names Q query (v.cache_key query actor.id) now same step)))
        ]
      ]

  -- A request whose query refers to a managed file neither reads nor writes the answer cache: its
  -- state, the gate's included, is the one from before.
  pub ainvoke-bypass :
      (g : Gate) (p : Scripts) (s : Seconds) (names : Subjects) (actor : User) (query : String)
      (now : CacheReadings gc r j) (l : Leasing gc r j x v graph g p s names)
      (log : List AuditEvent) (c : Context gc r j x v graph g p s names)
      → v.has_managed_file_reference query ≡ true
      → (ainvoke gc r j x v graph g p s names actor query now l log c).2.rest.cache ≡ c.rest.cache
  ainvoke-bypass g p s names actor query now l log c h =
      ainvoke-keeps g p s names (λ w cache. cache ≡ w.cache) actor query now l log c (λ w. refl)
        (λ w. answer-bypass query (v.cache_key query actor.id) now w h)

  pub ainvoke-Caches :
      (g : Gate) (p : Scripts) (s : Seconds) (names : Subjects) (actor : User) (query : String)
      (now : CacheReadings gc r j) (l : Leasing gc r j x v graph g p s names)
      (log : List AuditEvent) (c : Context gc r j x v graph g p s names)
      → Caches query
          (v.cache_key query actor.id)
          now
          c.rest
          (ainvoke gc r j x v graph g p s names actor query now l log c).2.rest.cache
  ainvoke-Caches g p s names actor query now l log c =
      ainvoke-keeps g p s names (Caches query (v.cache_key query actor.id) now) actor query now l
        log c (λ w. inl refl) (answer-Caches query (v.cache_key query actor.id) now)

-- The graph whose run for a query takes these steps on its ledger and ends with this exit.
abbrev pub bounded_graph :
    ℕ
    → ℕ
    → (String → List Step)
    → (String → Exit GraphResult)
    → String
    → Run.World
    → Exit GraphResult × Run.World
bounded_graph m t steps exits query = hold_run_budget m t (acts (steps query) (exits query))

-- Whatever steps the graph's run takes on its ledger, a request leaves the cache as it was, as the
-- lookup left it, or as storing its own answer under its own key then left it. The last happens only
-- if the query refers to no managed file, the result is a complete answer with that text, and the
-- steps of the run are evidence that it used no tool and that each model result was complete.
pub ainvoke-Cacheable :
    (gc : Gate) (r : Commands) (j : Codec) (x : Values j) (v : Service) (m t : ℕ)
    (steps : String → List Step) (exits : String → Exit GraphResult) (g : Gate) (p : Scripts)
    (s : Seconds) (names : Subjects) (actor : User) (query : String) (now : CacheReadings gc r j)
    (l : Leasing gc r j x v (bounded_graph m t steps exits) g p s names) (log : List AuditEvent)
    (c : Context gc r j x v (bounded_graph m t steps exits) g p s names)
    → let graph = bounded_graph m t steps exits in
      let key = v.cache_key query actor.id in
      let cache = (ainvoke gc r j x v graph g p s names actor query now l log c).2.rest.cache in
      let looked = (aget gc r j key now.gets c.rest.cache).1 in
      (cache ≡ c.rest.cache)
      ⊎ (cache ≡ looked)
      ⊎ (Entry gc r j x v graph query key now c.rest.run looked cache
          × Cacheable (is_returned (exits query)) m (steps query))
ainvoke-Cacheable gc r j x v m t steps exits g p s names actor query now l log c =
    elim (ainvoke-Caches gc r j x v (bounded_graph m t steps exits) g p s names actor query now l
      log c) [
        | inl same ↦ inl same
        | inr (inl looked) ↦ inr (inl looked)
        | inr (inr entry) ↦ inr (
            inr (
              entry,
              (observed_run_allows_cache m t (steps query) (exits query) c.rest.run).0
                  entry.allowed,
            ))
      ]
