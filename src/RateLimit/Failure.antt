-- ===== src/RateLimit/Failure.antt =====
-- What `check` decides whatever Redis answers, and the policy of each scope when Redis is away
-- (data_agent/services/rate_limit_service.py).
pub mod Commands
use mathlib.Core.Option.{some-injective}
use deep_data_agent.Prelude.{
  sym, ◌∙◌, ℕ, ◌-◌, ◌<◌, ◌==◌, if◌then◌else◌, subst, ◌≤◌, ◌≡◌, refl, ap, ◌⊎◌, inl, inr, true, false,
  none, some, String, arith, leb, Bool-cases,
}
use deep_data_agent.Prelude.Int.{ℤ, pos, negsuc}
use deep_data_agent.Recovery.{Answer, gives, raises, Protection}
use deep_data_agent.Gate.{Gate, IsWaiting}
use deep_data_agent.RateLimit.{
  Reply, value, failed, crashed, WindowKey, Counters, enforced, degraded, unavailable,
  RateLimitDecision, Request, Reads, World, window_key, wait_for, counted, expire_first, decide,
  count_request, check, is_fail_open, unavailable_decision,
}
use deep_data_agent.RateLimit.Failure.Commands.{
  IsEnforced, IsFailing, Reply-cases, count_request_enforces, count_request-IsFailing,
}

-- Without Redis: an open scope is admitted with its whole limit, any other is refused with nothing
-- left and a wait.
abbrev pub IsFallback : String → ℕ → RateLimitDecision → Type 0
IsFallback scope limit d =
    (d.limit ≡ limit)
    × (((is_fail_open scope ≡ true)
          × (d.protection_status ≡ degraded)
          × (d.allowed ≡ true)
          × (d.remaining ≡ limit)
          × (d.retry_after ≡ 0))
        ⊎ ((is_fail_open scope ≡ false)
            × (d.protection_status ≡ unavailable)
            × (d.allowed ≡ false)
            × (d.remaining ≡ 0)
            × (1 ≤ d.retry_after)))

fallback_lem :
    (scope : String) (limit w : ℕ) (p : Protection)
    → IsWaiting p
    → IsFallback scope limit (unavailable_decision scope limit w p)
unfolding unavailable_decision
fallback_lem scope limit w p (n, e, h) = elim (Bool-cases (is_fail_open scope)) [
  | inl o ↦ (refl, inl (o, rw o, o, rw o, rw o))
  | inr o ↦ (refl, inr (o, rw o, o, rw o, rw (o, e) h))
]

Answer-cases : (a : Answer) → ((c : ℕ) × (a ≡ gives (some c))) ⊎ (a ≡ gives none) ⊎ (a ≡ raises)
Answer-cases (gives (some c)) = inl (c, refl)
Answer-cases (gives none) = inr (inl refl)
Answer-cases raises = inr (inr refl)

module _ (g : Gate) (r : Counters) (digest : String → String) where
  -- The decision without Redis, with the state that the gate is left in.
  fallback : Request → Reads g r digest → g.State → RateLimitDecision
  fallback q now st =
      unavailable_decision q.scope q.limit q.window_seconds (g.protection_state now.states st)

  -- When the gate has no client, or Redis fails at any command of a client, the request is decided
  -- all the same, by the policy of its scope.
  pub check_without_redis :
      (q : Request) (now : Reads g r digest) (w : World g r digest)
      → g.IsValid w.gate
      → (((g.get_client now.connects w.gate).0 ≡ gives none)
          ⊎ ((c : ℕ) × ((g.get_client now.connects w.gate).0 ≡ gives (some c))
              × ((count_request r
                    (window_key g r digest q now.window_index)
                    q.limit
                    q.window_seconds
                    w.store).0
                  ≡ failed)))
      → (d : RateLimitDecision) × ((check g r digest q now w).0 ≡ some d)
        × IsFallback q.scope q.limit d
  unfolding check fallback
  check_without_redis q now w v (inl e) = (
    fallback q now (g.get_client now.connects w.gate).1,
    rw (e, check),
    fallback_lem q.scope q.limit q.window_seconds _
        (g.get_client_none now.connects now.states w.gate v e),
  )
  check_without_redis q now w v (inr (c, e, f)) = (
    fallback q now (g.mark_unavailable c "check" now.reports (g.get_client now.connects w.gate).1),
    rw (e, check) (rw (f, check)),
    fallback_lem q.scope q.limit q.window_seconds _
        (g.mark_taken now.connects now.reports now.states w.gate c "check" v e),
  )

  -- The decision enforces the count that INCR gave a client; or there was no client, or a command of it
  -- failed, and the decision follows the policy of the scope.
  abbrev pub IsDecision : Request → Reads g r digest → World g r digest → RateLimitDecision → Type 0
  IsDecision q now w d =
      let key = window_key g r digest q now.window_index in
      let answered = (g.get_client now.connects w.gate).0 in
      ((c : ℕ) × (count : ℕ) × (answered ≡ gives (some c))
        × ((r.incr key w.store).0 ≡ value count)
        × IsEnforced q.limit count d)
      ⊎ (((answered ≡ gives none)
            ⊎ ((c : ℕ) × (answered ≡ gives (some c))
                × IsFailing r key q.limit q.window_seconds w.store))
          × IsFallback q.scope q.limit d)

  -- For windows of a second or more, and whatever Redis, the clock and a reconnect probe answer: a decision
  -- of `check` enforces the count that INCR gave, where it admits exactly up to the limit, tells what is
  -- left of it, and a refusal says how long to wait; or the gate has no client or a command of the request
  -- failed, and the decision follows the policy of the scope without Redis.
  pub check_decides :
      (q : Request) (now : Reads g r digest) (w : World g r digest) (d : RateLimitDecision)
      → g.IsValid w.gate
      → 1 ≤ q.window_seconds
      → (check g r digest q now w).0 ≡ some d
      → IsDecision q now w d
  unfolding check
  check_decides q now w d v h e = elim (Answer-cases (g.get_client now.connects w.gate).0) [
    | inl (c, a) ↦ elim (Reply-cases (count_request r key q.limit q.window_seconds w.store).0) [
      | inl (d', f) ↦
          let (count, counts, enforces) =
            count_request_enforces r key q.limit q.window_seconds w.store d h
              (f ∙ ap value (some-injective _ d (rw (f, check) at (rw (a, check) at e)))) in
          inl (c, count, a, counts, enforces)
      | inr (inl f) ↦ inr (
        inr (c, a, count_request-IsFailing r key q.limit q.window_seconds w.store f),
        same (check_without_redis q now w v (inr (c, a, f))),
      )
      | inr (inr f) ↦ absurd (none≢some (rw (f, check) at (rw (a, check) at e)))
    ]
    | inr (inl a) ↦ inr (inl a, same (check_without_redis q now w v (inl a)))
    | inr (inr a) ↦ absurd (none≢some (rw (a, check) at e))
  ]
    where
      key : WindowKey
      key = window_key g r digest q now.window_index

      none≢some : none ≡ some d → ⊥
      none≢some p = cc

      same :
          (d' : RateLimitDecision) × ((check g r digest q now w).0 ≡ some d')
            × IsFallback q.scope q.limit d'
          → IsFallback q.scope q.limit d
      same (d', e', f) = subst (IsFallback q.scope q.limit) (some-injective d' d (sym e' ∙ e)) f
