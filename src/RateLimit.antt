-- ===== src/RateLimit.antt =====
-- data_agent/services/rate_limit_service.py: the fixed-window limiter. The Redis client and SHA-256
-- are parameters; the key text is kept as its parts. Log events are not modelled.
pub mod Middleware
pub mod Window
pub mod Failure
mod Tests
use deep_data_agent.Prelude.{
  ℕ, ◌+◌, ◌-◌, ◌≡◌, ◌≢◌, Bool, true, false, ◌||◌, not, Option, none, some, String, str_eq, leb,
  ◌==◌, if◌then◌else◌,
}
use deep_data_agent.Prelude.Int.{ℤ, pos, negsuc}
use deep_data_agent.Recovery.{Protection, retry_after, gives, raises}
use deep_data_agent.Gate.{Gate}

-- A reply of the Redis client: a value; one of RedisError, OSError, ValueError; or another
-- exception.
pub data Reply (A : Type 0) : Type 0 where
  value : A → Reply A
  failed crashed : Reply A

-- f"ratelimit:{scope}:{digest}:{window_index}"
pub record WindowKey : Type 0 where
  pub scope : String
  pub digest : String
  pub window_index : ℕ

-- The commands that `check` sends. Counter keys are only ever incremented, so a count is natural.
pub record Counters : Type 1 where
  pub Store : Type 0
  pub incr : WindowKey → Store → Reply ℕ × Store
  pub expire : WindowKey → ℕ → Store → Reply (Unit {0}) × Store
  pub ttl : WindowKey → Store → Reply ℤ × Store

pub data Status : Type 0 where
  enforced degraded unavailable : Status

pub data Reason : Type 0 where
  within_limit rate_limit_exceeded redis_unavailable : Reason

pub record RateLimitDecision : Type 0 where
  pub allowed : Bool
  pub limit : ℕ
  pub remaining : ℕ
  pub retry_after : ℕ
  pub window_seconds : ℕ
  pub protection_status : Status
  pub protection_reason : Reason

-- `_FAIL_OPEN_SCOPES`
unfoldable pub is_fail_open : String → Bool
is_fail_open scope = str_eq scope "auth" || str_eq scope "session" || str_eq scope "default"

-- `_unavailable_decision`
unfoldable pub unavailable_decision : String → ℕ → ℕ → Protection → RateLimitDecision
unavailable_decision scope limit window_seconds state = record {
  allowed = is_fail_open scope;
  limit = limit;
  remaining = if is_fail_open scope then limit else 0;
  retry_after = if is_fail_open scope then 0 else retry_after state;
  window_seconds = window_seconds;
  protection_status = if is_fail_open scope then degraded else unavailable;
  protection_reason = redis_unavailable;
}

-- `ttl if ttl > 0 else window_seconds`
unfoldable pub wait_for : ℤ → ℕ → ℕ
wait_for (pos ttl) window_seconds = if leb 1 ttl then ttl else window_seconds
wait_for (negsuc n) window_seconds = window_seconds

-- The decision on the count of this request.
unfoldable pub counted : ℕ → ℕ → ℕ → ℕ → RateLimitDecision
counted limit window_seconds count retry = record {
  allowed = leb count limit;
  limit = limit;
  remaining = limit - count;
  retry_after = retry;
  window_seconds = window_seconds;
  protection_status = enforced;
  protection_reason = if leb count limit then within_limit else rate_limit_exceeded;
}

module _ (r : Counters) where
  open r use {Store, incr, expire, ttl}

  -- The body of the `try`: INCR, EXPIRE on the first request of the window, TTL on a refusal.
  unfoldable pub expire_first : WindowKey → ℕ → ℕ → Store → Reply (Unit {0}) × Store
  expire_first key window_seconds count s =
      if count == 1 then expire key window_seconds s else (value tt, s)

  unfoldable pub decide : WindowKey → ℕ → ℕ → ℕ → Store → Reply RateLimitDecision × Store
  decide key limit window_seconds count s =
      if leb count limit
      then (value (counted limit window_seconds count 0), s)
      else (let (t, s') = ttl key s in
          (
            elim t [
              | value left ↦
                  value (counted limit window_seconds count (wait_for left window_seconds))
              | failed ↦ failed
              | crashed ↦ crashed
            ],
            s',
          ))

  unfoldable pub count_request : WindowKey → ℕ → ℕ → Store → Reply RateLimitDecision × Store
  count_request key limit window_seconds s =
      let (c, s') = incr key s in
      elim c [
        | value count ↦
            let (e, s'') = expire_first key window_seconds count s' in
            elim e [
              | value _ ↦ decide key limit window_seconds count s''
              | failed ↦ (failed, s'')
              | crashed ↦ (crashed, s'')
            ]
        | failed ↦ (failed, s')
        | crashed ↦ (crashed, s')
      ]

-- What `check` is called with, and `now // window_seconds` and the digest of the identity.
pub record Request : Type 0 where
  pub scope : String
  pub identity_key : String
  pub limit : ℕ
  pub window_seconds : ℕ

module _ (g : Gate) (r : Counters) (digest : String → String) where
  open g use {State, Reading, get_client, mark_unavailable, protection_state}
  open r use {Store}

  -- The shared state of the service: the gate's and Redis's.
  pub record World : Type 0 where
    pub gate : State
    pub store : Store

  -- What one call reads outside: `int(time.time() // window_seconds)` and the gate's readings
  -- before the commands, at the report of a failure, and for the decision without Redis.
  -- The window is at least a second long; for 0 seconds `_window_key` raises.
  pub record Reads : Type 0 where
    pub window_index : ℕ
    pub connects : Reading
    pub reports : Reading
    pub states : Reading

  -- `_window_key`
  unfoldable pub window_key : Request → ℕ → WindowKey
  window_key q window_index = record {
    scope = q.scope;
    digest = digest q.identity_key;
    window_index = window_index;
  }

  abbrev fall_back : Request → Reading → State → RateLimitDecision
  fall_back q reading st =
      unavailable_decision q.scope q.limit q.window_seconds (protection_state reading st)

  -- `check`; `none` is an exception that it passes on.
  unfoldable pub check : Request → Reads → World → Option RateLimitDecision × World
  check q now w =
      let (answer, st) = get_client now.connects w.gate in
      elim answer [
        | raises ↦ (none, record w { gate = st })
        | gives none ↦ (some (fall_back q now.states st), record w { gate = st })
        | gives (some client) ↦
            let (d, store) =
              count_request r (window_key q now.window_index) q.limit q.window_seconds w.store in
            elim d [
              | value decision ↦ (some decision, record { gate = st; store = store })
              | failed ↦
                  let st' = mark_unavailable client "check" now.reports st in
                  (some (fall_back q now.states st'), record { gate = st'; store = store })
              | crashed ↦ (none, record { gate = st; store = store })
            ]
      ]
