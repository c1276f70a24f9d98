-- ===== src/Lease/Manager.antt =====
-- data_agent/services/agent_lease.py: `AgentLeaseManager` over the gate, the reply of `eval` and the
-- clock. The async methods are the same steps with `await`. Log events are not modelled.
pub mod Waiting
pub mod Holding
pub mod Tests
use deep_data_agent.Prelude.{
  ℕ, ◌+◌, ◌/◌, Bool, true, false, ◌&&◌, not, Option, none, some, List, [], ◌∷◌, String, str_eq, leb,
  ◌==◌, if◌then◌else◌,
}
use deep_data_agent.Prelude.Int.{ℤ, pos, negsuc}
use deep_data_agent.Recovery.{retry_after, gives, raises}
use deep_data_agent.Recovery.Clock.{Seconds}
use deep_data_agent.Gate.{Gate}
use deep_data_agent.Lease.Table.{AgentLease}

-- `eval` with the conversions of its reply: a value, one of `_RECOVERABLE_ERRORS`, or another
-- exception.
pub data Eval (A : Type 0) : Type 0 where
  value : A → Eval A
  recoverable crashed : Eval A

-- The two scripts as the client runs them: with a subject's digest and a lease id.
pub record Scripts : Type 1 where
  pub Store : Type 0
  pub acquire : String → String → Store → Eval (ℤ × ℤ × ℤ) × Store
  pub release : String → String → Store → Eval ℤ × Store

-- Python's `str.isdigit`, `int`, `str`, and `audit_identity_ref`.
pub record Subjects : Type 0 where
  pub is_digit : String → Bool
  pub int : String → Option ℕ
  pub str : ℕ → String
  pub identity_ref : ℕ → String

-- A digest, AgentIdentityError, or the ValueError of `int`.
pub data Digest : Type 0 where
  digest : String → Digest
  identity_error value_error : Digest

abbrev canonical : Subjects → String → ℕ → Digest
canonical p subject n =
    if leb 1 n && str_eq (p.str n) subject then digest (p.identity_ref n) else identity_error

-- `subject_digest`
unfoldable pub subject_digest : Subjects → String → Digest
subject_digest p subject =
    if not (p.is_digit subject)
    then identity_error
    else elim (p.int subject) [ none ↦ value_error | some n ↦ canonical p subject n ]

-- `max(1, retry_after)` of the two errors.
abbrev at_least_one : ℕ → ℕ
at_least_one n = if leb 1 n then n else 1

-- `max(0, z)`
abbrev not_negative : ℤ → ℕ
not_negative (pos n) = n
not_negative (negsuc n) = 0

-- `status == 1`
abbrev is_grant : ℤ → Bool
is_grant (pos n) = n == 1
is_grant (negsuc n) = false

-- `status in {0, -1}`
abbrev is_refusal : ℤ → Bool
is_refusal (pos n) = n == 0
is_refusal (negsuc n) = n == 0

-- What one call of `_try_acquire` comes to.
pub data Attempt : Type 0 where
  issued : AgentLease → Attempt
  full unprotected : ℕ → Attempt
  failed : Attempt

-- What `acquire` comes to; `pending` is still waiting.
pub data Outcome : Type 0 where
  acquired : AgentLease → Outcome
  busy unavailable : ℕ → Outcome
  broken pending : Outcome

-- `remaining <= 0`
unfoldable pub is_over : (s : Seconds) → s.T → s.T → Bool
is_over s wait_deadline clock = not (s.lt (s.of_ℕ 0) (s.sub wait_deadline clock))

module _ (g : Gate) (p : Scripts) where
  open g use {State, Reading, get_client, mark_unavailable, protection_state}
  open p use {Store}

  pub record World : Type 0 where
    pub gate : State
    pub store : Store

  -- The readings at `get_client`, at a report and at the error.
  pub record Readings : Type 0 where
    pub connects : Reading
    pub reports : Reading
    pub states : Reading

  -- `_protection_error`
  unfoldable pub protection_error : Readings → World → Attempt × World
  protection_error now w =
      (unprotected (at_least_one (retry_after (protection_state now.states w.gate))), w)

  -- `mark_unavailable(client, "lease_acquire")` with the error after it.
  unfoldable pub give_up : ℕ → Readings → World → Attempt × World
  give_up client now w =
      protection_error now
        (record w { gate = mark_unavailable client "lease_acquire" now.reports w.gate })

  -- The decision on the three numbers of the reply.
  unfoldable pub read_reply : String → String → ℕ → Readings → ℤ × ℤ × ℤ → World → Attempt × World
  read_reply d lease_id client now (status, retry_ms, expires) w =
      if is_grant status
      then if leb 1 (not_negative expires)
        then (
          issued (record {
            lease_id = lease_id;
            subject_digest = d;
            expires_at_ms = not_negative expires;
          }),
          w,
        )
        else give_up client now w
      else if is_refusal status
      then (full (at_least_one ((not_negative retry_ms + 999) / 1000)), w)
      else give_up client now w

  -- `_try_acquire`
  unfoldable pub try_acquire : String → String → Readings → World → Attempt × World
  try_acquire d lease_id now w =
      let (answer, st) = get_client now.connects w.gate in
      elim answer [
        | raises ↦ (failed, record w { gate = st })
        | gives none ↦ protection_error now (record w { gate = st })
        | gives (some client) ↦
            let (reply, store) = p.acquire d lease_id w.store in
            let w' : World = record { gate = st; store = store } in
            elim reply [
              | value numbers ↦ read_reply d lease_id client now numbers w'
              | recoverable ↦ give_up client now w'
              | crashed ↦ (failed, w')
            ]
      ]

  -- `release`; `none` is an exception that it passes on.
  unfoldable pub release : AgentLease → Readings → World → Option Bool × World
  release lease now w =
      let (answer, st) = get_client now.connects w.gate in
      elim answer [
        | raises ↦ (none, record w { gate = st })
        | gives none ↦ (some false, record w { gate = st })
        | gives (some client) ↦
            let (reply, store) = p.release lease.subject_digest lease.lease_id w.store in
            elim reply [
              | value removed ↦
                  (some (leb 1 (not_negative removed)), record { gate = st; store = store })
              | recoverable ↦ (
                some false,
                record {
                  gate = mark_unavailable client "lease_release" now.reports st;
                  store = store;
                },
              )
              | crashed ↦ (none, record { gate = st; store = store })
            ]
      ]

  module _ (s : Seconds) where
    open s use {T}

    -- One turn of the loop: its readings, the clock after the attempt, and what others do to the
    -- gate and to Redis while this one sleeps.
    pub record Turn : Type 0 where
      pub now : Readings
      pub clock : T
      pub others : World → World

    -- The loop of `acquire`, once the deadline, the digest and the lease id are there.
    unfoldable pub acquire : T → String → String → List Turn → World → Outcome × World
    acquire wait_deadline d lease_id [] w = (pending, w)
    acquire wait_deadline d lease_id (turn ∷ turns) w =
        let (attempt, w') = try_acquire d lease_id turn.now w in
        let rest = acquire wait_deadline d lease_id turns (turn.others w') in
        elim attempt [
          | issued lease ↦ (acquired lease, w')
          | unprotected retry ↦ (unavailable retry, w')
          | failed ↦ (broken, w')
          | full retry ↦
              if is_over s wait_deadline turn.clock then (busy (at_least_one retry), w') else rest
        ]
