-- ===== src/Recovery.antt =====
-- data_agent/services/redis_recovery.py: `RedisRecoveryState`, the single-flight reconnect state
-- with bounded backoff. Python floats, the clock, the random source and the client factory are
-- parameters: the operations on seconds are a `Seconds`, and what a call reads is its argument.
-- A client is known by its identity, a number.
pub mod Clock
pub mod Backoff
pub mod Flight
pub mod Async
pub mod Tests
use deep_data_agent.Prelude.{
  ℕ, ◌+◌, ◌-◌, ◌^◌, Bool, true, false, ◌&&◌, ◌||◌, not, Option, none, some, String, leb, ◌==◌,
  if◌then◌else◌,
}
use deep_data_agent.Prelude.Int.{max_ℤ}
use Clock.{Seconds, min_seconds, max_seconds, at_most}

-- The subclasses that matter of what the factory or `ping` may raise: `_RECOVERABLE_ERRORS`
-- (RedisError, OSError, ValueError), or anything else.
pub data Probe : Type 0 where
  connected : ℕ → Probe
  recoverable unexpected : Probe

-- The status that a notification carries, with the operation that met it.
pub data Notice : Type 0 where
  available_notice unavailable_notice : String → Notice

-- `RedisProtectionState`: the two values that `protection_state` builds, by status; the status
-- fixes the reason and the error code.
pub data Protection : Type 0 where
  protected : Protection
  unprotected : ℕ → Protection

abbrev pub retry_after : Protection → ℕ
retry_after protected = 0
retry_after (unprotected n) = n

-- `client is not self._client`, negated.
abbrev pub is_client : ℕ → Option ℕ → Bool
is_client c none = false
is_client c (some d) = c == d

-- What the first critical section of `get_client` decides: an answer, or to probe.
pub data Entry : Type 0 where
  answers : Option ℕ → Entry
  probes : Entry

-- How a call of `get_client` ends.
pub data Answer : Type 0 where
  gives : Option ℕ → Answer
  raises : Answer

module _ (s : Seconds) where
  open s use {T, lt, add, sub, mul, of_ℕ, ceil}

  -- The backoff arguments of the constructor.
  pub record Config : Type 0 where
    pub initial : T
    pub maximum : T
    pub jitter : T

  pub record State : Type 0 where
    pub client : Option ℕ
    pub available : Bool
    pub probe_in_progress : Bool
    pub failure_count : ℕ
    pub next_probe_at : T

  -- The three ValueErrors of `__init__`.
  unfoldable pub is_accepted : Config → Bool
  is_accepted c =
      (at_most s (of_ℕ 1) c.initial && at_most s c.initial c.maximum)
      && at_most s c.maximum (of_ℕ 30)
      && (at_most s (of_ℕ 0) c.jitter && at_most s c.jitter (of_ℕ 1))

module _ (s : Seconds) (c : Config s) where
  open s use {T, lt, add, sub, mul, of_ℕ, ceil}

  -- `min(self._failure_count - 1, 16)`, after a failure was counted.
  unfoldable pub exponent : ℕ → ℕ
  exponent failures = if leb (failures - 1) 16 then failures - 1 else 16

  -- `_next_delay_locked`, with the value of the random source.
  unfoldable pub next_delay : T → ℕ → T
  next_delay random failures =
      let base = min_seconds s (mul c.initial (of_ℕ (2 ^ exponent failures))) c.maximum in
      let sample = min_seconds s (max_seconds s random (of_ℕ 0)) (of_ℕ 1) in
      let jitter = mul (mul (sub (mul sample (of_ℕ 2)) (of_ℕ 1)) base) c.jitter in
      min_seconds s (max_seconds s (add base jitter) c.initial) c.maximum

  -- `_record_failure_locked`
  unfoldable pub record_failure : T → T → State s → State s
  unfolding next_delay
  record_failure now random st = record st {
    available = false;
    client = none;
    failure_count = st.failure_count + 1;
    next_probe_at = add now (next_delay random (st.failure_count + 1));
  }

  -- The fields before `_connect_initial`.
  unfoldable pub unconnected : State s
  unconnected = record {
    client = none;
    available = false;
    probe_in_progress = false;
    failure_count = 0;
    next_probe_at = of_ℕ 0;
  }

  -- `_connect_initial`; `none` is an exception that the constructor passes on.
  unfoldable pub connect_initial : Probe → T → T → Option (State s × Option Notice)
  unfolding record_failure unconnected
  connect_initial (connected cl) now random =
      some (record unconnected { client = some cl; available = true }, none)
  connect_initial recoverable now random =
      some (record_failure now random unconnected, some (unavailable_notice "connect"))
  connect_initial unexpected now random = none

  -- `protection_state`
  unfoldable pub protection_state : T → State s → Protection
  protection_state now st =
      if st.available then protected else unprotected (max_ℤ 1 (ceil (sub st.next_probe_at now)))

  unfoldable pub enter : T → State s → Entry × State s
  enter now st =
      if st.available
      then (answers st.client, st)
      else if st.probe_in_progress || lt now st.next_probe_at
      then (answers none, st)
      else (probes, record st { probe_in_progress = true })

  -- The rest of `get_client`, after the factory and `ping`. An exception that is not recoverable
  -- passes both critical sections by.
  unfoldable pub settle : Probe → T → T → State s → Answer × State s × Option Notice
  unfolding record_failure
  settle (connected cl) now random st = (
    gives (some cl),
    record st {
      client = some cl;
      available = true;
      probe_in_progress = false;
      failure_count = 0;
      next_probe_at = of_ℕ 0;
    },
    some (available_notice "probe"),
  )
  settle recoverable now random st = (
    gives none,
    record_failure now random (record st { probe_in_progress = false }),
    some (unavailable_notice "probe"),
  )
  settle unexpected now random st = (raises, st, none)

  -- `get_client` with no other thread in between; `later` is the clock after a failed probe.
  unfoldable pub get_client : T → Probe → T → T → State s → Answer × State s × Option Notice
  unfolding enter settle
  get_client now probe later random st =
      let (entry, st') = enter now st in
      elim entry [ answers a ↦ (gives a, st', none) | probes ↦ settle probe later random st' ]

  -- `mark_unavailable`
  unfoldable pub mark_unavailable : ℕ → String → T → T → State s → State s × Option Notice
  unfolding record_failure
  mark_unavailable cl operation now random st =
      if not st.available || not (is_client cl st.client)
      then (st, none)
      else (record_failure now random st, some (unavailable_notice operation))
