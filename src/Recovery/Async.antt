-- ===== src/Recovery/Async.antt =====
-- data_agent/services/redis_recovery.py: `AsyncRedisRecoveryState`, the reconnect state of the event
-- loops. Its delay and its protection state are those of `RedisRecoveryState`, word for word. There
-- is one probe lock for each event loop, and no flag that a probe is out.
pub mod Loops
pub mod Agreement
mod Tests
use deep_data_agent.Prelude.{
  ℕ, ◌+◌, Bool, true, false, ◌||◌, not, Option, none, some, String, if◌then◌else◌,
}
use deep_data_agent.Recovery.Clock.{Seconds}
use deep_data_agent.Recovery.{
  Probe, connected, recoverable, unexpected, Notice, available_notice, unavailable_notice,
  Protection, is_client, Entry, answers, probes, Answer, gives, raises, Config, State, next_delay,
  protection_state,
}

-- What the critical section under the probe lock decides: an answer, or to probe with the initial
-- client, if it is still there.
pub data Recheck : Type 0 where
  replies : Option ℕ → Recheck
  tries : Option ℕ → Recheck

-- A probe of a candidate; where there is none the factory makes one.
unfoldable pub probe_of : Option ℕ → Probe → Probe
probe_of none probe = probe
probe_of (some candidate) (connected cl) = connected candidate
probe_of (some candidate) recoverable = recoverable
probe_of (some candidate) unexpected = unexpected

module _ (s : Seconds) (c : Config s) where
  open s use {T, lt, add, of_ℕ}

  pub record AsyncState : Type 0 where
    pub initial_client : Option ℕ
    pub client : Option ℕ
    pub available : Bool
    pub failure_count : ℕ
    pub next_probe_at : T

  -- The fields after `__init__`, which does not connect.
  unfoldable pub started : Option ℕ → AsyncState
  started initial = record {
    initial_client = initial;
    client = none;
    available = false;
    failure_count = 0;
    next_probe_at = of_ℕ 0;
  }

  -- `_next_delay_locked`
  abbrev pub async_next_delay : T → ℕ → T
  async_next_delay = next_delay s c

  -- `_record_failure_locked`
  unfoldable pub async_record_failure : T → T → AsyncState → AsyncState
  async_record_failure now random st = record st {
    available = false;
    client = none;
    failure_count = st.failure_count + 1;
    next_probe_at = add now (async_next_delay random (st.failure_count + 1));
  }

  -- The first critical section of `get_client`.
  unfoldable pub peek : T → AsyncState → Entry
  peek now st =
      if st.available
      then answers st.client
      else if lt now st.next_probe_at
      then answers none
      else probes

  -- The second one, under the probe lock.
  unfoldable pub recheck : T → AsyncState → Recheck × AsyncState
  recheck now st =
      if st.available
      then (replies st.client, st)
      else if lt now st.next_probe_at
      then (replies none, st)
      else (tries st.initial_client, record st { initial_client = none })

  -- The rest of `get_client`, after the candidate's `ping`.
  unfoldable pub async_settle : Probe → T → T → AsyncState → Answer × AsyncState × Option Notice
  unfolding async_record_failure
  async_settle (connected cl) now random st = (
    gives (some cl),
    record st { client = some cl; available = true; failure_count = 0; next_probe_at = of_ℕ 0 },
    some (available_notice "probe"),
  )
  async_settle recoverable now random st =
      (gives none, async_record_failure now random st, some (unavailable_notice "probe"))
  async_settle unexpected now random st = (raises, st, none)

  -- `get_client` with no other task in between; `again` is the clock under the lock, and `later` the
  -- clock after a failed probe.
  unfoldable pub async_get_client :
      T → T → Probe → T → T → AsyncState → Answer × AsyncState × Option Notice
  unfolding peek recheck async_settle
  async_get_client now again probe later random st = elim (peek now st) [
    | answers a ↦ (gives a, st, none)
    | probes ↦
        let (decision, st') = recheck again st in
        elim decision [
          | replies a ↦ (gives a, st', none)
          | tries candidate ↦ async_settle (probe_of candidate probe) later random st'
        ]
  ]

  -- `mark_unavailable`
  unfoldable pub async_mark_unavailable :
      ℕ → String → T → T → AsyncState → AsyncState × Option Notice
  unfolding async_record_failure
  async_mark_unavailable cl operation now random st =
      if not st.available || not (is_client cl st.client)
      then (st, none)
      else (async_record_failure now random st, some (unavailable_notice operation))

  -- The same fields as a `RedisRecoveryState` with no probe out.
  abbrev pub view : AsyncState → State s
  view st = record {
    client = st.client;
    available = st.available;
    probe_in_progress = false;
    failure_count = st.failure_count;
    next_probe_at = st.next_probe_at;
  }

  -- `protection_state`
  abbrev pub async_protection_state : T → AsyncState → Protection
  async_protection_state now st = protection_state s c now (view st)
