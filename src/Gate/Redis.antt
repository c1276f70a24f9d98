-- ===== src/Gate/Redis.antt =====
-- `RedisRecoveryState` as the gate of the services, with no other thread in between the critical
-- sections of one call (data_agent/services/redis_recovery.py).
use deep_data_agent.Prelude.{ℕ, ◌≡◌, false, none, some, String, arith, is_some}
use deep_data_agent.Prelude.Int.{max_ℤ}
use deep_data_agent.Recovery.Clock.{Seconds}
use deep_data_agent.Recovery.{
  Probe, Config, State, Answer, gives, get_client, mark_unavailable, protection_state,
}
use deep_data_agent.Recovery.Backoff.{max_ℤ-ge}
use deep_data_agent.Gate.{Gate, IsWaiting}

module _ (s : Seconds) (c : Config s) where
  open s use {T, ceil, sub}

  -- The clock, the probe, the clock after it and the random source.
  pub record Reading : Type 0 where
    pub now : T
    pub probe : Probe
    pub later : T
    pub random : T

  -- A client is kept exactly while the state is available, and no probe is out then.
  pub record IsKept (st : State s) : Type 0 where
    pub kept : is_some st.client ≡ st.available

  abbrev pub connect : Reading → State s → Answer × State s
  connect r st = let (a, st', _) = get_client s c r.now r.probe r.later r.random st in (a, st')

  abbrev pub report : ℕ → String → Reading → State s → State s
  report cl op r st = (mark_unavailable s c cl op r.now r.random st).0

  pub waiting :
      (now : T) (st : State s) → st.available ≡ false → IsWaiting (protection_state s c now st)
  unfolding protection_state
  waiting now st down = (
    max_ℤ 1 (ceil (sub st.next_probe_at now)),
    rw down,
    max_ℤ-ge 1 (ceil (sub st.next_probe_at now)),
  )

  pub connect-IsKept : (r : Reading) (st : State s) → IsKept st → IsKept (connect r st).1
  unfolding get_client
  connect-IsKept r st v = ground arith

  pub report-IsKept :
      (cl : ℕ) (op : String) (r : Reading) (st : State s) → IsKept st → IsKept (report cl op r st)
  unfolding mark_unavailable
  report-IsKept cl op r st v = ground arith

  pub connect_ready :
      (r : Reading) (st : State s) (cl : ℕ)
      → IsKept st
      → st.client ≡ some cl
      → connect r st ≡ (gives (some cl), st)
  unfolding get_client
  connect_ready r st cl v h = ground (arith, v.kept)

  pub connect_down :
      (r : Reading) (st : State s)
      → IsKept st
      → (connect r st).0 ≡ gives none
      → (connect r st).1.available ≡ false
  unfolding get_client
  connect_down r st v h = ground arith

  pub report_down :
      (r r' : Reading) (st : State s) (cl : ℕ) (op : String)
      → IsKept st
      → (connect r st).0 ≡ gives (some cl)
      → (report cl op r' (connect r st).1).available ≡ false
  unfolding get_client mark_unavailable
  report_down r r' st cl op v h = ground arith

  abbrev pub redis_gate : Gate
  redis_gate = record {
    State = State s;
    Reading = Reading;
    get_client = connect;
    mark_unavailable = report;
    protection_state = λ r. protection_state s c r.now;
    client = λ st. st.client;
    IsValid = IsKept;
    get_client-IsValid = connect-IsKept;
    mark-IsValid = report-IsKept;
    get_client_ready = connect_ready;
    get_client_none = λ r r' st v h. waiting r'.now _ (connect_down r st v h);
    mark_taken = λ r r' r'' st cl op v h. waiting r''.now _ (report_down r r' st cl op v h);
  }
