-- ===== src/Gate/Async.antt =====
-- `AsyncRedisRecoveryState` as the gate of the async cache methods, with no other task in between the
-- critical sections of one call (data_agent/services/redis_recovery.py).
use deep_data_agent.Prelude.{ℕ, ◌≡◌, false, none, some, String, arith, is_some}
use deep_data_agent.Recovery.Clock.{Seconds}
use deep_data_agent.Recovery.{Probe, Config, Answer, gives}
use deep_data_agent.Recovery.Async.{
  AsyncState, async_get_client, async_mark_unavailable, async_protection_state, view,
}
use deep_data_agent.Gate.{Gate}
use deep_data_agent.Gate.Redis

module _ (s : Seconds) (c : Config s) where
  open s use {T}

  -- The clock at the two sections, the probe, the clock after it and the random source.
  pub record Reading : Type 0 where
    pub now : T
    pub again : T
    pub probe : Probe
    pub later : T
    pub random : T

  pub record IsKept (st : AsyncState s c) : Type 0 where
    pub kept : is_some st.client ≡ st.available

  abbrev pub connect : Reading → AsyncState s c → Answer × AsyncState s c
  connect r st =
      let (a, st', _) = async_get_client s c r.now r.again r.probe r.later r.random st in (a, st')

  abbrev pub report : ℕ → String → Reading → AsyncState s c → AsyncState s c
  report cl op r st = (async_mark_unavailable s c cl op r.now r.random st).0

  pub connect-IsKept : (r : Reading) (st : AsyncState s c) → IsKept st → IsKept (connect r st).1
  unfolding async_get_client
  connect-IsKept r st v = ground arith

  pub report-IsKept :
      (cl : ℕ) (op : String) (r : Reading) (st : AsyncState s c)
      → IsKept st
      → IsKept (report cl op r st)
  unfolding async_mark_unavailable
  report-IsKept cl op r st v = ground arith

  pub connect_ready :
      (r : Reading) (st : AsyncState s c) (cl : ℕ)
      → IsKept st
      → st.client ≡ some cl
      → connect r st ≡ (gives (some cl), st)
  unfolding async_get_client
  connect_ready r st cl v h = ground (arith, v.kept)

  pub connect_down :
      (r : Reading) (st : AsyncState s c)
      → IsKept st
      → (connect r st).0 ≡ gives none
      → (connect r st).1.available ≡ false
  unfolding async_get_client
  connect_down r st v h = ground arith

  pub report_down :
      (r r' : Reading) (st : AsyncState s c) (cl : ℕ) (op : String)
      → IsKept st
      → (connect r st).0 ≡ gives (some cl)
      → (report cl op r' (connect r st).1).available ≡ false
  unfolding async_get_client async_mark_unavailable
  report_down r r' st cl op v h = ground arith

  abbrev pub async_gate : Gate
  async_gate = record {
    State = AsyncState s c;
    Reading = Reading;
    get_client = connect;
    mark_unavailable = report;
    protection_state = λ r. async_protection_state s c r.now;
    client = λ st. st.client;
    IsValid = IsKept;
    get_client-IsValid = connect-IsKept;
    mark-IsValid = report-IsKept;
    get_client_ready = connect_ready;
    get_client_none =
        λ r r' st v h. Redis.waiting s c r'.now (view s c (connect r st).1) (connect_down r st v h);
    mark_taken = λ r r' r'' st cl op v h.
        Redis.waiting s c r''.now (view s c (report cl op r' (connect r st).1))
          (report_down r r' st cl op v h);
  }
