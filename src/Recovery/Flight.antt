-- ===== src/Recovery/Flight.antt =====
-- Any number of threads in `RedisRecoveryState`: each critical section is one step, and between
-- the two of `get_client` a thread is out probing (data_agent/services/redis_recovery.py).
use deep_data_agent.Prelude.{
  ℕ, ◌+◌, ◌≤◌, ◌≡◌, refl, true, false, Option, none, some, String, arith, is_some, if◌then◌else◌,
}
use deep_data_agent.Recovery.Clock.{Seconds}
use deep_data_agent.Recovery.{
  Probe, connected, recoverable, unexpected, Config, State, answers, probes, gives, Notice,
  connect_initial, enter, settle, mark_unavailable, get_client,
}

module _ (s : Seconds) (c : Config s) where
  open s use {T, lt}

  -- The shared state, and how many threads are between the two critical sections.
  pub record System : Type 0 where
    pub state : State s
    pub flying : ℕ

  -- One critical section of some thread, with the clock and random values that it reads.
  pub data Step (y : System) : System → Type 0 where
    answer :
        (now : T) (a : Option ℕ) (st : State s)
        → enter s c now y.state ≡ (answers a, st)
        → Step y (record { state = st; flying = y.flying })
    take_off :
        (now : T) (st : State s)
        → enter s c now y.state ≡ (probes, st)
        → Step y (record { state = st; flying = y.flying + 1 })
    land :
        (probe : Probe) (now random : T) (left : ℕ)
        → y.flying ≡ left + 1
        → Step y (record { state = (settle s c probe now random y.state).1; flying = left })
    mark :
        (cl : ℕ) (operation : String) (now random : T)
        → Step y (record {
          state = (mark_unavailable s c cl operation now random y.state).0;
          flying = y.flying;
        })

  pub data Reach (y : System) : System → Type 0 where
    here : Reach y y
    next : {z w : System} → Reach y z → Step z w → Reach y w

  -- A probe is out only while the state says so, and never while a client is in use; a client is
  -- kept exactly while the state is available.
  pub record Inv (y : System) : Type 0 where
    pub single : y.flying ≤ (if y.state.probe_in_progress then 1 else 0)
    pub apart : y.state.probe_in_progress ≡ true → y.state.available ≡ false
    pub kept : is_some y.state.client ≡ y.state.available

  answer-Inv :
      (y : System) (now : T) (a : Option ℕ) (st : State s)
      → enter s c now y.state ≡ (answers a, st)
      → Inv y
      → Inv (record { state = st; flying = y.flying })
  unfolding enter
  answer-Inv y now a st e v = ground arith

  take_off-Inv :
      (y : System) (now : T) (st : State s)
      → enter s c now y.state ≡ (probes, st)
      → Inv y
      → Inv (record { state = st; flying = y.flying + 1 })
  unfolding enter
  take_off-Inv y now st e v = ground arith

  land-Inv :
      (y : System) (probe : Probe) (now random : T) (left : ℕ)
      → y.flying ≡ left + 1
      → Inv y
      → Inv (record { state = (settle s c probe now random y.state).1; flying = left })
  unfolding settle
  land-Inv y (connected cl) now random left e v = ground arith
  land-Inv y recoverable now random left e v = ground arith
  land-Inv y unexpected now random left e v = ground arith

  mark-Inv :
      (y : System) (cl : ℕ) (operation : String) (now random : T)
      → Inv y
      → Inv (record {
        state = (mark_unavailable s c cl operation now random y.state).0;
        flying = y.flying;
      })
  unfolding mark_unavailable
  mark-Inv y cl operation now random v = ground arith

  Step-Inv : {y z : System} → Step y z → Inv y → Inv z
  Step-Inv {y} (answer now a st e) v = answer-Inv y now a st e v
  Step-Inv {y} (take_off now st e) v = take_off-Inv y now st e v
  Step-Inv {y} (land probe now random left e) v = land-Inv y probe now random left e v
  Step-Inv {y} (mark cl operation now random) v = mark-Inv y cl operation now random v

  Reach-Inv : {y z : System} → Inv y → Reach y z → Inv z
  Reach-Inv v here = v
  Reach-Inv v (next r st) = Step-Inv st (Reach-Inv v r)

  connect_initial-Inv :
      (first : Probe) (now random : T) (st : State s) (n : Option Notice)
      → connect_initial s c first now random ≡ some (st, n)
      → Inv (record { state = st; flying = 0 })
  unfolding connect_initial
  connect_initial-Inv (connected cl) now random st n e = ground arith
  connect_initial-Inv recoverable now random st n e = ground arith
  connect_initial-Inv unexpected now random st n e = cc

  -- From the constructor on, however threads interleave and whatever clocks, probes and random
  -- values they read: at most one reconnect probe is out at a time, none is out while a client is
  -- in use, and a client is kept exactly while the state is available.
  pub single_flight :
      (first : Probe) (now random : T) (st : State s) (n : Option Notice) (y : System)
      → connect_initial s c first now random ≡ some (st, n)
      → Reach (record { state = st; flying = 0 }) y
      → (y.flying + (if y.state.available then 1 else 0) ≤ 1)
        × (is_some y.state.client ≡ y.state.available)
  single_flight first now random st n y e r =
      let v = Reach-Inv (connect_initial-Inv first now random st n e) r in (ground arith, v.kept)

  -- No thread is out, but the state says that a probe is.
  record IsStuck (y : System) : Type 0 where
    down : y.state.available ≡ false
    claimed : y.state.probe_in_progress ≡ true
    nobody : y.flying ≡ 0

  Step-IsStuck : {y z : System} → Step y z → IsStuck y → IsStuck z
  unfolding enter mark_unavailable
  Step-IsStuck {y} (answer now a st e) h = ground arith
  Step-IsStuck {y} (take_off now st e) h = ground arith
  Step-IsStuck {y} (land probe now random left e) h = absurd (omega (arith, h.nobody))
  Step-IsStuck {y} (mark cl operation now random) h = ground arith

  Reach-IsStuck : {y z : System} → IsStuck y → Reach y z → IsStuck z
  Reach-IsStuck h here = h
  Reach-IsStuck h (next r st) = Step-IsStuck st (Reach-IsStuck h r)

  -- When the one probe that is out ends in an exception that is not recoverable, the state never
  -- recovers: at every later point and at any time `get_client` answers that there is no client,
  -- without probing.
  pub unexpected_probe_sticks :
      (y z : System) (now random later : T) (probe : Probe) (later' random' : T)
      → Inv y
      → y.flying ≡ 1
      → Reach (record { state = (settle s c unexpected now random y.state).1; flying = 0 }) z
      → get_client s c later probe later' random' z.state ≡ (gives none, z.state, none)
  unfolding get_client settle
  unexpected_probe_sticks y z now random later probe later' random' v out r =
      let h =
        Reach-IsStuck (record { down = ground arith; claimed = ground arith; nobody = refl }) r in
      ground arith
