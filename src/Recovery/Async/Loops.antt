-- ===== src/Recovery/Async/Loops.antt =====
-- Tasks of several event loops that share one `AsyncRedisRecoveryState`
-- (data_agent/services/redis_recovery.py).
use deep_data_agent.Prelude.{
  ℕ, ◌+◌, ◌≤◌, ◌≡◌, refl, Bool, true, false, not, Option, none, some, List, [], ◌∷◌, String, arith,
  ◌==◌, keep, is_some, if◌then◌else◌,
}
use deep_data_agent.Recovery.Clock.{Seconds}
use deep_data_agent.Recovery.{Probe, connected, recoverable, unexpected, gives, Config}
use deep_data_agent.Recovery.Async.{
  tries, AsyncState, started, async_settle, async_get_client, async_mark_unavailable, recheck,
}

module _ (s : Seconds) (c : Config s) where
  open s use {T, lt}

  abbrev holds : ℕ → List ℕ → Bool
  holds loop [] = false
  holds loop (x ∷ xs) = if x == loop then true else holds loop xs

  -- The shared state, the loops whose lock is held by a probe, and how many probes began with the
  -- initial client.
  pub record System : Type 0 where
    pub state : AsyncState s c
    pub locked : List ℕ
    pub handed : ℕ

  -- A step of some task between two points where it may wait. Sections that only answer change
  -- nothing.
  pub data Step (y : System) : System → Type 0 where
    take_off :
        (loop : ℕ) (now : T) (candidate : Option ℕ) (st : AsyncState s c)
        → holds loop y.locked ≡ false
        → recheck s c now y.state ≡ (tries candidate, st)
        → Step y (record {
          state = st;
          locked = loop ∷ y.locked;
          handed = y.handed + (if is_some candidate then 1 else 0);
        })
    land :
        (loop : ℕ) (probe : Probe) (now random : T)
        → holds loop y.locked ≡ true
        → Step y (record y {
          state = (async_settle s c probe now random y.state).1;
          locked = keep (λ x. not (x == loop)) y.locked;
        })
    mark :
        (cl : ℕ) (operation : String) (now random : T)
        → Step y
            (record y { state = (async_mark_unavailable s c cl operation now random y.state).0 })

  pub data Reach (y : System) : System → Type 0 where
    here : Reach y y
    next : {z w : System} → Reach y z → Step z w → Reach y w

  record Inv (y : System) : Type 0 where
    kept : is_some y.state.client ≡ y.state.available
    spent : y.handed + (if is_some y.state.initial_client then 1 else 0) ≤ 1

  land-Inv :
      (y : System) (loop : ℕ) (probe : Probe) (now random : T)
      → Inv y
      → Inv (record y {
        state = (async_settle s c probe now random y.state).1;
        locked = keep (λ x. not (x == loop)) y.locked;
      })
  unfolding async_settle
  land-Inv y loop (connected cl) now random v = ground arith
  land-Inv y loop recoverable now random v = ground arith
  land-Inv y loop unexpected now random v = ground arith

  Step-Inv : {y z : System} → Step y z → Inv y → Inv z
  unfolding recheck async_mark_unavailable
  Step-Inv {y} (take_off loop now candidate st free e) v = ground arith
  Step-Inv {y} (land loop probe now random held) v = land-Inv y loop probe now random v
  Step-Inv {y} (mark cl operation now random) v = ground arith

  Reach-Inv : {y z : System} → Inv y → Reach y z → Inv z
  Reach-Inv v here = v
  Reach-Inv v (next r st) = Step-Inv st (Reach-Inv v r)

  -- From the constructor on, however the tasks of any number of loops interleave: a client is kept
  -- exactly while the state is available, and the client that the constructor was given is tried by
  -- at most one probe.
  pub async_loops_safe :
      (initial : Option ℕ) (y : System)
      → Reach (record { state = started s c initial; locked = []; handed = 0 }) y
      → (is_some y.state.client ≡ y.state.available) × (y.handed ≤ 1)
  unfolding started
  async_loops_safe initial y r =
      let v = Reach-Inv (record { kept = refl; spent = ground arith }) r in
      (v.kept, omega (arith, v.spent))

  -- A failed probe of one loop takes back the client that a probe of another loop has just brought
  -- into use: nobody gets it until the next probe is due, though nothing failed after it came.
  pub late_failure_degrades :
      (now random now' random' early again later random'' : T) (cl : ℕ) (probe : Probe)
      (st : AsyncState s c)
      → let up = (async_settle s c (connected cl) now random st).1 in
        let down = (async_settle s c recoverable now' random' up).1 in
        lt early down.next_probe_at ≡ true
        → (up.available ≡ true)
          × (up.client ≡ some cl)
          × (down.client ≡ none)
          × (async_get_client s c early again probe later random'' down ≡ (gives none, down, none))
  unfolding async_get_client async_settle
  late_failure_degrades now random now' random' early again later random'' cl probe st h =
      (refl, refl, refl, ground arith)
