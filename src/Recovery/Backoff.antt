-- ===== src/Recovery/Backoff.antt =====
-- The wait between two reconnect probes stays inside its bounds, and no probe starts before it is
-- over (data_agent/services/redis_recovery.py).
use deep_data_agent.Prelude.{ℕ, ◌+◌, ◌≤◌, ◌≡◌, refl, ap, true, false, none, some, String, arith}
use deep_data_agent.Prelude.Int.{ℤ, pos, negsuc, max_ℤ}
use deep_data_agent.Recovery.Clock.{Seconds, min_seconds, max_seconds}
use deep_data_agent.Recovery.{
  Probe, unavailable_notice, Config, State, gives, retry_after, is_accepted, next_delay,
  record_failure, protection_state, get_client, mark_unavailable,
}

module _ (s : Seconds) where
  open s use {T, lt, add, of_ℕ, lt_irrefl, add_mono}

  -- A value that is raised to `low` and then cut at `high` lies between them.
  clamp_bounds :
      (x low high : T)
      → lt high low ≡ false
      → (lt (min_seconds s (max_seconds s x low) high) low ≡ false)
        × (lt high (min_seconds s (max_seconds s x low) high) ≡ false)
  unfolding min_seconds max_seconds
  clamp_bounds x low high h = ground (arith, lt_irrefl low, lt_irrefl high)

pub max_ℤ-ge : (n : ℕ) (z : ℤ) → n ≤ max_ℤ n z
max_ℤ-ge n (pos k) = ground arith
max_ℤ-ge n (negsuc k) = omega arith

module _ (s : Seconds) (c : Config s) where
  open s use {T, lt, add, of_ℕ, lt_irrefl, add_mono}

  -- What the constructor accepts.
  accepted_order : is_accepted s c ≡ true → lt c.maximum c.initial ≡ false
  unfolding is_accepted
  accepted_order h = ground arith

  next_delay_bounds :
      (random : T) (failures : ℕ)
      → is_accepted s c ≡ true
      → (lt (next_delay s c random failures) c.initial ≡ false)
        × (lt c.maximum (next_delay s c random failures) ≡ false)
  unfolding next_delay
  next_delay_bounds random failures h = clamp_bounds s _ c.initial c.maximum (accepted_order h)

  -- The next probe of a state is due between `now + initial` and `now + maximum`.
  abbrev pub IsDueWithin : T → State s → Type 0
  IsDueWithin now st =
      (lt st.next_probe_at (add now c.initial) ≡ false)
      × (lt (add now c.maximum) st.next_probe_at ≡ false)

  record_failure_due :
      (now random : T) (st : State s)
      → is_accepted s c ≡ true
      → IsDueWithin now (record_failure s c now random st)
  unfolding record_failure
  record_failure_due now random st h =
      let d = next_delay_bounds random (st.failure_count + 1) h in
      (add_mono _ _ now d.0, add_mono _ _ now d.1)

  record_failure_down :
      (now random : T) (st : State s) → (record_failure s c now random st).available ≡ false
  unfolding record_failure
  record_failure_down now random st = refl

  -- A report on the active client records a failure.
  pub mark_active :
      (cl : ℕ) (operation : String) (now random : T) (st : State s)
      → st.available ≡ true
      → st.client ≡ some cl
      → mark_unavailable s c cl operation now random st
        ≡ (record_failure s c now random st, some (unavailable_notice operation))
  unfolding mark_unavailable
  mark_active cl operation now random st up active = ground arith

  get_client_waits :
      (now later random : T) (probe : Probe) (st : State s)
      → st.available ≡ false
      → lt now st.next_probe_at ≡ true
      → get_client s c now probe later random st ≡ (gives none, st, none)
  unfolding get_client
  get_client_waits now later random probe st down early = ground arith

  -- Whoever is told that there is no protection is told to wait at least one second.
  pub protection_state_waits :
      (now : T) (st : State s)
      → st.available ≡ false
      → 1 ≤ retry_after (protection_state s c now st)
  unfolding protection_state
  protection_state_waits now st down = rw down (max_ℤ-ge 1 (s.ceil (s.sub st.next_probe_at now)))

  -- When the active client is reported as failing, whatever the random source says, the next probe
  -- is due no earlier than the initial and no later than the maximal backoff from then; until it is
  -- due `get_client` answers that there is no client and changes nothing, whatever a probe would
  -- have found, and callers are told to wait at least one second.
  pub mark_unavailable_backs_off :
      (cl : ℕ) (operation : String) (now random : T) (st : State s) (later : T) (probe : Probe)
      (later' random' : T)
      → is_accepted s c ≡ true
      → st.available ≡ true
      → st.client ≡ some cl
      → lt later (mark_unavailable s c cl operation now random st).0.next_probe_at ≡ true
      → let down = (mark_unavailable s c cl operation now random st).0 in
        IsDueWithin now down
        × (get_client s c later probe later' random' down ≡ (gives none, down, none))
        × (1 ≤ retry_after (protection_state s c later down))
  mark_unavailable_backs_off cl operation now random st later probe later' random' ok up active
        early =
      rw e (
        record_failure_due now random st ok,
        get_client_waits later later' random' probe _ (record_failure_down now random st)
            (rw e at early),
        protection_state_waits later _ (record_failure_down now random st),
      )
    where
      e : (mark_unavailable s c cl operation now random st).0 ≡ record_failure s c now random st
      e = ap (λ p. p.0) (mark_active cl operation now random st up active)

  -- A failure is counted once: after a report on a client, another report on the same client, from
  -- whatever operation and at whatever time, changes nothing and notifies nobody.
  pub mark_unavailable_once :
      (cl : ℕ) (op op' : String) (now random now' random' : T) (st : State s)
      → let down = (mark_unavailable s c cl op now random st).0 in
        mark_unavailable s c cl op' now' random' down ≡ (down, none)
  unfolding mark_unavailable
  mark_unavailable_once cl op op' now random now' random' st = ground arith
