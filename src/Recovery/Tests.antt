-- ===== src/Recovery/Tests.antt =====
-- The reconnect state with whole seconds for a clock, and its theorems at such inputs.
use native.Mathlib.Omega.{arith}
use deep_data_agent.Prelude.{
  ℕ, ◌+◌, ◌-◌, ◌*◌, ◌≤◌, ◌≡◌, refl, true, false, none, some, ltb, is_some, if◌then◌else◌,
}
use deep_data_agent.Prelude.Int.{pos}
use deep_data_agent.Recovery
use deep_data_agent.Recovery.Clock.{Seconds, min_seconds, max_seconds}
use deep_data_agent.Recovery.{
  connected, recoverable, unexpected, Config, State, gives, retry_after, connect_initial, settle,
  get_client, mark_unavailable, protection_state, is_accepted,
}
use deep_data_agent.Recovery.Flight.{System, Reach, here, next, take_off, Inv, single_flight}

pub add_mono_ℕ : (a b c : ℕ) → ltb b a ≡ false → ltb (c + b) (c + a) ≡ false
add_mono_ℕ a b c h = ground arith

pub lt_irrefl_ℕ : (a : ℕ) → ltb a a ≡ false
lt_irrefl_ℕ a = ground arith

abbrev pub whole_seconds : Seconds
whole_seconds = record {
  T = ℕ;
  lt = ltb;
  add = λ a b. a + b;
  sub = λ a b. a - b;
  mul = λ a b. a * b;
  of_ℕ = λ n. n;
  ceil = pos;
  lt_irrefl = lt_irrefl_ℕ;
  add_mono = add_mono_ℕ;
}

abbrev pub backoff : Config whole_seconds
backoff = record { initial = 1; maximum = 30; jitter = 0 }

-- Client 7 is in use.
abbrev pub up : State whole_seconds
up = record {
  client = some 7;
  available = true;
  probe_in_progress = false;
  failure_count = 0;
  next_probe_at = 0;
}

-- The fourth failure in a row waits for eight seconds, and the seventh for the maximum.
waits :
    ((mark_unavailable whole_seconds backoff 7 "get" 100 0
        (record up { failure_count = 3 })).0.next_probe_at
      ≡ 108)
    × ((mark_unavailable whole_seconds backoff 7 "get" 100 0
          (record up { failure_count = 6 })).0.next_probe_at
        ≡ 130)
unfolding mark_unavailable Recovery.record_failure Recovery.next_delay Recovery.exponent min_seconds
    max_seconds
waits = (refl, refl)

-- The constructor's ping fails at time 5.
abbrev down : State whole_seconds
down = record {
  client = none;
  available = false;
  probe_in_progress = false;
  failure_count = 1;
  next_probe_at = 6;
}

abbrev probing : State whole_seconds
probing = record down { probe_in_progress = true }

abbrev flown : System whole_seconds backoff
flown = record { state = probing; flying = 1 }

flight : Reach whole_seconds backoff (record { state = down; flying = 0 }) flown
unfolding Recovery.enter
flight = next here (take_off 6 probing refl)

single_flight_example :
    (flown.flying + (if flown.state.available then 1 else 0) ≤ 1)
    × (is_some flown.state.client ≡ flown.state.available)
unfolding connect_initial min_seconds max_seconds Recovery.exponent
single_flight_example =
    single_flight whole_seconds backoff recoverable 5 0 down
      (some (Recovery.unavailable_notice "connect")) flown refl flight

flown-Inv : Inv whole_seconds backoff flown
flown-Inv = record { single = omega arith; apart = λ h. refl; kept = refl }
