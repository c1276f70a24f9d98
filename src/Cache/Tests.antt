-- ===== src/Cache/Tests.antt =====
-- A cache of one entry per key, and the theorems of the cache there.
use native.Mathlib.Omega.{arith}
use deep_data_agent.Prelude.{ℕ, ◌≡◌, refl, Option, none, some, String, str_eq, if◌then◌else◌}
use deep_data_agent.Recovery.{recoverable}
use deep_data_agent.Recovery.Tests.{whole_seconds, backoff, up}
use deep_data_agent.Gate.{Gate}
use deep_data_agent.Gate.Redis.{Reading, IsKept, redis_gate}
use deep_data_agent.Cache.{value, failed, Commands, Codec, World, Readings, get, set}
use deep_data_agent.Cache.Laws.{Documented, set_get}

abbrev pub commands : Commands
commands = record {
  Store = String → Option String;
  get = λ k s. (value (s k), s);
  setex = λ k n t s. (value tt, λ i. if str_eq k i then some t else s i);
  delete = λ k s. (value tt, λ i. if str_eq k i then none else s i);
  flushdb = λ s. (value tt, λ i. none);
}

abbrev laws : Documented commands
laws = record {
  content = λ s k. s k;
  get_value = λ k s. refl;
  setex_value = λ k n t s le. refl;
  setex_content = λ k i n t s le. refl;
  delete_value = λ k s. refl;
  delete_content = λ k i s. refl;
}

abbrev pub texts : Codec
texts = record { V = String; loads = value; dumps = value }

abbrev broken : Commands
broken = record {
  Store = ℕ;
  get = λ k s. (failed, s);
  setex = λ k n t s. (failed, s);
  delete = λ k s. (failed, s);
  flushdb = λ s. (failed, s);
}

abbrev pub gate : Gate
gate = redis_gate whole_seconds backoff

abbrev pub reading : Reading whole_seconds backoff
reading = record { now = 100; probe = recoverable; later = 101; random = 0 }

abbrev pub readings : Readings gate commands texts
readings = record { connects = reading; reports = reading }

abbrev broken_readings : Readings gate broken texts
broken_readings = record { connects = reading; reports = reading }

abbrev pub empty : World gate commands texts
empty = record { gate = up; store = λ k. none }

abbrev lost : World gate broken texts
lost = record { gate = up; store = 0 }

up-IsKept : IsKept whole_seconds backoff up
up-IsKept = record { kept = refl }

set_get_example :
    ((get gate commands texts "q" readings (set gate commands texts "q" "a" 60 readings empty).1).0
      ≡ some (some "a"))
    × ((get gate commands texts "p" readings
          (set gate commands texts "q" "a" 60 readings empty).1).0
        ≡ some none)
set_get_example =
    set_get gate commands texts laws "q" "p" "a" "a" 60 7 readings readings empty up-IsKept refl
      (omega arith) refl refl refl refl refl
