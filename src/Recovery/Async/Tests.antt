-- ===== src/Recovery/Async/Tests.antt =====
-- The async reconnect state with whole seconds, and its theorems at such inputs.
use deep_data_agent.Prelude.{◌≤◌, ◌≡◌, refl, inr, false, none, some, [], ◌∷◌, is_some}
use deep_data_agent.Recovery.{recoverable, get_client, mark_unavailable}
use deep_data_agent.Recovery.Tests.{whole_seconds, backoff}
use deep_data_agent.Recovery.Async.{
  AsyncState, started, recheck, async_get_client, async_mark_unavailable, view,
}
use deep_data_agent.Recovery.Async.Agreement.{async_get_client-view}
use deep_data_agent.Recovery.Async.Loops.{System, Reach, here, next, take_off, async_loops_safe}

-- Unavailable since time 5, with the next probe at 6.
abbrev down : AsyncState whole_seconds backoff
down = record {
  initial_client = none;
  client = none;
  available = false;
  failure_count = 1;
  next_probe_at = 6;
}

async_get_client-view_example :
    let (answer, st', notice) = async_get_client whole_seconds backoff 7 8 recoverable 9 0 down in
    let (answer', st'', notice') =
      get_client whole_seconds backoff 7 recoverable 9 0 (view whole_seconds backoff down) in
    (answer ≡ answer')
    × (view whole_seconds backoff st' ≡ st'')
    × (notice ≡ notice')
    × (view whole_seconds backoff (async_mark_unavailable whole_seconds backoff 3 "get" 7 0 down).0
        ≡ (mark_unavailable whole_seconds backoff 3 "get" 7 0 (view whole_seconds backoff down)).0)
async_get_client-view_example =
    async_get_client-view whole_seconds backoff 7 8 9 0 recoverable down 3 "get" refl (λ e. cc)
      (inr refl)

-- The probe of loop 1 took the initial client 5.
abbrev begun : System whole_seconds backoff
begun = record { state = started whole_seconds backoff (some 5); locked = []; handed = 0 }

abbrev probing : System whole_seconds backoff
probing = record {
  state = record (started whole_seconds backoff (some 5)) { initial_client = none };
  locked = 1 ∷ [];
  handed = 1;
}

flight : Reach whole_seconds backoff begun probing
unfolding recheck started
flight = next here (
    take_off 1 0 (some 5)
      (record (started whole_seconds backoff (some 5)) { initial_client = none }) refl refl)

async_loops_safe_example :
    (is_some probing.state.client ≡ probing.state.available) × (probing.handed ≤ 1)
async_loops_safe_example = async_loops_safe whole_seconds backoff (some 5) probing flight
