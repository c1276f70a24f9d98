-- ===== src/Gate.antt =====
-- What the services that use Redis ask of the reconnect state: the part of `RedisRecoveryState`
-- that rate_limit_service.py, agent_lease.py and cache_service.py call, with the laws they rest on.
pub mod Redis
pub mod Async
use deep_data_agent.Prelude.{ℕ, ◌≤◌, ◌≡◌, Option, none, some, String}
use deep_data_agent.Recovery.{Protection, unprotected, Answer, gives}

-- A state that tells callers to wait for at least one second.
abbrev pub IsWaiting : Protection → Type 0
IsWaiting p = (n : ℕ) × (p ≡ unprotected n) × (1 ≤ n)

pub record Gate : Type 1 where
  pub State : Type 0
  -- what a call reads from the clock, the random source and a probe
  pub Reading : Type 0
  pub get_client : Reading → State → Answer × State
  pub mark_unavailable : ℕ → String → Reading → State → State
  pub protection_state : Reading → State → Protection
  pub client : State → Option ℕ
  pub IsValid : State → Type 0
  pub get_client-IsValid : (r : Reading) (st : State) → IsValid st → IsValid (get_client r st).1
  pub mark-IsValid :
      (c : ℕ) (op : String) (r : Reading) (st : State)
      → IsValid st
      → IsValid (mark_unavailable c op r st)
  -- a usable client is handed out, and nothing changes
  pub get_client_ready :
      (r : Reading) (st : State) (c : ℕ)
      → IsValid st
      → client st ≡ some c
      → get_client r st ≡ (gives (some c), st)
  -- who gets no client is told to wait
  pub get_client_none :
      (r r' : Reading) (st : State)
      → IsValid st
      → (get_client r st).0 ≡ gives none
      → IsWaiting (protection_state r' (get_client r st).1)
  -- so is who reports the client that was handed out
  pub mark_taken :
      (r r' r'' : Reading) (st : State) (c : ℕ) (op : String)
      → IsValid st
      → (get_client r st).0 ≡ gives (some c)
      → IsWaiting (protection_state r'' (mark_unavailable c op r' (get_client r st).1))
