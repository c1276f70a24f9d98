-- ===== src/Recovery/Async/Agreement.antt =====
-- One task alone: `AsyncRedisRecoveryState` against `RedisRecoveryState`
-- (data_agent/services/redis_recovery.py).
use deep_data_agent.Prelude.{ℕ, ◌≡◌, ◌≢◌, ◌⊎◌, refl, true, false, none, some, String, arith}
use deep_data_agent.Recovery.Clock.{Seconds}
use deep_data_agent.Recovery.{
  Probe, connected, recoverable, unexpected, gives, Config, get_client, mark_unavailable,
}
use deep_data_agent.Recovery.Async.{
  AsyncState, probe_of, async_get_client, async_mark_unavailable, view,
}

module _ (s : Seconds) (c : Config s) where
  open s use {T, lt}

  -- With no other task in between, the initial client spent, and a clock whose second reading is not before
  -- the due time when the first was not: the async state answers, notifies and changes as the sync one does
  -- at the first reading, unless a probe ends in an exception that is not recoverable; and it takes every
  -- report as the sync one does.
  pub async_get_client-view :
      (now again later random : T) (probe : Probe) (st : AsyncState s c) (cl : ℕ) (op : String)
      → st.initial_client ≡ none
      → probe ≢ unexpected
      → (lt now st.next_probe_at ≡ true) ⊎ (lt again st.next_probe_at ≡ false)
      → let (answer, st', notice) = async_get_client s c now again probe later random st in
        let (answer', st'', notice') = get_client s c now probe later random (view s c st) in
        (answer ≡ answer')
        × (view s c st' ≡ st'')
        × (notice ≡ notice')
        × (view s c (async_mark_unavailable s c cl op now random st).0
            ≡ (mark_unavailable s c cl op now random (view s c st)).0)
  unfolding async_get_client get_client async_mark_unavailable mark_unavailable probe_of
  async_get_client-view now again later random (connected k) st cl op spent h due =
      (ground arith, ground arith, ground arith, ground arith)
  async_get_client-view now again later random recoverable st cl op spent h due =
      (ground arith, ground arith, ground arith, ground arith)
  async_get_client-view now again later random unexpected st cl op spent h due = absurd (h refl)

  -- A probe that ends in an exception that is not recoverable leaves no trace but the spent initial
  -- client: as soon as the next probe is due, a probe that succeeds brings its client back into use.
  pub async_recovers :
      (now again later random now' later' random' : T) (cl : ℕ) (st : AsyncState s c)
      → st.available ≡ false
      → lt now st.next_probe_at ≡ false
      → lt again st.next_probe_at ≡ false
      → lt now' st.next_probe_at ≡ false
      → let st' = (async_get_client s c now again unexpected later random st).1 in
        let (answer, up, notice) =
          async_get_client s c now' now' (connected cl) later' random' st' in
        (answer ≡ gives (some cl)) × (up.available ≡ true) × (up.client ≡ some cl)
  unfolding async_get_client probe_of
  async_recovers now again later random now' later' random' cl st down due due' due'' =
      (ground arith, ground arith, ground arith)
