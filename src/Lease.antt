-- ===== src/Lease.antt =====
-- data_agent/services/agent_lease.py: the two Lua scripts, `_ACQUIRE_SCRIPT` and `_RELEASE_SCRIPT`.
-- Redis runs a script as one atomic step. Its commands are a parameter, with what they do to the
-- entries of each sorted set as laws (`Lease/Sorted.antt`).
pub mod Sorted
pub mod Table
pub mod Refines
pub mod Limits
pub mod Manager
mod Tests
use deep_data_agent.Prelude.{
  ℕ, ◌+◌, ◌-◌, ◌*◌, ◌/◌, Bool, true, false, ◌||◌, not, Option, none, some, String, str_eq, leb, ltb,
  ◌==◌, if◌then◌else◌,
}
use deep_data_agent.Prelude.Int.{ℤ, pos, negsuc}
use Sorted.{Key, global, user, SortedSets}

module _ (z : SortedSets) where
  open z use {Store, time, zremrangebyscore, zcard, zrange_first, zadd, zrem, pexpire, del}

  -- `now_ms`, from the seconds and microseconds of TIME
  unfoldable pub now_ms : Store → ℕ
  now_ms s = let (seconds, micros) = time s in seconds * 1000 + micros / 1000

  -- the local function `retry_ms`
  unfoldable pub retry_ms : Key → ℕ → ℕ → Store → ℕ
  retry_ms key now ttl_ms s = elim (zrange_first key s) [
    | none ↦ ttl_ms
    | some score ↦ if leb 1 (score - now) then score - now else 1
  ]

  -- The ZADD and PEXPIRE calls of a grant.
  unfoldable pub grant : String → String → ℕ → ℕ → Store → Store
  grant digest lease_id ttl_ms expires_at_ms s = pexpire (user digest) ttl_ms (
      pexpire global ttl_ms
        (zadd (user digest) expires_at_ms lease_id (zadd global expires_at_ms lease_id s)))

  -- The two ZREMRANGEBYSCORE calls.
  unfoldable pub purge : String → ℕ → Store → Store
  purge digest now s = zremrangebyscore (user digest) now (zremrangebyscore global now s)

  -- `_ACQUIRE_SCRIPT` with KEYS the global key and the user's, and ARGV the other arguments.
  unfoldable pub acquire_script : String → String → ℕ → ℕ → ℕ → Store → (ℤ × ℤ × ℤ) × Store
  unfolding grant purge
  acquire_script digest lease_id global_limit user_limit ttl_ms s =
      let now = now_ms s in
      let s' = purge digest now s in
      if leb user_limit (zcard (user digest) s')
      then ((pos 0, pos (retry_ms (user digest) now ttl_ms s'), pos 0), s')
      else if leb global_limit (zcard global s')
      then ((negsuc 0, pos (retry_ms global now ttl_ms s'), pos 0), s')
      else ((pos 1, pos 0, pos (now + ttl_ms)), grant digest lease_id ttl_ms (now + ttl_ms) s')

  -- `if ZCARD == 0 then DEL`
  unfoldable pub drop_empty : Key → Store → Store
  drop_empty key s = if zcard key s == 0 then del key s else s

  -- `_RELEASE_SCRIPT`
  unfoldable pub release_script : String → String → Store → ℕ × Store
  unfolding drop_empty
  release_script digest lease_id s =
      let (global_removed, s') = zrem global lease_id s in
      let (user_removed, s'') = zrem (user digest) lease_id s' in
      (global_removed + user_removed, drop_empty (user digest) (drop_empty global s''))
