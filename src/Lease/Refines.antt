-- ===== src/Lease/Refines.antt =====
-- `_ACQUIRE_SCRIPT` of data_agent/services/agent_lease.py implements the table of leases.
pub mod Shrinks
pub mod Grant
pub mod Release
use deep_data_agent.Prelude.{
  ℕ, ◌+◌, ◌≤◌, ◌≡◌, refl, subst, inl, inr, false, List, ◌∷◌, String, arith, leb, length, keep,
  if◌then◌else◌, Bool-cases,
}
use deep_data_agent.Prelude.Int.{ℤ, pos, negsuc}
use deep_data_agent.Lease.{now_ms, purge, grant, retry_ms, acquire_script}
use deep_data_agent.Lease.Sorted.{
  Key, global, user, Entry, SortedSets, Documented, is_after, has_member,
}
use deep_data_agent.Lease.Table.{
  AgentLease, entry_of, on_key, live, Verdict, granted, user_busy, global_busy, admit, Keeps,
}
use Grant.{
  has_member-keep, purge_user, purge_global, zcard_live, Keeps-purge, Keeps-grant, lease,
  purge-Shrinks, now_ms-Shrinks,
}

-- How the script's reply reports a verdict. A refusal comes with a wait of at least 1 ms.
abbrev pub Reports : ℤ × ℤ × ℤ → Verdict → Type 0
Reports reply (granted expires_at) = reply ≡ (pos 1, pos 0, pos expires_at)
Reports reply user_busy = (wait : ℕ) × (reply ≡ (pos 0, pos wait, pos 0)) × (1 ≤ wait)
Reports reply global_busy = (wait : ℕ) × (reply ≡ (negsuc 0, pos wait, pos 0)) × (1 ≤ wait)

module _ (z : SortedSets) (h : Documented z) (ttl : ℕ) where
  open h use {entries}

  retry_ms_pos : (k : Key) (now : ℕ) (s : z.Store) → 1 ≤ ttl → 1 ≤ retry_ms z k now ttl s
  unfolding retry_ms
  retry_ms_pos k now s p = ground arith

  -- Where the store keeps a table, `_ACQUIRE_SCRIPT` with a lease id that neither key holds gives
  -- the verdict of the table, the user's limit before the global one, and the store then keeps the
  -- table that `admit` leaves: with the new lease after a grant, the same one after a refusal.
  pub acquire_script_admits :
      (d id : String) (global_limit user_limit : ℕ) (s : z.Store) (leases : List AgentLease)
      → 1 ≤ ttl
      → Keeps z h ttl s leases
      → has_member id (entries s global) ≡ false
      → has_member id (entries s (user d)) ≡ false
      → let (reply, s') = acquire_script z d id global_limit user_limit ttl s in
        let (verdict, leases') = admit d id global_limit user_limit ttl (now_ms z s) leases in
        Reports reply verdict × Keeps z h ttl s' leases'
  unfolding acquire_script
  acquire_script_admits d id gl ul s leases p v fg fu =
      elim (Bool-cases (leb ul (length (live now (user d) leases)))) [
        | inl full ↦
            rw users
              (rw full ((retry_ms z (user d) now ttl s', refl, retry_ms_pos (user d) now s' p), v'))
        | inr free ↦ elim (Bool-cases (leb gl (length (live now global leases)))) [
          | inl full ↦ rw users (
              rw free (
                rw globals (
                  rw full
                    ((retry_ms z global now ttl s', refl, retry_ms_pos global now s' p), v'))))
          | inr open_ ↦ rw users (rw free (rw globals (rw open_ (refl, granted_))))
        ]
      ]
    where
      now : ℕ
      now = now_ms z s

      s' : z.Store
      s' = purge z d now s

      v' : Keeps z h ttl s' leases
      v' = Keeps-purge z h ttl d s leases v

      users : z.zcard (user d) s' ≡ length (live now (user d) leases)
      users = zcard_live z h ttl (user d) s s' leases v (purge_user z h ttl d now s)

      globals : z.zcard global s' ≡ length (live now global leases)
      globals = zcard_live z h ttl global s s' leases v (purge_global z h ttl d now s)

      granted_ :
          Keeps z h ttl (grant z d id ttl (now + ttl) s') (lease z h ttl d id (now + ttl) ∷ leases)
      granted_ =
          subst
            (λ n.
              Keeps z h ttl (grant z d id ttl (n + ttl) s') (lease z h ttl d id (n + ttl) ∷ leases))
            (now_ms-Shrinks z h ttl (purge-Shrinks z h ttl d now s))
            (Keeps-grant z h ttl d id s' leases p v'
              (rw (purge_global z h ttl d now s) (has_member-keep id (is_after now) _ fg))
              (rw (purge_user z h ttl d now s) (has_member-keep id (is_after now) _ fu)))
