-- ===== src/Lease/Table.antt =====
-- What the two keys of a lease stand for: one table of leases, and what a grant and a release mean
-- for it. Redis keeps for each key the leases of the table that have not run out.
use deep_data_agent.Prelude.{
  ℕ, ◌+◌, ◌≤◌, ◌≡◌, Bool, true, ◌&&◌, not, some, List, ◌∷◌, String, str_eq, leb, ltb, length, keep,
  map, All, if◌then◌else◌,
}
use deep_data_agent.Lease.{now_ms}
use deep_data_agent.Lease.Sorted.{Key, global, user, Entry, SortedSets, Documented, is_after}

-- `AgentLease`
pub record AgentLease : Type 0 where
  pub lease_id : String
  pub subject_digest : String
  pub expires_at_ms : ℕ

abbrev pub entry_of : AgentLease → Entry
entry_of l = record { member = l.lease_id; score = l.expires_at_ms }

abbrev pub on_key : Key → AgentLease → Bool
on_key global l = true
on_key (user d) l = str_eq l.subject_digest d

abbrev pub is_live : ℕ → AgentLease → Bool
is_live now l = ltb now l.expires_at_ms

-- The leases under a key that have not run out.
abbrev pub live : ℕ → Key → List AgentLease → List AgentLease
live now k = keep (λ l. is_live now l && on_key k l)

pub data Verdict : Type 0 where
  granted : ℕ → Verdict
  user_busy global_busy : Verdict

-- What a request for a lease means: the user's limit first, then the global one.
abbrev pub admit : String → String → ℕ → ℕ → ℕ → ℕ → List AgentLease → Verdict × List AgentLease
admit digest lease_id global_limit user_limit ttl now leases =
    if leb user_limit (length (live now (user digest) leases))
    then (user_busy, leases)
    else if leb global_limit (length (live now global leases))
    then (global_busy, leases)
    else (
      granted (now + ttl),
      record { lease_id = lease_id; subject_digest = digest; expires_at_ms = now + ttl } ∷ leases,
    )

abbrev pub remove : String → List AgentLease → List AgentLease
remove lease_id = keep (λ l. not (str_eq l.lease_id lease_id))

module _ (z : SortedSets) (h : Documented z) (ttl : ℕ) where
  -- The store keeps the table: each key holds the live leases under it, no entry lies further ahead
  -- than the time to live, and no key runs out before its entries do.
  pub record Keeps (s : z.Store) (leases : List AgentLease) : Type 0 where
    pub contents :
        (k : Key)
        → keep (is_after (now_ms z s)) (h.entries s k) ≡ map entry_of (live (now_ms z s) k leases)
    pub bounded : (k : Key) → All (λ e. e.score ≤ now_ms z s + ttl) (h.entries s k)
    pub covered :
        (k : Key) (t : ℕ) → h.deadline s k ≡ some t → All (λ e. e.score ≤ t) (h.entries s k)
