-- ===== src/Lease/Limits.antt =====
-- Any number of servers that share one Redis: scripts and the passing of time in any order. The
-- leases that are out never pass the limits (data_agent/services/agent_lease.py).
use deep_data_agent.Prelude.{
  ℕ, ◌+◌, ◌≤◌, ◌≡◌, refl, sym, ap, ◌∙◌, ◌⊎◌, inl, inr, false, none, some, List, [], ◌∷◌, String,
  eq_iff, arith, leb, ◌==◌, length, keep, map, All, if◌then◌else◌, Bool-cases, All-map, keep-map,
  keep_none,
}
use deep_data_agent.Prelude.Int.{ℤ, pos, negsuc}
use deep_data_agent.Lease.Refines.Grant.{purge-Shrinks, grant_time, now_ms-time}
use deep_data_agent.Lease.{now_ms, purge, acquire_script, release_script}
use deep_data_agent.Lease.Sorted.{
  Key, global, user, Entry, SortedSets, Documented, is_after, has_member,
}
use deep_data_agent.Lease.Table.{AgentLease, entry_of, is_live, live, admit, remove, Keeps}
use deep_data_agent.Lease.Refines.{Reports, acquire_script_admits}
use deep_data_agent.Lease.Refines.Release.{IsOwn, release-Shrinks, release_script_removes}

-- The lease that a server takes from the script's reply: status 1 carries the expiry.
pub issue : String → String → ℤ × ℤ × ℤ → List AgentLease → List AgentLease
issue d id (pos n, wait, pos expires) leases =
    if n == 1
    then record { lease_id = id; subject_digest = d; expires_at_ms = expires } ∷ leases
    else leases
issue d id (pos n, wait, negsuc m) leases = leases
issue d id (negsuc n, wait, expires) leases = leases

module _ (z : SortedSets) (h : Documented z) (global_limit user_limit ttl : ℕ) where
  open h use {entries, deadline}

  -- Redis's own clock: time goes on, and a key whose deadline is over may lose its entries.
  pub record Passes (s s' : z.Store) : Type 0 where
    pub later : now_ms z s ≤ now_ms z s'
    pub deadlines : (k : Key) → (deadline s' k ≡ deadline s k) ⊎ (deadline s' k ≡ none)
    pub kept :
        (k : Key)
        → (entries s' k ≡ entries s k)
          ⊎ ((t : ℕ) × (entries s' k ≡ []) × (deadline s k ≡ some t) × (t ≤ now_ms z s'))

  -- The store with every lease that was granted and not released.
  pub record System : Type 0 where
    pub store : z.Store
    pub leases : List AgentLease

  pub data Step (y : System) : System → Type 0 where
    -- lease ids are fresh UUIDs
    acquires :
        (d id : String)
        → has_member id (entries y.store global) ≡ false
        → has_member id (entries y.store (user d)) ≡ false
        → Step y (record {
          store = (acquire_script z d id global_limit user_limit ttl y.store).1;
          leases =
              issue d id (acquire_script z d id global_limit user_limit ttl y.store).0 y.leases;
        })
    releases :
        (d id : String)
        → IsOwn d id y.leases
        → Step y (record { store = (release_script z d id y.store).1; leases = remove id y.leases })
    passes : (s' : z.Store) → Passes y.store s' → Step y (record { store = s'; leases = y.leases })

  pub data Reach (y : System) : System → Type 0 where
    here : Reach y y
    next : {u v : System} → Reach y u → Step u v → Reach y v

  -- The leases that are out stay within both limits.
  pub record WithinLimits (now : ℕ) (leases : List AgentLease) : Type 0 where
    pub all : length (live now global leases) ≤ global_limit
    pub each : (d : String) → length (live now (user d) leases) ≤ user_limit

  -- As time goes on, the live leases under a key are part of those before.
  live_later :
      (now now' : ℕ) (k : Key) (leases : List AgentLease)
      → now ≤ now'
      → length (live now' k leases) ≤ length (live now k leases)
  live_later now now' k [] le = omega arith
  live_later now now' k (l ∷ leases) le = ground (arith, live_later now now' k leases le)

  Passes-WithinLimits :
      (now now' : ℕ) (leases : List AgentLease)
      → now ≤ now'
      → WithinLimits now leases
      → WithinLimits now' leases
  Passes-WithinLimits now now' leases le w = record {
    all = omega (arith, live_later now now' global leases le, w.all);
    each = λ d. omega (arith, live_later now now' (user d) leases le, w.each d);
  }

  admit-WithinLimits :
      (d id : String) (now : ℕ) (leases : List AgentLease)
      → WithinLimits now leases
      → WithinLimits now (admit d id global_limit user_limit ttl now leases).1
  admit-WithinLimits d id now leases w = record {
    all = ground (arith, w.all);
    each = λ d'. ground (arith, w.each d', eq_iff d d');
  }

  live-remove-le :
      (id : String) (now : ℕ) (k : Key) (leases : List AgentLease)
      → length (live now k (remove id leases)) ≤ length (live now k leases)
  live-remove-le id now k [] = omega arith
  live-remove-le id now k (l ∷ leases) = ground (arith, live-remove-le id now k leases)

  remove-WithinLimits :
      (id : String) (now : ℕ) (leases : List AgentLease)
      → WithinLimits now leases
      → WithinLimits now (remove id leases)
  remove-WithinLimits id now leases w = record {
    all = omega (arith, live-remove-le id now global leases, w.all);
    each = λ d. omega (arith, live-remove-le id now (user d) leases, w.each d);
  }

  issue-admit :
      (d id : String) (reply : ℤ × ℤ × ℤ) (now : ℕ) (leases : List AgentLease)
      → Reports reply (admit d id global_limit user_limit ttl now leases).0
      → issue d id reply leases ≡ (admit d id global_limit user_limit ttl now leases).1
  unfolding issue
  issue-admit d id reply now leases r =
      elim (Bool-cases (leb user_limit (length (live now (user d) leases)))) [
        | inl full ↦ rw full (rw (rw full at r).1 refl)
        | inr free ↦ elim (Bool-cases (leb global_limit (length (live now global leases)))) [
          | inl full ↦ rw free (rw full (rw (rw full at (rw free at r)).1 refl))
          | inr open_ ↦ rw free (rw open_ (rw (rw open_ at (rw free at r)) refl))
        ]
      ]

  live-live :
      (now now' : ℕ) (k : Key) (leases : List AgentLease)
      → now ≤ now'
      → keep (is_live now') (live now k leases) ≡ live now' k leases
  live-live now now' k [] le = refl
  live-live now now' k (l ∷ leases) le = ground (arith, live-live now now' k leases le)

  after_after :
      (now now' : ℕ) (es : List Entry)
      → now ≤ now'
      → keep (is_after now') (keep (is_after now) es) ≡ keep (is_after now') es
  after_after now now' [] le = refl
  after_after now now' (e ∷ es) le = ground (arith, after_after now now' es le)

  Keeps-Passes :
      (s s' : z.Store) (leases : List AgentLease)
      → Passes s s'
      → Keeps z h ttl s leases
      → Keeps z h ttl s' leases
  Keeps-Passes s s' leases p v = record {
    contents = contents';
    bounded = bounded';
    covered = covered';
  }
    where
      -- what is live at the later time, in the entries of before
      old :
          (k : Key)
          → keep (is_after (now_ms z s')) (entries s k) ≡ map entry_of (live (now_ms z s') k leases)
      old k =
          sym (after_after (now_ms z s) (now_ms z s') (entries s k) p.later)
          ∙ ap (keep (is_after (now_ms z s'))) (v.contents k)
          ∙ keep-map entry_of (is_after (now_ms z s')) (live (now_ms z s) k leases)
          ∙ ap (map entry_of) (live-live (now_ms z s) (now_ms z s') k leases p.later)

      over :
          (k : Key) (t : ℕ)
          → deadline s k ≡ some t
          → t ≤ now_ms z s'
          → keep (is_after (now_ms z s')) (entries s k) ≡ []
      over k t e le =
          keep_none _ (entries s k)
            (All-map (λ x. x.score ≤ t) _ (λ x b. ground arith) (entries s k) (v.covered k t e))

      contents' :
          (k : Key)
          → keep (is_after (now_ms z s')) (entries s' k)
            ≡ map entry_of (live (now_ms z s') k leases)
      contents' k = elim (p.kept k) [
        | inl same ↦ rw same (old k)
        | inr (t, gone, e, le) ↦ rw gone (sym (over k t e le) ∙ old k)
      ]

      bounded' : (k : Key) → All (λ x. x.score ≤ now_ms z s' + ttl) (entries s' k)
      bounded' k = elim (p.kept k) [
        | inl same ↦ rw same (
            All-map (λ x. x.score ≤ now_ms z s + ttl) _ (λ x b. omega (arith, p.later))
              (entries s k) (v.bounded k))
        | inr (t, gone, e, le) ↦ rw gone tt
      ]

      covered' : (k : Key) (t : ℕ) → deadline s' k ≡ some t → All (λ x. x.score ≤ t) (entries s' k)
      covered' k t e = elim (p.kept k) [
        | inl same ↦ rw same (elim (p.deadlines k) [
          | inl d ↦ v.covered k t (sym d ∙ e)
          | inr d ↦ absurd (none≢some (sym d ∙ e))
        ])
        | inr (t', gone, e', le) ↦ rw gone tt
      ]
        where
          none≢some : none ≡ some t → ⊥
          none≢some q = cc

  -- What holds at every point: the store keeps the leases that are out, within the limits.
  pub record Inv (y : System) : Type 0 where
    pub keeps : Keeps z h ttl y.store y.leases
    pub within : WithinLimits (now_ms z y.store) y.leases

  acquire_script_time :
      (d id : String) (s : z.Store)
      → z.time (acquire_script z d id global_limit user_limit ttl s).1 ≡ z.time s
  unfolding acquire_script
  acquire_script_time d id s = ground (
    arith,
    (purge-Shrinks z h ttl d (now_ms z s) s).same_time,
    grant_time z h ttl d id ttl (now_ms z s + ttl) (purge z d (now_ms z s) s),
  )

  Step-Inv : 1 ≤ ttl → {y y' : System} → Step y y' → Inv y → Inv y'
  Step-Inv p {y} (acquires d id fg fu) v =
      let a =
        acquire_script_admits z h ttl d id global_limit user_limit y.store y.leases p v.keeps fg
          fu in
      let i = issue-admit d id _ (now_ms z y.store) y.leases a.0 in
      record {
        keeps = rw i a.1;
        within = rw i (
            rw (now_ms-time z h ttl (acquire_script_time d id y.store))
              (admit-WithinLimits d id (now_ms z y.store) y.leases v.within));
      }
  Step-Inv p {y} (releases d id own) v = record {
    keeps = release_script_removes z h ttl d id y.store y.leases v.keeps own;
    within =
        rw (now_ms-time z h ttl (release-Shrinks z h ttl d id y.store).same_time)
          (remove-WithinLimits id (now_ms z y.store) y.leases v.within);
  }
  Step-Inv p {y} (passes s' e) v = record {
    keeps = Keeps-Passes y.store s' y.leases e v.keeps;
    within = Passes-WithinLimits (now_ms z y.store) (now_ms z s') y.leases e.later v.within;
  }

  Reach-Inv : 1 ≤ ttl → {y y' : System} → Inv y → Reach y y' → Inv y'
  Reach-Inv p v here = v
  Reach-Inv p v (next r e) = Step-Inv p e (Reach-Inv p v r)

  empty-Inv :
      (s : z.Store) → ((k : Key) → entries s k ≡ []) → Inv (record { store = s; leases = [] })
  empty-Inv s e = record {
    keeps = record {
      contents = λ k. rw (e k);
      bounded = λ k. rw (e k) tt;
      covered = λ k t d. rw (e k) tt;
    };
    within = record { all = omega arith; each = λ d. omega arith };
  }

  -- From two empty keys on, in whatever order servers run the scripts and time passes: the leases
  -- that servers were given, did not release and that have not run out number at most the global
  -- limit, those of one subject at most the user's limit, and the entries of each key that have not
  -- run out are exactly those leases under it.
  pub leases_within_limits :
      (s : z.Store) (y : System) (d : String) (k : Key)
      → 1 ≤ ttl
      → ((k : Key) → entries s k ≡ [])
      → Reach (record { store = s; leases = [] }) y
      → (length (live (now_ms z y.store) global y.leases) ≤ global_limit)
        × (length (live (now_ms z y.store) (user d) y.leases) ≤ user_limit)
        × (keep (is_after (now_ms z y.store)) (entries y.store k)
            ≡ map entry_of (live (now_ms z y.store) k y.leases))
  leases_within_limits s y d k p e r =
      let v = Reach-Inv p (empty-Inv s e) r in (v.within.all, v.within.each d, v.keeps.contents k)
