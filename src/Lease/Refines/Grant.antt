-- ===== src/Lease/Refines/Grant.antt =====
-- What the ZREMRANGEBYSCORE calls and the ZADD and PEXPIRE calls of `_ACQUIRE_SCRIPT` do to the
-- keys (data_agent/services/agent_lease.py).
use mathlib.Core.Option.{some-injective}
use deep_data_agent.Prelude.{
  subst, ℕ, ◌+◌, ◌*◌, ◌/◌, ◌≤◌, ◌≡◌, refl, sym, ap, ◌∙◌, ◌⊎◌, inl, inr, Bool, true, false, some,
  List, [], ◌∷◌, String, str_eq, eq_iff, arith, ltb, length, keep, map, All, if◌then◌else◌,
  Bool-cases, keep_idem, length-map,
}
use deep_data_agent.Lease.{now_ms, purge, grant}
use deep_data_agent.Lease.Sorted.{
  Key, global, user, Entry, SortedSets, Documented, is_after, has_member, same_key,
}
use deep_data_agent.Lease.Table.{AgentLease, entry_of, on_key, live, Keeps}
use deep_data_agent.Lease.Refines.Shrinks.{
  Shrinks, zremrange-Shrinks, Shrinks-trans, Shrinks-bounded, Shrinks-covered,
}

pub has_member-keep :
    (m : String) (p : Entry → Bool) (es : List Entry)
    → has_member m es ≡ false
    → has_member m (keep p es) ≡ false
has_member-keep m p [] f = refl
has_member-keep m p (e ∷ es) f = ground (arith, has_member-keep m p es)

module _ (z : SortedSets) (h : Documented z) (ttl : ℕ) where
  open h use {entries, deadline}

  pub purge-Shrinks : (d : String) (t : ℕ) (s : z.Store) → Shrinks z h s (purge z d t s)
  unfolding purge
  purge-Shrinks d t s =
      Shrinks-trans z h (zremrange-Shrinks z h global t s)
        (zremrange-Shrinks z h (user d) t (z.zremrangebyscore global t s))

  pub now_ms-Shrinks : {s s' : z.Store} → Shrinks z h s s' → now_ms z s' ≡ now_ms z s
  unfolding now_ms
  now_ms-Shrinks f = rw f.same_time

  pub now_ms-time : {s s' : z.Store} → z.time s' ≡ z.time s → now_ms z s' ≡ now_ms z s
  unfolding now_ms
  now_ms-time e = rw e

  zremrange_live :
      (k j : Key) (t : ℕ) (s : z.Store)
      → keep (is_after t) (entries (z.zremrangebyscore k t s) j) ≡ keep (is_after t) (entries s j)
  zremrange_live k j t s = elim (Bool-cases (same_key k j)) [
    | inl e ↦ rw (h.zremrange_entries k j t s) (rw e (keep_idem (is_after t) (entries s j)))
    | inr e ↦ rw (h.zremrange_entries k j t s) (rw e)
  ]

  -- A purge takes no live entry.
  pub purge_live :
      (d : String) (j : Key) (t : ℕ) (s : z.Store)
      → keep (is_after t) (entries (purge z d t s) j) ≡ keep (is_after t) (entries s j)
  unfolding purge
  purge_live d j t s =
      zremrange_live (user d) j t (z.zremrangebyscore global t s) ∙ zremrange_live global j t s

  pub purge_user :
      (d : String) (t : ℕ) (s : z.Store)
      → entries (purge z d t s) (user d) ≡ keep (is_after t) (entries s (user d))
  unfolding purge
  purge_user d t s =
      rw (h.zremrange_entries (user d) (user d) t (z.zremrangebyscore global t s)) (
        rw ((eq_iff d d).1 refl) (ap (keep (is_after t)) (h.zremrange_entries global (user d) t s)))

  pub purge_global :
      (d : String) (t : ℕ) (s : z.Store)
      → entries (purge z d t s) global ≡ keep (is_after t) (entries s global)
  unfolding purge
  purge_global d t s =
      h.zremrange_entries (user d) global t (z.zremrangebyscore global t s)
      ∙ h.zremrange_entries global global t s

  -- After a purge a purged key has as many entries as there are live leases under it.
  pub zcard_live :
      (k : Key) (s s' : z.Store) (leases : List AgentLease)
      → Keeps z h ttl s leases
      → entries s' k ≡ keep (is_after (now_ms z s)) (entries s k)
      → z.zcard k s' ≡ length (live (now_ms z s) k leases)
  zcard_live k s s' leases v e =
      h.zcard_length k s'
      ∙ ap length (e ∙ v.contents k)
      ∙ length-map entry_of (live (now_ms z s) k leases)

  pub Keeps-purge :
      (d : String) (s : z.Store) (leases : List AgentLease)
      → Keeps z h ttl s leases
      → Keeps z h ttl (purge z d (now_ms z s) s) leases
  Keeps-purge d s leases v =
      let f = purge-Shrinks d (now_ms z s) s in
      record {
        contents = λ k. rw (now_ms-Shrinks f) (purge_live d k (now_ms z s) s ∙ v.contents k);
        bounded =
            λ k. rw (now_ms-Shrinks f) (Shrinks-bounded z h (now_ms z s + ttl) k f (v.bounded k));
        covered = Shrinks-covered z h f v.covered;
      }

  -- The lease that a grant records.
  abbrev pub lease : String → String → ℕ → AgentLease
  lease d id expires = record { lease_id = id; subject_digest = d; expires_at_ms = expires }

  pub grant_time : (d id : String) (t e : ℕ) (s : z.Store) → z.time (grant z d id t e s) ≡ z.time s
  unfolding grant
  grant_time d id t e s =
      h.pexpire_time (user d) t _
      ∙ h.pexpire_time global t _
      ∙ h.zadd_time (user d) e id _
      ∙ h.zadd_time global e id s

  pub grant_entries :
      (d id : String) (t e : ℕ) (s : z.Store) (j : Key)
      → has_member id (entries s global) ≡ false
      → has_member id (entries s (user d)) ≡ false
      → entries (grant z d id t e s) j
        ≡ (if on_key j (lease d id e) then entry_of (lease d id e) ∷ entries s j else entries s j)
  unfolding grant
  grant_entries d id t e s j fg fu =
      h.pexpire_entries (user d) j t _
      ∙ h.pexpire_entries global j t _
      ∙ h.zadd_entries (user d) j e id _ (rw (h.zadd_entries global (user d) e id s fg) fu)
      ∙ (both j)
    where
      both :
          (j : Key)
          → (if same_key (user d) j
              then entry_of (lease d id e) ∷ entries (z.zadd global e id s) j
              else entries (z.zadd global e id s) j)
            ≡ (if on_key j (lease d id e)
                then entry_of (lease d id e) ∷ entries s j
                else entries s j)
      both global = h.zadd_entries global global e id s fg
      both (user d') = rw (h.zadd_entries global (user d') e id s fg)

  grant_deadline :
      (d id : String) (t e : ℕ) (s : z.Store) (j : Key)
      → (deadline (grant z d id t e s) j ≡ some (now_ms z s + t))
        ⊎ ((on_key j (lease d id e) ≡ false) × (deadline (grant z d id t e s) j ≡ deadline s j))
  unfolding grant now_ms
  grant_deadline d id t e s global = inl (
      h.pexpire_deadline (user d) global t _
      ∙ h.pexpire_deadline global global t _
      ∙ ap (λ n. some (n.0 * 1000 + n.1 / 1000 + t))
          (h.zadd_time (user d) e id _ ∙ h.zadd_time global e id s))
  grant_deadline d id t e s (user d') = elim (Bool-cases (str_eq d d')) [
    | inl own ↦ inl (
        h.pexpire_deadline (user d) (user d') t _
        ∙ rw own (
            ap (λ n. some (n.0 * 1000 + n.1 / 1000 + t))
              (h.pexpire_time global t _
                ∙ h.zadd_time (user d) e id _
                ∙ h.zadd_time global e id s)))
    | inr other ↦ inr (
      other,
      h.pexpire_deadline (user d) (user d') t _
          ∙ rw other (
              h.pexpire_deadline global (user d') t _
              ∙ h.zadd_deadline (user d) (user d') e id _
              ∙ h.zadd_deadline global (user d') e id s),
    )
  ]

  pub Keeps-grant :
      (d id : String) (s : z.Store) (leases : List AgentLease)
      → 1 ≤ ttl
      → Keeps z h ttl s leases
      → has_member id (entries s global) ≡ false
      → has_member id (entries s (user d)) ≡ false
      → Keeps z h ttl
          (grant z d id ttl (now_ms z s + ttl) s)
          (lease d id (now_ms z s + ttl) ∷ leases)
  Keeps-grant d id s leases p v fg fu = record {
    contents = λ k.
        subst (λ n. keep (is_after n) (entries s' k) ≡ map entry_of (live n k (new ∷ leases)))
          (sym same_now) (rw (at_key k) (contents_at k));
    bounded = λ k. rw same_now (rw (at_key k) (bounded_at k));
    covered = λ k t e. rw (at_key k) (covered_at k t e);
  }
    where
      new : AgentLease
      new = lease d id (now_ms z s + ttl)

      s' : z.Store
      s' = grant z d id ttl (now_ms z s + ttl) s

      same_now : now_ms z s' ≡ now_ms z s
      same_now = now_ms-time (grant_time d id ttl (now_ms z s + ttl) s)

      at_key :
          (k : Key)
          → entries s' k ≡ (if on_key k new then entry_of new ∷ entries s k else entries s k)
      at_key k = grant_entries d id ttl (now_ms z s + ttl) s k fg fu

      live_new : ltb (now_ms z s) (now_ms z s + ttl) ≡ true
      live_new = ground arith

      contents_at :
          (k : Key)
          → keep
              (is_after (now_ms z s))
              (if on_key k new then entry_of new ∷ entries s k else entries s k)
            ≡ map entry_of (live (now_ms z s) k (new ∷ leases))
      contents_at k = elim (Bool-cases (on_key k new)) [
        | inl e ↦ rw e (rw live_new (ap (◌∷◌ (entry_of new)) (v.contents k)))
        | inr e ↦ rw e (rw live_new (v.contents k))
      ]

      bounded_at :
          (k : Key)
          → All
              (λ e. e.score ≤ now_ms z s + ttl)
              (if on_key k new then entry_of new ∷ entries s k else entries s k)
      bounded_at k = elim (Bool-cases (on_key k new)) [
        | inl e ↦ rw e (omega arith, v.bounded k)
        | inr e ↦ rw e (v.bounded k)
      ]

      covered_at :
          (k : Key) (t : ℕ)
          → deadline s' k ≡ some t
          → All
              (λ e. e.score ≤ t)
              (if on_key k new then entry_of new ∷ entries s k else entries s k)
      covered_at k t e = elim (grant_deadline d id ttl (now_ms z s + ttl) s k) [
        | inl fresh ↦
            subst
              (λ n.
                All (λ x. x.score ≤ n)
                  (if on_key k new then entry_of new ∷ entries s k else entries s k))
              (some-injective _ t (sym fresh ∙ e)) (bounded_at k)
        | inr (off, same) ↦ rw off (v.covered k t (sym same ∙ e))
      ]
