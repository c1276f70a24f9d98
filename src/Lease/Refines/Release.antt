-- ===== src/Lease/Refines/Release.antt =====
-- `_RELEASE_SCRIPT` of data_agent/services/agent_lease.py implements the table of leases.
use mathlib.Core.Path.{ap₂}
use deep_data_agent.Prelude.{
  ℕ, ◌+◌, ◌≡◌, refl, sym, ap, subst, ◌∙◌, inl, inr, Bool, true, false, ◌&&◌, not, List, String,
  str_eq, eq_iff, arith, length, keep, map, All, if◌then◌else◌, Bool-cases, keep-keep, keep_absorb,
  keep_comm, keep-map, All-map, every_All, keep_none,
}
use deep_data_agent.Lease.{now_ms, release_script}
use deep_data_agent.Lease.Sorted.{
  Key, global, user, Entry, SortedSets, Documented, is_after, is_member, same_key,
}
use deep_data_agent.Lease.Table.{AgentLease, entry_of, live, remove, Keeps}
use deep_data_agent.Lease.Refines.Shrinks.{
  Shrinks, zrem-Shrinks, drop_empty-Shrinks, drop_empty_entries, Shrinks-trans, Shrinks-bounded,
  Shrinks-covered,
}
use deep_data_agent.Lease.Refines.Grant.{now_ms-Shrinks}

-- Every lease of this id is one of the subject's.
abbrev pub IsOwn : String → String → List AgentLease → Type 0
IsOwn d id = All (λ l. (str_eq l.lease_id id && not (str_eq l.subject_digest d)) ≡ false)

module _ (z : SortedSets) (h : Documented z) (ttl : ℕ) where
  open h use {entries}

  -- The keys that the script touches.
  abbrev touched : String → Key → Bool
  touched d global = true
  touched d (user d') = str_eq d d'

  release_entries :
      (d id : String) (s : z.Store) (j : Key)
      → entries (release_script z d id s).1 j
        ≡ (if touched d j then keep (λ e. not (is_member id e)) (entries s j) else entries s j)
  unfolding release_script
  release_entries d id s j =
      drop_empty_entries z h (user d) j _
      ∙ drop_empty_entries z h global j _
      ∙ h.zrem_entries (user d) j id _
      ∙ at_key j
    where
      at_key :
          (j : Key)
          → (if same_key (user d) j
              then keep (λ e. not (is_member id e)) (entries (z.zrem global id s).1 j)
              else entries (z.zrem global id s).1 j)
            ≡ (if touched d j then keep (λ e. not (is_member id e)) (entries s j) else entries s j)
      at_key global = h.zrem_entries global global id s
      at_key (user d') = rw (h.zrem_entries global (user d') id s)

  pub release-Shrinks : (d id : String) (s : z.Store) → Shrinks z h s (release_script z d id s).1
  unfolding release_script
  release-Shrinks d id s = Shrinks-trans z h (zrem-Shrinks z h global id s) (
      Shrinks-trans z h (zrem-Shrinks z h (user d) id _)
        (Shrinks-trans z h (drop_empty-Shrinks z h global _) (drop_empty-Shrinks z h (user d) _)))

  -- A key of another subject shows no lease of this id.
  live_other :
      (d d' id : String) (now : ℕ) (leases : List AgentLease)
      → IsOwn d id leases
      → str_eq d d' ≡ false
      → live now (user d') (remove id leases) ≡ live now (user d') leases
  live_other d d' id now leases own other = keep_absorb _ _ leases (
      All-map (λ l. (str_eq l.lease_id id && not (str_eq l.subject_digest d)) ≡ false) _
        (λ l o. ground (arith, eq_iff l.subject_digest d', eq_iff l.subject_digest d, eq_iff d d'))
        leases own)

  -- Where the store keeps a table, `_RELEASE_SCRIPT` takes the lease out of it and nothing else.
  pub release_script_removes :
      (d id : String) (s : z.Store) (leases : List AgentLease)
      → Keeps z h ttl s leases
      → IsOwn d id leases
      → Keeps z h ttl (release_script z d id s).1 (remove id leases)
  release_script_removes d id s leases v own = record {
    contents = λ k.
        subst (λ n. keep (is_after n) (entries s' k) ≡ map entry_of (live n k (remove id leases)))
          (sym same_now) (rw (release_entries d id s k) (contents_at k));
    bounded = λ k. rw same_now (Shrinks-bounded z h (now_ms z s + ttl) k shrinks (v.bounded k));
    covered = Shrinks-covered z h shrinks v.covered;
  }
    where
      s' : z.Store
      s' = (release_script z d id s).1

      now : ℕ
      now = now_ms z s

      shrinks : Shrinks z h s s'
      shrinks = release-Shrinks d id s

      same_now : now_ms z s' ≡ now_ms z s
      same_now = now_ms-Shrinks z h ttl shrinks

      other_id : AgentLease → Bool
      other_id l = not (str_eq l.lease_id id)

      taken :
          (k : Key)
          → keep (is_after now) (keep (λ e. not (is_member id e)) (entries s k))
            ≡ map entry_of (live now k (remove id leases))
      taken k =
          keep_comm (is_after now) (λ e. not (is_member id e)) (entries s k)
          ∙ ap (keep (λ e. not (is_member id e))) (v.contents k)
          ∙ keep-map entry_of (λ e. not (is_member id e)) (live now k leases)
          ∙ ap (map entry_of) (keep_comm (λ l. not (str_eq l.lease_id id)) _ leases)

      contents_at :
          (k : Key)
          → keep
              (is_after now)
              (if touched d k then keep (λ e. not (is_member id e)) (entries s k) else entries s k)
            ≡ map entry_of (live now k (remove id leases))
      contents_at global = taken global
      contents_at (user d') = elim (Bool-cases (str_eq d d')) [
        | inl same ↦ rw same (taken (user d'))
        | inr other ↦ rw other (
            v.contents (user d')
            ∙ ap (map entry_of) (sym (live_other d d' id now leases own other)))
      ]

  removed_none :
      (m : String) (es : List Entry)
      → length (keep (is_member m) (keep (λ e. not (is_member m e)) es)) ≡ 0
  removed_none m es = ap length (
      keep-keep (is_member m) (λ e. not (is_member m e)) es
      ∙ keep_none _ es (every_All (λ e. ground arith) es))

  release_count :
      (d id : String) (s : z.Store)
      → (release_script z d id s).0
        ≡ length (keep (is_member id) (entries s global))
          + length (keep (is_member id) (entries s (user d)))
  unfolding release_script
  release_count d id s = ap₂ ◌+◌ (h.zrem_count global id s) (
      h.zrem_count (user d) id _
      ∙ ap (λ es. length (keep (is_member id) es)) (h.zrem_entries global (user d) id s))

  -- A second release of a lease removes nothing.
  pub release_script_twice :
      (d id : String) (s : z.Store) → (release_script z d id (release_script z d id s).1).0 ≡ 0
  release_script_twice d id s = rw (release_count d id (release_script z d id s).1) (
      rw (release_entries d id s global) (
        rw (release_entries d id s (user d)) (
          rw ((eq_iff d d).1 refl) (
            omega
              (arith, removed_none id (entries s global), removed_none id (entries s (user d)))))))
