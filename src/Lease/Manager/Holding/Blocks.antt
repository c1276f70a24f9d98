-- ===== src/Lease/Manager/Holding/Blocks.antt =====
-- What holds of a `with hold(...)` block whatever the wait and the release do
-- (data_agent/services/agent_lease.py).
use deep_data_agent.Prelude.{
  ℕ, ◌≡◌, refl, ◌⊎◌, inl, inr, some, List, String, str_eq, Bool-cases, Option-cases,
}
use deep_data_agent.Recovery.Clock.{Seconds}
use deep_data_agent.Gate.{Gate}
use deep_data_agent.Lease.Table.{AgentLease}
use deep_data_agent.Lease.Manager.{
  Scripts, Subjects, subject_digest, Outcome, acquired, busy, unavailable, broken, pending,
  Readings, Turn, acquire, release,
}
use deep_data_agent.Lease.Manager.Holding.{
  Held, rejected, malformed, release_failed, refused, Context, run_held, hold_new, hold,
  Digest-cases,
}

module _ (g : Gate) (p : Scripts) (s : Seconds) (names : Subjects) (E : Type 0) where
  -- What holds of the block, of every refusal and, with the exit of the block, of a release that
  -- fails, as a relation of the exit and what the block works on, before and after.
  pub record Holds {A : Type 0} (Q : Held A → E → E → Type 0)
      (body : AgentLease → Context g p s names E → Held A × Context g p s names E) : Type 0 where
    pub block :
        (lease : AgentLease) (c : Context g p s names E)
        → Q (body lease c).0 c.rest (body lease c).1.rest
    pub refusals : (e : E) → Q rejected e e × Q malformed e e × ((o : Outcome) → Q (refused o) e e)
    pub failing : (exit : Held A) (e e' : E) → Q exit e e' → Q release_failed e e'

  run_held-Holds :
      {A : Type 0} (Q : Held A → E → E → Type 0) (subject : String) (lease : AgentLease)
      (leaves : Readings g p)
      (body : AgentLease → Context g p s names E → Held A × Context g p s names E)
      (c : Context g p s names E)
      → Holds Q body
      → Q
          (run_held g p s names E subject lease leaves body c).0
          c.rest
          (run_held g p s names E subject lease leaves body c).1.rest
  unfolding run_held
  run_held-Holds Q subject lease leaves body c h =
      let start = record c { active = some lease; subject = some subject } in
      let exit = body lease start in
      elim (Option-cases (release g p lease leaves exit.1.world).0) [
        | inl e ↦ rw (e, run_held) (h.failing exit.0 c.rest exit.1.rest (h.block lease start))
        | inr (n, e) ↦ rw (e, run_held) (h.block lease start)
      ]

  Outcome-cases :
      (o : Outcome)
      → ((l : AgentLease) × (o ≡ acquired l))
        ⊎ ((n : ℕ) × (o ≡ busy n))
        ⊎ ((n : ℕ) × (o ≡ unavailable n))
        ⊎ (o ≡ broken)
        ⊎ (o ≡ pending)
  Outcome-cases (acquired l) = inl (l, refl)
  Outcome-cases (busy n) = inr (inl (n, refl))
  Outcome-cases (unavailable n) = inr (inr (inl (n, refl)))
  Outcome-cases broken = inr (inr (inr (inl refl)))
  Outcome-cases pending = inr (inr (inr (inr refl)))

  hold_new-Holds :
      {A : Type 0} (Q : Held A → E → E → Type 0) (subject d lease_id : String) (deadline : s.T)
      (turns : List (Turn g p s)) (leaves : Readings g p)
      (body : AgentLease → Context g p s names E → Held A × Context g p s names E)
      (c : Context g p s names E)
      → Holds Q body
      → Q
          (hold_new g p s names E subject d lease_id deadline turns leaves body c).0
          c.rest
          (hold_new g p s names E subject d lease_id deadline turns leaves body c).1.rest
  unfolding hold_new
  hold_new-Holds Q subject d lease_id deadline turns leaves body c h =
      let got = acquire g p s deadline d lease_id turns c.world in
      let no_lease = (h.refusals c.rest).2 in
      elim (Outcome-cases got.0) [
        | inl (l, e) ↦
            rw (e, hold_new) (run_held-Holds Q subject l leaves body (record c { world = got.1 }) h)
        | inr (inl (n, e)) ↦ rw (e, hold_new) (no_lease (busy n))
        | inr (inr (inl (n, e))) ↦ rw (e, hold_new) (no_lease (unavailable n))
        | inr (inr (inr (inl e))) ↦ rw (e, hold_new) (no_lease broken)
        | inr (inr (inr (inr e))) ↦ rw (e, hold_new) (no_lease pending)
      ]

  -- What holds of the block holds of `hold`.
  pub hold-Holds :
      {A : Type 0} (Q : Held A → E → E → Type 0) (subject lease_id : String) (deadline : s.T)
      (turns : List (Turn g p s)) (leaves : Readings g p)
      (body : AgentLease → Context g p s names E → Held A × Context g p s names E)
      (c : Context g p s names E)
      → Holds Q body
      → Q
          (hold g p s names E subject lease_id deadline turns leaves body c).0
          c.rest
          (hold g p s names E subject lease_id deadline turns leaves body c).1.rest
  unfolding hold
  hold-Holds Q subject lease_id deadline turns leaves body c h =
      elim (Digest-cases g p s names E (subject_digest names subject)) [
        | inl (d, q) ↦ elim (Option-cases c.active) [
          | inl n ↦
              rw (q, hold)
                (rw (n, hold) (hold_new-Holds Q subject d lease_id deadline turns leaves body c h))
          | inr (l, a) ↦
              rw (q, hold)
                (rw (a, hold)
                  (elim (Bool-cases (str_eq l.subject_digest d)) [
                    | inl same ↦ rw (same, hold) (h.block l c)
                    | inr differs ↦ rw (differs, hold) (h.refusals c.rest).0
                  ]))
        ]
        | inr (inl q) ↦ rw (q, hold) (h.refusals c.rest).0
        | inr (inr q) ↦ rw (q, hold) (h.refusals c.rest).1
      ]
