-- ===== src/Lease/Manager/Holding.antt =====
-- `hold` of data_agent/services/agent_lease.py: one lease for a run and for the graph calls nested in
-- it, kept in two context variables. `hold_async` is the same with `await`.
pub mod Blocks
use deep_data_agent.Prelude.{
  ℕ, ◌≡◌, refl, sym, ap, subst, ◌∙◌, ◌⊎◌, inl, inr, Option, none, some, List, [], ◌∷◌, String,
  str_eq, eq_iff, arith, if◌then◌else◌, Bool-cases, Option-cases,
}
use deep_data_agent.Recovery.Clock.{Seconds}
use deep_data_agent.Gate.{Gate}
use deep_data_agent.Lease.Table.{AgentLease}
use deep_data_agent.Lease.Manager.{
  Scripts, Subjects, Digest, digest, identity_error, value_error, subject_digest, Outcome, acquired,
  busy, unavailable, broken, pending, World, Readings, Turn, acquire, release,
}
use deep_data_agent.Lease.Manager.Waiting.{Granted, Some, attempts, acquire-Granted}

-- How a `with hold(...)` block ends: its result or its exception, AgentIdentityError, the ValueError
-- of a subject, an `acquire` without a lease, or an exception of `release`.
pub data Held (A : Type 0) : Type 0 where
  finished : A → Held A
  raised : ℕ → Held A
  rejected malformed release_failed : Held A
  refused : Outcome → Held A

module _ (g : Gate) (p : Scripts) (s : Seconds) (names : Subjects) (E : Type 0) where
  -- The gate and Redis with `_active_agent_lease`, `_active_agent_subject`, and what else the block
  -- works on.
  pub record Context : Type 0 where
    pub world : World g p
    pub active : Option AgentLease
    pub subject : Option String
    pub rest : E

  -- The `try` of `hold` and its `finally`.
  unfoldable pub run_held :
      {A : Type 0}
      → String
      → AgentLease
      → Readings g p
      → (AgentLease → Context → Held A × Context)
      → Context
      → Held A × Context
  run_held subject lease leaves body c =
      let (exit, c') = body lease (record c { active = some lease; subject = some subject }) in
      let (removed, w) = release g p lease leaves c'.world in
      (
        elim removed [ none ↦ release_failed | some _ ↦ exit ],
        record c' { world = w; active = c.active; subject = c.subject },
      )

  -- The outermost `hold`: acquire, run, release.
  unfoldable pub hold_new :
      {A : Type 0}
      → String
      → String
      → String
      → s.T
      → List (Turn g p s)
      → Readings g p
      → (AgentLease → Context → Held A × Context)
      → Context
      → Held A × Context
  hold_new subject d lease_id deadline turns leaves body c =
      let (outcome, w) = acquire g p s deadline d lease_id turns c.world in
      elim outcome [
        | acquired lease ↦ run_held subject lease leaves body (record c { world = w })
        | busy n ↦ (refused (busy n), record c { world = w })
        | unavailable n ↦ (refused (unavailable n), record c { world = w })
        | broken ↦ (refused broken, record c { world = w })
        | pending ↦ (refused pending, record c { world = w })
      ]

  -- `hold`, with the `with` block as `body`.
  unfoldable pub hold :
      {A : Type 0}
      → String
      → String
      → s.T
      → List (Turn g p s)
      → Readings g p
      → (AgentLease → Context → Held A × Context)
      → Context
      → Held A × Context
  hold subject lease_id deadline turns leaves body c = elim (subject_digest names subject) [
    | identity_error ↦ (rejected, c)
    | value_error ↦ (malformed, c)
    | digest d ↦ elim c.active [
      | some lease ↦ if str_eq lease.subject_digest d then body lease c else (rejected, c)
      | none ↦ hold_new subject d lease_id deadline turns leaves body c
    ]
  ]

  -- A block that leaves the context variables as it found them.
  abbrev pub Restores : {A : Type 0} → (AgentLease → Context → Held A × Context) → Type 0
  Restores body =
      (lease : AgentLease) (c : Context)
      → ((body lease c).1.active ≡ c.active) × ((body lease c).1.subject ≡ c.subject)

  Digest-cases :
      (e : Digest) → ((d : String) × (e ≡ digest d)) ⊎ (e ≡ identity_error) ⊎ (e ≡ value_error)
  Digest-cases (digest d) = inl (d, refl)
  Digest-cases identity_error = inr (inl refl)
  Digest-cases value_error = inr (inr refl)

  hold_new-Restores :
      {A : Type 0} (subject d lease_id : String) (deadline : s.T) (turns : List (Turn g p s))
      (leaves : Readings g p) (body : AgentLease → Context → Held A × Context) (c : Context)
      → ((hold_new subject d lease_id deadline turns leaves body c).1.active ≡ c.active)
        × ((hold_new subject d lease_id deadline turns leaves body c).1.subject ≡ c.subject)
  unfolding hold_new run_held
  hold_new-Restores subject d lease_id deadline turns leaves body c = ground arith

  -- The block that answers with its lease.
  abbrev pub answers_lease : AgentLease → Context → Held AgentLease × Context
  answers_lease lease c = (finished lease, c)

  hold_new_own :
      (subject d lease_id : String) (deadline : s.T) (turns : List (Turn g p s))
      (leaves : Readings g p) (c : Context) (lease : AgentLease)
      → (hold_new subject d lease_id deadline turns leaves answers_lease c).0 ≡ finished lease
      → (acquire g p s deadline d lease_id turns c.world).0 ≡ acquired lease
  unfolding hold_new run_held
  hold_new_own subject d lease_id deadline turns leaves c lease e = ground arith

  -- However the block, the wait for a lease and the release end, `hold` leaves the active lease and
  -- subject of the context as they were, if the block does; so blocks of `hold` nest.
  pub hold-Restores :
      {A : Type 0} (subject lease_id : String) (deadline : s.T) (turns : List (Turn g p s))
      (leaves : Readings g p) (body : AgentLease → Context → Held A × Context) (c : Context)
      → Restores body
      → ((hold subject lease_id deadline turns leaves body c).1.active ≡ c.active)
        × ((hold subject lease_id deadline turns leaves body c).1.subject ≡ c.subject)
  unfolding hold
  hold-Restores subject lease_id deadline turns leaves body c h =
      elim (Digest-cases (subject_digest names subject)) [
        | inl (d, q) ↦ elim (Option-cases c.active) [
          | inl n ↦
              ground (arith, hold_new-Restores subject d lease_id deadline turns leaves body c)
          | inr (l, a) ↦ ground (arith, h l c)
        ]
        | inr e ↦ ground arith
      ]

  finished-injective : {a b : AgentLease} → finished a ≡ finished b → a ≡ b
  finished-injective {a} e = ap result e
    where
      result : Held AgentLease → AgentLease
      result (finished x) = x
      result _ = a

  given_own :
      (d lease_id : String) (lease : AgentLease) (ss : List p.Store)
      → Some (Granted g p d lease_id lease) ss
      → lease.subject_digest ≡ d
  given_own d lease_id lease [] h = absurd h
  given_own d lease_id lease (x ∷ ss) (inl h) = h.1
  given_own d lease_id lease (x ∷ ss) (inr h) = given_own d lease_id lease ss h

  -- The lease that a block is run with is one of its subject, also when it is the one of an enclosing
  -- block: the active one, or one that the script gave in some turn of the wait.
  pub hold_own :
      (subject lease_id : String) (deadline : s.T) (turns : List (Turn g p s))
      (leaves : Readings g p) (c : Context) (lease : AgentLease)
      → (hold subject lease_id deadline turns leaves answers_lease c).0 ≡ finished lease
      → (subject_digest names subject ≡ digest lease.subject_digest)
        × ((c.active ≡ some lease)
            ⊎ ((c.active ≡ none)
                × Some
                    (Granted g p lease.subject_digest lease_id lease)
                    (attempts g p s lease.subject_digest lease_id turns c.world)))
  unfolding hold
  hold_own subject lease_id deadline turns leaves c lease e =
      elim (Digest-cases (subject_digest names subject)) [
        | inl (d, q) ↦ elim (Option-cases c.active) [
          | inl n ↦
              let got =
                hold_new_own subject d lease_id deadline turns leaves c lease
                  (rw (n, hold) at (rw (q, hold) at e)) in
              let given = acquire-Granted g p s deadline d lease_id turns c.world lease got in
              let own =
                given_own d lease_id lease (attempts g p s d lease_id turns c.world) given in
              (
                q ∙ ap digest (sym own),
                inr (
                  n,
                  subst
                      (λ x.
                        Some (Granted g p x lease_id lease)
                          (attempts g p s x lease_id turns c.world))
                      (sym own) given,
                ),
              )
          | inr (l, a) ↦ elim (Bool-cases (str_eq l.subject_digest d)) [
            | inl same ↦
                let here =
                  finished-injective (rw (same, hold) at (rw (a, hold) at (rw (q, hold) at e))) in
                (
                  q
                      ∙ ap digest (
                          sym ((eq_iff l.subject_digest d).0 same)
                          ∙ ap (λ x. x.subject_digest) here),
                  inl (a ∙ ap (λ x. some x) here),
                )
            | inr other ↦ absurd (ground arith)
          ]
        ]
        | inr k ↦ absurd (ground arith)
      ]
