-- ===== src/Agent/Config/Owner.antt =====
-- Whose run a configuration is (data_agent/services/agent_service.py, `_prepare_run_config`).
use deep_data_agent.Prelude.{
  ℕ, ◌≡◌, refl, sym, ap, subst, ◌∙◌, ◌⊎◌, inl, inr, Bool, true, ◌&&◌, Option, none, some, String,
  listed, str_eq, arith, leb, Bool-cases, Option-cases,
}
use deep_data_agent.Lease.Manager.{Subjects, digest, subject_digest}
use deep_data_agent.Agent.Config.Entries.{Dict, get, put, get-put}
use deep_data_agent.Agent.Config.{
  Identity, number, negative, unsupported, text, Values, section_keys, Subject, subject,
  identity_error, crashed, canonical_text, canonical_subject, section, may_invoke,
  authenticated_subject, prepared, Prepared, name_subject, prepare_run_config,
}
use deep_data_agent.Agent.Config.Laws.{Strips, bounded_run_config-Strips, section-put}

-- A name that the lease service has a digest for.
abbrev pub IsNamed : Subjects → String → Type 0
IsNamed names name = (n : ℕ) × (subject_digest names name ≡ digest (names.identity_ref n))

Subject-cases :
    (a : Subject) → ((n : String) × (a ≡ subject n)) ⊎ (a ≡ identity_error) ⊎ (a ≡ crashed)
Subject-cases (subject n) = inl (n, refl)
Subject-cases identity_error = inr (inl refl)
Subject-cases crashed = inr (inr refl)

both : {a b : Bool} → (a && b) ≡ true → (a ≡ true) × (b ≡ true)
both h = ground arith

subject-injective : {a b : String} → subject a ≡ subject b → a ≡ b
subject-injective {a} e = ap name e
  where
    name : Subject → String
    name (subject x) = x
    name _ = a

digest_named :
    (names : Subjects) (value : String) (n : ℕ)
    → names.is_digit value ≡ true
    → names.int value ≡ some n
    → leb 1 n ≡ true
    → str_eq (names.str n) value ≡ true
    → subject_digest names value ≡ digest (names.identity_ref n)
unfolding subject_digest
digest_named names value n e i positive exact = ground arith

-- A canonical text is the subject itself, and the lease service takes it.
canonical_text_own :
    (names : Subjects) (value name : String)
    → canonical_text names value ≡ subject name
    → (value ≡ name) × IsNamed names name
unfolding canonical_text subject_digest
canonical_text_own names value name h = elim (Bool-cases (names.is_digit value)) [
  | inr e ↦ absurd (ground arith)
  | inl e ↦ elim (Option-cases (names.int value)) [
    | inl i ↦ absurd (ground arith)
    | inr (n, i) ↦ elim (Bool-cases (leb 1 n && str_eq (names.str n) value)) [
      | inr q ↦ absurd (ground arith)
      | inl q ↦
          let same =
            subject-injective (
              rw (q, canonical_text) at
                (rw (i, canonical_text) at (rw (e, canonical_text) at h))) in
          let (positive, exact) = both q in
          (same, subst (IsNamed names) same (n, digest_named names value n e i positive exact))
    ]
  ]
]

canonical_subject-IsNamed :
    (names : Subjects) (i : Identity) (name : String)
    → canonical_subject names i ≡ subject name
    → IsNamed names name
unfolding canonical_subject
canonical_subject-IsNamed names (number n) name h =
    (canonical_text_own names (names.str n) name h).1
canonical_subject-IsNamed names (text value) name h = (canonical_text_own names value name h).1
canonical_subject-IsNamed names negative name h = absurd (ground arith)
canonical_subject-IsNamed names unsupported name h = absurd (ground arith)

module _ (y : Values) where
  open y use {V, of_dict, of_text, is_authenticated, identity}

  -- Where a run's subject comes from: the enclosing lease, or, without one, the authenticated user of
  -- the section, who may invoke the agent.
  abbrev pub IsTrusted : Subjects → Option String → Dict V → String → Type 0
  IsTrusted names active d name =
      (active ≡ some name)
      ⊎ ((active ≡ none)
          × (is_authenticated (get "langgraph_auth_user" d) ≡ true)
          × (may_invoke y (get "langgraph_auth_permissions" d) ≡ true)
          × (canonical_subject names (identity (get "langgraph_auth_user" d)) ≡ subject name))

  authenticated_subject-IsTrusted :
      (names : Subjects) (active : Option String) (b d : Dict V) (name : String)
      → section y "configurable" b ≡ some d
      → authenticated_subject y names active b ≡ subject name
      → IsTrusted names active d name × IsNamed names name
  unfolding authenticated_subject canonical_subject
  authenticated_subject-IsTrusted names (some active) b d name s h =
      let (same, named) = canonical_text_own names active name h in
      (inl (ap (λ o. some o) same), named)
  authenticated_subject-IsTrusted names none b d name s h = elim (Bool-cases allowed) [
    | inr e ↦ absurd (ground arith)
    | inl e ↦
        let found = rw (e, authenticated_subject) at (rw (s, authenticated_subject) at h) in
        let (a, m) = both e in
        (
          inr (refl, a, m, found),
          canonical_subject-IsNamed names (identity (get "langgraph_auth_user" d)) name found,
        )
  ]
    where
      allowed : Bool
      allowed =
          is_authenticated (get "langgraph_auth_user" d)
          && may_invoke y (get "langgraph_auth_permissions" d)

  name_subject_lem :
      (b d : Dict V) (name : String)
      → section y "configurable" b ≡ some d
      → name_subject y b name
        ≡ prepared
            (put "configurable" (of_dict (put "langgraph_auth_user_id" (of_text name) d)) b)
            name
  unfolding name_subject
  name_subject_lem b d name h = rw (h, name_subject) refl

  -- What a run whose section `configurable` is `d` was prepared with, for the owner `name`.
  pub record IsOwned (names : Subjects) (active : Option String) (d b : Dict V) (name : String)
      : Type 0 where
    pub named : IsNamed names name
    pub trusted : IsTrusted names active d name
    pub configurable : Dict V
    pub is_section : section y "configurable" b ≡ some configurable
    pub identified : get "langgraph_auth_user_id" configurable ≡ some (of_text name)

  abbrev owner_of : Dict V × String → Prepared y → Dict V × String
  owner_of other (prepared b name) = (b, name)
  owner_of other _ = other

  -- A section that was stripped of client limits still says who the user is.
  IsTrusted-Strips :
      (names : Subjects) (active : Option String) (d d' : Dict V) (name : String)
      → Strips y section_keys d d'
      → IsTrusted names active d' name
      → IsTrusted names active d name
  unfolding listed
  IsTrusted-Strips names active d d' name strips (inl h) = inl h
  IsTrusted-Strips names active d d' name strips (inr (n, a, m, c)) =
      let user : get "langgraph_auth_user" d' ≡ get "langgraph_auth_user" d =
        strips "langgraph_auth_user" in
      let may : get "langgraph_auth_permissions" d' ≡ get "langgraph_auth_permissions" d =
        strips "langgraph_auth_permissions" in
      inr (
        n,
        subst (λ u. is_authenticated u ≡ true) user a,
        subst (λ u. may_invoke y u ≡ true) may m,
        subst (λ u. canonical_subject names (identity u) ≡ subject name) user c,
      )

  name_subject-IsOwned :
      (names : Subjects) (active : Option String) (d b d' : Dict V) (name : String)
      → section y "configurable" b ≡ some d'
      → Strips y section_keys d d'
      → authenticated_subject y names active b ≡ subject name
      → IsOwned names active d
          (put "configurable" (of_dict (put "langgraph_auth_user_id" (of_text name) d')) b)
          name
  name_subject-IsOwned names active d b d' name s strips h =
      let (trusted, named) = authenticated_subject-IsTrusted names active b d' name s h in
      record {
        named = named;
        trusted = IsTrusted-Strips names active d d' name strips trusted;
        configurable = put "langgraph_auth_user_id" (of_text name) d';
        is_section =
            section-put y "configurable" "configurable"
              (put "langgraph_auth_user_id" (of_text name) d') b;
        identified = get-put "langgraph_auth_user_id" "langgraph_auth_user_id" (of_text name) d';
      }

  -- A run that `_prepare_run_config` lets start has an owner that the lease service has a digest for:
  -- the subject of the enclosing lease, or the authenticated user who may invoke the agent; and the
  -- owner is the `langgraph_auth_user_id` of its configuration, whatever the client had put there.
  pub prepare_run_config-IsOwned :
      (limit : ℕ) (names : Subjects) (active : Option String) (config d e b : Dict V)
      (name : String)
      → section y "configurable" config ≡ some d
      → section y "context" config ≡ some e
      → prepare_run_config y limit names active config ≡ prepared b name
      → IsOwned names active d b name
  unfolding prepare_run_config listed
  prepare_run_config-IsOwned limit names active config d e b name hd he h =
      let (b0, made, u, (d', has, strips), v, w) =
        bounded_run_config-Strips y limit config d e "other" hd he refl in
      let h0 = rw (made, prepare_run_config) at h in
      elim (Subject-cases (authenticated_subject y names active b0)) [
        | inl (n, q) ↦
            let h1 = sym (name_subject_lem b0 d' n has) ∙ (rw (q, prepare_run_config) at h0) in
            let own = ap (owner_of (b, name)) h1 in
            subst (λ p. IsOwned names active d p.0 p.1) own
              (name_subject-IsOwned names active d b0 d' n has strips q)
        | inr k ↦ absurd (ground arith)
      ]
