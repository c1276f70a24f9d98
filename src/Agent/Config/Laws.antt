-- ===== src/Agent/Config/Laws.antt =====
-- What the configuration of a run is worth (data_agent/services/agent_service.py).
use deep_data_agent.Prelude.{
  ℕ, ◌≡◌, refl, ap, subst, ◌∙◌, inl, inr, Bool, false, Option, none, some, List, [], ◌∷◌, String,
  listed, str_eq, eq_iff, arith, Option-cases, if◌then◌else◌,
}
use deep_data_agent.Agent.Config.Entries.{Dict, get, put, pop_all, get-put, get-pop_all}
use deep_data_agent.Agent.Config.{
  Values, client_keys, section_keys, section, bound_context, bound_configurable, bounded_run_config,
}

unlisted :
    (k a b c : String)
    → listed k (a ∷ b ∷ c ∷ []) ≡ false
    → (str_eq k a ≡ false) × (str_eq k b ≡ false) × (str_eq k c ≡ false)
unfolding listed
unlisted k a b c h = ground arith

if_false : {A : Type 0} {b : Bool} (x z : A) → b ≡ false → (if b then x else z) ≡ z
if_false x z h = rw h refl

module _ (y : Values) where
  open y use {V, entries, of_dict, of_number, of_text, is_authenticated, identity, entries-of_dict}

  section_cong : (k : String) (a b : Dict V) → get k a ≡ get k b → section y k a ≡ section y k b
  unfolding section
  section_cong k a b h = rw (h, section) refl

  pub section-put :
      (k i : String) (d e : Dict V)
      → section y k (put i (of_dict d) e) ≡ (if str_eq k i then some d else section y k e)
  unfolding section
  section-put k i d e = ground (arith, get-put k i (of_dict d) e, entries-of_dict d)

  section-put_other :
      (k i : String) (v : V) (e : Dict V)
      → str_eq k i ≡ false
      → section y k (put i v e) ≡ section y k e
  unfolding section
  section-put_other k i v e h = ground (arith, get-put k i v e)

  section-pop_all :
      (k : String) (ks : List String) (e : Dict V)
      → listed k ks ≡ false
      → section y k (pop_all ks e) ≡ section y k e
  unfolding section
  section-pop_all k ks e h = ground (arith, get-pop_all k ks e)

  -- The second dict has the entries of the first but those of the keys.
  abbrev pub Strips : List String → Dict V → Dict V → Type 0
  Strips ks old new = (k : String) → get k new ≡ (if listed k ks then none else get k old)

  Strips-empty : (ks : List String) (e : Dict V) → some [] ≡ some e → Strips ks e []
  unfolding get
  Strips-empty ks e h = subst (λ d. Strips ks d []) (ap entries_of h) (λ k. ground arith)
    where
      entries_of : Option (Dict V) → Dict V
      entries_of none = []
      entries_of (some d) = d

  bound_configurable_lem :
      (c d : Dict V)
      → section y "configurable" c ≡ some d
      → bound_configurable y c ≡ some (put "configurable" (of_dict (pop_all section_keys d)) c)
  unfolding bound_configurable
  bound_configurable_lem c d h = rw (h, bound_configurable) refl

  -- What `context` is afterwards, and that the other keys stay.
  bound_context_lem :
      (c e : Dict V)
      → section y "context" c ≡ some e
      → (b : Dict V) × (bound_context y c ≡ some b)
        × ((d : Dict V) × (section y "context" b ≡ some d) × Strips section_keys e d)
        × ((k : String) → get k b ≡ (if str_eq k "context" then get "context" b else get k c))
  unfolding bound_context section
  bound_context_lem c e h = elim (Option-cases (get "context" c)) [
    | inl n ↦ (
      c,
      rw (n, bound_context) refl,
      ([], rw (n, section) refl, Strips-empty section_keys e (rw (n, section) at h)),
      λ k. ground (arith, eq_iff k "context"),
    )
    | inr (u, n) ↦ (
      put "context" (of_dict (pop_all section_keys e)) c,
      rw (n, bound_context) (rw (rw (n, section) at h) refl),
      (
        pop_all section_keys e,
        section-put "context" "context" (pop_all section_keys e) c,
        λ k. get-pop_all k section_keys e,
      ),
      λ k.
          ground
            (arith, get-put k "context" (of_dict (pop_all section_keys e)) c, eq_iff k "context"),
    )
  ]

  -- The keys of a configuration that the server sets or rebuilds.
  abbrev pub server_keys : List String
  server_keys = "recursion_limit" ∷ "configurable" ∷ "context" ∷ []

  -- Where `configurable` and `context` convert to dicts, the run's configuration has the server's
  -- recursion limit, the two sections without the limits and the identity that a client put there,
  -- and of the other keys those that are no client limit, unchanged.
  pub bounded_run_config-Strips :
      (limit : ℕ) (config d e : Dict V) (k : String)
      → section y "configurable" config ≡ some d
      → section y "context" config ≡ some e
      → listed k server_keys ≡ false
      → (b : Dict V) × (bounded_run_config y limit config ≡ some b)
        × (get "recursion_limit" b ≡ some (of_number limit))
        × ((d' : Dict V) × (section y "configurable" b ≡ some d') × Strips section_keys d d')
        × ((e' : Dict V) × (section y "context" b ≡ some e') × Strips section_keys e e')
        × (get k b ≡ (if listed k client_keys then none else get k config))
  unfolding bounded_run_config listed
  bounded_run_config-Strips limit config d e k hd he other =
      let c0 = pop_all client_keys config in
      let d' = pop_all section_keys d in
      let c1 = put "configurable" (of_dict d') c0 in
      let had = section-pop_all "configurable" client_keys config refl ∙ hd in
      let hae =
        section-put_other "context" "configurable" (of_dict d') c0 refl
        ∙ section-pop_all "context" client_keys config refl
        ∙ he in
      let (c2, made, (e', has, strips), kept) = bound_context_lem c1 e hae in
      let apart = unlisted k "recursion_limit" "configurable" "context" other in
      (
        put "recursion_limit" (of_number limit) c2,
        rw (bound_configurable_lem c0 d had, bounded_run_config)
            (rw (made, bounded_run_config) refl),
        get-put "recursion_limit" "recursion_limit" (of_number limit) c2,
        (
          d',
          section-put_other "configurable" "recursion_limit" (of_number limit) c2 refl
              ∙ section_cong "configurable" c2 c1 (kept "configurable")
              ∙ section-put "configurable" "configurable" d' c0,
          λ i. get-pop_all i section_keys d,
        ),
        (e', section-put_other "context" "recursion_limit" (of_number limit) c2 refl ∙ has, strips),
        get-put k "recursion_limit" (of_number limit) c2
            ∙ if_false _ _ apart.0
            ∙ kept k
            ∙ if_false _ _ apart.2
            ∙ get-put k "configurable" (of_dict d') c0
            ∙ if_false _ _ apart.1
            ∙ get-pop_all k client_keys config,
      )
