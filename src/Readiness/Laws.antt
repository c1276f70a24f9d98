-- ===== src/Readiness/Laws.antt =====
-- When the service is ready (data_agent/readiness.py).
use deep_data_agent.Prelude.{
  ℕ, ◌≡◌, refl, ap, ◌∙◌, ◌↔◌, ◌⊎◌, inl, inr, Bool, true, false, ◌&&◌, Option, none, some, List, [],
  ◌∷◌, String, str_eq, eq_iff, Bool-cases, arith, if◌then◌else◌,
}
use deep_data_agent.Readiness.{
  Url, Dependencies, is_filled, is_none, is_model_url, check_model_configuration, check_database,
  is_current, check_migration, check_redis, check_managed_files, component_result, check_readiness,
  is_ready_result, exit_code,
}

-- An address of the web with a host and without credentials.
abbrev pub IsModelUrl : Option Url → Type 0
IsModelUrl none = ⊥
IsModelUrl (some u) =
    ((u.scheme ≡ "http") ⊎ (u.scheme ≡ "https"))
    × (is_filled u.hostname ≡ true)
    × (u.username ≡ none)
    × (u.password ≡ none)

-- Every dependency is as it should be.
pub record IsServing (d : Dependencies) : Type 0 where
  pub configured : d.has_api_key ≡ true
  pub reachable : IsModelUrl d.model_url
  pub answers : d.selected ≡ some 1
  pub migrated :
      (head : String) × (d.script_heads ≡ some (head ∷ [])) × (d.database_heads ≡ some (head ∷ []))
  pub pinged : d.pinged ≡ some true
  pub closed : d.closes ≡ true
  pub stored : (d.root_stands ≡ true) × (d.takes_files ≡ true)

is_none-eq : (o : Option String) → is_none o ≡ true → o ≡ none
is_none-eq none h = refl
is_none-eq (some text) h = cc

is_model_url-IsModelUrl : (o : Option Url) → is_model_url o ≡ true → IsModelUrl o
unfolding is_model_url
is_model_url-IsModelUrl none h = cc
is_model_url-IsModelUrl (some u) h = (
  elim (Bool-cases (str_eq u.scheme "http")) [
    | inl e ↦ inl ((eq_iff u.scheme "http").0 e)
    | inr e ↦ inr ((eq_iff u.scheme "https").0 (ground arith))
  ],
  ground arith,
  is_none-eq u.username (ground arith),
  is_none-eq u.password (ground arith),
)

is_model_url_back : (o : Option Url) → IsModelUrl o → is_model_url o ≡ true
unfolding is_model_url
is_model_url_back none h = absurd h
is_model_url_back (some u) (inl e, filled, f, g) =
    rw ((eq_iff u.scheme "http").1 e) (rw filled (rw f (rw g)))
is_model_url_back (some u) (inr e, filled, f, g) =
    ground (arith, (eq_iff u.scheme "https").1 e, ap is_none f, ap is_none g)

check_database_lem : (o : Option ℕ) → check_database o ≡ true → o ≡ some 1
unfolding check_database
check_database_lem none h = cc
check_database_lem (some n) h = ground arith

is_current_lem :
    (head : String) (o : Option (List String)) → is_current head o ≡ true → o ≡ some (head ∷ [])
unfolding is_current
is_current_lem head none h = cc
is_current_lem head (some []) h = cc
is_current_lem head (some (i ∷ [])) h = ap (λ x. some (x ∷ [])) ((eq_iff i head).0 h)
is_current_lem head (some (i ∷ j ∷ more)) h = cc

check_migration_lem :
    (scripts current : Option (List String))
    → check_migration scripts current ≡ true
    → (head : String) × (scripts ≡ some (head ∷ [])) × (current ≡ some (head ∷ []))
unfolding check_migration
check_migration_lem none current h = cc
check_migration_lem (some []) current h = cc
check_migration_lem (some (head ∷ [])) current h = (head, refl, is_current_lem head current h)
check_migration_lem (some (head ∷ other ∷ more)) current h = cc

migration_back :
    (head : String) (scripts current : Option (List String))
    → scripts ≡ some (head ∷ [])
    → current ≡ some (head ∷ [])
    → check_migration scripts current ≡ true
unfolding check_migration is_current
migration_back head scripts current e f = rw e (rw f ((eq_iff head head).1 refl))

check_redis_lem :
    (o : Option Bool) (c : Bool) → check_redis o c ≡ true → (o ≡ some true) × (c ≡ true)
unfolding check_redis
check_redis_lem none c h = cc
check_redis_lem (some true) c h = (refl, h)
check_redis_lem (some false) c h = cc

-- The conjunction of the checks.
abbrev checks : Dependencies → Bool
checks d =
    check_model_configuration d
    && check_database d.selected
    && check_migration d.script_heads d.database_heads
    && check_redis d.pinged d.closes
    && check_managed_files d

exit_code-checks : (d : Dependencies) → exit_code d ≡ (if checks d then 0 else 1)
unfolding exit_code is_ready_result check_readiness component_result
exit_code-checks d = ground arith

-- The health check succeeds exactly if the key and the address of the model are in order, the database
-- answers, it stands at the one head of the migrations, Redis answers and the file storage takes a file.
pub exit_code_zero : (d : Dependencies) → (exit_code d ≡ 0) ↔ IsServing d
unfolding check_model_configuration check_managed_files check_redis check_database
exit_code_zero d = (
  (λ h.
      let e = exit_code-checks d in
      let all_pass : checks d ≡ true = ground arith in
      record {
        configured = ground arith;
        reachable = is_model_url-IsModelUrl d.model_url (ground arith);
        answers = check_database_lem d.selected (ground arith);
        migrated = check_migration_lem d.script_heads d.database_heads (ground arith);
        pinged = (check_redis_lem d.pinged d.closes (ground arith)).0;
        closed = (check_redis_lem d.pinged d.closes (ground arith)).1;
        stored = (ground arith, ground arith);
      }),
  λ v.
      let (head, e, f) = v.migrated in
      let m = migration_back head d.script_heads d.database_heads e f in
      exit_code-checks d
      ∙ rw v.configured (
          rw (is_model_url_back d.model_url v.reachable)
            (rw v.answers (rw m (rw v.pinged (rw v.closed (rw v.stored.0 (rw v.stored.1))))))),
)
