-- ===== src/Readiness.antt =====
-- data_agent/readiness.py: the checks behind `/api/ready` and the container's health check. What each check
-- asks of its dependency is a field; `none` stands for an exception.
pub mod Laws
mod Tests
use deep_data_agent.Prelude.{
  ℕ, Bool, true, false, ◌&&◌, ◌||◌, not, Option, none, some, List, [], ◌∷◌, String, str_eq, ◌==◌,
  map, all, if◌then◌else◌,
}

-- `urlsplit`
pub record Url : Type 0 where
  pub scheme : String
  pub hostname : Option String
  pub username : Option String
  pub password : Option String

pub record Dependencies : Type 0 where
  -- whether `require_model_api_key` returns, and the split MODEL_BASE_URL
  pub has_api_key : Bool
  pub model_url : Option Url
  -- the scalar of `SELECT 1`
  pub selected : Option ℕ
  -- the heads of the migration scripts, and those of the database
  pub script_heads : Option (List String)
  pub database_heads : Option (List String)
  -- whether `ping()` is True, and whether `close` returns
  pub pinged : Option Bool
  pub closes : Bool
  -- whether the storage root is there, and a temporary file is made and removed in it
  pub root_stands : Bool
  pub takes_files : Bool

pub data Component : Type 0 where
  model database migration redis managed_files : Component

-- `_FAILURE_CODES`
pub data Code : Type 0 where
  ready model_configuration_invalid database_unavailable migration_not_ready : Code
  redis_unavailable managed_file_storage_unavailable : Code

unfoldable pub failure_code : Component → Code
failure_code model = model_configuration_invalid
failure_code database = database_unavailable
failure_code migration = migration_not_ready
failure_code redis = redis_unavailable
failure_code managed_files = managed_file_storage_unavailable

pub record ComponentReadiness : Type 0 where
  pub is_ready : Bool
  pub code : Code

-- A check: whether it returns.
abbrev pub is_filled : Option String → Bool
is_filled none = false
is_filled (some text) = not (str_eq text "")

abbrev pub is_none : Option String → Bool
is_none none = true
is_none (some text) = false

unfoldable pub is_model_url : Option Url → Bool
is_model_url none = false
is_model_url (some u) =
    (str_eq u.scheme "http" || str_eq u.scheme "https")
    && is_filled u.hostname
    && is_none u.username
    && is_none u.password

-- `_check_model_configuration`
unfoldable pub check_model_configuration : Dependencies → Bool
check_model_configuration d = d.has_api_key && is_model_url d.model_url

-- `_check_database`
unfoldable pub check_database : Option ℕ → Bool
check_database none = false
check_database (some n) = n == 1

-- `current != heads` for one head.
unfoldable pub is_current : String → Option (List String) → Bool
is_current head none = false
is_current head (some []) = false
is_current head (some (h ∷ [])) = str_eq h head
is_current head (some (h ∷ i ∷ more)) = false

-- `_check_migration`
unfoldable pub check_migration : Option (List String) → Option (List String) → Bool
check_migration none current = false
check_migration (some []) current = false
check_migration (some (head ∷ [])) current = is_current head current
check_migration (some (head ∷ other ∷ more)) current = false

-- `_check_redis`
unfoldable pub check_redis : Option Bool → Bool → Bool
check_redis none closes = false
check_redis (some pong) closes = pong && closes

-- `_check_managed_files`
unfoldable pub check_managed_files : Dependencies → Bool
check_managed_files d = d.root_stands && d.takes_files

-- `_component_result`
unfoldable pub component_result : Component → Bool → ComponentReadiness
component_result c returns =
    if returns
    then record { is_ready = true; code = ready }
    else record { is_ready = false; code = failure_code c }

-- `check_readiness`
unfoldable pub check_readiness : Dependencies → List (Component × ComponentReadiness)
check_readiness d =
    (model, component_result model (check_model_configuration d))
    ∷ (database, component_result database (check_database d.selected))
    ∷ (migration, component_result migration (check_migration d.script_heads d.database_heads))
    ∷ (redis, component_result redis (check_redis d.pinged d.closes))
    ∷ (managed_files, component_result managed_files (check_managed_files d))
    ∷ []

-- `ReadinessResult.ready`
unfoldable pub is_ready_result : List (Component × ComponentReadiness) → Bool
is_ready_result components = all (λ c. c.1.is_ready) components

-- `main`
unfoldable pub exit_code : Dependencies → ℕ
exit_code d = if is_ready_result (check_readiness d) then 0 else 1
