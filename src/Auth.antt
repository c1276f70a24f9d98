-- ===== src/Auth.antt =====
-- data_agent/services/auth_service.py: access tokens and the users they stand for. The library jose, the
-- password hash, Python's functions on text and the database session are parameters. Times are
-- microseconds, ids of users natural numbers.
pub mod Accounts
pub mod Laws
pub mod Registration
pub mod Threads
mod Tests
use deep_data_agent.Prelude.{
  ℕ, ◌+◌, Bool, true, false, ◌&&◌, ◌||◌, not, Option, none, some, String, str_eq, ◌==◌,
  if◌then◌else◌,
}

-- `jwt.encode` of a subject and an expiry, and `jwt.decode` at a time: `none` is a JWTError, else the claim
-- `sub`, if it is a str.
pub record Jwt : Type 0 where
  pub encode : String → ℕ → String → String
  pub decode : String → String → ℕ → Option (Option String)

-- Python on text, by the calls of the source; `int` is `none` where it raises ValueError, and `partition`
-- is that at the first space, with whether there is one.
pub record Texts : Type 0 where
  pub is_digit : String → Bool
  pub int : String → Option ℕ
  pub str : ℕ → String
  pub strip : String → String
  pub lower : String → String
  pub partition : String → String × Bool × String
  pub has_space : String → Bool

-- How a call ends: a value, ConfigurationError or its 503, InvalidCredentialsError or its 401, or another
-- exception.
pub data Answer (A : Type 0) : Type 0 where
  granted : A → Answer A
  not_configured invalid_credentials raised : Answer A

infix 20 ◌next◌
abbrev pub ◌next◌ : {A B : Type 0} → Answer A → (A → Answer B) → Answer B
granted a next f = f a
not_configured next f = not_configured
invalid_credentials next f = invalid_credentials
raised next f = raised

-- `config.require_jwt_secret_key()`, and `require_auth_configured`
abbrev pub require_secret : Option String → Answer String
require_secret none = not_configured
require_secret (some secret) = granted secret

-- `expires_delta or timedelta(minutes=...)`: an empty delta is the default.
unfoldable pub lifetime_of : Option ℕ → ℕ → ℕ
lifetime_of none default = default
lifetime_of (some delta) default = if delta == 0 then default else delta

module _ (j : Jwt) (x : Texts) where
  -- `create_access_token`
  unfoldable pub create_access_token : Option String → ℕ → ℕ → ℕ → Option ℕ → Answer String
  create_access_token secret default now user_id expires_delta =
      if user_id == 0
      then raised
      else (require_secret secret next λ key.
          granted (j.encode (x.str user_id) (now + lifetime_of expires_delta default) key))

  -- The test on the claim `sub`.
  unfoldable pub subject_id : Option String → Answer ℕ
  subject_id none = invalid_credentials
  subject_id (some subject) =
      if x.is_digit subject
      then elim (x.int subject) [
        | none ↦ raised
        | some i ↦
            if i == 0 || not (str_eq (x.str i) subject) then invalid_credentials else granted i
      ]
      else invalid_credentials

  -- `decode_access_token_subject`
  unfoldable pub decode_access_token_subject : Option String → ℕ → String → Answer ℕ
  decode_access_token_subject secret now token = require_secret secret next λ key.
      elim (j.decode token key now) [
        | none ↦ invalid_credentials
        | some subject ↦ subject_id subject
      ]

  -- `bearer_token_from_header`
  unfoldable pub bearer_token_from_header : Option String → Answer String
  bearer_token_from_header none = invalid_credentials
  bearer_token_from_header (some authorization) =
      let (scheme, separator, token) = x.partition (x.strip authorization) in
      if not separator
        || not (str_eq (x.lower scheme) "bearer")
        || str_eq (x.strip token) ""
        || x.has_space (x.strip token)
      then invalid_credentials
      else granted (x.strip token)

-- A row of the users table.
pub record User : Type 0 where
  pub id : ℕ
  pub username : String
  pub email : String
  pub hashed_password : String
  pub role : String

abbrev pub known_user : Option User → Answer User
known_user none = invalid_credentials
known_user (some user) = granted user

module _ (j : Jwt) (x : Texts) (secret : Option String) (by_id : ℕ → Option User) where
  -- `get_user_for_access_token`
  unfoldable pub get_user_for_access_token : ℕ → String → Answer User
  get_user_for_access_token now token =
      decode_access_token_subject j x secret now token next λ i. known_user (by_id i)

  -- `get_user_for_authorization_header`
  unfoldable pub get_user_for_authorization_header : ℕ → Option String → Answer User
  get_user_for_authorization_header now authorization =
      bearer_token_from_header j x authorization next get_user_for_access_token now

  -- `get_current_user`
  unfoldable pub get_current_user : ℕ → Option String → Answer User
  get_current_user now token = require_secret secret next λ key. elim token [
    | none ↦ invalid_credentials
    | some t ↦ if str_eq t "" then invalid_credentials else get_user_for_access_token now t
  ]

-- `decode_access_token`
unfoldable pub decode_access_token : Jwt → Texts → Option String → ℕ → String → Answer ℕ
decode_access_token j x secret now token =
    require_secret secret next λ key. decode_access_token_subject j x secret now token
