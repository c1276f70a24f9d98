-- ===== src/Auth/Accounts.antt =====
-- `create_user` of data_agent/services/auth_service.py, and `register` and `login` of
-- data_agent/routes/auth.py, over a session of the users table.
use deep_data_agent.Prelude.{
  ℕ, ◌*◌, Bool, true, false, ◌&&◌, ◌||◌, Option, none, some, String, leb, if◌then◌else◌,
}
use deep_data_agent.Auth.{
  Jwt, Texts, Answer, invalid_credentials, ◌next◌, create_access_token, User, require_secret,
}
use Prim.Native.String.{count as characters}

-- What a new row is made of; the database adds the id and the role.
pub record NewUser : Type 0 where
  pub username : String
  pub email : String
  pub hashed_password : String

-- How `commit` ends: IntegrityError, or another exception.
pub data Commit : Type 0 where
  committed conflict broken : Commit

-- The session: `filter(...).first()` by each column, and the calls of the service.
pub record Users : Type 1 where
  pub Store : Type 0
  pub by_id : ℕ → Store → Option User
  pub by_username : String → Store → Option User
  pub by_email : String → Store → Option User
  pub add : NewUser → Store → Store
  pub commit : Store → Commit × Store
  pub rollback : Store → Store
  -- the row that `refresh` reads after the commit; `none` is an exception
  pub refresh : NewUser → Store → Option User

-- The password context of passlib; `hash` is given the salt.
pub record Passwords : Type 0 where
  pub verify : String → String → Bool
  pub hash : String → String → String

-- `unread` is the exception of `refresh`, `crash` any other one.
pub data Registered : Type 0 where
  registered : User → Registered
  registration_conflict unread crash : Registered

-- UserCreate, after pydantic checked its types.
pub record UserCreate : Type 0 where
  pub username : String
  pub email : String
  pub password : String

-- The validators of UserCreate, on the stripped name.
unfoldable pub validate : Texts → UserCreate → Option UserCreate
validate x u =
    let normalized = x.strip u.username in
    if leb 3 (characters normalized)
      && leb (characters normalized) 50
      && leb 8 (characters u.password)
    then some (record u { username = normalized })
    else none

module _ (t : Users) (p : Passwords) where
  open t use {Store, by_id, by_username, by_email, add, commit, rollback, refresh}

  -- `refresh` at the end of `create_user`.
  unfoldable pub refreshed_user : Option User → Registered
  refreshed_user none = unread
  refreshed_user (some user) = registered user

  -- `create_user` after `commit`.
  unfoldable pub after_commit : NewUser → Commit × Store → Registered × Store
  after_commit new (committed, s) = (refreshed_user (refresh new s), s)
  after_commit new (conflict, s) = (registration_conflict, rollback s)
  after_commit new (broken, s) = (crash, s)

  -- `create_user`
  unfoldable pub create_user : String → String → String → String → Store → Registered × Store
  create_user salt username email password s =
      let new : NewUser = record {
        username = username;
        email = email;
        hashed_password = p.hash salt password;
      } in
      after_commit new (commit (add new s))

  abbrev pub is_there : Option User → Bool
  is_there none = false
  is_there (some user) = true

  -- `register`, behind the router's test that authentication is configured.
  unfoldable pub register : String → UserCreate → Store → Registered × Store
  register salt u s =
      if is_there (by_username u.username s) || is_there (by_email u.email s)
      then (registration_conflict, s)
      else create_user salt u.username u.email u.password s

  -- `login`, with the lifetime of the configuration.
  unfoldable pub login :
      Jwt → Texts → Option String → ℕ → ℕ → String → String → Store → Answer String
  login j x secret minutes now username password s = require_secret secret next λ key.
      elim (by_username (x.strip username) s) [
        | none ↦ invalid_credentials
        | some user ↦
            if p.verify password user.hashed_password
            then create_access_token j x secret (minutes * 60000000) now user.id
                (some (minutes * 60000000))
            else invalid_credentials
      ]
