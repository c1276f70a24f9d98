-- ===== src/Auth/Tests.antt =====
-- Tokens that are written in bits, a table of one user, and the theorems of authentication there.
use deep_data_agent.Prelude.{
  ℕ, zero, suc, ◌+◌, ◌*◌, ◌/◌, ◌%◌, ◌≤◌, ◌≡◌, refl, sym, ap, inl, inr, ◌↔◌, Bool, true, false,
  Option, none, some, List, [], ◌∷◌, ◌++◌, String, str_eq, eq_iff, leb, ◌==◌, if◌then◌else◌,
  Bool-cases, arith,
}
use mathlib.Core.Option.{some-injective}
use Prim.Native.Char.{Char, code}
use deep_data_agent.Agent.Config.Entries.{Dict, get}
use deep_data_agent.Auth.{
  Jwt, Texts, invalid_credentials, lifetime_of, create_access_token, subject_id,
  decode_access_token_subject, User, known_user, get_user_for_access_token, get_current_user,
}
use deep_data_agent.Auth.Accounts.{
  NewUser, committed, Users, Passwords, UserCreate, refreshed_user, after_commit, create_user,
  register, login,
}
use deep_data_agent.Auth.Laws.{
  IsJwt, IsDecimal, IsCredential, login-get_current_user, login-expires, IsAuthentic,
  get_current_user-IsAuthentic,
}
use deep_data_agent.Auth.Registration.{IsSession, Atomic, register_atomic, register-login}
use deep_data_agent.Auth.Threads.{
  caller_of, dict, other, authorize_thread_owner, Server, threads_apart,
}

-- The bits of a number from the lowest on, then "." and the rest.
write_bits : ℕ → ℕ → String → String
write_bits zero n rest = String.◌∷◌ "." rest
write_bits (suc f) n rest =
    let more = write_bits f (n / 2) rest in
    if n == 0 then String.◌∷◌ "." rest else String.◌∷◌ (if n % 2 == 0 then "0" else "1") more

twice : ℕ → Option (ℕ × String) → Option (ℕ × String)
twice b none = none
twice b (some (n, rest)) = some (2 * n + b, rest)

read_bits : String → Option (ℕ × String)
read_bits String.[] = none
read_bits (String.◌∷◌ c s) =
    let more = read_bits s in
    if code c == b'.' then some (0, s) else twice (if code c == b'0' then 0 else 1) more

read_bits-write_bits :
    (f n : ℕ) (rest : String) → n ≤ f → read_bits (write_bits f n rest) ≡ some (n, rest)
unfolding read_bits write_bits twice
read_bits-write_bits zero n rest h = ground arith
read_bits-write_bits (suc f) n rest h = elim (Bool-cases (n == 0)) [
  | inl e ↦ rw e (ground arith)
  | inr e ↦ elim (Bool-cases (n % 2 == 0)) [
    | inl even ↦
        rw e (rw even (rw (read_bits-write_bits f (n / 2) rest (ground arith)) (ground arith)))
    | inr odd ↦
        rw e (rw odd (rw (read_bits-write_bits f (n / 2) rest (ground arith)) (ground arith)))
  ]
]

-- A token is its expiry and its subject; keys are not looked at.
abbrev valid_at : ℕ → Option (ℕ × String) → Option (Option String)
valid_at now none = none
valid_at now (some (expire, subject)) = if leb now expire then some (some subject) else none

abbrev jwt : Jwt
jwt = record {
  encode = λ subject expire key. write_bits expire expire subject;
  decode = λ token key now. valid_at now (read_bits token);
}

filled : (c : Char) (s : String) → str_eq (String.◌∷◌ c s) "" ≡ false
filled c s = elim (Bool-cases (str_eq (String.◌∷◌ c s) "")) [
  | inl e ↦ let same : String.◌∷◌ c s ≡ "" = (eq_iff (String.◌∷◌ c s) "").0 e in cc
  | inr e ↦ e
]

write_bits_filled : (f n : ℕ) (s : String) → str_eq (write_bits f n s) "" ≡ false
unfolding write_bits
write_bits_filled zero n s = filled "." s
write_bits_filled (suc f) n s = elim (Bool-cases (n == 0)) [
  | inl e ↦ rw e (filled "." s)
  | inr e ↦ rw e (filled (if n % 2 == 0 then "0" else "1") (write_bits f (n / 2) s))
]

valid :
    (s : String) (e now : ℕ) → now ≤ e → valid_at now (read_bits (write_bits e e s)) ≡ some (some s)
valid s e now h = rw (read_bits-write_bits e e s (omega arith)) (ground arith)

expired :
    (s : String) (e now : ℕ)
    → e + 1000000 ≤ now
    → valid_at now (read_bits (write_bits e e s)) ≡ none
expired s e now h = rw (read_bits-write_bits e e s (omega arith)) (ground arith)

is_jwt : IsJwt jwt
is_jwt = record {
  encode_filled = λ s key e. write_bits_filled e e s;
  decode_encode = λ s key e now h. valid s e now h;
  decode_expired = λ s key e now h. expired s e now h;
}

abbrev number : Option (ℕ × String) → Option ℕ
number none = none
number (some (n, rest)) = some n

abbrev texts : Texts
texts = record {
  is_digit = λ s. true;
  int = λ s. number (read_bits s);
  str = λ n. write_bits n n "";
  strip = λ s. s;
  lower = λ s. s;
  partition = λ s. ("bearer", true, s);
  has_space = λ s. false;
}

is_decimal : IsDecimal texts
is_decimal = record {
  digits = λ n. refl;
  int_str = λ n. ap number (read_bits-write_bits n n "" (omega arith));
}

abbrev ana : User
ana = record { id = 7; username = "ana"; email = "a@b"; hashed_password = "secret"; role = "user" }

abbrev by_id : ℕ → Option User
by_id i = if i == 7 then some ana else none

-- The names that are found, the row that is added and the rows that are saved.
abbrev Accounts : Type 0
Accounts = (String → Option User) × List User × List User

abbrev made : NewUser → User
made n = record {
  id = 7;
  username = n.username;
  email = n.email;
  hashed_password = n.hashed_password;
  role = "user";
}

abbrev users : Users
users = record {
  Store = Accounts;
  by_id = λ i s. by_id i;
  by_username = λ name s. s.0 name;
  by_email = λ email s. none;
  add = λ n s.
      ((λ name. if str_eq name n.username then some (made n) else s.0 name), made n ∷ [], s.2);
  commit = λ s. (committed, (s.0, [], s.2 ++ s.1));
  rollback = λ s. (s.0, [], s.2);
  refresh = λ n s. some (made n);
}

abbrev passwords : Passwords
passwords = record {
  verify = λ password hashed. str_eq password hashed;
  hash = λ salt password. password;
}

named :
    (n : NewUser) (o : Option User)
    → (if str_eq n.username n.username then some (made n) else o) ≡ some (made n)
named n o = rw ((eq_iff n.username n.username).1 refl)

session : IsSession users
session = record {
  saved = λ s. s.2;
  rollback_saved = λ s. refl;
  commit_failure = λ n s h. absurd (h refl);
  commit_saved = λ n s h. refl;
  row = λ n s. made n;
  row_values = λ n s h. (refl, refl, refl, omega arith);
  found = λ n s h free. named n (s.0 n.username);
  refreshed = λ n s u h f. some-injective u (made n) (sym f);
}

abbrev stored : Accounts
stored = ((λ name. if str_eq name "ana" then some ana else none), [], ana ∷ [])

abbrev token : String
token = jwt.encode (texts.str 7) 60000005 "key"

abbrev short : String
short = jwt.encode (texts.str 7) 20 "key"

login-get_current_user_example :
    (u : User) × IsCredential users passwords jwt texts "ana" "secret" stored u
    × (get_current_user jwt texts (some "key") by_id 9 (some token) ≡ known_user (by_id u.id))
unfolding login create_access_token lifetime_of
login-get_current_user_example =
    login-get_current_user users passwords jwt texts is_jwt is_decimal (some "key") 1 5 "ana"
      "secret" token stored 9 by_id refl (omega arith)

login-expires_example :
    get_current_user jwt texts (some "key") by_id 61000005 (some token) ≡ invalid_credentials
unfolding login create_access_token lifetime_of
login-expires_example =
    login-expires users passwords jwt texts is_jwt is_decimal (some "key") 1 5 "ana" "secret" token
      stored 61000005 by_id refl (omega arith)

get_current_user-IsAuthentic_example :
    (t : String) × (some short ≡ some t) × IsAuthentic jwt texts (some "key") by_id 9 t ana
unfolding get_current_user get_user_for_access_token decode_access_token_subject subject_id
    write_bits read_bits twice
get_current_user-IsAuthentic_example =
    get_current_user-IsAuthentic jwt texts (some "key") by_id 9 (some short) ana refl

abbrev form : UserCreate
form = record { username = "bob"; email = "b@b"; password = "password" }

register_atomic_example :
    let run = register users passwords "salt" form stored in
    Atomic users passwords session "salt" form run.0 stored run.1
register_atomic_example = register_atomic users passwords session "salt" form stored

register-login_example :
    login users passwords jwt texts
      (some "key")
      1
      5
      "bob"
      "password"
      (register users passwords "salt" form stored).1
    ≡ create_access_token jwt texts (some "key") 60000000 5 7 (some 60000000)
unfolding register create_user after_commit refreshed_user
register-login_example =
    register-login users passwords session jwt texts
      (λ salt password. (eq_iff password password).1 refl) "salt" "key" 1 5 form stored
      (made (record { username = "bob"; email = "b@b"; hashed_password = "password" })) refl refl

-- A server that looks for the owner alone.
abbrev owns : Dict String → Dict String → Bool
owns [] metadata = true
owns ((key, value) ∷ more) metadata = elim (get key metadata) [
  | none ↦ false
  | some v ↦ str_eq v value
]

owns_iff :
    (key value : String) (metadata : Dict String)
    → (owns ((key, value) ∷ []) metadata ≡ true) ↔ (get key metadata ≡ some value)
owns_iff key value metadata = found (get key metadata)
  where
    found :
        (o : Option String)
        → ((elim o as (λ q. Bool) [ none ↦ false | some v ↦ str_eq v value ]) ≡ true)
          ↔ (o ≡ some value)
    found none = ((λ h. cc), λ h. cc)
    found (some v) = ((λ h. ap some ((eq_iff v value).0 h)), λ h. (eq_iff v value).1 (ground arith))

abbrev server : Server String
server = record { text = λ s. s; admits = owns; text_injective = λ a b h. h; admits_iff = owns_iff }

threads_apart_example :
    (owns
        (authorize_thread_owner (λ s. s) (caller_of texts ana) other).1
        (authorize_thread_owner (λ s. s) (caller_of texts (record ana { id = 8 })) (dict [])).0
      ≡ true)
    ↔ (◌≡◌ {A = ℕ} 7 8)
threads_apart_example =
    threads_apart server texts is_decimal (record ana { id = 8 }) ana (dict []) other
