-- ===== src/Auth/Laws.antt =====
-- What a token is good for, and how a request of a user is refused (data_agent/services/auth_service.py).
use deep_data_agent.Prelude.{
  ℕ, ◌+◌, ◌*◌, ◌≤◌, ◌≡◌, refl, sym, ap, ◌∙◌, inl, inr, true, false, not, ◌||◌, Option, none, some,
  String, str_eq, eq_iff, ◌==◌, if◌then◌else◌, Bool-cases, arith,
}
use deep_data_agent.Auth.{
  Jwt, Texts, Answer, granted, not_configured, invalid_credentials, raised, ◌next◌, lifetime_of,
  create_access_token, subject_id, decode_access_token_subject, User, known_user,
  get_user_for_access_token, get_current_user, require_secret,
}
use deep_data_agent.Auth.Accounts.{Users, Passwords, login}

-- jose, as documented: a token decodes under the key that signed it until it runs out, and no longer than
-- a second after.
pub record IsJwt (j : Jwt) : Type 0 where
  pub encode_filled :
      (subject key : String) (expire : ℕ) → str_eq (j.encode subject expire key) "" ≡ false
  pub decode_encode :
      (subject key : String) (expire now : ℕ)
      → now ≤ expire
      → j.decode (j.encode subject expire key) key now ≡ some (some subject)
  pub decode_expired :
      (subject key : String) (expire now : ℕ)
      → expire + 1000000 ≤ now
      → j.decode (j.encode subject expire key) key now ≡ none

-- Python's decimal digits: `str` of a number is made of digits, and `int` reads it back.
pub record IsDecimal (x : Texts) : Type 0 where
  pub digits : (n : ℕ) → x.is_digit (x.str n) ≡ true
  pub int_str : (n : ℕ) → x.int (x.str n) ≡ some n

pub next-eq-granted :
    {A B : Type 0} (m : Answer A) (f : A → Answer B) {b : B}
    → (m next f) ≡ granted b
    → (a : A) × (m ≡ granted a) × (f a ≡ granted b)
next-eq-granted (granted a) f h = (a, refl, h)
next-eq-granted not_configured f h = cc
next-eq-granted invalid_credentials f h = cc
next-eq-granted raised f h = cc

module _ (j : Jwt) (x : Texts) where
  subject_id-str : IsDecimal x → (i : ℕ) → 1 ≤ i → subject_id j x (some (x.str i)) ≡ granted i
  unfolding subject_id
  subject_id-str law i n =
      rw (law.digits i) (rw (law.int_str i) (ground (arith, eq_iff (x.str i) (x.str i))))

  create-IsEncoded :
      (secret : Option String) (default now i : ℕ) (delta : Option ℕ) (token : String)
      → create_access_token j x secret default now i delta ≡ granted token
      → (key : String) × (secret ≡ some key)
        × (1 ≤ i)
        × (j.encode (x.str i) (now + lifetime_of delta default) key ≡ token)
  unfolding create_access_token
  create-IsEncoded none default now i delta token h = ground arith
  create-IsEncoded (some key) default now i delta token h = (key, refl, ground arith, ground arith)

  module _ (law : IsJwt j) (digits : IsDecimal x) where
    decode-encode :
        (key : String) (expire now i : ℕ)
        → 1 ≤ i
        → now ≤ expire
        → decode_access_token_subject j x (some key) now (j.encode (x.str i) expire key) ≡ granted i
    unfolding decode_access_token_subject
    decode-encode key expire now i n le =
        rw (law.decode_encode (x.str i) key expire now le) (subject_id-str digits i n)

    decode-expired :
        (key : String) (expire now i : ℕ)
        → expire + 1000000 ≤ now
        → decode_access_token_subject j x (some key) now (j.encode (x.str i) expire key)
          ≡ invalid_credentials
    unfolding decode_access_token_subject
    decode-expired key expire now i le = rw (law.decode_expired (x.str i) key expire now le)

lifetime_of_self : (n : ℕ) → lifetime_of (some n) n ≡ n
unfolding lifetime_of
lifetime_of_self n = ground arith

module _ (t : Users) (p : Passwords) (j : Jwt) (x : Texts) where
  open t use {Store, by_id, by_username, by_email, add, commit, rollback, refresh}

  -- A user who may log in with this name and password.
  abbrev pub IsCredential : String → String → Store → User → Type 0
  IsCredential username password s user =
      (by_username (x.strip username) s ≡ some user)
      × (p.verify password user.hashed_password ≡ true)
      × (1 ≤ user.id)

  checked :
      (secret : Option String) (minutes now : ℕ) (password token : String) (user : User)
      → (if p.verify password user.hashed_password
          then create_access_token j x secret
              (minutes * 60000000)
              now
              user.id
              (some (minutes * 60000000))
          else invalid_credentials)
        ≡ granted token
      → (p.verify password user.hashed_password ≡ true)
        × (create_access_token j x secret
              (minutes * 60000000)
              now
              user.id
              (some (minutes * 60000000))
            ≡ granted token)
  checked secret minutes now password token user h = (ground arith, ground arith)

  login-IsCredential :
      (secret : Option String) (minutes now : ℕ) (username password token : String) (s : Store)
      → login t p j x secret minutes now username password s ≡ granted token
      → (key : String) × (user : User) × (secret ≡ some key)
        × IsCredential username password s user
        × (j.encode (x.str user.id) (now + minutes * 60000000) key ≡ token)
  unfolding login
  login-IsCredential none minutes now username password token s h = ground arith
  login-IsCredential (some key) minutes now username password token s h =
      looked_up (by_username (x.strip username) s) refl h
    where
      looked_up :
          (o : Option User)
          → by_username (x.strip username) s ≡ o
          → (elim o as (λ q. Answer String) [
            | none ↦ invalid_credentials
            | some user ↦
                if p.verify password user.hashed_password
                then create_access_token j x
                    (some key)
                    (minutes * 60000000)
                    now
                    user.id
                    (some (minutes * 60000000))
                else invalid_credentials
          ])
            ≡ granted token
          → (key' : String) × (user : User) × (some key ≡ some key')
            × IsCredential username password s user
            × (j.encode (x.str user.id) (now + minutes * 60000000) key' ≡ token)
      looked_up none e g = cc
      looked_up (some user) e g =
          let (verified, made) = checked (some key) minutes now password token user g in
          let (key', same, positive, encoded) =
            create-IsEncoded j x (some key) (minutes * 60000000) now user.id
              (some (minutes * 60000000)) token made in
          (
            key',
            user,
            same,
            (e, verified, positive),
            ap (λ q. j.encode (x.str user.id) (now + q) key')
                  (sym (lifetime_of_self (minutes * 60000000)))
                ∙ encoded,
          )

  module _ (law : IsJwt j) (digits : IsDecimal x) where
    -- A login that succeeds is one of a stored user with this name and password; and until the lifetime of
    -- its token is over, the token stands for the user who has this id in whatever table is asked.
    pub login-get_current_user :
        (secret : Option String) (minutes now : ℕ) (username password token : String) (s : Store)
        (later : ℕ) (table : ℕ → Option User)
        → login t p j x secret minutes now username password s ≡ granted token
        → later ≤ now + minutes * 60000000
        → (user : User) × IsCredential username password s user
          × (get_current_user j x secret table later (some token) ≡ known_user (table user.id))
    unfolding get_current_user get_user_for_access_token
    login-get_current_user secret minutes now username password token s later table h le =
        let (key, user, same, valid, encoded) =
          login-IsCredential secret minutes now username password token s h in
        (
          user,
          valid,
          rw same (
              rw (← encoded) (
                rw (law.encode_filled (x.str user.id) key (now + minutes * 60000000)) (
                  rw (
                    decode-encode j x law digits key (now + minutes * 60000000) later user.id
                      valid.2 le)))),
        )

    -- From a second after the end of its lifetime on, the token of a login is refused.
    pub login-expires :
        (secret : Option String) (minutes now : ℕ) (username password token : String) (s : Store)
        (later : ℕ) (table : ℕ → Option User)
        → login t p j x secret minutes now username password s ≡ granted token
        → now + minutes * 60000000 + 1000000 ≤ later
        → get_current_user j x secret table later (some token) ≡ invalid_credentials
    unfolding get_current_user get_user_for_access_token
    login-expires secret minutes now username password token s later table h le =
        let (key, user, same, valid, encoded) =
          login-IsCredential secret minutes now username password token s h in
        rw same (
          rw (← encoded) (
            rw (law.encode_filled (x.str user.id) key (now + minutes * 60000000))
              (rw (decode-expired j x law digits key (now + minutes * 60000000) later user.id le))))

module _ (j : Jwt) (x : Texts) (secret : Option String) (table : ℕ → Option User) where
  -- What a request must have to be one of `user`: a token that decodes under the configured key, whose
  -- subject is the canonical text of a positive id, and a row of this id.
  abbrev pub IsAuthentic : ℕ → String → User → Type 0
  IsAuthentic now token user =
      (key : String) × (subject : String) × (i : ℕ) × (secret ≡ some key)
      × (j.decode token key now ≡ some (some subject))
      × (1 ≤ i)
      × (x.str i ≡ subject)
      × (table i ≡ some user)

  subject_id-canonical :
      (subject : Option String) (i : ℕ)
      → subject_id j x subject ≡ granted i
      → (text : String) × (subject ≡ some text) × (1 ≤ i) × (x.str i ≡ text)
  unfolding subject_id
  subject_id-canonical none i h = cc
  subject_id-canonical (some text) i h = elim (Bool-cases (x.is_digit text)) [
    | inl e ↦ read (x.int text) (rw e at h)
    | inr e ↦ ground arith
  ]
    where
      read :
          (o : Option ℕ)
          → (elim o as (λ q. Answer ℕ) [
            | none ↦ raised
            | some n ↦
                if n == 0 || not (str_eq (x.str n) text) then invalid_credentials else granted n
          ])
            ≡ granted i
          → (text' : String) × (some text ≡ some text') × (1 ≤ i) × (x.str i ≡ text')
      read none g = cc
      read (some n) g =
          (text, refl, ground arith, ground (arith, eq_iff (x.str n) text, eq_iff (x.str i) text))

  known_user-found : (o : Option User) (user : User) → known_user o ≡ granted user → o ≡ some user
  known_user-found none user h = cc
  known_user-found (some u) user h = ground arith

  pub token-IsAuthentic :
      (now : ℕ) (token : String) (user : User)
      → get_user_for_access_token j x secret table now token ≡ granted user
      → IsAuthentic now token user
  unfolding get_user_for_access_token decode_access_token_subject
  token-IsAuthentic now token user h =
      let (i, e, g) = next-eq-granted (decode_access_token_subject j x secret now token) _ h in
      let (key, k, d) = next-eq-granted (require_secret secret) _ e in
      let (subject, s, c) = decoded key (j.decode token key now) i d in
      let (text, is_text, positive, same) = subject_id-canonical subject i c in
      (
        key,
        text,
        i,
        key_of secret key k,
        s ∙ ap some is_text,
        positive,
        same,
        known_user-found (table i) user g,
      )
    where
      key_of : (o : Option String) (key : String) → require_secret o ≡ granted key → o ≡ some key
      key_of none key h = cc
      key_of (some k) key h = ground arith

      decoded :
          (key : String) (o : Option (Option String)) (i : ℕ)
          → (elim o as (λ q. Answer ℕ) [
            | none ↦ invalid_credentials
            | some subject ↦ subject_id j x subject
          ])
            ≡ granted i
          → (subject : Option String) × (o ≡ some subject) × (subject_id j x subject ≡ granted i)
      decoded key none i g = cc
      decoded key (some subject) i g = (subject, refl, g)

  -- A request is taken for one of a user only with such a token.
  pub get_current_user-IsAuthentic :
      (now : ℕ) (token : Option String) (user : User)
      → get_current_user j x secret table now token ≡ granted user
      → (t : String) × (token ≡ some t) × IsAuthentic now t user
  unfolding get_current_user
  get_current_user-IsAuthentic now token user h =
      let (key, k, g) = next-eq-granted (require_secret secret) _ h in given token g
    where
      given :
          (o : Option String)
          → (elim o as (λ q. Answer User) [
            | none ↦ invalid_credentials
            | some t ↦
                if str_eq t ""
                then invalid_credentials
                else get_user_for_access_token j x secret table now t
          ])
            ≡ granted user
          → (t : String) × (o ≡ some t) × IsAuthentic now t user
      given none g = cc
      given (some t) g = (t, refl, token-IsAuthentic now t user (ground arith))
