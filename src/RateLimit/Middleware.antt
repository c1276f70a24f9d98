-- ===== src/RateLimit/Middleware.antt =====
-- `RateLimitMiddleware` of data_agent/observability/rate_limit_middleware.py over the limiter. The
-- application behind it, Python's functions on text and the tokens are parameters; events are not modelled.
pub mod Hops
use deep_data_agent.Prelude.{
  ℕ, ◌-◌, ◌≡◌, Bool, true, false, ◌&&◌, ◌||◌, not, Option, none, some, List, [], ◌∷◌, ◌++◌, String,
  str_eq, leb, keep, map, length, get_elem?, listed, ◌==◌, if◌then◌else◌,
}
use deep_data_agent.Auth.{Jwt, Texts}
use deep_data_agent.Gate.{Gate}
use deep_data_agent.RateLimit.{
  Counters, Status, enforced, degraded, unavailable, RateLimitDecision, Request, Reads, World,
  check,
}
use package.text.Mathlib.Text.{starts_with}
use Prim.Native.String.{◌++◌ as ◌followed_by◌}

-- The bounds of the configuration: requests and seconds for each scope.
pub record Quotas : Type 0 where
  pub enabled : Bool
  pub trusted_proxy_count : ℕ
  pub auth : ℕ × ℕ
  pub query : ℕ × ℕ
  pub session : ℕ × ℕ
  pub default : ℕ × ℕ

-- What the middleware reads of a request: the path, the peer, and two headers.
pub record Call : Type 0 where
  pub path : String
  pub client : Option String
  pub authorization : Option String
  pub forwarded_for : Option String

-- `header.split(" ", 1)` with two parts, or `none`; `header.split(",")`.
pub record Splits : Type 0 where
  pub at_space : String → Option (String × String)
  pub at_commas : String → List String

-- A subject of `_safe_token_subject`; `int_failed` is a ValueError of `int`, which stands after the `try`.
pub data TokenSubject : Type 0 where
  known : String → TokenSubject
  anonymous int_failed : TokenSubject

-- A response, as far as the middleware writes it.
pub record Response : Type 0 where
  pub status : ℕ
  pub retry_after : Option ℕ
  pub limit : Option ℕ
  pub remaining : Option ℕ
  pub protection : Option Status

abbrev pub health_paths : List String
health_paths = "/api/health" ∷ "/api/live" ∷ "/api/ready" ∷ []

-- `hops[-trusted]`, where there are so many.
unfoldable pub hop_from_end : ℕ → List String → Option String
hop_from_end trusted hops =
    if leb trusted (length hops) then get_elem? hops (length hops - trusted) else none

abbrev pub direct_peer : Option String → String
direct_peer none = "unknown"
direct_peer (some host) = host

-- `_resolve_scope`
unfoldable pub resolve_scope : Quotas → String → String × ℕ × ℕ
resolve_scope q path =
    if starts_with path "/api/auth"
    then ("auth", q.auth.0, q.auth.1)
    else if str_eq path "/api/query"
    then ("query", q.query.0, q.query.1)
    else if starts_with path "/api/sessions" || starts_with path "/api/files"
    then ("session", q.session.0, q.session.1)
    else ("default", q.default.0, q.default.1)

module _ (j : Jwt) (x : Texts) (p : Splits) where
  -- `_bearer_token`
  unfoldable pub bearer_token : Option String → Option String
  bearer_token none = none
  bearer_token (some header) = if str_eq header "" then none else elim (p.at_space header) [
    | none ↦ none
    | some (scheme, rest) ↦
        if not (str_eq (x.lower scheme) "bearer") || str_eq (x.strip rest) ""
        then none
        else some (x.strip rest)
  ]

  -- The test after the `try` of `_safe_token_subject`.
  unfoldable pub canonical_subject : Option String → TokenSubject
  canonical_subject none = anonymous
  canonical_subject (some text) =
      if x.is_digit text
      then elim (x.int text) [
        | none ↦ int_failed
        | some i ↦ if i == 0 || not (str_eq (x.str i) text) then anonymous else known text
      ]
      else anonymous

  -- `_safe_token_subject`
  unfoldable pub safe_token_subject : Option String → ℕ → String → TokenSubject
  safe_token_subject none now token = anonymous
  safe_token_subject (some key) now token = elim (j.decode token key now) [
    | none ↦ anonymous
    | some claim ↦ canonical_subject claim
  ]

  -- `hop.strip() for hop in forwarded.split(",") if hop.strip()`
  unfoldable pub hops_of : String → List String
  hops_of header = keep (λ hop. not (str_eq hop "")) (map x.strip (p.at_commas header))

  -- `_client_ip`
  unfoldable pub client_ip : ℕ → Call → String
  client_ip trusted c = if trusted == 0 then direct_peer c.client else elim c.forwarded_for [
    | none ↦ direct_peer c.client
    | some header ↦
        if str_eq header ""
        then direct_peer c.client
        else elim (hop_from_end trusted (hops_of header)) [
          | none ↦ direct_peer c.client
          | some hop ↦ hop
        ]
  ]

  -- `_resolve_identity`, the key; `none` is an exception.
  unfoldable pub resolve_identity : Option String → ℕ → ℕ → Call → Option String
  resolve_identity secret now trusted c = elim (bearer_token c.authorization) [
    | none ↦ some ("ip:" followed_by client_ip trusted c)
    | some token ↦ elim (safe_token_subject secret now token) [
      | known text ↦ some ("user:" followed_by text)
      | anonymous ↦ some ("ip:" followed_by client_ip trusted c)
      | int_failed ↦ none
    ]
  ]

-- A refusal, with 503 or 429.
unfoldable pub refuse : ℕ → RateLimitDecision → Response
refuse status d = record {
  status = status;
  retry_after = some d.retry_after;
  limit = some d.limit;
  remaining = some 0;
  protection = some d.protection_status;
}

-- The headers of an answer of the application.
unfoldable pub annotate : RateLimitDecision → Response → Response
annotate d response = record response {
  limit = some d.limit;
  remaining = some d.remaining;
  protection = some d.protection_status;
}

abbrev pub is_unavailable : Status → Bool
is_unavailable enforced = false
is_unavailable degraded = false
is_unavailable unavailable = true

-- `dispatch` after the decision, where `call_next` is the application over its state.
unfoldable pub answer : {S : Type 0} → (S → Response × S) → RateLimitDecision → S → Response × S
answer call_next d s =
    if is_unavailable d.protection_status
    then (refuse 503 d, s)
    else if d.allowed
    then (let (response, s') = call_next s in (annotate d response, s'))
    else (refuse 429 d, s)

module _ (j : Jwt) (x : Texts) (p : Splits) (g : Gate) (r : Counters) (digest : String → String)
    {S : Type 0} (call_next : S → Response × S) where
  -- The request to the limiter.
  unfoldable pub limited : Quotas → Call → String → Request
  limited q c key =
      let (scope, limit, window_seconds) = resolve_scope q c.path in
      record { scope = scope; identity_key = key; limit = limit; window_seconds = window_seconds }

  -- `dispatch`; `none` is an exception.
  unfoldable pub dispatch :
      Quotas
      → Option String
      → ℕ
      → Call
      → Reads g r digest
      → World g r digest
      → S
      → Option Response × World g r digest × S
  dispatch q secret now c reads w s =
      if not q.enabled || listed c.path health_paths
      then (let (response, s') = call_next s in (some response, w, s'))
      else elim (resolve_identity j x p secret now q.trusted_proxy_count c) [
        | none ↦ (none, w, s)
        | some key ↦
            let (decision, w') = check g r digest (limited q c key) reads w in
            elim decision [
              | none ↦ (none, w', s)
              | some d ↦ let (response, s') = answer call_next d s in (some response, w', s')
            ]
      ]
