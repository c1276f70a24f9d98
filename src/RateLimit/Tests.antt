-- ===== src/RateLimit/Tests.antt =====
-- The limiter over a store of counters, and its theorems at requests of one window.
use deep_data_agent.Prelude.{
  ℕ, ◌+◌, ◌≡◌, refl, ◌≢◌, inl, inr, true, false, some, List, [], ◌∷◌, arith, if◌then◌else◌, none,
  str_eq, listed, Bool-cases, eq_iff,
}
use deep_data_agent.Prelude.Int.{pos}
use deep_data_agent.Recovery.{recoverable, get_client, protection_state, mark_unavailable, exponent}
use deep_data_agent.Recovery.Clock.{min_seconds, max_seconds}
use deep_data_agent.Recovery.Tests.{whole_seconds, backoff, up}
use deep_data_agent.Gate.{Gate}
use deep_data_agent.Gate.Redis.{Reading, IsKept, redis_gate}
use deep_data_agent.RateLimit.{
  value, failed, unavailable, unavailable_decision, is_fail_open, WindowKey, Counters,
  RateLimitDecision, Request, Reads, World, counted, expire_first, decide, count_request, check,
  window_key,
}
use deep_data_agent.RateLimit.Window.{
  Counts, same_key, same_key-true, serve, admitted, serve_admits,
}
use deep_data_agent.RateLimit.Failure.{IsDecision, check_decides}
use deep_data_agent.Auth.{Jwt, Texts}
use deep_data_agent.RateLimit.Middleware.{
  Quotas, Call, Splits, Response, resolve_scope, hop_from_end, hops_of, client_ip, resolve_identity,
  bearer_token, answer, refuse, limited, dispatch,
}
use deep_data_agent.RateLimit.Middleware.Hops.{
  client_ip-prepend, IsCarriedOut, IsDecided, dispatch-IsCarriedOut,
}

-- A store is the count of each key.
abbrev counts : Counters
counts = record {
  Store = WindowKey → ℕ;
  incr = λ k s. (value (s k + 1), λ j. if same_key k j then s j + 1 else s j);
  expire = λ k w s. (value tt, s);
  ttl = λ k s. (value (pos 42), s);
}

same_key_refl : (k : WindowKey) → same_key k k ≡ true
unfolding same_key
same_key_refl k = ground (arith, eq_iff k.scope k.scope, eq_iff k.digest k.digest)

same_key-apart : (k j : WindowKey) → k ≢ j → same_key k j ≡ false
same_key-apart k j n = elim (Bool-cases (same_key k j)) [
  | inl e ↦ absurd (n (same_key-true k j e))
  | inr e ↦ e
]

abbrev laws : Counts counts
laws = record {
  counter = λ s k. s k;
  incr_value = λ k s. refl;
  incr_self = λ k s. rw (same_key_refl k);
  incr_other = λ k j s n. rw (same_key-apart k j n);
  expire_value = λ k w s le. refl;
  expire_keeps = λ k j w s le. refl;
  left = λ k s. pos 42;
  ttl_value = λ k s. refl;
  ttl_keeps = λ k j s. refl;
}

abbrev gate : Gate
gate = redis_gate whole_seconds backoff

abbrev start : World gate counts (λ t. t)
start = record { gate = up; store = λ k. 0 }

abbrev login : Request
login = record { scope = "auth"; identity_key = "ip:1"; limit = 2; window_seconds = 60 }

abbrev upload : Request
upload = record { scope = "upload"; identity_key = "user:3"; limit = 5; window_seconds = 60 }

abbrev reading : Reading whole_seconds backoff
reading = record { now = 100; probe = recoverable; later = 101; random = 0 }

abbrev reads : Reads gate counts (λ t. t)
reads = record { window_index = 9; connects = reading; reports = reading; states = reading }

abbrev key : WindowKey
key = record { scope = "auth"; digest = "ip:1"; window_index = 9 }

abbrev asked : List (Request × Reads gate counts (λ t. t))
asked = (login, reads) ∷ (upload, reads) ∷ (login, reads) ∷ (login, reads) ∷ []

up-IsKept : IsKept whole_seconds backoff up
up-IsKept = record { kept = refl }

serve_admits_example :
    admitted gate counts (λ t. t) laws key asked (serve gate counts (λ t. t) laws asked start) ≡ 2
unfolding same_key window_key
serve_admits_example =
    serve_admits gate counts (λ t. t) laws key 2 asked start 7 up-IsKept refl
      (inr refl, (inl refl, (inr refl, (inr refl, tt)))) (omega arith)

-- Every command fails.
abbrev broken : Counters
broken = record {
  Store = ℕ;
  incr = λ k s. (failed, s);
  expire = λ k w s. (failed, s);
  ttl = λ k s. (failed, s);
}

abbrev broken_reads : Reads gate broken (λ t. t)
broken_reads = record { window_index = 9; connects = reading; reports = reading; states = reading }

check_decides_example : IsDecision gate counts (λ t. t) login reads start (counted 2 60 1 0)
unfolding check count_request expire_first decide get_client
check_decides_example =
    check_decides gate counts (λ t. t) login reads start (counted 2 60 1 0) up-IsKept (omega arith)
      refl

-- No token decodes, and a header is cut into the hops of these tests.
abbrev jwt : Jwt
jwt = record { encode = λ subject expire key. "t"; decode = λ token key now. none }

abbrev texts : Texts
texts = record {
  is_digit = λ s. true;
  int = λ s. none;
  str = λ n. "7";
  strip = λ s. s;
  lower = λ s. s;
  partition = λ s. ("bearer", true, s);
  has_space = λ s. false;
}

abbrev splits : Splits
splits = record {
  at_space = λ s. none;
  at_commas =
      λ s. if str_eq s "6.6.6.6, 1.2.3.4" then "6.6.6.6" ∷ "1.2.3.4" ∷ [] else "1.2.3.4" ∷ [];
}

abbrev post : Call
post = record {
  path = "/api/query";
  client = some "10.0.0.1";
  authorization = none;
  forwarded_for = some "1.2.3.4";
}

client_ip-prepend_example :
    client_ip jwt texts splits 1 (record post { forwarded_for = some "6.6.6.6, 1.2.3.4" })
    ≡ client_ip jwt texts splits 1 (record post { forwarded_for = some "1.2.3.4" })
unfolding hops_of
client_ip-prepend_example =
    client_ip-prepend jwt texts splits 1 post "1.2.3.4" "6.6.6.6, 1.2.3.4" ("6.6.6.6" ∷ [])
      (omega arith) (omega arith) refl refl refl

abbrev quotas : Quotas
quotas = record {
  enabled = true;
  trusted_proxy_count = 1;
  auth = (5, 60);
  query = (2, 60);
  session = (9, 60);
  default = (9, 60);
}

abbrev app : ℕ → Response × ℕ
app n = (
  record { status = 200; retry_after = none; limit = none; remaining = none; protection = none },
  n + 1,
)

abbrev broken_start : World gate broken (λ t. t)
broken_start = record { gate = up; store = 0 }

-- The answer to a query while every command of Redis fails.
abbrev refusal : Response
refusal = record {
  status = 503;
  retry_after = some 1;
  limit = some 2;
  remaining = some 0;
  protection = some unavailable;
}

dispatch-IsCarriedOut_example :
    (d : RateLimitDecision) × IsDecided jwt texts splits gate broken
      (λ t. t)
      app
      quotas
      (some "key")
      0
      post
      broken_reads
      broken_start
      d
    × IsCarriedOut app d 3 refusal 3
unfolding dispatch listed resolve_identity bearer_token client_ip hop_from_end hops_of limited
    resolve_scope check count_request answer refuse is_fail_open unavailable_decision get_client
    protection_state mark_unavailable min_seconds max_seconds exponent
dispatch-IsCarriedOut_example =
    dispatch-IsCarriedOut jwt texts splits gate broken (λ t. t) app quotas (some "key") 0 post
      broken_reads broken_start
      (dispatch jwt texts splits gate broken (λ t. t) app quotas (some "key") 0 post broken_reads
        broken_start 3).1
      3 3 refusal refl refl up-IsKept (omega arith) refl
