-- ===== src/RateLimit/Window.antt =====
-- With Redis at hand, `check` admits exactly the first requests of each window
-- (data_agent/services/rate_limit_service.py).
use Prim.Native.Nat.{min}
use deep_data_agent.Prelude.{
  ℕ, ◌+◌, ◌-◌, ◌≤◌, ◌∙◌, ◌≡◌, ap, ◌≢◌, ◌⊎◌, inl, inr, Bool, true, false, ◌&&◌, Option, none, some,
  List, [], ◌∷◌, String, str_eq, eq_iff, arith, leb, ◌==◌, if◌then◌else◌, All, Bool-cases,
}
use deep_data_agent.Prelude.Int.{ℤ}
use deep_data_agent.Gate.{Gate}
use deep_data_agent.RateLimit.{
  value, WindowKey, Counters, RateLimitDecision, Request, Reads, World, window_key, wait_for,
  counted, expire_first, decide, count_request, check,
}

-- Redis while no key of the window runs out: INCR counts one key by one and answers with its new
-- count, TTL leaves every count alone, and so does EXPIRE for a second or more.
pub record Counts (r : Counters) : Type 0 where
  pub counter : r.Store → WindowKey → ℕ
  pub incr_value : (k : WindowKey) (s : r.Store) → (r.incr k s).0 ≡ value (counter s k + 1)
  pub incr_self : (k : WindowKey) (s : r.Store) → counter (r.incr k s).1 k ≡ counter s k + 1
  pub incr_other : (k j : WindowKey) (s : r.Store) → k ≢ j → counter (r.incr k s).1 j ≡ counter s j
  pub expire_value : (k : WindowKey) (w : ℕ) (s : r.Store) → 1 ≤ w → (r.expire k w s).0 ≡ value tt
  pub expire_keeps :
      (k j : WindowKey) (w : ℕ) (s : r.Store) → 1 ≤ w → counter (r.expire k w s).1 j ≡ counter s j
  pub left : WindowKey → r.Store → ℤ
  pub ttl_value : (k : WindowKey) (s : r.Store) → (r.ttl k s).0 ≡ value (left k s)
  pub ttl_keeps : (k j : WindowKey) (s : r.Store) → counter (r.ttl k s).1 j ≡ counter s j

module _ (r : Counters) (h : Counts r) where
  open r use {Store, incr, expire, ttl}
  open h use {counter}

  expire_first_lem :
      (k j : WindowKey) (w count : ℕ) (s : Store)
      → 1 ≤ w
      → ((expire_first r k w count s).0 ≡ value tt)
        × (counter (expire_first r k w count s).1 j ≡ counter s j)
  unfolding expire_first
  expire_first_lem k j w count s le =
      ground (arith, h.expire_value k w s le, h.expire_keeps k j w s le)

  decide_lem :
      (k j : WindowKey) (limit w count : ℕ) (s : Store)
      → (retry : ℕ) × ((decide r k limit w count s).0 ≡ value (counted limit w count retry))
        × (counter (decide r k limit w count s).1 j ≡ counter s j)
  unfolding decide
  decide_lem k j limit w count s = (
    (if leb count limit then 0 else wait_for (h.left k s) w),
    ground (arith, h.ttl_value k s),
    ground (arith, h.ttl_keeps k j s),
  )

  -- With these replies the `try` counts the request, sets the expiry and decides.
  count_request_lem :
      (k : WindowKey) (limit w : ℕ) (s : Store)
      → 1 ≤ w
      → count_request r k limit w s
        ≡ decide r k limit w (counter s k + 1) (expire_first r k w (counter s k + 1) (incr k s).1).1
  unfolding count_request
  count_request_lem k limit w s le =
      rw (h.incr_value k s, count_request)
        (rw ((expire_first_lem k k w (counter s k + 1) (incr k s).1 le).0, count_request))

  count_request_decides :
      (k : WindowKey) (limit w : ℕ) (s : Store)
      → 1 ≤ w
      → (retry : ℕ) × ((count_request r k limit w s).0
          ≡ value (counted limit w (counter s k + 1) retry))
  count_request_decides k limit w s le =
      let d =
        decide_lem k k limit w (counter s k + 1)
          (expire_first r k w (counter s k + 1) (incr k s).1).1 in
      (d.0, rw (count_request_lem k limit w s le) d.1)

  count_request_counter :
      (k j : WindowKey) (limit w : ℕ) (s : Store)
      → 1 ≤ w
      → counter (count_request r k limit w s).1 j ≡ counter (incr k s).1 j
  count_request_counter k j limit w s le = rw (count_request_lem k limit w s le) (
      (decide_lem k j limit w (counter s k + 1) _).2
      ∙ (expire_first_lem k j w (counter s k + 1) (incr k s).1 le).1)

-- The texts of a key decide whether two keys are one.
unfoldable pub same_key : WindowKey → WindowKey → Bool
same_key k j =
    str_eq k.scope j.scope && str_eq k.digest j.digest && k.window_index == j.window_index

pub same_key-true : (k j : WindowKey) → same_key k j ≡ true → k ≡ j
unfolding same_key
same_key-true k j e = ground (arith, eq_iff k.scope j.scope, eq_iff k.digest j.digest)

same_key-false : (k j : WindowKey) → same_key k j ≡ false → k ≢ j
unfolding same_key
same_key-false k j e = λ p. ground (arith, eq_iff k.scope j.scope, eq_iff k.digest j.digest)

-- One request of the window, the `n + 1`st, is admitted below the limit.
admit_step :
    (n limit count own rest asked : ℕ)
    → count ≡ n
    → own ≡ limit
    → rest ≡ min asked (limit - (n + 1))
    → (if leb (count + 1) own then 1 else 0) + rest ≡ min (1 + asked) (limit - n)
admit_step n limit count own rest asked e l h = ground arith

-- A request of another window changes nothing for this one.
skip_step :
    (n limit rest asked : ℕ)
    → rest ≡ min asked (limit - (n + 0))
    → 0 + rest ≡ min (0 + asked) (limit - n)
skip_step n limit rest asked h = ground arith

module _ (g : Gate) (r : Counters) (digest : String → String) (h : Counts r) where
  open h use {counter}

  abbrev pub key_of : Request × Reads g r digest → WindowKey
  key_of (q, now) = window_key g r digest q now.window_index

  -- One request with Redis at hand.
  check_ready :
      (q : Request) (now : Reads g r digest) (w : World g r digest) (c : ℕ)
      → g.IsValid w.gate
      → g.client w.gate ≡ some c
      → 1 ≤ q.window_seconds
      → (retry : ℕ) × (check g r digest q now w ≡ (
        some (counted q.limit q.window_seconds (counter w.store (key_of (q, now)) + 1) retry),
        record {
          gate = w.gate;
          store = (count_request r (key_of (q, now)) q.limit q.window_seconds w.store).1;
        },
      ))
  unfolding check
  check_ready q now w c v up le =
      let d =
        count_request_decides r h (window_key g r digest q now.window_index) q.limit
          q.window_seconds w.store le in
      (
        d.0,
        rw (g.get_client_ready now.connects w.gate c v up, check)
            (rw (d.1, check) (rw (ap (λ p. p.1) (g.get_client_ready now.connects w.gate c v up)))),
      )

  -- The requests in turn, as one limiter serves them.
  abbrev pub serve :
      List (Request × Reads g r digest) → World g r digest → List (Option RateLimitDecision)
  serve [] w = []
  serve ((q, now) ∷ qs) w = let (d, w') = check g r digest q now w in d ∷ serve qs w'

  -- How many of the requests fall into the window of `k`, and how many of these are admitted.
  abbrev pub requested : WindowKey → List (Request × Reads g r digest) → ℕ
  requested k [] = 0
  requested k (q ∷ qs) = (if same_key (key_of q) k then 1 else 0) + requested k qs

  abbrev is_admitted : Option RateLimitDecision → Bool
  is_admitted none = false
  is_admitted (some d) = d.allowed

  abbrev pub admitted :
      WindowKey → List (Request × Reads g r digest) → List (Option RateLimitDecision) → ℕ
  admitted k (q ∷ qs) (d ∷ ds) =
      (if same_key (key_of q) k && is_admitted d then 1 else 0) + admitted k qs ds
  admitted k _ _ = 0

  -- A window lasts a second or more.
  abbrev pub IsTimed : Request × Reads g r digest → Type 0
  IsTimed q = 1 ≤ (q.0).window_seconds

  -- Every request of the window of `k` has the same limit.
  abbrev pub HasLimit : WindowKey → ℕ → Request × Reads g r digest → Type 0
  HasLimit k limit q = (same_key (key_of q) k ≡ false) ⊎ ((q.0).limit ≡ limit)

  -- The state after a request with Redis at hand.
  abbrev after : World g r digest → Request × Reads g r digest → World g r digest
  after w q = record {
    gate = w.gate;
    store = (count_request r (key_of q) (q.0).limit (q.0).window_seconds w.store).1;
  }

  counter_after :
      (k : WindowKey) (q : Request × Reads g r digest) (w : World g r digest)
      → IsTimed q
      → counter (count_request r (key_of q) (q.0).limit (q.0).window_seconds w.store).1 k
        ≡ counter w.store k + (if same_key (key_of q) k then 1 else 0)
  counter_after k q w le = elim (Bool-cases (same_key (key_of q) k)) [
    | inl same ↦ rw same (
        count_request_counter r h (key_of q) k (q.0).limit (q.0).window_seconds w.store le
        ∙ rw (same_key-true (key_of q) k same) (h.incr_self k w.store))
    | inr other ↦ rw other (
        count_request_counter r h (key_of q) k (q.0).limit (q.0).window_seconds w.store le
        ∙ h.incr_other (key_of q) k w.store (same_key-false (key_of q) k other)
        ∙ omega arith)
  ]

  -- While Redis answers and no key runs out, and where each window lasts a second or more: the requests of one
  -- window, whatever requests of other windows stand
  -- between them, are admitted exactly until the limit is reached: with `n` of them counted before,
  -- the next `limit - n` and no more.
  pub serve_admits :
      (k : WindowKey) (limit : ℕ) (qs : List (Request × Reads g r digest)) (w : World g r digest)
      (c : ℕ)
      → g.IsValid w.gate
      → g.client w.gate ≡ some c
      → All (HasLimit k limit) qs
      → All IsTimed qs
      → admitted k qs (serve qs w) ≡ min (requested k qs) (limit - counter w.store k)
  unfolding counted
  serve_admits k limit [] w c v up a b = omega arith
  serve_admits k limit ((q, now) ∷ qs) w c v up a b =
      let ready = check_ready q now w c v up b.0 in
      let ih = serve_admits k limit qs (after w (q, now)) c v up a.1 b.1 in
      rw ready.1 (elim (Bool-cases (same_key (key_of (q, now)) k)) [
        | inl same ↦ rw same (
            admit_step (counter w.store k) limit _ _ _ _ (counter_of same) (limit_of same) (
              ih
              ∙ ap (λ n. min (requested k qs) (limit - n))
                  (counter_after k (q, now) w b.0 ∙ rw same)))
        | inr other ↦ rw other (
            skip_step (counter w.store k) limit _ _ (
              ih
              ∙ ap (λ n. min (requested k qs) (limit - n))
                  (counter_after k (q, now) w b.0 ∙ rw other)))
      ])
    where
      counter_of :
          same_key (key_of (q, now)) k ≡ true
          → counter w.store (key_of (q, now)) ≡ counter w.store k
      counter_of same = ap (counter w.store) (same_key-true _ k same)

      limit_of : same_key (key_of (q, now)) k ≡ true → q.limit ≡ limit
      limit_of same = elim a.0 [ inl other ↦ cc | inr e ↦ e ]
