-- ===== src/RateLimit/Failure/Commands.antt =====
-- What the commands of one request to Redis decide (data_agent/services/rate_limit_service.py).
use deep_data_agent.Prelude.{
  ◌∙◌, ℕ, ◌-◌, ◌<◌, ◌==◌, if◌then◌else◌, subst, ◌≤◌, ◌≡◌, refl, ap, ◌⊎◌, inl, inr, true, false,
  arith, leb, Bool-cases,
}
use deep_data_agent.Prelude.Int.{ℤ, pos, negsuc}
use deep_data_agent.RateLimit.{
  Reply, value, failed, crashed, WindowKey, Counters, enforced, RateLimitDecision, wait_for,
  counted, expire_first, decide, count_request,
}

-- Enforced by the count of this request: within the limit it is admitted with what is left of the limit and
-- no wait, beyond it it is refused with nothing left and a wait.
abbrev pub IsEnforced : ℕ → ℕ → RateLimitDecision → Type 0
IsEnforced limit count d =
    (d.protection_status ≡ enforced)
    × (d.limit ≡ limit)
    × (((count ≤ limit) × (d.allowed ≡ true) × (d.remaining ≡ limit - count) × (d.retry_after ≡ 0))
        ⊎ ((limit < count) × (d.allowed ≡ false) × (d.remaining ≡ 0) × (1 ≤ d.retry_after)))

wait_for_pos : (left : ℤ) (w : ℕ) → 1 ≤ w → 1 ≤ wait_for left w
unfolding wait_for
wait_for_pos (pos n) w h = ground arith
wait_for_pos (negsuc n) w h = h

counted_admits :
    (limit w count : ℕ) → leb count limit ≡ true → IsEnforced limit count (counted limit w count 0)
unfolding counted
counted_admits limit w count h = (refl, refl, inl (ground arith, h, refl, refl))

counted_refuses :
    (limit w count retry : ℕ)
    → leb count limit ≡ false
    → 1 ≤ retry
    → IsEnforced limit count (counted limit w count retry)
unfolding counted
counted_refuses limit w count retry h p = (refl, refl, inr (ground arith, h, ground arith, p))

-- A reply, as the rest of the `try` meets it.
pub Reply-cases :
    {A : Type 0} (a : Reply A) → ((x : A) × (a ≡ value x)) ⊎ (a ≡ failed) ⊎ (a ≡ crashed)
Reply-cases (value x) = inl (x, refl)
Reply-cases failed = inr (inl refl)
Reply-cases crashed = inr (inr refl)

value-injective : {A : Type 0} (x y : A) → value x ≡ value y → x ≡ y
value-injective x y e = ap (λ r. elim r [ value z ↦ z | failed ↦ x | crashed ↦ x ]) e

module _ (r : Counters) where
  open r use {Store, incr, expire, ttl}

  decide_enforces :
      (k : WindowKey) (limit w count : ℕ) (s : Store) (d : RateLimitDecision)
      → 1 ≤ w
      → (decide r k limit w count s).0 ≡ value d
      → IsEnforced limit count d
  unfolding decide
  decide_enforces k limit w count s d h e = elim (Bool-cases (leb count limit)) [
    | inl low ↦
        subst (IsEnforced limit count) (value-injective _ d (rw (low, decide) at e))
          (counted_admits limit w count low)
    | inr over ↦ elim (Reply-cases (ttl k s).0) [
      | inl (left, t) ↦
          subst (IsEnforced limit count)
            (value-injective _ d (rw (t, decide) at (rw (over, decide) at e)))
            (counted_refuses limit w count (wait_for left w) over (wait_for_pos left w h))
      | inr (inl t) ↦ ground arith
      | inr (inr t) ↦ ground arith
    ]
  ]

  pub count_request_enforces :
      (k : WindowKey) (limit w : ℕ) (s : Store) (d : RateLimitDecision)
      → 1 ≤ w
      → (count_request r k limit w s).0 ≡ value d
      → (count : ℕ) × ((incr k s).0 ≡ value count) × IsEnforced limit count d
  unfolding count_request
  count_request_enforces k limit w s d h e = elim (Reply-cases (incr k s).0) [
    | inl (count, c) ↦ elim (Reply-cases (expire_first r k w count (incr k s).1).0) [
      | inl (x, f) ↦ (
        count,
        c,
        decide_enforces k limit w count _ d h
            (rw (f, count_request) at (rw (c, count_request) at e)),
      )
      | inr (inl f) ↦ ground arith
      | inr (inr f) ↦ ground arith
    ]
    | inr (inl c) ↦ ground arith
    | inr (inr c) ↦ ground arith
  ]

  -- A command of the request fails: INCR, EXPIRE of the first request of a window, or TTL of one beyond the
  -- limit.
  abbrev pub IsFailing : WindowKey → ℕ → ℕ → Store → Type 0
  IsFailing k limit w s =
      ((incr k s).0 ≡ failed)
      ⊎ (((incr k s).0 ≡ value 1) × ((expire k w (incr k s).1).0 ≡ failed))
      ⊎ ((count : ℕ) × ((incr k s).0 ≡ value count)
          × (limit < count)
          × ((ttl k (if count == 1 then (expire k w (incr k s).1).1 else (incr k s).1)).0 ≡ failed))

  decide_fails :
      (k : WindowKey) (limit w count : ℕ) (s : Store)
      → (decide r k limit w count s).0 ≡ failed
      → (limit < count) × ((ttl k s).0 ≡ failed)
  unfolding decide
  decide_fails k limit w count s e = elim (Bool-cases (leb count limit)) [
    | inl low ↦ ground arith
    | inr over ↦ elim (Reply-cases (ttl k s).0) [
      | inl (left, t) ↦ ground arith
      | inr (inl t) ↦ (ground arith, t)
      | inr (inr t) ↦ ground arith
    ]
  ]

  expire_first-store :
      (k : WindowKey) (w count : ℕ) (s : Store)
      → (expire_first r k w count s).1 ≡ (if count == 1 then (expire k w s).1 else s)
  unfolding expire_first
  expire_first-store k w count s = ground arith

  expire_first_fails :
      (k : WindowKey) (w count : ℕ) (s : Store)
      → (expire_first r k w count s).0 ≡ failed
      → (count ≡ 1) × ((expire k w s).0 ≡ failed)
  unfolding expire_first
  expire_first_fails k w count s e = (ground arith, ground arith)

  pub count_request-IsFailing :
      (k : WindowKey) (limit w : ℕ) (s : Store)
      → (count_request r k limit w s).0 ≡ failed
      → IsFailing k limit w s
  unfolding count_request
  count_request-IsFailing k limit w s e = elim (Reply-cases (incr k s).0) [
    | inl (count, c) ↦ elim (Reply-cases (expire_first r k w count (incr k s).1).0) [
      | inl (x, f) ↦
          let (over, t) =
            decide_fails k limit w count _
              (rw (f, count_request) at (rw (c, count_request) at e)) in
          inr (
            inr (
              count,
              c,
              over,
              subst (λ z. (ttl k z).0 ≡ failed) (expire_first-store k w count (incr k s).1) t,
            ))
      | inr (inl f) ↦
          let (one, x) = expire_first_fails k w count (incr k s).1 f in
          inr (inl (c ∙ ap value one, x))
      | inr (inr f) ↦ ground arith
    ]
    | inr (inl c) ↦ inl c
    | inr (inr c) ↦ ground arith
  ]
