-- ===== src/RateLimit/Middleware/Hops.antt =====
-- Which address a request is counted under, and what the middleware lets through
-- (data_agent/observability/rate_limit_middleware.py).
use mathlib.Core.Option.{some-injective}
use deep_data_agent.Prelude.{
  ℕ, suc, ◌+◌, ◌-◌, ◌≡◌, ◌≤◌, refl, ap, subst, ◌⊎◌, inl, inr, true, false, Option, none, some, List,
  [], ◌∷◌, ◌++◌, String, str_eq, leb, length, length-append, get_elem?, listed, if◌then◌else◌,
  Bool-cases, ◌==◌, arith,
}
use deep_data_agent.Auth.{Jwt, Texts}
use deep_data_agent.Gate.{Gate}
use deep_data_agent.RateLimit.{Counters, RateLimitDecision, Request, Reads, World, check}
use deep_data_agent.RateLimit.Failure.{IsDecision, check_decides}
use deep_data_agent.RateLimit.Middleware.{
  Quotas, Call, Splits, Response, health_paths, resolve_scope, hop_from_end, hops_of, client_ip,
  resolve_identity, refuse, annotate, is_unavailable, answer, limited, dispatch,
}

get_elem?-skip :
    {A : Type 0} (front back : List A) (i : ℕ)
    → get_elem? (front ++ back) (length front + i) ≡ get_elem? back i
get_elem?-skip [] back i = ap (get_elem? back) (omega arith)
get_elem?-skip (a ∷ front) back i = rw suc_add (get_elem?-skip front back i)
  where
    suc_add : suc (length front) + i ≡ suc (length front + i)
    suc_add = omega arith

-- Hops that stand before the trusted ones change nothing.
hop_from_end-append :
    (trusted : ℕ) (front back : List String)
    → trusted ≤ length back
    → hop_from_end trusted (front ++ back) ≡ hop_from_end trusted back
unfolding hop_from_end
hop_from_end-append trusted front back h =
    let sum = length-append front back in
    let place : length (front ++ back) - trusted ≡ length front + (length back - trusted) =
      omega (arith, sum) in
    let enough : leb trusted (length (front ++ back)) ≡ true = ground (arith, sum) in
    let enough' : leb trusted (length back) ≡ true = ground arith in
    rw enough (rw enough' (rw place (get_elem?-skip front back (length back - trusted))))

module _ (j : Jwt) (x : Texts) (p : Splits) where
  -- Behind proxies that append the address they see: what a client writes before their entries of
  -- X-Forwarded-For does not change the address that its requests are counted under.
  pub client_ip-prepend :
      (trusted : ℕ) (c : Call) (seen sent : String) (forged : List String)
      → 1 ≤ trusted
      → trusted ≤ length (hops_of j x p seen)
      → str_eq seen "" ≡ false
      → str_eq sent "" ≡ false
      → hops_of j x p sent ≡ forged ++ hops_of j x p seen
      → client_ip j x p trusted (record c { forwarded_for = some sent })
        ≡ client_ip j x p trusted (record c { forwarded_for = some seen })
  unfolding client_ip
  client_ip-prepend trusted c seen sent forged positive enough filled filled' same =
      let some_trusted : (trusted == 0) ≡ false = ground arith in
      rw some_trusted (
        rw filled (
          rw filled'
            (rw same (rw (hop_from_end-append trusted forged (hops_of j x p seen) enough) refl))))

-- How a decision is carried out: the application answers, with the decision in the headers; or it is not
-- called, and the client is told how long to wait.
abbrev pub IsCarriedOut :
    {S : Type 0} → (S → Response × S) → RateLimitDecision → S → Response → S → Type 0
IsCarriedOut call_next d s response s' =
    ((d.allowed ≡ true)
      × (is_unavailable d.protection_status ≡ false)
      × (response ≡ annotate d (call_next s).0)
      × (s' ≡ (call_next s).1))
    ⊎ ((d.allowed ≡ false)
        × (s' ≡ s)
        × (response.status ≡ (if is_unavailable d.protection_status then 503 else 429))
        × (response.remaining ≡ some 0)
        × (response.retry_after ≡ some d.retry_after)
        × (1 ≤ d.retry_after))

module _ {S : Type 0} (call_next : S → Response × S) (d : RateLimitDecision) (s : S) where
  passed :
      d.allowed ≡ true
      → is_unavailable d.protection_status ≡ false
      → IsCarriedOut call_next d s (answer call_next d s).0 (answer call_next d s).1
  unfolding answer
  passed a u = inl (a, u, ground arith, ground arith)

  refused :
      d.allowed ≡ false
      → 1 ≤ d.retry_after
      → IsCarriedOut call_next d s (answer call_next d s).0 (answer call_next d s).1
  unfolding answer refuse
  refused a w = elim (Bool-cases (is_unavailable d.protection_status)) [
    | inl u ↦ inr (a, ground arith, ground arith, ground arith, ground arith, w)
    | inr u ↦ inr (a, ground arith, ground arith, ground arith, ground arith, w)
  ]

module _ (g : Gate) (r : Counters) (digest : String → String) {S : Type 0}
    (call_next : S → Response × S) (s : S) where
  answer-IsCarriedOut :
      (q : Request) (reads : Reads g r digest) (w : World g r digest) (d : RateLimitDecision)
      → IsDecision g r digest q reads w d
      → IsCarriedOut call_next d s (answer call_next d s).0 (answer call_next d s).1
  answer-IsCarriedOut q reads w d (inl (c, count, a, b, (e, l, inl (le, y, z, t)))) =
      passed call_next d s y (ap is_unavailable e)
  answer-IsCarriedOut q reads w d (inl (c, count, a, b, (e, l, inr (gt, y, z, t)))) =
      refused call_next d s y t
  answer-IsCarriedOut q reads w d (inr (away, (l, inl (o, e, y, z, t)))) =
      passed call_next d s y (ap is_unavailable e)
  answer-IsCarriedOut q reads w d (inr (away, (l, inr (o, e, y, z, t)))) = refused call_next d s y t

module _ (j : Jwt) (x : Texts) (p : Splits) (g : Gate) (r : Counters) (digest : String → String)
    {S : Type 0} (call_next : S → Response × S) where
  -- The decision on this call: what `check` decides on the identity of the caller under the quota of its path.
  abbrev pub IsDecided :
      Quotas
      → Option String
      → ℕ
      → Call
      → Reads g r digest
      → World g r digest
      → RateLimitDecision
      → Type 0
  IsDecided q secret now c reads w d =
      (key : String) × (resolve_identity j x p secret now q.trusted_proxy_count c ≡ some key)
      × ((check g r digest (limited j x p g r digest call_next q c key) reads w).0 ≡ some d)
      × IsDecision g r digest (limited j x p g r digest call_next q c key) reads w d

  -- Whatever Redis, the clock and the gate answer, on a valid gate and with a window of a second or more: a
  -- request that is limited and answered has a decision, which `check` makes on its identity, by a count or,
  -- without Redis, by the policy of the scope of its path. It is given to the application exactly if that
  -- decision allows it; otherwise it is refused with 429, or 503 without protection, and told to wait.
  pub dispatch-IsCarriedOut :
      (q : Quotas) (secret : Option String) (now : ℕ) (c : Call) (reads : Reads g r digest)
      (w w' : World g r digest) (s s' : S) (response : Response)
      → q.enabled ≡ true
      → listed c.path health_paths ≡ false
      → g.IsValid w.gate
      → 1 ≤ (resolve_scope q c.path).2
      → dispatch j x p g r digest call_next q secret now c reads w s ≡ (some response, w', s')
      → (d : RateLimitDecision) × IsDecided q secret now c reads w d
        × IsCarriedOut call_next d s response s'
  unfolding dispatch limited
  dispatch-IsCarriedOut q secret now c reads w w' s s' response on unhealthy v positive h =
      identified (resolve_identity j x p secret now q.trusted_proxy_count c) refl (ground arith)
    where
      Conclusion : Type 0
      Conclusion =
          (d : RateLimitDecision) × IsDecided q secret now c reads w d
          × IsCarriedOut call_next d s response s'

      nothing : none ≡ some response → ⊥
      nothing e = cc

      decided :
          (key : String) (o : Option RateLimitDecision)
          → resolve_identity j x p secret now q.trusted_proxy_count c ≡ some key
          → (check g r digest (limited j x p g r digest call_next q c key) reads w).0 ≡ o
          → (elim o as (λ z. Option Response × World g r digest × S) [
            | none ↦
                (none, (check g r digest (limited j x p g r digest call_next q c key) reads w).1, s)
            | some d ↦
                let (answered, t) = answer call_next d s in
                (
                  some answered,
                  (check g r digest (limited j x p g r digest call_next q c key) reads w).1,
                  t,
                )
          ])
            ≡ (some response, w', s')
          → Conclusion
      decided key none i e f = absurd (nothing (ap (λ z. z.0) f))
      decided key (some d) i e f =
          let asked = limited j x p g r digest call_next q c key in
          let found = check_decides g r digest asked reads w d v positive e in
          (
            d,
            (key, i, e, found),
            subst (λ z. IsCarriedOut call_next d s response z) (ap (λ z. z.2) f)
                (subst (λ z. IsCarriedOut call_next d s z (answer call_next d s).1)
                  (some-injective _ response (ap (λ z. z.0) f))
                  (answer-IsCarriedOut g r digest call_next s asked reads w d found)),
          )

      identified :
          (o : Option String)
          → resolve_identity j x p secret now q.trusted_proxy_count c ≡ o
          → (elim o as (λ z. Option Response × World g r digest × S) [
            | none ↦ (none, w, s)
            | some key ↦
                let (decision, t) =
                  check g r digest (limited j x p g r digest call_next q c key) reads w in
                elim decision [
                  | none ↦ (none, t, s)
                  | some d ↦ let (answered, u) = answer call_next d s in (some answered, t, u)
                ]
          ])
            ≡ (some response, w', s')
          → Conclusion
      identified none i f = absurd (nothing (ap (λ z. z.0) f))
      identified (some key) i f =
          decided key (check g r digest (limited j x p g r digest call_next q c key) reads w).0 i
            refl f
