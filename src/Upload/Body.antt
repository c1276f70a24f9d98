-- ===== src/Upload/Body.antt =====
-- What the upload middleware lets through (data_agent/security/upload_limit_middleware.py).
use deep_data_agent.Prelude.{
  ℕ, zero, suc, ◌+◌, ◌≤◌, ◌<◌, ◌≡◌, refl, sym, ap, subst, ◌∙◌, ◌↔◌, inl, inr, Bool, true, false,
  Option, none, some, List, [], ◌∷◌, ◌++◌, String, arith, ltb, length, Bool-cases, Option-cases,
}
use mathlib.Core.Option.{some-injective}
use deep_data_agent.Prelude.Int.{ℤ}
use deep_data_agent.Upload.{
  Message, disconnect, request, other, Scope, Code, upload_request_too_large, passes, waits,
  forwards, rejects, is_upload, collect, replay, declared_error, call,
}

-- The body of a request that was sent in full: its chunks up to the first that is the last.
pub complete : List Message → Option (List ℕ)
complete [] = none
complete (disconnect ∷ ms) = none
complete (other ∷ ms) = complete ms
complete (request chunk false ∷ ms) = some chunk
complete (request chunk true ∷ ms) = elim (complete ms) [ none ↦ none | some b ↦ some (chunk ++ b) ]

-- The chunks of messages.
abbrev pub joined : List Message → List ℕ
joined [] = []
joined (request chunk more ∷ ms) = chunk ++ joined ms
joined (_ ∷ ms) = joined ms

-- No message ends the request.
abbrev pub is_open : List Message → Bool
is_open [] = true
is_open (disconnect ∷ ms) = false
is_open (other ∷ ms) = is_open ms
is_open (request chunk false ∷ ms) = false
is_open (request chunk true ∷ ms) = is_open ms

append_assoc : (xs ys zs : List ℕ) → (xs ++ ys) ++ zs ≡ xs ++ (ys ++ zs)
append_assoc [] ys zs = refl
append_assoc (x ∷ xs) ys zs = ap (λ l. x ∷ l) (append_assoc xs ys zs)

length-append : (xs ys : List ℕ) → length (xs ++ ys) ≡ length xs + length ys
length-append [] ys = omega arith
length-append (x ∷ xs) ys = omega (arith, length-append xs ys)

forwards-injective : {a b : List ℕ} → forwards a ≡ forwards b → a ≡ b
forwards-injective {a} e =
    ap (λ v. elim v [ forwards x ↦ x | passes ↦ a | waits ↦ a | rejects c ↦ a ]) e

rejects≢forwards : {c : Code} {b : List ℕ} → rejects c ≡ forwards b → ⊥
rejects≢forwards e = cc

passes≢forwards : {b : List ℕ} → passes ≡ forwards b → ⊥
passes≢forwards e = cc

-- A complete body within the limit is forwarded.
collect_forwards :
    (limit : ℕ) (ms : List Message) (body b : List ℕ)
    → complete ms ≡ some b
    → length (body ++ b) ≤ limit
    → collect limit ms body ≡ forwards (body ++ b)
unfolding collect complete
collect_forwards limit [] body b e h = cc
collect_forwards limit (disconnect ∷ ms) body b e h = cc
collect_forwards limit (other ∷ ms) body b e h = collect_forwards limit ms body b e h
collect_forwards limit (request chunk false ∷ ms) body b e h = ground arith
collect_forwards limit (request chunk true ∷ ms) body b e h = elim (Option-cases (complete ms)) [
  | inl n ↦ ground arith
  | inr (r, p) ↦
      let q = some-injective (chunk ++ r) b (rw p at e) in
      let same = append_assoc body chunk r ∙ ap (λ l. body ++ l) q in
      rw (fits r (rw same h))
        (collect_forwards limit ms (body ++ chunk) r p (rw same h) ∙ ap forwards same)
]
  where
    fits :
        (r : List ℕ)
        → length ((body ++ chunk) ++ r) ≤ limit
        → ltb limit (length (body ++ chunk)) ≡ false
    fits r k = ground (arith, length-append (body ++ chunk) r)

fits_within : {limit : ℕ} {b c : List ℕ} → b ≡ c → ltb limit (length b) ≡ false → length c ≤ limit
fits_within {limit} {b} {c} q f = subst (λ x. length x ≤ limit) q (ground arith)

-- What is forwarded is a complete body within the limit.
forwards_complete :
    (limit : ℕ) (ms : List Message) (body b : List ℕ)
    → collect limit ms body ≡ forwards b
    → (r : List ℕ) × (complete ms ≡ some r) × (b ≡ body ++ r) × (length b ≤ limit)
unfolding collect complete
forwards_complete limit [] body b e = cc
forwards_complete limit (disconnect ∷ ms) body b e = cc
forwards_complete limit (other ∷ ms) body b e = forwards_complete limit ms body b e
forwards_complete limit (request chunk false ∷ ms) body b e =
    elim (Bool-cases (ltb limit (length (body ++ chunk)))) [
      | inl over ↦ absurd (rejects≢forwards (rw over at e))
      | inr fits ↦
          let q = forwards-injective (rw fits at e) in (chunk, refl, sym q, fits_within q fits)
    ]
forwards_complete limit (request chunk true ∷ ms) body b e =
    elim (Bool-cases (ltb limit (length (body ++ chunk)))) [
      | inl over ↦ absurd (rejects≢forwards (rw over at e))
      | inr fits ↦
          let (r, p, q, h) = forwards_complete limit ms (body ++ chunk) b (rw fits at e) in
          (chunk ++ r, rw p, q ∙ append_assoc body chunk r, h)
    ]

-- When the chunks so far pass the limit, the rest is not read.
collect_overflows :
    (limit : ℕ) (before after : List Message) (body : List ℕ)
    → is_open before ≡ true
    → length body ≤ limit
    → limit < length (body ++ joined before)
    → collect limit (before ++ after) body ≡ rejects upload_request_too_large
unfolding collect
collect_overflows limit [] after body o l h = absurd (omega (arith, length-append body []))
collect_overflows limit (disconnect ∷ ms) after body o l h = cc
collect_overflows limit (other ∷ ms) after body o l h = collect_overflows limit ms after body o l h
collect_overflows limit (request chunk false ∷ ms) after body o l h = cc
collect_overflows limit (request chunk true ∷ ms) after body o l h =
    elim (Bool-cases (ltb limit (length (body ++ chunk)))) [
      | inl over ↦ rw over refl
      | inr fits ↦ rw fits (
          collect_overflows limit ms after (body ++ chunk) o (ground arith)
            (rw (append_assoc body chunk (joined ms)) h))
    ]

-- The first `n` messages that the app receives.
abbrev pub received : List ℕ → Bool → ℕ → List Message
received body delivered zero = []
received body delivered (suc n) =
    let (m, delivered') = replay body delivered in m ∷ received body delivered' n

append_nil : (b : List ℕ) → b ++ [] ≡ b
append_nil [] = refl
append_nil (x ∷ b) = ap (λ l. x ∷ l) (append_nil b)

-- Once the body was delivered, only disconnects follow.
joined-received : (b : List ℕ) (n : ℕ) → joined (received b true n) ≡ []
unfolding replay
joined-received b zero = refl
joined-received b (suc n) = joined-received b n

module _ (lower : String → String) (parse : String → Option ℤ) where
  -- The app is given a body exactly when the request is an upload whose declared length is in order,
  -- whose body was sent in full, and whose length is within the limit; and it is that body.
  pub call_forwards_iff :
      (limit : ℕ) (scope : Scope) (ms : List Message) (b : List ℕ)
      → (call lower parse limit scope ms ≡ forwards b) ↔ (
          (is_upload scope ≡ true)
          × (declared_error lower parse limit scope.headers ≡ none)
          × (complete ms ≡ some b)
          × (length b ≤ limit))
  unfolding call
  call_forwards_iff limit scope ms b =
      (there, λ (u, d, c, l). rw u (rw d (collect_forwards limit ms [] b c l)))
    where
      there :
          call lower parse limit scope ms ≡ forwards b
          → (is_upload scope ≡ true)
            × (declared_error lower parse limit scope.headers ≡ none)
            × (complete ms ≡ some b)
            × (length b ≤ limit)
      there e = elim (Bool-cases (is_upload scope)) [
        | inl u ↦ elim (Option-cases (declared_error lower parse limit scope.headers)) [
          | inl d ↦
              let (r, p, q, h) = forwards_complete limit ms [] b (rw d at (rw u at e)) in
              (u, d, p ∙ ap some (sym q), h)
          | inr (c, d) ↦ absurd (rejects≢forwards (rw d at (rw u at e)))
        ]
        | inr o ↦ absurd (passes≢forwards (rw o at e))
      ]

  -- An upload with its declared length in order, whose chunks pass the limit before one is the last,
  -- is rejected as too large, whatever the client sends afterwards.
  pub call_overflows :
      (limit : ℕ) (scope : Scope) (before after : List Message)
      → is_upload scope ≡ true
      → declared_error lower parse limit scope.headers ≡ none
      → is_open before ≡ true
      → limit < length (joined before)
      → call lower parse limit scope (before ++ after) ≡ rejects upload_request_too_large
  unfolding call
  call_overflows limit scope before after u d o h =
      rw u (rw d (collect_overflows limit before after [] o (omega arith) h))

  -- What the app receives in place of a forwarded request is in full the body that the client sent,
  -- however often it reads.
  pub call_replays :
      (limit : ℕ) (scope : Scope) (ms : List Message) (b : List ℕ) (n : ℕ)
      → call lower parse limit scope ms ≡ forwards b
      → (complete (received b false (suc n)) ≡ complete ms)
        × (joined (received b false (suc n)) ≡ b)
  unfolding complete replay
  call_replays limit scope ms b n e = (
    sym ((call_forwards_iff limit scope ms b).0 e).2,
    ap (λ l. b ++ l) (joined-received b n) ∙ append_nil b,
  )
