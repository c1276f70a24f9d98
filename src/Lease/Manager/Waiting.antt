-- ===== src/Lease/Manager/Waiting.antt =====
-- How long `acquire` waits, and what it hands out (data_agent/services/agent_lease.py).
use deep_data_agent.Prelude.{
  ℕ, ◌≤◌, ◌≡◌, ◌≢◌, refl, ap, ◌∙◌, ◌⊎◌, inl, inr, true, none, some, List, [], ◌∷◌, ◌++◌, String,
  eq_iff, arith, Bool-cases, Option-cases,
}
use deep_data_agent.Prelude.Int.{ℤ, pos, negsuc}
use deep_data_agent.Recovery.{Answer, gives, raises}
use deep_data_agent.Recovery.Clock.{Seconds}
use deep_data_agent.Gate.{Gate}
use deep_data_agent.Lease.Table.{AgentLease}
use deep_data_agent.Lease.Manager.{
  Eval, value, recoverable, crashed, Scripts, Subjects, digest, subject_digest, Attempt, issued,
  full, unprotected, failed, acquired, busy, unavailable, broken, pending, World, Readings, Turn,
  protection_error, give_up, read_reply, try_acquire, is_over, acquire,
}

-- A subject that has a digest is the decimal text of a positive number, so that no number has two
-- subjects.
pub subject_digest_canonical :
    (p : Subjects) (subject d : String)
    → subject_digest p subject ≡ digest d
    → (n : ℕ) × (1 ≤ n) × (subject ≡ p.str n) × (d ≡ p.identity_ref n)
unfolding subject_digest
subject_digest_canonical p subject d e = elim (Option-cases (p.int subject)) [
  | inl absent ↦ absurd (ground arith)
  | inr (n, f) ↦ (n, ground arith, ground (arith, eq_iff (p.str n) subject), ground arith)
]

Answer-cases : (a : Answer) → ((c : ℕ) × (a ≡ gives (some c))) ⊎ (a ≡ gives none) ⊎ (a ≡ raises)
Answer-cases (gives (some c)) = inl (c, refl)
Answer-cases (gives none) = inr (inl refl)
Answer-cases raises = inr (inr refl)

Eval-cases :
    {A : Type 0} (a : Eval A) → ((x : A) × (a ≡ value x)) ⊎ (a ≡ recoverable) ⊎ (a ≡ crashed)
Eval-cases (value x) = inl (x, refl)
Eval-cases recoverable = inr (inl refl)
Eval-cases crashed = inr (inr refl)

Attempt-cases :
    (a : Attempt)
    → ((l : AgentLease) × (a ≡ issued l))
      ⊎ ((n : ℕ) × (a ≡ full n))
      ⊎ ((n : ℕ) × (a ≡ unprotected n))
      ⊎ (a ≡ failed)
Attempt-cases (issued l) = inl (l, refl)
Attempt-cases (full n) = inr (inl (n, refl))
Attempt-cases (unprotected n) = inr (inr (inl (n, refl)))
Attempt-cases failed = inr (inr (inr refl))

acquired-injective : {a b : AgentLease} → acquired a ≡ acquired b → a ≡ b
acquired-injective {a} e =
    ap (λ o. elim o [ acquired x ↦ x | busy n ↦ a | unavailable n ↦ a | broken ↦ a | pending ↦ a ])
      e

-- Something in the list has the property.
abbrev pub Some : {A : Type 0} → (A → Type 0) → List A → Type 0
Some P [] = ⊥
Some P (x ∷ xs) = P x ⊎ Some P xs

module _ (g : Gate) (p : Scripts) where
  -- The script gave this lease: status 1 with a positive expiry.
  abbrev pub Granted : String → String → AgentLease → p.Store → Type 0
  Granted d lease_id lease s =
      (lease.lease_id ≡ lease_id)
      × (lease.subject_digest ≡ d)
      × (1 ≤ lease.expires_at_ms)
      × ((wait : ℤ) × ((p.acquire d lease_id s).0 ≡ value (pos 1, wait, pos lease.expires_at_ms)))

  read_reply_issued :
      (d lease_id : String) (c : ℕ) (now : Readings g p) (status retry expires : ℤ) (w : World g p)
      (lease : AgentLease)
      → (read_reply g p d lease_id c now (status, retry, expires) w).0 ≡ issued lease
      → (lease.lease_id ≡ lease_id)
        × (lease.subject_digest ≡ d)
        × (1 ≤ lease.expires_at_ms)
        × (status ≡ pos 1)
        × (expires ≡ pos lease.expires_at_ms)
  unfolding read_reply give_up protection_error
  read_reply_issued d lease_id c now (pos n) r (pos m) w lease e =
      (ground arith, ground arith, ground arith, ground arith, ground arith)
  read_reply_issued d lease_id c now (pos n) r (negsuc m) w lease e = absurd (ground arith)
  read_reply_issued d lease_id c now (negsuc n) r x w lease e = absurd (ground arith)

  try_acquire_issued :
      (d lease_id : String) (now : Readings g p) (w : World g p) (lease : AgentLease)
      → (try_acquire g p d lease_id now w).0 ≡ issued lease
      → Granted d lease_id lease w.store
  unfolding try_acquire protection_error give_up
  try_acquire_issued d lease_id now w lease e =
      elim (Answer-cases (g.get_client now.connects w.gate).0) [
        | inl (c, a) ↦ elim (Eval-cases (p.acquire d lease_id w.store).0) [
          | inl ((status, wait, expires), r) ↦
              let (i, s, x, one, same) =
                read_reply_issued d lease_id c now status wait expires _ lease
                  (rw (r, try_acquire) at (rw (a, try_acquire) at e)) in
              (i, s, x, (wait, r ∙ ap (λ n. value n) (numbers one same)))
          | inr (inl r) ↦ absurd (ground arith)
          | inr (inr r) ↦ absurd (ground arith)
        ]
        | inr (inl a) ↦ absurd (ground arith)
        | inr (inr a) ↦ absurd (ground arith)
      ]
    where
      triple : ℤ → ℤ → ℤ → ℤ × ℤ × ℤ
      triple a b c = (a, b, c)

      numbers :
          {status wait expires x y : ℤ}
          → status ≡ x
          → expires ≡ y
          → triple status wait expires ≡ triple x wait y
      numbers {status} {wait} {expires} e f = rw e (rw f refl)

  module _ (s : Seconds) where
    abbrev pub attempts : String → String → List (Turn g p s) → World g p → List p.Store
    attempts d lease_id [] w = []
    attempts d lease_id (turn ∷ turns) w =
        w.store ∷ attempts d lease_id turns (turn.others (try_acquire g p d lease_id turn.now w).1)

    -- A lease that `acquire` returns was given by the script in one of the turns, to this subject,
    -- under this id and with a positive expiry.
    pub acquire-Granted :
        (deadline : s.T) (d lease_id : String) (turns : List (Turn g p s)) (w : World g p)
        (lease : AgentLease)
        → (acquire g p s deadline d lease_id turns w).0 ≡ acquired lease
        → Some (Granted d lease_id lease) (attempts d lease_id turns w)
    unfolding acquire
    acquire-Granted deadline d lease_id [] w lease e = cc
    acquire-Granted deadline d lease_id (turn ∷ turns) w lease e =
        elim (Attempt-cases (try_acquire g p d lease_id turn.now w).0) [
          | inl (l, a) ↦ inl (
              try_acquire_issued d lease_id turn.now w lease
                (a ∙ ap issued (acquired-injective (rw (a, acquire) at e))))
          | inr (inl (n, a)) ↦ elim (Bool-cases (is_over s deadline turn.clock)) [
            | inl over ↦ absurd (ground arith)
            | inr more ↦ inr (
                acquire-Granted deadline d lease_id turns _ lease
                  (rw more at (rw (a, acquire) at e)))
          ]
          | inr (inr (inl (n, a))) ↦ absurd (ground arith)
          | inr (inr (inr a)) ↦ absurd (ground arith)
        ]

    -- Once the clock of a turn is at or past the deadline, `acquire` has ended by that turn, whatever
    -- Redis, the gate and the other servers do.
    pub acquire_ends :
        (deadline : s.T) (d lease_id : String) (before after : List (Turn g p s))
        (turn : Turn g p s) (w : World g p)
        → is_over s deadline turn.clock ≡ true
        → ((acquire g p s deadline d lease_id (before ++ turn ∷ after) w).0 ≢ pending)
          × (acquire g p s deadline d lease_id (before ++ turn ∷ after) w
              ≡ acquire g p s deadline d lease_id (before ++ turn ∷ []) w)
    unfolding acquire
    acquire_ends deadline d lease_id [] after turn w o = (λ e. ground arith, ground arith)
    acquire_ends deadline d lease_id (t ∷ before) after turn w o =
        let (ends, same) =
          acquire_ends deadline d lease_id before after turn
            (t.others (try_acquire g p d lease_id t.now w).1) o in
        (λ e. ground (arith, ends), ground (arith, same))
