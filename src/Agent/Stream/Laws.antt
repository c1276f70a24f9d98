-- ===== src/Agent/Stream/Laws.antt =====
-- What a stream hands on (data_agent/services/agent_service.py, `ResourceBoundedAgentGraph.stream`).
use deep_data_agent.Prelude.{
  ℕ, suc, ◌≡◌, refl, sym, ap, subst, ◌⊎◌, inl, inr, true, false, none, some, List, [], ◌∷◌, map,
  take, length, get_elem?, Bool-cases, Option-cases,
}
use deep_data_agent.Recovery.Clock.{Seconds}
use deep_data_agent.Budget.{LedgerError, Step, run}
use deep_data_agent.Budget.Scope.{
  ledger, exception, base_exception, Exit, raised, World, modify, check_at,
}
use deep_data_agent.Agent.Stream.{Numbers, Chunk, Finish, relay}

-- The world after this work of the graph on the ledger.
abbrev work : ℕ → List Step → World → World
work id steps w = record w { budgets = modify id (run steps) w.budgets }

module _ (s : Seconds) (e : Numbers) {A : Type 0} where
  -- The world after the graph's work up to the last of these chunks.
  abbrev pub after : ℕ → List (Chunk s A) → World → World
  after id [] w = w
  after id (c ∷ cs) w = after id cs (work id c.steps w)

  -- At each of these chunks the ledger has no refusal and the deadline has not passed.
  abbrev pub IsTested : s.T → ℕ → List (Chunk s A) → World → Type 0
  IsTested deadline id [] w = Unit
  IsTested deadline id (c ∷ cs) w =
      (check_at id (work id c.steps w) ≡ none)
      × (s.lt deadline c.clock ≡ false)
      × IsTested deadline id cs (work id c.steps w)

  -- How a loop ends that handed on the first n chunks: as the graph's stream does, after all of them; with the
  -- refusal that the ledger records after the work before the next chunk; at a next chunk that is late; or
  -- closed by the consumer of the last one.
  abbrev pub Ends :
      s.T → List (Chunk s A) → Finish → ℕ → ℕ → World → Exit (Unit {0}) → World → Type 0
  Ends deadline cs last n id w exit end =
      ((exit ≡ last.exit) × (n ≡ length cs) × (end ≡ work id last.steps (after id cs w)))
      ⊎ ((c : Chunk s A) × (r : LedgerError) × (get_elem? cs n ≡ some c)
          × (exit ≡ raised (ledger r))
          × (check_at id end ≡ some r)
          × (end ≡ work id c.steps (after id (take n cs) w)))
      ⊎ ((c : Chunk s A) × (get_elem? cs n ≡ some c)
          × (s.lt deadline c.clock ≡ true)
          × (exit ≡ raised (exception e.timeout)))
      ⊎ ((c : Chunk s A) × (m : ℕ) × (n ≡ suc m)
          × (get_elem? cs m ≡ some c)
          × (c.wanted ≡ false)
          × (exit ≡ raised (base_exception e.generator_exit)))

  Ends-next :
      (deadline : s.T) (c : Chunk s A) (cs : List (Chunk s A)) (last : Finish) (n id : ℕ)
      (w : World) (exit : Exit (Unit {0})) (end : World)
      → Ends deadline cs last n id (work id c.steps w) exit end
      → Ends deadline (c ∷ cs) last (suc n) id w exit end
  Ends-next deadline c cs last n id w exit end (inl (l, m, h)) = inl (l, ap suc m, h)
  Ends-next deadline c cs last n id w exit end (inr (inl h)) = inr (inl h)
  Ends-next deadline c cs last n id w exit end (inr (inr (inl h))) = inr (inr (inl h))
  Ends-next deadline c cs last n id w exit end (inr (inr (inr (d, m, l, h, x, y)))) =
      inr (inr (inr (d, suc m, ap suc l, h, x, y)))

  module _ (deadline : s.T) (c : Chunk s A) (cs : List (Chunk s A)) (last : Finish) (id : ℕ)
      (w : World) where
    refused :
        (r : LedgerError)
        → check_at id (work id c.steps w) ≡ some r
        → relay s e deadline (c ∷ cs) last id w ≡ ([], raised (ledger r), work id c.steps w)
    unfolding relay
    refused r q = rw (q, relay) refl

    too_late :
        check_at id (work id c.steps w) ≡ none
        → s.lt deadline c.clock ≡ true
        → relay s e deadline (c ∷ cs) last id w
          ≡ ([], raised (exception e.timeout), work id c.steps w)
    unfolding relay
    too_late q late = rw (q, relay) (rw (late, relay) refl)

    handed_on :
        check_at id (work id c.steps w) ≡ none
        → s.lt deadline c.clock ≡ false
        → c.wanted ≡ true
        → relay s e deadline (c ∷ cs) last id w ≡ (
            let (values, exit, end) = relay s e deadline cs last id (work id c.steps w) in
            (c.value ∷ values, exit, end))
    unfolding relay
    handed_on q early more = rw (q, relay) (rw (early, relay) (rw (more, relay) refl))

    closed_after :
        check_at id (work id c.steps w) ≡ none
        → s.lt deadline c.clock ≡ false
        → c.wanted ≡ false
        → relay s e deadline (c ∷ cs) last id w
          ≡ (c.value ∷ [], raised (base_exception e.generator_exit), work id c.steps w)
    unfolding relay
    closed_after q early closed = rw (q, relay) (rw (early, relay) (rw (closed, relay) refl))

  abbrev HandsOn :
      s.T → List (Chunk s A) → Finish → ℕ → World → List A × Exit (Unit {0}) × World → Type 0
  HandsOn deadline cs last id w (values, exit, end) =
      (n : ℕ) × (values ≡ map (λ c. c.value) (take n cs))
      × IsTested deadline id (take n cs) w
      × Ends deadline cs last n id w exit end

  -- A stream hands on a prefix of the graph's chunks, and at each of them the ledger had no refusal and the
  -- deadline had not passed. It ends as the graph's stream does after all chunks, with the ledger as the
  -- graph left it, which is not checked again there; otherwise at the first chunk that it does not hand on,
  -- with the refusal that the ledger records or, if the deadline passed, with the timeout; or because the
  -- consumer closed it after the last chunk that was handed on.
  pub relay-Ends :
      (deadline : s.T) (cs : List (Chunk s A)) (last : Finish) (id : ℕ) (w : World)
      → let (values, exit, end) = relay s e deadline cs last id w in
        (n : ℕ) × (values ≡ map (λ c. c.value) (take n cs))
        × IsTested deadline id (take n cs) w
        × Ends deadline cs last n id w exit end
  unfolding relay
  relay-Ends deadline [] last id w = (0, refl, tt, inl (refl, refl, refl))
  relay-Ends deadline (c ∷ cs) last id w =
      let w' = work id c.steps w in
      elim (Option-cases (check_at id w')) [
        | inr (r, q) ↦
            subst Shape (sym (refused deadline c cs last id w r q))
              (0, refl, tt, inr (inl (c, r, refl, refl, q, refl)))
        | inl q ↦ elim (Bool-cases (s.lt deadline c.clock)) [
          | inl late ↦
              subst Shape (sym (too_late deadline c cs last id w q late))
                (0, refl, tt, inr (inr (inl (c, refl, late, refl))))
          | inr early ↦ elim (Bool-cases c.wanted) [
            | inl more ↦
                let (n, same, times, ends) = relay-Ends deadline cs last id w' in
                subst Shape (sym (handed_on deadline c cs last id w q early more)) (
                  suc n,
                  ap (◌∷◌ c.value) same,
                  (q, early, times),
                  Ends-next deadline c cs last n id w _ _ ends,
                )
            | inr closed ↦
                subst Shape (sym (closed_after deadline c cs last id w q early closed))
                  (1, refl, (q, early, tt), inr (inr (inr (c, 0, refl, refl, closed, refl))))
          ]
        ]
      ]
    where
      Shape : List A × Exit (Unit {0}) × World → Type 0
      Shape = HandsOn deadline (c ∷ cs) last id w
