-- ===== src/Lease/Refines/Shrinks.antt =====
-- The commands that only take entries away.
use deep_data_agent.Prelude.{
  ℕ, ◌≤◌, ◌≡◌, refl, sym, ap, ◌∙◌, ◌⊎◌, inl, inr, Bool, true, ◌&&◌, not, none, some, List, [], ◌∷◌,
  String, arith, length, keep, All, if◌then◌else◌, Bool-cases, keep-keep, keep-true, All-keep, ◌==◌,
  subst,
}
use deep_data_agent.Lease.{drop_empty}
use deep_data_agent.Lease.Sorted.{
  Key, Entry, SortedSets, Documented, is_after, is_member, same_key, same_key-true,
}

module _ (z : SortedSets) (h : Documented z) where
  -- The time stands, every key keeps part of its entries, and its deadline or none.
  pub record Shrinks (s s' : z.Store) : Type 0 where
    pub same_time : z.time s' ≡ z.time s
    pub same_deadline : (k : Key) → (h.deadline s' k ≡ h.deadline s k) ⊎ (h.deadline s' k ≡ none)
    pub kept : (k : Key) → (p : Entry → Bool) × (h.entries s' k ≡ keep p (h.entries s k))

  -- An update of one key, read as a filter of each key.
  filter_one :
      (k j : Key) (p : Entry → Bool) (es : List Entry)
      → (q : Entry → Bool) × ((if same_key k j then keep p es else es) ≡ keep q es)
  filter_one k j p es = elim (Bool-cases (same_key k j)) [
    | inl e ↦ (p, rw e)
    | inr e ↦ ((λ x. true), rw e (sym (keep-true es)))
  ]

  pub zremrange-Shrinks : (k : Key) (t : ℕ) (s : z.Store) → Shrinks s (z.zremrangebyscore k t s)
  zremrange-Shrinks k t s = record {
    same_time = h.zremrange_time k t s;
    same_deadline = λ j. h.zremrange_deadline k j t s;
    kept = λ j.
        let f = filter_one k j (is_after t) (h.entries s j) in
        (f.0, h.zremrange_entries k j t s ∙ f.1);
  }

  pub zrem-Shrinks : (k : Key) (m : String) (s : z.Store) → Shrinks s (z.zrem k m s).1
  zrem-Shrinks k m s = record {
    same_time = h.zrem_time k m s;
    same_deadline = λ j. h.zrem_deadline k j m s;
    kept = λ j.
        let f = filter_one k j (λ e. not (is_member m e)) (h.entries s j) in
        (f.0, h.zrem_entries k j m s ∙ f.1);
  }

  Shrinks-refl : (s : z.Store) → Shrinks s s
  Shrinks-refl s = record {
    same_time = refl;
    same_deadline = λ j. inl refl;
    kept = λ j. ((λ x. true), sym (keep-true (h.entries s j)));
  }

  empty_of_length : (es : List Entry) → length es ≡ 0 → es ≡ []
  empty_of_length [] e = refl
  empty_of_length (x ∷ es) e = absurd (omega arith)

  del_empty :
      (k j : Key) (s : z.Store)
      → (z.zcard k s == 0) ≡ true
      → h.entries (z.del k s) j ≡ h.entries s j
  del_empty k j s e = elim (Bool-cases (same_key k j)) [
    | inl same ↦
        rw (h.del_entries k j s)
          (rw same (subst (λ i. [] ≡ h.entries s i) (same_key-true k j same) empty))
    | inr other ↦ rw (h.del_entries k j s) (rw other)
  ]
    where
      empty : [] ≡ h.entries s k
      empty = sym (empty_of_length (h.entries s k) (ground (arith, h.zcard_length k s)))

  -- `drop_empty` changes no key's entries.
  pub drop_empty_entries :
      (k j : Key) (s : z.Store) → h.entries (drop_empty z k s) j ≡ h.entries s j
  unfolding drop_empty
  drop_empty_entries k j s = elim (Bool-cases (z.zcard k s == 0)) [
    | inl e ↦ rw e (del_empty k j s e)
    | inr e ↦ rw e
  ]

  pub drop_empty-Shrinks : (k : Key) (s : z.Store) → Shrinks s (drop_empty z k s)
  unfolding drop_empty
  drop_empty-Shrinks k s = elim (Bool-cases (z.zcard k s == 0)) [
    | inl e ↦ rw e (record {
      same_time = h.del_time k s;
      same_deadline = λ j. h.del_deadline k j s;
      kept = λ j. ((λ x. true), del_empty k j s e ∙ sym (keep-true (h.entries s j)));
    })
    | inr e ↦ rw e (Shrinks-refl s)
  ]

  pub Shrinks-trans : {s s' s'' : z.Store} → Shrinks s s' → Shrinks s' s'' → Shrinks s s''
  Shrinks-trans f g = record {
    same_time = g.same_time ∙ f.same_time;
    same_deadline = λ k. elim (g.same_deadline k) [
      | inl e ↦ elim (f.same_deadline k) [ inl e' ↦ inl (e ∙ e') | inr e' ↦ inr (e ∙ e') ]
      | inr e ↦ inr e
    ];
    kept = λ k.
        let (p, e) = f.kept k in
        let (q, e') = g.kept k in ((λ x. q x && p x), e' ∙ ap (keep q) e ∙ keep-keep q p _);
  }

  pub Shrinks-bounded :
      {s s' : z.Store} (n : ℕ) (k : Key)
      → Shrinks s s'
      → All (λ e. e.score ≤ n) (h.entries s k)
      → All (λ e. e.score ≤ n) (h.entries s' k)
  Shrinks-bounded n k f a = let (p, e) = f.kept k in rw e (All-keep (λ x. x.score ≤ n) p _ a)

  pub Shrinks-covered :
      {s s' : z.Store}
      → Shrinks s s'
      → ((k : Key) (t : ℕ) → h.deadline s k ≡ some t → All (λ e. e.score ≤ t) (h.entries s k))
      → (k : Key) (t : ℕ) → h.deadline s' k ≡ some t
      → All (λ e. e.score ≤ t) (h.entries s' k)
  Shrinks-covered f c k t d = elim (f.same_deadline k) [
    | inl e ↦ Shrinks-bounded t k f (c k t (sym e ∙ d))
    | inr e ↦ absurd (none≢some (sym e ∙ d))
  ]
    where
      none≢some : none ≡ some t → ⊥
      none≢some p = cc
