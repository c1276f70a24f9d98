-- ===== src/Agent/Config/Entries.antt =====
-- A Python dict as an association list, and its laws by key: what data_agent/services/agent_service.py
-- uses of it.
use deep_data_agent.Prelude.{
  ◌≡◌, refl, ap, ◌∙◌, inl, inr, Option, none, some, List, [], ◌∷◌, String, listed, str_eq, eq_iff,
  arith, Bool-cases, if◌then◌else◌,
}

abbrev pub Dict : Type 0 → Type 0
Dict V = List (String × V)

module _ {V : Type 0} where
  -- `d.get(key)`
  unfoldable pub get : String → Dict V → Option V
  get k [] = none
  get k ((i, v) ∷ d) = if str_eq k i then some v else get k d

  -- `d[key] = value`
  unfoldable pub put : String → V → Dict V → Dict V
  put k v [] = (k, v) ∷ []
  put k v ((i, u) ∷ d) = if str_eq k i then (i, v) ∷ d else (i, u) ∷ put k v d

  -- `d.pop(key, None)` for each key of a list.
  unfoldable pub pop_all : List String → Dict V → Dict V
  pop_all ks [] = []
  pop_all ks ((i, v) ∷ d) = if listed i ks then pop_all ks d else (i, v) ∷ pop_all ks d

  pub get-put :
      (k i : String) (v : V) (d : Dict V)
      → get k (put i v d) ≡ (if str_eq k i then some v else get k d)
  unfolding get put
  get-put k i v [] = refl
  get-put k i v ((n, u) ∷ d) = ground (arith, get-put k i v d, eq_iff k i, eq_iff i n, eq_iff k n)

  pub get-pop_all :
      (k : String) (ks : List String) (d : Dict V)
      → get k (pop_all ks d) ≡ (if listed k ks then none else get k d)
  unfolding get pop_all
  get-pop_all k ks [] = ground arith
  get-pop_all k ks ((i, v) ∷ d) = elim (Bool-cases (str_eq k i)) [
    | inl same ↦
        let here = (eq_iff k i).0 same in
        elim (Bool-cases (listed i ks)) [
          | inl e ↦ let out = ap (λ n. listed n ks) here ∙ e in ground (arith, get-pop_all k ks d)
          | inr e ↦ let out = ap (λ n. listed n ks) here ∙ e in ground (arith, get-pop_all k ks d)
        ]
    | inr other ↦ elim (Bool-cases (listed i ks)) [
      | inl e ↦ ground (arith, get-pop_all k ks d)
      | inr e ↦ ground (arith, get-pop_all k ks d)
    ]
  ]
