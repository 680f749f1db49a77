-- ===== src/Engine/Rerank/Order.antt =====
-- Reranking only reorders.
use mathlib.Core.Path.{subst}
use mathlib.Core.List.{Perm, perm_middle}
use mathlib.Core.List.Perm
use iwiki_mcp.Prelude.{
  ℕ, suc, ◌≡◌, refl, sym, ap, ◌∙◌, inl, inr, Bool, not, Option, none, some, List, [], ◌∷◌, ◌++◌,
  map, ◌==◌, Bool-cases, nat_eq, length, select, list_eq,
}
use iwiki_mcp.Prelude.Sort.{sort_by-perm}
use iwiki_mcp.Text.{Text}
use iwiki_mcp.Float.{Float}
use iwiki_mcp.Engine.Rerank.{
  Candidate, Row, Reranker, Reranked, is_some, enumerate, score_at, better, with_score,
  without_text, ranked_indices, unranked, merge_scores, merge_answer, rerank_candidates,
  result_count, scores_of,
}

map-enumerate {ℓ} :
    {A : Type ℓ} (i : ℕ) (xs : List A) → map (λ (c : ℕ × A). c.1) (enumerate i xs) ≡ xs
unfolding enumerate
map-enumerate i [] = refl
map-enumerate i (x ∷ xs) = ap (◌∷◌ x) (map-enumerate (suc i) xs)

map-map :
    {A B C : Type 0} (g : B → C) (f : A → B) (xs : List A)
    → map g (map f xs) ≡ map (λ x. g (f x)) xs
map-map g f [] = refl
map-map g f (x ∷ xs) = ap (◌∷◌ (g (f x))) (map-map g f xs)

map-id : {A : Type 0} (xs : List A) → map (λ x. x) xs ≡ xs
map-id [] = refl
map-id (x ∷ xs) = ap (◌∷◌ x) (map-id xs)

-- Those that pass a test and those that do not are all of them.
select-perm :
    {A : Type 0} (p : A → Bool) (xs : List A) → Perm (select p xs ++ select (λ x. not (p x)) xs) xs
select-perm p [] = Perm.refl []
select-perm p (x ∷ xs) = elim (Bool-cases (p x)) [
  | inl e ↦ rw e (Perm.cons x (select-perm p xs))
  | inr e ↦ rw e (
      Perm.trans (perm_middle (select p xs) (select (λ y. not (p y)) xs))
        (Perm.cons x (select-perm p xs)))
]

module _ (f : Float) (service : Reranker f) {R : Type 0} where
  ranked_indices-perm :
      (scores : ℕ → Option (f.F)) (numbered : List (ℕ × R))
      → Perm (ranked_indices f service scores numbered) numbered
  unfolding ranked_indices
  ranked_indices-perm scores numbered =
      let scored : ℕ × R → Bool = λ c. is_some (score_at f service scores c) in
      Perm.trans
        (Perm.append_right (select (λ c. not (scored c)) numbered)
          (sort_by-perm (better f service scores) (select scored numbered)))
        (select-perm scored numbered)

  -- The fields of the ranked candidates, without the new scores.
  abbrev pub fields_of : Reranked R (f.F) → List R
  fields_of r = map (λ (x : R × Option (f.F)). x.0) r.ranked

  unranked-fields :
      (preliminary : List R) → fields_of (unranked f service preliminary) ≡ preliminary
  unranked-fields preliminary =
      map-map (λ (x : R × Option (f.F)). x.0) (λ r. (r, none)) preliminary ∙ map-id preliminary

  merge_scores-perm :
      (top_n : Option ℕ) (scores : ℕ → Option (f.F)) (preliminary : List R)
      → Perm (fields_of (merge_scores f service top_n scores preliminary)) preliminary
  unfolding merge_scores
  merge_scores-perm top_n scores preliminary =
      let numbered : List (ℕ × R) = enumerate 0 preliminary in
      let scored = select (λ (c : ℕ × R). is_some (score_at f service scores c)) numbered in
      elim (Bool-cases (length scored == 0)) [
        | inl e ↦ rw e (rw (unranked-fields preliminary) (Perm.refl preliminary))
        | inr e ↦ rw e (
            subst (λ l. Perm l preliminary)
              (sym (
                map-map (λ (x : R × Option (f.F)). x.0) (with_score f service scores)
                  (ranked_indices f service scores numbered)))
              (subst
                (λ l. Perm (map (λ (c : ℕ × R). c.1) (ranked_indices f service scores numbered)) l)
                (map-enumerate 0 preliminary)
                (Perm.map (λ (c : ℕ × R). c.1) (ranked_indices-perm scores numbered))))
      ]

  -- Whatever the service answers, or when it fails, the result has exactly the candidates of the
  -- search, each once and without its text: scores reorder them, and neither drop nor repeat one.
  pub rerank_candidates-perm :
      (query : Text) (candidates : List (Candidate R)) (top_n : Option ℕ)
      → Perm
          (fields_of (rerank_candidates f service query candidates top_n))
          (without_text f service candidates)
  unfolding rerank_candidates merge_answer
  rerank_candidates-perm query [] top_n = Perm.refl []
  rerank_candidates-perm query (c ∷ cs) top_n = answered (
      service.post query (map (λ (c : Candidate R). c.text) (c ∷ cs))
        (result_count top_n (length (c ∷ cs))))
    where
      preliminary : List R
      preliminary = without_text f service (c ∷ cs)

      answered :
          (answer : Option (List (Row (f.F))))
          → Perm (fields_of (merge_answer f service top_n preliminary answer)) preliminary
      answered none = rw (unranked-fields preliminary) (Perm.refl preliminary)
      answered (some rows) =
          merge_scores-perm top_n (scores_of f service (length preliminary) rows) preliminary
