-- ===== src/Engine/Rerank/Examples.antt =====
-- Three candidates, and services that score them.
use mathlib.Core.List.{Perm}
use iwiki_mcp.Prelude.{ℕ, ◌≡◌, refl, true, none, some, List, [], ◌∷◌, arith, nat_eq, list_eq}
use iwiki_mcp.Text.{codes}
use iwiki_mcp.Samples.{hundredths}
use iwiki_mcp.Engine.Rerank.{
  Candidate, natural, no_index, Row, row, Reranker, rerank_candidates, scores_of,
}
use iwiki_mcp.Engine.Rerank.Order.{fields_of, rerank_candidates-perm}
use iwiki_mcp.Engine.Rerank.Duplicates.{scores_of-twice}

abbrev candidate : ℕ → Candidate ℕ
candidate n = record { text = codes "text"; fields = n }

abbrev three : List (Candidate ℕ)
three = candidate 10 ∷ candidate 11 ∷ candidate 12 ∷ []

-- The third is best, and the first is named twice.
abbrev rows : List (Row ℕ)
rows =
    row (natural 0) (some 90)
    ∷ row (natural 2) (some 80)
    ∷ row (natural 0) (some 70)
    ∷ row no_index (some 60)
    ∷ row (natural 1) (some 5)
    ∷ []

abbrev scoring : Reranker hundredths
scoring = record { post = λ query documents count. some rows; isfinite = λ x. true }

best_first :
    fields_of hundredths scoring (rerank_candidates hundredths scoring (codes "q") three none)
    ≡ 12 ∷ 11 ∷ 10 ∷ []
unfolding rerank_candidates
best_first = refl

rerank_candidates-perm_example :
    Perm
      (fields_of hundredths scoring (rerank_candidates hundredths scoring (codes "q") three none))
      (10 ∷ 11 ∷ 12 ∷ [])
rerank_candidates-perm_example = rerank_candidates-perm hundredths scoring (codes "q") three none

scores_of-twice_example : scores_of hundredths scoring 3 rows 0 ≡ none
scores_of-twice_example =
    scores_of-twice hundredths scoring 3 0 (omega arith) [] (row (natural 0) (some 90))
      (row (natural 2) (some 80) ∷ []) (row (natural 0) (some 70))
      (row no_index (some 60) ∷ row (natural 1) (some 5) ∷ []) refl refl
