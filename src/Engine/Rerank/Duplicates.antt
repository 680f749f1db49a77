-- ===== src/Engine/Rerank/Duplicates.antt =====
-- An index that the service names twice is scored neither way.
use iwiki_mcp.Prelude.{
  ℕ, ◌<◌, ◌≡◌, refl, Bool, true, false, none, List, [], ◌∷◌, ◌++◌, arith, ◌==◌, nat_eq, contains,
  list_eq,
}
use iwiki_mcp.Float.{Float}
use iwiki_mcp.Engine.Rerank.{
  natural, no_index, Row, not_a_row, row, Reranker, Tally, take_index, take_row, take_rows,
  without_duplicates, scores_of,
}

-- The row names the index.
abbrev pub names : {F : Type 0} → ℕ → Row F → Bool
names i not_a_row = false
names i (row no_index score) = false
names i (row (natural j) score) = i == j

module _ (f : Float) (service : Reranker f) (total i : ℕ) (small : i < total) where
  -- Once it is a duplicate, it stays one.
  take_row-duplicate :
      (r : Row (f.F)) (t : Tally (f.F))
      → contains t.duplicates i ≡ true
      → contains (take_row f service total r t).duplicates i ≡ true
  unfolding take_row take_index
  take_row-duplicate not_a_row t h = h
  take_row-duplicate (row no_index score) t h = h
  take_row-duplicate (row (natural j) score) t h = ground arith

  take_row-seen :
      (r : Row (f.F)) (t : Tally (f.F))
      → contains t.seen i ≡ true
      → contains (take_row f service total r t).seen i ≡ true
  unfolding take_row take_index
  take_row-seen not_a_row t h = h
  take_row-seen (row no_index score) t h = h
  take_row-seen (row (natural j) score) t h = ground arith

  -- The first row that names it makes it seen, the second one a duplicate.
  take_row-first :
      (r : Row (f.F)) (t : Tally (f.F))
      → names i r ≡ true
      → contains (take_row f service total r t).seen i ≡ true
  unfolding take_row take_index
  take_row-first not_a_row t h = ground arith
  take_row-first (row no_index score) t h = ground arith
  take_row-first (row (natural j) score) t h = ground (arith, small)

  take_row-second :
      (r : Row (f.F)) (t : Tally (f.F))
      → names i r ≡ true
      → contains t.seen i ≡ true
      → contains (take_row f service total r t).duplicates i ≡ true
  unfolding take_row take_index
  take_row-second not_a_row t h k = ground arith
  take_row-second (row no_index score) t h k = ground arith
  take_row-second (row (natural j) score) t h k = ground (arith, small)

  take_rows-duplicate :
      (rows : List (Row (f.F))) (t : Tally (f.F))
      → contains t.duplicates i ≡ true
      → contains (take_rows f service total rows t).duplicates i ≡ true
  unfolding take_rows
  take_rows-duplicate [] t h = h
  take_rows-duplicate (r ∷ rows) t h =
      take_rows-duplicate rows (take_row f service total r t) (take_row-duplicate r t h)

  -- Seen before, and named by one of the rows: a duplicate at the end.
  take_rows-seen :
      (between : List (Row (f.F))) (r : Row (f.F)) (rest : List (Row (f.F))) (t : Tally (f.F))
      → names i r ≡ true
      → contains t.seen i ≡ true
      → contains (take_rows f service total (between ++ r ∷ rest) t).duplicates i ≡ true
  unfolding take_rows
  take_rows-seen [] r rest t h k =
      take_rows-duplicate rest (take_row f service total r t) (take_row-second r t h k)
  take_rows-seen (q ∷ between) r rest t h k =
      take_rows-seen between r rest (take_row f service total q t) h (take_row-seen q t k)

  take_rows-twice :
      (front : List (Row (f.F))) (first : Row (f.F)) (between : List (Row (f.F)))
      (second : Row (f.F)) (rest : List (Row (f.F))) (t : Tally (f.F))
      → names i first ≡ true
      → names i second ≡ true
      → contains
          (take_rows f service total (front ++ first ∷ between ++ second ∷ rest) t).duplicates
          i
        ≡ true
  unfolding take_rows
  take_rows-twice [] first between second rest t h k =
      take_rows-seen between second rest (take_row f service total first t) k
        (take_row-first first t h)
  take_rows-twice (q ∷ front) first between second rest t h k =
      take_rows-twice front first between second rest (take_row f service total q t) h k

  -- The index of a candidate that two rows of the answer name has no score, wherever the two stand and whatever
  -- scores they give: the service is not trusted about it.
  pub scores_of-twice :
      (front : List (Row (f.F))) (first : Row (f.F)) (between : List (Row (f.F)))
      (second : Row (f.F)) (rest : List (Row (f.F)))
      → names i first ≡ true
      → names i second ≡ true
      → scores_of f service total (front ++ first ∷ between ++ second ∷ rest) i ≡ none
  unfolding scores_of without_duplicates
  scores_of-twice front first between second rest h k =
      let start : Tally (f.F) = record { scores = λ _. none; seen = []; duplicates = [] } in
      rw (take_rows-twice front first between second rest start h k) refl
