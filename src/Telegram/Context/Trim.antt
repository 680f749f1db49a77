-- ===== src/Telegram/Context/Trim.antt =====
-- `_trim`: what the estimate of its greedy selection guarantees of the excerpt.
use iwiki_mcp.Prelude.{
  ℕ, suc, ◌+◌, ◌-◌, ◌≤◌, ◌≡◌, refl, Bool, List, [], ◌∷◌, ◌++◌, arith, nat_eq, length, length-append,
  list_eq,
}
use iwiki_mcp.Prelude.Sort.{sort_by, insert_by}
use iwiki_mcp.Text.{Text, join}
use iwiki_mcp.Telegram.Words.{Unicode}
use iwiki_mcp.Telegram.Context.{
  overhead, blank_line, by_index, number_from, more_relevant, choose, mark_gaps, excerpt,
}

-- What the selection charges for the kept paragraphs.
abbrev charged : List (ℕ × Text) → ℕ
charged [] = 0
charged ((i, p) ∷ kept) = length p + overhead + charged kept

-- The parts with a separator behind each.
abbrev spaced : List Text → ℕ
spaced [] = 0
spaced (part ∷ parts) = length part + length blank_line + spaced parts

join-le-spaced : (parts : List Text) → length (join blank_line parts) ≤ spaced parts - 2
unfolding join
join-le-spaced [] = omega arith
join-le-spaced (part ∷ []) = omega arith
join-le-spaced (part ∷ next ∷ parts) = omega (
  arith,
  length-append part (blank_line ++ join blank_line (next ∷ parts)),
  length-append blank_line (join blank_line (next ∷ parts)),
  join-le-spaced (next ∷ parts),
)

spaced-mark_gaps :
    (count expected : ℕ) (kept : List (ℕ × Text))
    → spaced (mark_gaps count expected kept) ≤ charged kept + 7
unfolding mark_gaps
spaced-mark_gaps count expected [] = ground arith
spaced-mark_gaps count expected ((i, p) ∷ kept) =
    ground (arith, spaced-mark_gaps count (suc i) kept)

module _ (before : ℕ × Text → ℕ × Text → Bool) where
  charged-insert_by :
      (x : ℕ × Text) (ys : List (ℕ × Text)) → charged (insert_by before x ys) ≡ charged (x ∷ ys)
  unfolding insert_by
  charged-insert_by (i, p) [] = refl
  charged-insert_by (i, p) ((j, q) ∷ ys) = ground (arith, charged-insert_by (i, p) ys)

  charged-sort_by : (xs : List (ℕ × Text)) → charged (sort_by before xs) ≡ charged xs
  unfolding sort_by
  charged-sort_by [] = refl
  charged-sort_by ((i, p) ∷ xs) =
      omega (arith, charged-insert_by (i, p) (sort_by before xs), charged-sort_by xs)

module _ (u : Unicode) where
  choose-within :
      (ts : List Text) (limit : ℕ) (ranked : List (ℕ × Text)) (used : ℕ)
      → used ≤ limit
      → used + charged (choose u ts limit ranked used) ≤ limit
  unfolding choose
  choose-within ts limit [] used h = omega arith
  choose-within ts limit ((i, p) ∷ ranked) used h = ground (
    arith,
    choose-within ts limit ranked used,
    choose-within ts limit ranked (used + (length p + overhead)),
  )

  -- When the lead paragraph fits the limit, the excerpt passes the limit by at most the seven
  -- characters of a last separator and elision mark: what the final cut takes off is no more.
  pub length-excerpt-le :
      (lead : Text) (others : List Text) (ts : List Text) (limit : ℕ)
      → length lead ≤ limit
      → length (excerpt u lead others ts limit) ≤ limit + 7
  unfolding excerpt
  length-excerpt-le lead others ts limit h =
      let ranked = sort_by (more_relevant u ts) (number_from 1 others) in
      let kept = choose u ts limit ranked (length lead) in
      let parts = lead ∷ mark_gaps (suc (length others)) 1 (sort_by by_index kept) in
      omega (
        arith,
        join-le-spaced parts,
        spaced-mark_gaps (suc (length others)) 1 (sort_by by_index kept),
        charged-sort_by by_index kept,
        choose-within ts limit ranked (length lead) h,
      )
