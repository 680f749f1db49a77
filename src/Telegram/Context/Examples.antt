-- ===== src/Telegram/Context/Examples.antt =====
-- Runs of the selection, and its theorems at them.
use iwiki_mcp.Prelude.{
  ◌≤◌, ◌≡◌, refl, false, List, [], ◌∷◌, ◌++◌, map, arith, nat_eq, length, list_eq,
}
use iwiki_mcp.Prelude.Sort.{sort_by}
use iwiki_mcp.Samples.{ascii}
use iwiki_mcp.Text.{codes, join}
use iwiki_mcp.Telegram.Words.{terms, overlap}
use iwiki_mcp.Telegram.Context.{
  Section, truncated, label, elision, blank_line, paragraphs, excerpt, trim, render, pack,
  select_context,
}
use iwiki_mcp.Telegram.Context.Fits.{length-select_context-le}
use iwiki_mcp.Telegram.Context.Trim.{length-excerpt-le}
use iwiki_mcp.Telegram.Context.Whole.{whole, select_context-not_truncated, select_context-enough}

abbrev intro : Section
intro = record { slug = codes "a"; heading = []; body = codes "one" }

abbrev usage : Section
usage = record { slug = codes "a"; heading = codes "Use"; body = codes "two" }

abbrev both : List Section
both = intro ∷ usage ∷ []

program : Unit {0}
unfolding select_context truncated label render pack trim excerpt paragraphs terms overlap join
    sort_by
program = tt

terms_test : terms ascii (codes "Ab cd_1, AB") ≡ codes "cd_1" ∷ codes "ab" ∷ []
unfolding program
terms_test = refl

select_both : (select_context ascii both 60 (codes "x")).text ≡ join blank_line (map whole both)
unfolding program
select_both = refl

-- The excerpt of a lead of 8 characters passes its limit of 10 by the elision mark.
excerpt_over :
    excerpt ascii (codes "12345678") (codes "other" ∷ []) (codes "x" ∷ []) 10
    ≡ codes "12345678" ++ (blank_line ++ elision)
unfolding program
excerpt_over = refl

excerpt_skips :
    excerpt ascii (codes "lead") (codes "no" ∷ codes "x yes" ∷ []) (codes "x" ∷ []) 40
    ≡ join blank_line (codes "lead" ∷ elision ∷ codes "x yes" ∷ [])
unfolding program
excerpt_skips = refl

length-select_context-le_example : length (select_context ascii both 20 (codes "x")).text ≤ 20
length-select_context-le_example = length-select_context-le ascii both 20 (codes "x")

length-excerpt-le_example :
    length (excerpt ascii (codes "12345678") (codes "other" ∷ []) (codes "x" ∷ []) 10) ≤ 17
length-excerpt-le_example =
    length-excerpt-le ascii (codes "12345678") (codes "other" ∷ []) (codes "x" ∷ []) 10
      (omega arith)

select_context-not_truncated_example :
    (select_context ascii both 60 (codes "x")).text ≡ join blank_line (map whole both)
unfolding program
select_context-not_truncated_example = select_context-not_truncated ascii both 60 (codes "x") refl

select_context-enough_example :
    (truncated (select_context ascii both 60 (codes "x")) ≡ false)
    × ((select_context ascii both 60 (codes "x")).text ≡ join blank_line (map whole both))
unfolding label
select_context-enough_example =
    select_context-enough ascii both 60 30 (codes "x") (omega arith) (omega arith)
