-- ===== src/Engine/Neighbors/Examples.antt =====
-- A path of pages a, b, c, d, of which c is out of scope.
use mathlib.Core.Path.{subst}
use iwiki_mcp.Prelude.{
  ◌≡◌, refl, inl, inr, true, Option, none, some, List, [], ◌∷◌, map, arith, if◌then◌else◌,
  Bool-cases, nat_eq, All, list_beq, list_eq, list_beq_iff,
}
use iwiki_mcp.Prelude.Sort.{sort_by}
use iwiki_mcp.Text.{Text, codes}
use iwiki_mcp.CodeGraph.Publication.{text_leb}
use iwiki_mcp.Engine.Neighbors.{PageRow, Seed, rank_neighbor_pages, in_scope}
use iwiki_mcp.Engine.Neighbors.Scope.{RowIn, rank_neighbor_pages_scope}

abbrev provider : Text → List Text
provider file =
    if list_beq file (codes "a")
    then codes "b" ∷ []
    else if list_beq file (codes "b")
    then codes "c" ∷ codes "a" ∷ []
    else if list_beq file (codes "c")
    then codes "d" ∷ []
    else []

abbrev other_provider : Text → List Text
other_provider file = if list_beq file (codes "c") then [] else provider file

abbrev pages : Option (List Text)
pages = some (codes "a" ∷ codes "b" ∷ codes "d" ∷ [])

abbrev seeds : List Seed
seeds = record { file = codes "a"; origin = codes "x"; seed_rank = 1 } ∷ []

abbrev files_of : List PageRow → List Text
files_of rows = map (λ row. row.file) rows

program : Unit {0}
unfolding rank_neighbor_pages text_leb sort_by
program = tt

test_everything :
    files_of (rank_neighbor_pages seeds provider 3 5 none)
    ≡ codes "a" ∷ codes "b" ∷ codes "c" ∷ codes "d" ∷ []
unfolding program
test_everything = refl

test_capped : files_of (rank_neighbor_pages seeds provider 3 1 none) ≡ codes "a" ∷ codes "b" ∷ []
unfolding program
test_capped = refl

test_scope : files_of (rank_neighbor_pages seeds provider 3 5 pages) ≡ codes "a" ∷ codes "b" ∷ []
unfolding program
test_scope = refl

c_is_out : (file : Text) → list_beq file (codes "c") ≡ true → in_scope pages file ≡ true → ⊥
c_is_out file e h =
    ground (arith, subst (λ f. in_scope pages f ≡ true) ((list_beq_iff file (codes "c")).0 e) h)

agree : (file : Text) → in_scope pages file ≡ true → provider file ≡ other_provider file
agree file h = elim (Bool-cases (list_beq file (codes "c"))) [
  | inl e ↦ absurd (c_is_out file e h)
  | inr e ↦ rw (e) refl
]

rank_neighbor_pages_scope_example :
    (rank_neighbor_pages seeds provider 3 5 pages
      ≡ rank_neighbor_pages seeds other_provider 3 5 pages)
    × All (RowIn pages) (rank_neighbor_pages seeds provider 3 5 pages)
rank_neighbor_pages_scope_example =
    rank_neighbor_pages_scope pages provider other_provider agree seeds 3 5
