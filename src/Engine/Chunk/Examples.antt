-- ===== src/Engine/Chunk/Examples.antt =====
-- Five words in windows of three that share one.
use iwiki_mcp.Prelude.{◌≤◌, ◌≡◌, refl, List, [], ◌∷◌, arith, nat_eq, length, All, list_eq}
use iwiki_mcp.Text.{Text, codes}
use iwiki_mcp.Engine.Chunk.{split_section}
use iwiki_mcp.Engine.Chunk.Cover.{heads, length-split_section-le, heads-split_section}

abbrev five : List Text
five = codes "a" ∷ codes "b" ∷ codes "c" ∷ codes "d" ∷ codes "e" ∷ []

-- The last window is inside the one before it.
three_windows :
    split_section five 3 1
    ≡ (codes "a" ∷ codes "b" ∷ codes "c" ∷ [])
      ∷ (codes "c" ∷ codes "d" ∷ codes "e" ∷ [])
      ∷ (codes "e" ∷ [])
      ∷ []
unfolding split_section
three_windows = refl

length-split_section-le_example : All (λ w. length w ≤ 3) (split_section five 3 1)
length-split_section-le_example = length-split_section-le five 3 1

heads-split_section_example : heads 2 (split_section five 3 1) ≡ five
heads-split_section_example = heads-split_section five 3 1 (omega arith) (omega arith)
