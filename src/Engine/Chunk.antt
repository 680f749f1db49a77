-- ===== src/Engine/Chunk.antt =====
-- `_split_section` of src/iwiki_mcp/engine/chunk.py: the windows of a long section.
pub mod Cover
mod Examples
use iwiki_mcp.Prelude.{
  ◌^◌, ℕ, zero, suc, ◌+◌, ◌-◌, ◌*◌, ◌/◌, ◌%◌, ◌≤◌, ◌<◌, min, max, ◌≡◌, refl, sym, ap, ◌∙◌, ◌≢◌, ◌↔◌,
  ◌⊎◌, inl, inr, Bool, true, false, not, ◌&&◌, ◌||◌, Option, none, some, List, [], ◌∷◌, ◌++◌, map,
  arith, ltb, leb, ◌==◌, if◌then◌else◌, leb→le, le→leb, ==_iff, Bool-cases, Option-cases, Eq,
  nat_eq, length, take, drop, get_elem?, length-append, length-take, take_of_length-le,
  take-append-drop, All, select, any, contains, list_beq, list_eq,
}
use iwiki_mcp.Text.{Text}

-- `max(1, size - overlap)`: where the difference is negative, the maximum is 1 as well.
abbrev pub step_of : ℕ → ℕ → ℕ
step_of size overlap = max 1 (size - overlap)

-- The windows that start at `i`, `i + step` and so on, below `len(words)`; the fuel bounds how many.
unfoldable pub windows : ℕ → ℕ → ℕ → List Text → List (List Text)
windows zero step size words = []
windows (suc fuel) step size [] = []
windows (suc fuel) step size (w ∷ words) =
    take size (w ∷ words) ∷ windows fuel step size (drop step (w ∷ words))

abbrev pub is_nonempty : List Text → Bool
is_nonempty [] = false
is_nonempty (_ ∷ _) = true

-- A positive step reaches the end after at most `len(words)` windows.
unfoldable pub split_section : List Text → ℕ → ℕ → List (List Text)
unfolding windows
split_section words size overlap =
    if leb (length words) size
    then words ∷ []
    else select is_nonempty (windows (length words) (step_of size overlap) size words)
