-- ===== src/Engine/Chunk/Cover.antt =====
-- The windows are short enough, and no word is lost between them.
use iwiki_mcp.Prelude.{
  ℕ, zero, suc, ◌≤◌, ◌<◌, ◌≡◌, refl, ap, inl, inr, Bool, false, List, [], ◌∷◌, ◌++◌, arith, leb,
  leb→le, Bool-cases, nat_eq, length, take, drop, length-take, take-append-drop, All, select,
  list_eq,
}
use iwiki_mcp.Text.{Text}
use iwiki_mcp.Engine.Chunk.{step_of, windows, is_nonempty, split_section}

-- The first words of every window, one window after the other.
abbrev pub heads : ℕ → List (List Text) → List Text
heads step [] = []
heads step (w ∷ ws) = take step w ++ heads step ws

take-take : (a b : ℕ) (ws : List Text) → a ≤ b → take a (take b ws) ≡ take a ws
take-take zero b ws h = refl
take-take (suc a) zero ws h = absurd (omega arith)
take-take (suc a) (suc b) [] h = refl
take-take (suc a) (suc b) (w ∷ ws) h = ap (◌∷◌ w) (take-take a b ws (omega arith))

length-drop-le : (n : ℕ) (ws : List Text) → 0 < n → 0 < length ws → length (drop n ws) < length ws
length-drop-le zero ws h k = absurd (omega arith)
length-drop-le (suc n) [] h k = absurd (omega arith)
length-drop-le (suc n) (w ∷ ws) h k = omega (arith, drop_le n ws)
  where
    drop_le : (n : ℕ) (ws : List Text) → length (drop n ws) ≤ length ws
    drop_le zero ws = omega arith
    drop_le (suc n) [] = omega arith
    drop_le (suc n) (w ∷ ws) = omega (arith, drop_le n ws)

-- A window of a positive size at a word is kept.
select_nonempty :
    (n : ℕ) (w : Text) (words : List Text) (rest : List (List Text))
    → 0 < n
    → select is_nonempty rest ≡ rest
    → select is_nonempty (take n (w ∷ words) ∷ rest) ≡ take n (w ∷ words) ∷ rest
select_nonempty zero w words rest h k = absurd (omega arith)
select_nonempty (suc n) w words rest h k = ap (◌∷◌ (take (suc n) (w ∷ words))) k

module _ (step size : ℕ) (positive : 0 < step) (within : step ≤ size) where
  windows_nonempty :
      (fuel : ℕ) (words : List Text)
      → select is_nonempty (windows fuel step size words) ≡ windows fuel step size words
  unfolding windows
  windows_nonempty zero words = refl
  windows_nonempty (suc fuel) [] = refl
  windows_nonempty (suc fuel) (w ∷ words) =
      select_nonempty size w words (windows fuel step size (drop step (w ∷ words))) (omega arith)
        (windows_nonempty fuel (drop step (w ∷ words)))

  heads-windows :
      (fuel : ℕ) (words : List Text)
      → length words ≤ fuel
      → heads step (windows fuel step size words) ≡ words
  unfolding windows
  heads-windows zero [] h = refl
  heads-windows zero (w ∷ words) h = absurd (omega arith)
  heads-windows (suc fuel) [] h = refl
  heads-windows (suc fuel) (w ∷ words) h =
      let fewer : length (drop step (w ∷ words)) < length (w ∷ words) =
        length-drop-le step (w ∷ words) positive (omega arith) in
      rw
        (
          take-take step size (w ∷ words) within,
          heads-windows fuel (drop step (w ∷ words)) (omega arith),
        )
        (take-append-drop step (w ∷ words))

length-windows-le :
    (fuel step size : ℕ) (words : List Text)
    → All (λ w. length w ≤ size) (windows fuel step size words)
unfolding windows
length-windows-le zero step size words = tt
length-windows-le (suc fuel) step size [] = tt
length-windows-le (suc fuel) step size (w ∷ words) = (
  omega (arith, length-take size (w ∷ words)),
  length-windows-le fuel step size (drop step (w ∷ words)),
)

All-select :
    (P : List Text → Type 0) (p : List Text → Bool) (ws : List (List Text))
    → All P ws
    → All P (select p ws)
All-select P p [] h = tt
All-select P p (w ∷ ws) h = ground (arith, All-select P p ws h.1)

-- No window has more words than the size.
pub length-split_section-le :
    (words : List Text) (size overlap : ℕ)
    → All (λ w. length w ≤ size) (split_section words size overlap)
unfolding split_section
length-split_section-le words size overlap = elim (Bool-cases (leb (length words) size)) [
  | inl e ↦ rw e (leb→le (length words) size e, tt)
  | inr e ↦ rw e (
      All-select (λ w. length w ≤ size) is_nonempty _
        (length-windows-le (length words) (step_of size overlap) size words))
]

-- A section that needs more than one window loses no word and keeps their order: with a positive
-- size, the first `max(1, size - overlap)` words of each window, one window after the other, are
-- the words of the section.
pub heads-split_section :
    (words : List Text) (size overlap : ℕ)
    → 0 < size
    → size < length words
    → heads (step_of size overlap) (split_section words size overlap) ≡ words
unfolding split_section
heads-split_section words size overlap positive long =
    let e : leb (length words) size ≡ false = ground arith in
    let some_step : 0 < step_of size overlap = omega arith in
    let within : step_of size overlap ≤ size = omega arith in
    rw (e, windows_nonempty (step_of size overlap) size some_step within (length words) words)
      (heads-windows (step_of size overlap) size some_step within (length words) words
        (omega arith))
