-- ===== src/Telegram/Agent/Parts.antt =====
-- The numbered parts of a section give the whole section back.
use native.Mathlib.Nat.{suc-add, zero-add}
use iwiki_mcp.Prelude.{
  ℕ, zero, suc, ◌+◌, ◌-◌, ◌*◌, ◌≤◌, ◌≡◌, refl, sym, ap, ◌∙◌, List, [], ◌∷◌, ◌++◌, arith, nat_eq,
  length, take, drop, take_of_length-le, list_eq,
}
use iwiki_mcp.Text.{Text}
use iwiki_mcp.Telegram.Agent.{part_chars, part_of}

-- The parts 1 to `n`, one after another.
pub parts_to : Text → ℕ → Text
parts_to body zero = []
parts_to body (suc n) = parts_to body n ++ part_of body (suc n)

take-add {ℓ} :
    {A : Type ℓ} (a k : ℕ) (xs : List A) → take (a + k) xs ≡ take a xs ++ take k (drop a xs)
take-add zero k xs = rw zero-add
take-add {A} (suc a) k [] = rw suc-add (nothing k)
  where
    nothing : (k : ℕ) → ◌≡◌ {A = List A} [] (take k [])
    nothing zero = refl
    nothing (suc k) = refl
take-add (suc a) k (x ∷ xs) = rw suc-add (ap (◌∷◌ x) (take-add a k xs))

parts_to-eq-take : (body : Text) (n : ℕ) → parts_to body n ≡ take (n * part_chars) body
unfolding parts_to part_of
parts_to-eq-take body zero = refl
parts_to-eq-take body (suc n) =
    let start : suc n - 1 ≡ n = omega arith in
    let end : suc n * part_chars ≡ n * part_chars + part_chars = omega arith in
    rw (start, end, parts_to-eq-take body n) (sym (take-add (n * part_chars) part_chars body))

-- Once the parts reach the end of a section, they are the section: reading part 1, 2, 3 and so on
-- skips no character and repeats none.
pub parts_to-eq-body : (body : Text) (n : ℕ) → length body ≤ n * part_chars → parts_to body n ≡ body
parts_to-eq-body body n h = parts_to-eq-take body n ∙ take_of_length-le (n * part_chars) body h
