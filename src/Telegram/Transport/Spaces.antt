-- ===== src/Telegram/Transport/Spaces.antt =====
-- `str.strip` around a character that is no space: what is left of the texts beside it.
use mathlib.Core.List.{reverse, reverse-append, reverse-reverse}
use iwiki_mcp.Prelude.{
  ℕ, ◌≡◌, refl, sym, ap, ◌∙◌, ◌⊎◌, inl, inr, true, false, [], ◌∷◌, ◌++◌, arith, Bool-cases, nat_eq,
  contains, list_eq,
}
use iwiki_mcp.Text.{Text, is_space, strip_left, strip}

-- `str.rstrip()`
abbrev pub strip_right : Text → Text
strip_right s = reverse (strip_left (reverse s))

strip_left-append :
    (a b : Text) (c : ℕ) → is_space c ≡ false → strip_left (a ++ c ∷ b) ≡ strip_left a ++ c ∷ b
unfolding strip_left
strip_left-append [] b c e = rw (e) refl
strip_left-append (d ∷ a) b c e = elim (Bool-cases (is_space d)) [
  | inl s ↦ rw (s) (strip_left-append a b c e)
  | inr s ↦ rw (s) refl
]

strip_left_twice : (a : Text) → strip_left (strip_left a) ≡ strip_left a
unfolding strip_left
strip_left_twice [] = refl
strip_left_twice (c ∷ a) = elim (Bool-cases (is_space c)) [
  | inl s ↦ rw (s) (strip_left_twice a)
  | inr s ↦ rw (s, s) refl
]

strip_right_twice : (a : Text) → strip_right (strip_right a) ≡ strip_right a
strip_right_twice a =
    ap reverse
      (ap strip_left (reverse-reverse (strip_left (reverse a))) ∙ strip_left_twice (reverse a))

append_snoc : (a b : Text) (c : ℕ) → (a ++ c ∷ []) ++ b ≡ a ++ c ∷ b
append_snoc [] b c = refl
append_snoc (d ∷ a) b c = ap (λ l. d ∷ l) (append_snoc a b c)

reverse-middle : (a b : Text) (c : ℕ) → reverse (a ++ c ∷ b) ≡ reverse b ++ c ∷ reverse a
reverse-middle a b c =
    reverse-append a (c ∷ b)
    ∙ (ap (λ l. l ++ reverse a) (reverse-append (c ∷ []) b) ∙ append_snoc (reverse b) (reverse a) c)

strip_right-append :
    (a b : Text) (c : ℕ) → is_space c ≡ false → strip_right (a ++ c ∷ b) ≡ a ++ c ∷ strip_right b
strip_right-append a b c e =
    ap (λ l. reverse (strip_left l)) (reverse-middle a b c)
    ∙ (ap reverse (strip_left-append (reverse b) (reverse a) c e)
        ∙ (reverse-middle (strip_left (reverse b)) (reverse a) c
            ∙ ap (λ l. l ++ c ∷ strip_right b) (reverse-reverse a)))

-- Stripping around the character strips the outer ends of both texts.
pub strip-append :
    (a b : Text) (c : ℕ)
    → is_space c ≡ false
    → strip (a ++ c ∷ b) ≡ strip_left a ++ c ∷ strip_right b
unfolding strip
strip-append a b c e =
    ap strip_right (strip_left-append a b c e) ∙ strip_right-append (strip_left a) b c e

pub strip-strip_left : (a : Text) → strip (strip_left a) ≡ strip a
unfolding strip
strip-strip_left a = ap strip_right (strip_left_twice a)

-- A last character is kept, unless all is space.
strip_left_snoc :
    (a : Text) (c : ℕ)
    → (strip_left (a ++ c ∷ []) ≡ strip_left a ++ c ∷ [])
      ⊎ ((strip_left a ≡ []) × (strip_left (a ++ c ∷ []) ≡ []))
unfolding strip_left
strip_left_snoc [] c = elim (Bool-cases (is_space c)) [
  | inl s ↦ inr (refl, rw (s) refl)
  | inr s ↦ inl (rw (s) refl)
]
strip_left_snoc (d ∷ a) c = elim (Bool-cases (is_space d)) [
  | inl s ↦ rw (s) (strip_left_snoc a c)
  | inr s ↦ inl (rw (s) refl)
]

strip_right_cons :
    (c : ℕ) (a : Text)
    → (strip_right (c ∷ a) ≡ c ∷ strip_right a)
      ⊎ ((strip_right a ≡ []) × (strip_right (c ∷ a) ≡ []))
strip_right_cons c a =
    let first = ap (λ l. reverse (strip_left l)) (reverse-append (c ∷ []) a) in
    elim (strip_left_snoc (reverse a) c) [
      | inl e ↦ inl (first ∙ (ap reverse e ∙ reverse-append (strip_left (reverse a)) (c ∷ [])))
      | inr e ↦ inr (ap reverse e.0, first ∙ ap reverse e.1)
    ]

strip_left_space : (c : ℕ) (a : Text) → is_space c ≡ true → strip_left (c ∷ a) ≡ strip_left a
unfolding strip_left
strip_left_space c a s = rw (s) refl

strip_left_other : (c : ℕ) (a : Text) → is_space c ≡ false → strip_left (c ∷ a) ≡ c ∷ a
unfolding strip_left
strip_left_other c a s = rw (s) refl

strip_left-strip_right : (a : Text) → strip_left (strip_right a) ≡ strip_right (strip_left a)
unfolding strip_left
strip_left-strip_right [] = refl
strip_left-strip_right (c ∷ a) = elim (Bool-cases (is_space c)) [
  | inl s ↦
      let rest = strip_left-strip_right a ∙ sym (ap strip_right (strip_left_space c a s)) in
      elim (strip_right_cons c a) [
        | inl e ↦ ap strip_left e ∙ (strip_left_space c (strip_right a) s ∙ rest)
        | inr e ↦ ap strip_left (e.1 ∙ sym e.0) ∙ rest
      ]
  | inr s ↦
      let kept = strip_right-append [] a c s in
      ap strip_left kept
      ∙ (strip_left_other c (strip_right a) s
          ∙ sym (ap strip_right (strip_left_other c a s) ∙ kept))
]

pub strip-strip_right : (a : Text) → strip (strip_right a) ≡ strip a
unfolding strip
strip-strip_right a = ap strip_right (strip_left-strip_right a) ∙ strip_right_twice (strip_left a)

pub contains-strip_left :
    (a : Text) (c : ℕ) → contains a c ≡ false → contains (strip_left a) c ≡ false
unfolding strip_left
contains-strip_left [] c h = refl
contains-strip_left (d ∷ a) c h = ground (arith, contains-strip_left a c)
