-- ===== src/Telegram/Words.antt =====
-- `_terms` and `_overlap` of src/iwiki_mcp/telegram_bot/context.py.
use mathlib.Core.List.{reverse}
use iwiki_mcp.Prelude.{
  ℕ, Bool, List, [], ◌∷◌, if◌then◌else◌, nat_eq, length, select, contains, list_eq,
}
use iwiki_mcp.Text.{Text}

-- The Unicode tables behind `\w` and `str.casefold`, which are data of the Python runtime.
pub record Unicode : Type 0 where
  pub word_char : ℕ → Bool
  pub casefold : Text → Text

module _ (u : Unicode) where
  open u use {word_char, casefold}

  abbrev end_word : Text → List Text → List Text
  end_word [] found = found
  end_word (c ∷ word) found = reverse (c ∷ word) ∷ found

  -- `re.finditer(r"\w+", s)`: the maximal runs of word characters.
  unfoldable pub words : Text → Text → List Text
  words word [] = end_word word []
  words word (c ∷ s) =
      let inside = words (c ∷ word) s in
      let outside = words [] s in if word_char c then inside else end_word word outside

  abbrev pub add_term : Text → List Text → List Text
  add_term t ts = if contains ts t then ts else t ∷ ts

  -- A `frozenset` as a list without repetitions.
  unfoldable pub fold_terms : List Text → List Text
  fold_terms [] = []
  fold_terms (w ∷ ws) = add_term (casefold w) (fold_terms ws)

  unfoldable pub terms : Text → List Text
  unfolding words fold_terms
  terms query = fold_terms (words [] query)

  unfoldable pub overlap : Text → List Text → ℕ
  unfolding terms
  overlap text ts = let own = terms text in length (select (contains own) ts)
