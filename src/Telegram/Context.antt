-- ===== src/Telegram/Context.antt =====
-- `select_context` of src/iwiki_mcp/telegram_bot/context.py: the wiki sections that fit a budget.
pub mod Fits
pub mod Whole
pub mod Trim
mod Examples
use iwiki_mcp.Prelude.{
  ℕ, zero, suc, ◌+◌, ◌-◌, ◌*◌, ◌/◌, ◌%◌, ◌≤◌, ◌<◌, min, max, ◌≡◌, refl, sym, ap, ◌∙◌, ◌≢◌, ◌↔◌, ◌⊎◌,
  inl, inr, Bool, true, false, not, ◌&&◌, ◌||◌, Option, none, some, List, [], ◌∷◌, ◌++◌, map, arith,
  ltb, leb, ◌==◌, if◌then◌else◌, leb→le, le→leb, ==_iff, Bool-cases, Option-cases, Eq, nat_eq,
  length, take, drop, get_elem?, length-append, length-take, take_of_length-le, take-append-drop,
  All, select, any, contains, list_beq, list_eq,
}
use iwiki_mcp.Prelude.Sort.{sort_by}
use iwiki_mcp.Text.{Text, codes, strip, gap, join, split_blank}
use iwiki_mcp.Telegram.Words.{Unicode, terms, overlap}

abbrev pub min_excerpt_chars : ℕ
min_excerpt_chars = 250

abbrev pub blank_line : Text
blank_line = 10 ∷ 10 ∷ []

abbrev pub elision : Text
elision = codes "[...]"

pub record Section : Type 0 where
  pub slug : Text
  pub heading : Text
  pub body : Text

pub record Selection : Type 0 where
  pub text : Text
  pub total : ℕ
  pub full : ℕ

unfoldable pub truncated : Selection → Bool
truncated s = ltb s.full s.total

unfoldable pub label : Section → Text
label s = elim s.heading [
  | [] ↦ codes "## " ++ s.slug
  | _ ∷ _ ↦ codes "## " ++ (s.slug ++ (codes " - " ++ s.heading))
]

unfoldable pub strip_parts : List Text → List Text
unfolding strip
strip_parts [] = []
strip_parts (part ∷ parts) =
    let rest = strip_parts parts in elim (strip part) [ [] ↦ rest | c ∷ s ↦ (c ∷ s) ∷ rest ]

unfoldable pub paragraphs : Text → List Text
unfolding split_blank strip_parts
paragraphs body = strip_parts (split_blank body)

-- `enumerate` over the paragraphs.
unfoldable pub number_from : ℕ → List Text → List (ℕ × Text)
number_from i [] = []
number_from i (p ∷ ps) = (i, p) ∷ number_from (suc i) ps

abbrev pub overhead : ℕ
overhead = 2 * length blank_line + length elision

-- The loop that marks the gaps; `expected` is `previous + 1`, `count` is `len(paragraphs)`.
unfoldable pub mark_gaps : ℕ → ℕ → List (ℕ × Text) → List Text
mark_gaps count expected [] = if expected == count then [] else elision ∷ []
mark_gaps count expected ((i, p) ∷ kept) =
    let rest = p ∷ mark_gaps count (suc i) kept in if i == expected then rest else elision ∷ rest

abbrev pub by_index : ℕ × Text → ℕ × Text → Bool
by_index (i, _) (j, _) = leb i j

-- `(_paragraphs(body)[:1] or [body])[0]`
unfoldable pub lead_of : Text → List Text → Text
lead_of body [] = body
lead_of body (lead ∷ _) = lead

abbrev pub labelled : Section → Text → Text
labelled s content = label s ++ (10 ∷ content)

-- The variables of the loop of `select_context`.
pub record Packing : Type 0 where
  pub blocks : List Text
  pub remaining : ℕ
  pub full : ℕ

unfoldable pub add_block : Packing → Option (Text × Bool) → Packing
add_block p none = p
add_block p (some (block, complete)) = record {
  blocks = p.blocks ++ block ∷ [];
  remaining = p.remaining - (gap blank_line p.blocks + length block);
  full = p.full + (if complete then 1 else 0);
}

abbrev pub unpacked : ℕ → Packing
unpacked budget = record { blocks = []; remaining = budget; full = 0 }

module _ (u : Unicode) where
  -- The key `(-overlap, index)`.
  unfoldable pub more_relevant : List Text → ℕ × Text → ℕ × Text → Bool
  unfolding overlap
  more_relevant ts (i, p) (j, q) =
      ltb (overlap u q ts) (overlap u p ts) || (overlap u p ts == overlap u q ts && leb i j)

  -- The loop over the ranked paragraphs: what is kept, within `limit`.
  unfoldable pub choose : List Text → ℕ → List (ℕ × Text) → ℕ → List (ℕ × Text)
  unfolding overlap
  choose ts limit [] used = []
  choose ts limit ((i, p) ∷ ranked) used =
      let cost = length p + overhead in
      let skipped = choose ts limit ranked used in
      let kept = choose ts limit ranked (used + cost) in
      if overlap u p ts == 0 then [] else if ltb limit (used + cost) then skipped else (i, p) ∷ kept

  -- The text that `_trim` cuts to `limit` at its end.
  unfoldable pub excerpt : Text → List Text → List Text → ℕ → Text
  unfolding number_from more_relevant choose mark_gaps join sort_by
  excerpt lead others ts limit =
      let ranked = sort_by (more_relevant ts) (number_from 1 others) in
      let kept = choose ts limit ranked (length lead) in
      join blank_line (mark_gaps (length (lead ∷ others)) 0 ((0, lead) ∷ sort_by by_index kept))

  unfoldable pub trim_paragraphs : Text → List Text → List Text → ℕ → Text
  unfolding excerpt
  trim_paragraphs body [] ts limit = take limit body
  trim_paragraphs body (lead ∷ others) ts limit =
      if leb limit (length lead) then take limit lead else take limit (excerpt lead others ts limit)

  unfoldable pub trim : Text → List Text → ℕ → Text
  unfolding paragraphs trim_paragraphs
  trim body ts limit = trim_paragraphs body (paragraphs body) ts limit

  -- `share - len(label) - 1 <= 0` is a test of the truncated difference.
  unfoldable pub render : Section → ℕ → List Text → Option (Text × Bool)
  unfolding lead_of
  render s share ts =
      let room = share - length (label s) - 1 in
      if room == 0
      then none
      else if leb (length s.body) room
      then some (labelled s s.body, true)
      else if ltb room min_excerpt_chars
      then some (labelled s (take room (lead_of s.body (paragraphs s.body))), false)
      else some (labelled s (trim s.body ts room), false)

  -- One round: `waiting` sections, this one included, share what is left.
  unfoldable pub offer : List Text → ℕ → Section → Packing → Packing
  unfolding add_block
  offer ts waiting s p =
      let share = (p.remaining - gap blank_line p.blocks) / waiting in
      add_block p (render s share ts)

  unfoldable pub pack : List Text → List Section → Packing → Packing
  unfolding offer
  pack ts [] p = p
  pack ts (s ∷ rest) p = pack ts rest (offer ts (length (s ∷ rest)) s p)

  unfoldable pub select_context : List Section → ℕ → Text → Selection
  unfolding pack
  select_context sections budget query =
      let p = pack (terms u query) sections (unpacked budget) in
      record { text = join blank_line p.blocks; total = length sections; full = p.full }
