-- ===== src/Telegram/Context/Fits.antt =====
-- The context that `select_context` assembles never passes its budget.
use iwiki_mcp.Prelude.{
  ℕ, suc, ◌+◌, ◌-◌, ◌/◌, ◌≤◌, ◌<◌, ◌≡◌, inl, inr, Bool, some, List, [], ◌∷◌, arith, Option-cases,
  nat_eq, length, take, length-append, length-take, list_eq,
}
use iwiki_mcp.Text.{Text, gap, join, length-join-snoc}
use iwiki_mcp.Telegram.Words.{Unicode, terms}
use iwiki_mcp.Telegram.Context.{
  Section, Packing, label, lead_of, paragraphs, trim, trim_paragraphs, excerpt, render, blank_line,
  add_block, offer, pack, unpacked, select_context,
}

module _ (u : Unicode) where
  length-trim-le :
      (body : Text) (ts : List Text) (limit : ℕ) → length (trim u body ts limit) ≤ limit
  unfolding trim
  length-trim-le body ts limit = on_paragraphs (paragraphs body)
    where
      on_paragraphs : (ps : List Text) → length (trim_paragraphs u body ps ts limit) ≤ limit
      on_paragraphs [] = omega (arith, length-take limit body)
      on_paragraphs (lead ∷ others) =
          ground (arith, length-take limit lead, length-take limit (excerpt u lead others ts limit))

  -- A rendered block is not empty, and no longer than the share that it was offered.
  render-le :
      (s : Section) (share : ℕ) (ts : List Text) {block : Text} {complete : Bool}
      → render u s share ts ≡ some (block, complete)
      → (0 < length block) × (length block ≤ share)
  unfolding render
  render-le s share ts h =
      let room = share - length (label s) - 1 in
      ground (
        arith,
        length-append (label s) (10 ∷ s.body),
        length-append (label s) (10 ∷ take room (lead_of s.body (paragraphs s.body))),
        length-append (label s) (10 ∷ trim u s.body ts room),
        length-take room (lead_of s.body (paragraphs s.body)),
        length-trim-le s.body ts room,
      )

  abbrev Within : ℕ → Packing → Type 0
  Within budget p = length (join blank_line p.blocks) + p.remaining ≤ budget

  add_block-Within :
      {budget : ℕ} (p : Packing) (block : Text) (complete : Bool)
      → gap blank_line p.blocks + length block ≤ p.remaining
      → Within budget p
      → Within budget (add_block p (some (block, complete)))
  unfolding add_block
  add_block-Within p block complete fits h =
      omega (arith, length-join-snoc blank_line p.blocks block)

  offer-Within :
      {budget : ℕ} (ts : List Text) (later : ℕ) (s : Section) (p : Packing)
      → Within budget p
      → Within budget (offer u ts (suc later) s p)
  unfolding offer
  offer-Within ts later s p h =
      let share = (p.remaining - gap blank_line p.blocks) / suc later in
      elim (Option-cases (render u s share ts)) [
        | inl e ↦ rw (e, add_block) h
        | inr ((block, complete), e) ↦
            rw e (add_block-Within p block complete (omega (arith, render-le s share ts e)) h)
      ]

  pack-Within :
      {budget : ℕ} (ts : List Text) (sections : List Section) (p : Packing)
      → Within budget p
      → Within budget (pack u ts sections p)
  unfolding pack
  pack-Within ts [] p h = h
  pack-Within ts (s ∷ rest) p h =
      pack-Within ts rest (offer u ts (length (s ∷ rest)) s p) (offer-Within ts (length rest) s p h)

  -- Whatever the sections, the budget and the query, the assembled context is no longer than the
  -- budget.
  pub length-select_context-le :
      (sections : List Section) (budget : ℕ) (query : Text)
      → length (select_context u sections budget query).text ≤ budget
  unfolding select_context join
  length-select_context-le sections budget query = omega (
    arith,
    pack-Within {budget = budget} (terms u query) sections (unpacked budget) (omega arith),
  )
