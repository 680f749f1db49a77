-- ===== src/Telegram/Context/Whole.antt =====
-- When `select_context` uses every section in full, and what its text is then.
use mathlib.Core.List.{append_assoc, append-nil}
use iwiki_mcp.Prelude.{
  ℕ, suc, ◌+◌, ◌-◌, ◌*◌, ◌/◌, ◌≤◌, ◌<◌, ◌≡◌, refl, ap, ◌∙◌, ◌⊎◌, inl, inr, Bool, true, false, some,
  List, [], ◌∷◌, ◌++◌, map, arith, Option-cases, nat_eq, length, length-append, All, list_eq,
}
use iwiki_mcp.Text.{Text, gap, join}
use iwiki_mcp.Telegram.Words.{Unicode, terms}
use iwiki_mcp.Telegram.Context.{
  Section, Packing, label, labelled, render, blank_line, add_block, offer, pack, unpacked,
  select_context, truncated,
}

-- A section with its label, uncut.
abbrev pub whole : Section → Text
whole s = labelled s s.body

module _ (u : Unicode) where
  -- Only a whole section is reported as complete.
  render_complete :
      (s : Section) (share : ℕ) (ts : List Text) (block : Text)
      → render u s share ts ≡ some (block, true)
      → block ≡ whole s
  unfolding render
  render_complete s share ts block h = ground arith

  -- A section that fits its share is rendered whole.
  render-whole :
      (s : Section) (share : ℕ) (ts : List Text)
      → length (label s) + 1 + length s.body ≤ share
      → 0 < length s.body
      → render u s share ts ≡ some (whole s, true)
  unfolding render
  render-whole s share ts h b = ground arith

  offer-full :
      (ts : List Text) (waiting : ℕ) (s : Section) (p : Packing)
      → ((offer u ts waiting s p).full ≤ p.full)
        ⊎ (((offer u ts waiting s p).full ≡ p.full + 1)
            × ((offer u ts waiting s p).blocks ≡ p.blocks ++ whole s ∷ []))
  unfolding offer add_block
  offer-full ts waiting s p =
      let share = (p.remaining - gap blank_line p.blocks) / waiting in
      elim (Option-cases (render u s share ts)) [
        | inl e ↦ inl (rw (e, add_block) (omega arith))
        | inr ((block, complete), e) ↦ rw e (
            block_kept p block complete
              (λ h. render_complete s share ts block (e ∙ ap (λ c. some (block, c)) h)))
      ]
    where
      block_kept :
          (p : Packing) (block : Text) (complete : Bool)
          → (complete ≡ true → block ≡ whole s)
          → ((add_block p (some (block, complete))).full ≤ p.full)
            ⊎ (((add_block p (some (block, complete))).full ≡ p.full + 1)
                × ((add_block p (some (block, complete))).blocks ≡ p.blocks ++ whole s ∷ []))
      block_kept p block true h = inr (refl, rw (h refl))
      block_kept p block false h = inl (omega arith)

  pack-full-le :
      (ts : List Text) (sections : List Section) (p : Packing)
      → (pack u ts sections p).full ≤ p.full + length sections
  unfolding pack
  pack-full-le ts [] p = omega arith
  pack-full-le ts (s ∷ rest) p =
      let q = offer u ts (length (s ∷ rest)) s p in
      ground (arith, offer-full ts (length (s ∷ rest)) s p, pack-full-le ts rest q)

  pack-whole :
      (ts : List Text) (sections : List Section) (p : Packing)
      → (pack u ts sections p).full ≡ p.full + length sections
      → (pack u ts sections p).blocks ≡ p.blocks ++ map whole sections
  unfolding pack
  pack-whole ts [] p h = rw append-nil
  pack-whole ts (s ∷ rest) p h = elim (offer-full ts (length (s ∷ rest)) s p) [
    | inl e ↦ absurd (omega (arith, pack-full-le ts rest (offer u ts (length (s ∷ rest)) s p)))
    | inr (e, b) ↦
        pack-whole ts rest (offer u ts (length (s ∷ rest)) s p) (omega arith)
        ∙ rw b (append_assoc p.blocks (whole s ∷ []) (map whole rest))
  ]

  -- A selection that is not reported as truncated holds every section whole, with its label, in
  -- the order of the retrieval.
  pub select_context-not_truncated :
      (sections : List Section) (budget : ℕ) (query : Text)
      → truncated (select_context u sections budget query) ≡ false
      → (select_context u sections budget query).text ≡ join blank_line (map whole sections)
  unfolding select_context truncated
  select_context-not_truncated sections budget query h = ap (join blank_line) (
      pack-whole (terms u query) sections (unpacked budget)
        (ground (arith, pack-full-le (terms u query) sections (unpacked budget))))

  -- An even part `k` of what is left, for each of `later + 1` sections, is at least `k - 2` beside
  -- the separator.
  even_share :
      (later k remaining g : ℕ)
      → suc later * k ≤ remaining
      → g ≤ 2
      → k ≤ (remaining - g) / suc later + 2
  even_share later k remaining g h small = grind arith

  gap_le : (blocks : List Text) → gap blank_line blocks ≤ 2
  gap_le [] = omega arith
  gap_le (_ ∷ _) = omega arith

  offer-enough :
      (ts : List Text) (later k : ℕ) (s : Section) (p : Packing)
      → 0 < length s.body
      → length (whole s) + 2 ≤ k
      → suc later * k ≤ p.remaining
      → ((offer u ts (suc later) s p).full ≡ p.full + 1)
        × (later * k ≤ (offer u ts (suc later) s p).remaining)
  unfolding offer
  offer-enough ts later k s p some_body fits room =
      let few : gap blank_line p.blocks ≤ 2 = gap_le p.blocks in
      let split : suc later * k ≡ later * k + k = grind arith in
      let len : length (whole s) ≡ length (label s) + suc (length s.body) =
        length-append (label s) (10 ∷ s.body) in
      rw
        (
          render-whole s ((p.remaining - gap blank_line p.blocks) / suc later) ts
              (omega (arith, even_share later k p.remaining (gap blank_line p.blocks) room few))
              some_body,
          add_block,
        )
        (refl, omega arith)

  pack-enough :
      (ts : List Text) (k : ℕ) (sections : List Section) (p : Packing)
      → All (λ s. (0 < length s.body) × (length (whole s) + 2 ≤ k)) sections
      → length sections * k ≤ p.remaining
      → (pack u ts sections p).full ≡ p.full + length sections
  unfolding pack
  pack-enough ts k [] p fits h = omega arith
  pack-enough ts k (s ∷ rest) p fits h =
      let (one, left) = offer-enough ts (length rest) k s p fits.0.0 fits.0.1 h in
      omega (arith, pack-enough ts k rest (offer u ts (suc (length rest)) s p) fits.1 left)

  -- If each section has a body and fits, label and separator included, into an even part of the
  -- budget, none is cut, and the text is all of them.
  pub select_context-enough :
      (sections : List Section) (budget k : ℕ) (query : Text)
      → All (λ s. (0 < length s.body) × (length (whole s) + 2 ≤ k)) sections
      → length sections * k ≤ budget
      → (truncated (select_context u sections budget query) ≡ false)
        × ((select_context u sections budget query).text ≡ join blank_line (map whole sections))
  unfolding select_context truncated
  select_context-enough sections budget k query fits h =
      let full = pack-enough (terms u query) k sections (unpacked budget) fits h in
      (
        ground (arith, full),
        select_context-not_truncated sections budget query (ground (arith, full)),
      )
