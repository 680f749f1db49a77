-- ===== src/CodeGraph/Publication/Reordering.antt =====
-- The order of the rows in `graph_payload_revision` of src/iwiki_mcp/codegraph/publication.py.
use iwiki_mcp.Prelude.{
  ◌≡◌, refl, ap, ◌∙◌, ◌≢◌, ◌⊎◌, inl, inr, Bool, true, false, Option, none, some, List, [], ◌∷◌,
  arith, Bool-cases, nat_eq, list_eq,
}
use iwiki_mcp.Prelude.Sort.{insert_by, sort_by}
use iwiki_mcp.Text.{Text}
use iwiki_mcp.CodeGraph.Publication.Wire.{RowKind, row_kinds}
use iwiki_mcp.CodeGraph.Publication.{
  Encoding, Row, text_leb, portable_row, portable_rows, projected_rows, identity_of, identity_leb,
  ◌>>=◌,
}
use iwiki_mcp.CodeGraph.Publication.Revision.{canonical_rows, graph_payload_revision}

text_leb_total : (s t : Text) → text_leb s t ≡ false → text_leb t s ≡ true
unfolding text_leb
text_leb_total [] t h = absurd (ground arith)
text_leb_total (c ∷ s) [] h = refl
text_leb_total (c ∷ s) (d ∷ t) h = ground (arith, text_leb_total s t)

text_leb_antisym : (s t : Text) → text_leb s t ≡ true → text_leb t s ≡ true → s ≡ t
unfolding text_leb
text_leb_antisym [] [] h k = refl
text_leb_antisym [] (d ∷ t) h k = absurd (ground arith)
text_leb_antisym (c ∷ s) [] h k = absurd (ground arith)
text_leb_antisym (c ∷ s) (d ∷ t) h k = ground (arith, text_leb_antisym s t)

text_leb_trans : (s t u : Text) → text_leb s t ≡ true → text_leb t u ≡ true → text_leb s u ≡ true
unfolding text_leb
text_leb_trans [] t u h k = refl
text_leb_trans (c ∷ s) [] u h k = absurd (ground arith)
text_leb_trans (c ∷ s) (d ∷ t) [] h k = absurd (ground arith)
text_leb_trans (c ∷ s) (d ∷ t) (e ∷ u) h k = ground (arith, text_leb_trans s t u)

-- Two insertions by a key commute, if the keys differ.
module _ {A : Type 0} (key : A → Text) where
  before : A → A → Bool
  before a b = text_leb (key a) (key b)

  one_way :
      (a b : A)
      → key a ≢ key b
      → ((before a b ≡ true) × (before b a ≡ false)) ⊎ ((before a b ≡ false) × (before b a ≡ true))
  unfolding before
  one_way a b differ = elim (Bool-cases (before a b)) [
    | inr e ↦ inr (e, text_leb_total (key a) (key b) e)
    | inl e ↦ elim (Bool-cases (before b a)) [
      | inl f ↦ absurd (differ (text_leb_antisym (key a) (key b) e f))
      | inr f ↦ inl (e, f)
    ]
  ]

  crossed : (a b c : A) → before a b ≡ true → before b c ≡ true → before a c ≡ false → ⊥
  unfolding before
  crossed a b c h k e = grind (arith, text_leb_trans (key a) (key b) (key c) h k, e)

  insert_by_comm :
      (a b : A) (l : List A)
      → key a ≢ key b
      → insert_by before a (insert_by before b l) ≡ insert_by before b (insert_by before a l)
  unfolding insert_by before
  insert_by_comm a b [] differ = elim (one_way a b differ) [
    | inl e ↦ rw (e.0, e.1) refl
    | inr e ↦ rw (e.0, e.1) refl
  ]
  insert_by_comm a b (c ∷ l) differ = elim (Bool-cases (before a c)) [
    | inl ea ↦ elim (Bool-cases (before b c)) [
      | inl eb ↦ elim (one_way a b differ) [
        | inl e ↦ rw (ea, eb, e.0, e.1) refl
        | inr e ↦ rw (ea, eb, e.0, e.1, ea) refl
      ]
      | inr eb ↦ elim (one_way a b differ) [
        | inl e ↦ rw (ea, eb, e.1, ea) refl
        | inr e ↦ absurd (crossed b a c e.1 ea eb)
      ]
    ]
    | inr ea ↦ elim (Bool-cases (before b c)) [
      | inl eb ↦ elim (one_way a b differ) [
        | inl e ↦ absurd (crossed a b c e.0 eb ea)
        | inr e ↦ rw (ea, eb, e.0, ea) refl
      ]
      | inr eb ↦ rw (ea, eb, ea) (ap (λ xs. c ∷ xs) (insert_by_comm a b l differ))
    ]
  ]

  -- Two lists that differ by swaps of neighbours with different keys.
  pub data Swapped : List A → List A → Type 0 where
    same : (l : List A) → Swapped l l
    keep : (a : A) {l m : List A} → Swapped l m → Swapped (a ∷ l) (a ∷ m)
    swap : (a b : A) (l : List A) → key a ≢ key b → Swapped (a ∷ b ∷ l) (b ∷ a ∷ l)
    chain : {l m n : List A} → Swapped l m → Swapped m n → Swapped l n

  sort_by-Swapped : {l m : List A} → Swapped l m → sort_by before l ≡ sort_by before m
  unfolding sort_by
  sort_by-Swapped (same l) = refl
  sort_by-Swapped (keep a s) = ap (insert_by before a) (sort_by-Swapped s)
  sort_by-Swapped (swap a b l differ) = insert_by_comm a b (sort_by before l) differ
  sort_by-Swapped (chain s t) = sort_by-Swapped s ∙ sort_by-Swapped t

module _ (v : Encoding) (kind : RowKind) where
  abbrev WithSwapped : Option (List (Row v)) → Option (List (Row v)) → Type 0
  WithSwapped none none = Unit
  WithSwapped none (some m) = ⊥
  WithSwapped (some l) none = ⊥
  WithSwapped (some l) (some m) = Swapped (identity_of v kind) l m

  WithSwapped-refl : (x : Option (List (Row v))) → WithSwapped x x
  WithSwapped-refl none = tt
  WithSwapped-refl (some l) = Swapped.same l

  WithSwapped-trans :
      (x y z : Option (List (Row v))) → WithSwapped x y → WithSwapped y z → WithSwapped x z
  WithSwapped-trans none none none h k = tt
  WithSwapped-trans none none (some n) h k = k
  WithSwapped-trans none (some m) z h k = absurd h
  WithSwapped-trans (some l) none z h k = absurd h
  WithSwapped-trans (some l) (some m) none h k = k
  WithSwapped-trans (some l) (some m) (some n) h k = Swapped.chain h k

  abbrev and_row : Option (Row v) → Option (List (Row v)) → Option (List (Row v))
  and_row o x = o >>= (λ row. x >>= (λ rows. some (row ∷ rows)))

  and_row_keep :
      (o : Option (Row v)) (x y : Option (List (Row v)))
      → WithSwapped x y
      → WithSwapped (and_row o x) (and_row o y)
  and_row_keep none x y h = tt
  and_row_keep (some a) none none h = tt
  and_row_keep (some a) none (some m) h = h
  and_row_keep (some a) (some l) none h = h
  and_row_keep (some a) (some l) (some m) h = Swapped.keep a h

  -- Two rows that can be told apart: if both have an identity, it is not the same one.
  abbrev pub Apart : Option (Row v) → Option (Row v) → Type 0
  Apart (some a) (some b) = identity_of v kind a ≢ identity_of v kind b
  Apart none p = Unit
  Apart (some a) none = Unit

  and_row_swap :
      (o p : Option (Row v)) (x : Option (List (Row v)))
      → Apart o p
      → WithSwapped (and_row o (and_row p x)) (and_row p (and_row o x))
  and_row_swap none none x h = tt
  and_row_swap none (some b) x h = tt
  and_row_swap (some a) none x h = tt
  and_row_swap (some a) (some b) none h = tt
  and_row_swap (some a) (some b) (some l) h = Swapped.swap a b l h

  -- The same rows in another order, where rows of the same identity keep theirs.
  pub data Reordered : List (Row v) → List (Row v) → Type 0 where
    same : (l : List (Row v)) → Reordered l l
    keep : (a : Row v) {l m : List (Row v)} → Reordered l m → Reordered (a ∷ l) (a ∷ m)
    swap :
        (a b : Row v) (l : List (Row v))
        → Apart (portable_row v kind a) (portable_row v kind b)
        → Reordered (a ∷ b ∷ l) (b ∷ a ∷ l)
    chain : {l m n : List (Row v)} → Reordered l m → Reordered m n → Reordered l n

  portable_rows-Reordered :
      {l m : List (Row v)}
      → Reordered l m
      → WithSwapped (portable_rows v kind l) (portable_rows v kind m)
  unfolding portable_rows
  portable_rows-Reordered (same l) = WithSwapped-refl (portable_rows v kind l)
  portable_rows-Reordered (keep a {l} {m} s) =
      and_row_keep (portable_row v kind a) (portable_rows v kind l) (portable_rows v kind m)
        (portable_rows-Reordered s)
  portable_rows-Reordered (swap a b l apart) =
      and_row_swap (portable_row v kind a) (portable_row v kind b) (portable_rows v kind l) apart
  portable_rows-Reordered (chain {l} {m} {n} s t) =
      WithSwapped-trans (portable_rows v kind l) (portable_rows v kind m) (portable_rows v kind n)
        (portable_rows-Reordered s) (portable_rows-Reordered t)

  sorted_eq :
      (x y : Option (List (Row v)))
      → WithSwapped x y
      → (x >>= (λ rows. some (sort_by (identity_leb v kind) rows)))
        ≡ (y >>= (λ rows. some (sort_by (identity_leb v kind) rows)))
  unfolding before
  sorted_eq none none h = refl
  sorted_eq none (some m) h = absurd h
  sorted_eq (some l) none h = absurd h
  sorted_eq (some l) (some m) h = ap some (sort_by-Swapped (identity_of v kind) h)

  projected_rows-Reordered :
      {l m : List (Row v)} → Reordered l m → projected_rows v kind l ≡ projected_rows v kind m
  unfolding projected_rows
  projected_rows-Reordered {l} {m} s =
      sorted_eq (portable_rows v kind l) (portable_rows v kind m) (portable_rows-Reordered s)

module _ (v : Encoding) (rows others : RowKind → List (Row v)) where
  canonical_rows-Reordered :
      ((kind : RowKind) → Reordered v kind (rows kind) (others kind))
      → (kinds : List RowKind) → canonical_rows v rows kinds ≡ canonical_rows v others kinds
  unfolding canonical_rows
  canonical_rows-Reordered s [] = refl
  canonical_rows-Reordered s (kind ∷ kinds) =
      rw (projected_rows-Reordered v kind (s kind), canonical_rows-Reordered s kinds) refl

  -- The revision of a graph is the same for every order of the rows of each kind that keeps rows
  -- of the same identity in their order.
  pub graph_payload_revision-Reordered :
      ((kind : RowKind) → Reordered v kind (rows kind) (others kind))
      → graph_payload_revision v rows ≡ graph_payload_revision v others
  unfolding graph_payload_revision
  graph_payload_revision-Reordered s = rw (canonical_rows-Reordered s row_kinds) refl
