-- ===== src/CodeGraph/Publication/Groups.antt =====
-- The batches of a kind carry its rows, all of them, once and in order.
use mathlib.Core.List.{append_assoc}
use iwiki_mcp.Prelude.{
  ℕ, ◌+◌, ◌≡◌, refl, ap, ◌∙◌, Bool, true, false, Option, none, some, List, [], ◌∷◌, ◌++◌, map,
  arith, ltb, if◌then◌else◌, nat_eq, list_eq,
}
use iwiki_mcp.CodeGraph.Publication.Wire.{RowKind}
use iwiki_mcp.CodeGraph.Publication.{
  Encoding, Batches, ended, failed, yielded, Pending, fresh, is_empty, candidate_size, is_full,
  with_row, Row, batch, last_batch, after_full, with_full, unless_large, batch_rows,
  batch_projected, kind_batches, projected_rows,
}

abbrev pub is_complete : Batches → Bool
is_complete ended = true
is_complete (failed e) = false
is_complete (yielded b rest) = is_complete rest

abbrev pub concat : {A : Type 0} → List (List A) → List A
concat [] = []
concat (xs ∷ xss) = xs ++ concat xss

-- One batch for each group of rows, with the ordinals that follow one another.
abbrev pub stream_of : (v : Encoding) → RowKind → ℕ → List (List (List ℕ)) → Batches
stream_of v kind ordinal [] = ended
stream_of v kind ordinal (group ∷ groups) =
    yielded (batch v kind ordinal group) (stream_of v kind (ordinal + 1) groups)

module _ (v : Encoding) (max_rows max_bytes : ℕ) (kind : RowKind) where
  abbrev Grouped : List (List ℕ) → ℕ → Batches → Type 0
  Grouped rows ordinal s =
      (groups : List (List (List ℕ))) × (concat groups ≡ rows)
      × (s ≡ stream_of v kind ordinal groups)

  last_batch-Grouped : (p : Pending) → Grouped (p.rows ++ []) p.ordinal (last_batch v kind p)
  last_batch-Grouped p = of_rows p.rows
    where
      of_rows :
          (rows : List (List ℕ))
          → Grouped
              (rows ++ [])
              p.ordinal
              (if is_empty rows then ended else yielded (batch v kind p.ordinal rows) ended)
      of_rows [] = ([], refl, refl)
      of_rows (row ∷ rows) = ((row ∷ rows) ∷ [], refl, refl)

  not_large :
      (q : Pending) (row : List ℕ) (rest : Batches)
      → is_complete (unless_large max_bytes kind q row rest) ≡ true
      → (ltb max_bytes (candidate_size q row) ≡ false) × (is_complete rest ≡ true)
  not_large q row rest h = ground arith

  with_full-Grouped :
      (p : Pending) (row : List ℕ) (rows : List (List ℕ)) (full : Bool) (rest : Batches)
      → is_complete (with_full v kind p full rest) ≡ true
      → (is_complete rest ≡ true
          → Grouped
              ((with_row (after_full p full) row).rows ++ rows)
              (after_full p full).ordinal
              rest)
      → Grouped (p.rows ++ row ∷ rows) p.ordinal (with_full v kind p full rest)
  unfolding with_row fresh
  with_full-Grouped p row rows true rest h of_rest =
      let (groups, e, f) = of_rest h in
      (p.rows ∷ groups, ap (◌++◌ p.rows) e, ap (yielded (batch v kind p.ordinal p.rows)) f)
  with_full-Grouped p row rows false rest h of_rest =
      let (groups, e, f) = of_rest h in (groups, e ∙ append_assoc p.rows (row ∷ []) rows, f)

  batch_rows-Grouped :
      (p : Pending) (rows : List (List ℕ))
      → is_complete (batch_rows v max_rows max_bytes kind p rows) ≡ true
      → Grouped (p.rows ++ rows) p.ordinal (batch_rows v max_rows max_bytes kind p rows)
  unfolding batch_rows with_row
  batch_rows-Grouped p [] h = last_batch-Grouped p
  batch_rows-Grouped p (row ∷ rows) h =
      let full = is_full max_rows max_bytes p row in
      let q = after_full p full in
      with_full-Grouped p row rows full _ h (λ k.
        let small =
          not_large q row (batch_rows v max_rows max_bytes kind (with_row q row) rows) k in
        rw (small.0) (batch_rows-Grouped (with_row q row) rows small.1))

  -- When the batches of a kind end without an error, they are those of some groups of its
  -- serialized rows, sorted by their identities: the groups one after the other are exactly the
  -- rows, and the batches are numbered from zero without a gap.
  pub kind_batches_complete :
      (rows : List (Row v))
      → is_complete (kind_batches v max_rows max_bytes kind rows) ≡ true
      → (projected : List (Row v)) × (projected_rows v kind rows ≡ some projected)
        × (groups : List (List (List ℕ))) × (concat groups ≡ map v.dumps projected)
        × (kind_batches v max_rows max_bytes kind rows ≡ stream_of v kind 0 groups)
  unfolding kind_batches fresh
  kind_batches_complete rows h = of_projected (projected_rows v kind rows) h
    where
      of_projected :
          (projected : Option (List (Row v)))
          → is_complete (batch_projected v max_rows max_bytes kind projected) ≡ true
          → (some_rows : List (Row v)) × (projected ≡ some some_rows)
            × (groups : List (List (List ℕ))) × (concat groups ≡ map v.dumps some_rows)
            × (batch_projected v max_rows max_bytes kind projected ≡ stream_of v kind 0 groups)
      of_projected none h = ground arith
      of_projected (some rows) h =
          let (groups, e, f) = batch_rows-Grouped (fresh 0) (map v.dumps rows) h in
          (rows, refl, groups, e, f)
