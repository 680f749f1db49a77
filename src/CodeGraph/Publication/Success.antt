-- ===== src/CodeGraph/Publication/Success.antt =====
-- When the batches of a snapshot end without an error.
use iwiki_mcp.Prelude.{
  ℕ, ◌+◌, ◌≤◌, ◌<◌, ◌≡◌, refl, inl, inr, Bool, true, false, not, ◌&&◌, ◌||◌, Option, none, some,
  List, [], ◌∷◌, map, arith, ltb, leb, ◌==◌, if◌then◌else◌, Bool-cases, nat_eq, length, All,
  list_eq,
}
use iwiki_mcp.Text.{join}
use iwiki_mcp.CodeGraph.Publication.Wire.{RowKind, row_kinds}
use iwiki_mcp.CodeGraph.Publication.{
  Encoding, Batches, ended, failed, yielded, followed_by, Pending, fresh, is_empty, candidate_size,
  is_full, with_row, Row, last_batch, after_full, with_full, unless_large, batch_rows,
  batch_projected, kind_batches, batches_of, iter_snapshot_batches, projected_rows, payload_of,
}
use iwiki_mcp.CodeGraph.Publication.Bounds.{
  IsWithin, fresh-IsWithin, with_row-IsWithin, after_full-IsWithin,
}
use iwiki_mcp.CodeGraph.Publication.Groups.{is_complete}

complete-followed_by :
    (s t : Batches)
    → is_complete s ≡ true
    → is_complete t ≡ true
    → is_complete (followed_by s t) ≡ true
unfolding followed_by
complete-followed_by ended t h k = k
complete-followed_by (failed e) t h k = ground arith
complete-followed_by (yielded b rest) t h k = complete-followed_by rest t h k

module _ (v : Encoding) (max_rows max_bytes : ℕ) where
  -- The row fits a batch of its own: with its two brackets it is within the limit.
  abbrev pub IsSmall : List ℕ → Type 0
  IsSmall row = 2 + length row ≤ max_bytes

  candidate_size-le :
      (p : Pending) (row : List ℕ)
      → IsWithin max_rows max_bytes p
      → IsSmall row
      → candidate_size (after_full p (is_full max_rows max_bytes p row)) row ≤ max_bytes
  unfolding is_full fresh candidate_size join
  candidate_size-le p row h small = elim (Bool-cases (is_full max_rows max_bytes p row)) [
    | inl e ↦ rw e small
    | inr e ↦ rw e (room p.rows p.size h.sized e)
  ]
    where
      room :
          (rows : List (List ℕ)) (size : ℕ)
          → size ≡ length (payload_of rows)
          → (not (is_empty rows)
              && (leb max_rows (length rows)
                  || ltb max_bytes (size + (if is_empty rows then 0 else 1) + length row)))
            ≡ false
          → size + (if is_empty rows then 0 else 1) + length row ≤ max_bytes
      room [] size sized e = omega arith
      room (first ∷ rows) size sized e = ground arith

  module _ (kind : RowKind) where
    complete-with_full :
        (p : Pending) (full : Bool) (rest : Batches)
        → is_complete rest ≡ true
        → is_complete (with_full v kind p full rest) ≡ true
    complete-with_full p true rest h = h
    complete-with_full p false rest h = h

    complete-last_batch : (p : Pending) → is_complete (last_batch v kind p) ≡ true
    complete-last_batch p = ground arith

    batch_rows_complete :
        (p : Pending) (rows : List (List ℕ))
        → 0 < max_rows
        → IsWithin max_rows max_bytes p
        → All IsSmall rows
        → is_complete (batch_rows v max_rows max_bytes kind p rows) ≡ true
    unfolding batch_rows
    batch_rows_complete p [] positive h small = complete-last_batch p
    batch_rows_complete p (row ∷ rows) positive h small =
        let q = after_full p (is_full max_rows max_bytes p row) in
        let ready = after_full-IsWithin max_rows max_bytes p row positive h in
        let fits : candidate_size q row ≤ max_bytes = candidate_size-le p row h small.0 in
        let accepted : ltb max_bytes (candidate_size q row) ≡ false = ground arith in
        complete-with_full p (is_full max_rows max_bytes p row)
          (unless_large max_bytes kind q row
            (batch_rows v max_rows max_bytes kind (with_row q row) rows))
          (rw accepted (
            batch_rows_complete (with_row q row) rows positive
              (with_row-IsWithin max_rows max_bytes q row ready.0 ready.1 fits) small.1))

  -- Every row of the kind has its identity, and fits a batch of its own.
  abbrev pub Fits : Option (List (Row v)) → Type 0
  Fits none = ⊥
  Fits (some rows) = All IsSmall (map v.dumps rows)

  batches_of_complete :
      (rows : RowKind → List (Row v)) (kinds : List RowKind)
      → 0 < max_rows
      → ((kind : RowKind) → Fits (projected_rows v kind (rows kind)))
      → is_complete (batches_of v max_rows max_bytes rows kinds) ≡ true
  unfolding batches_of kind_batches
  batches_of_complete rows [] positive fits = refl
  batches_of_complete rows (kind ∷ kinds) positive fits =
      complete-followed_by
        (batch_projected v max_rows max_bytes kind (projected_rows v kind (rows kind)))
        (batches_of v max_rows max_bytes rows kinds)
        (of_kind (projected_rows v kind (rows kind)) (fits kind))
        (batches_of_complete rows kinds positive fits)
    where
      of_kind :
          (projected : Option (List (Row v)))
          → Fits projected
          → is_complete (batch_projected v max_rows max_bytes kind projected) ≡ true
      of_kind none h = absurd h
      of_kind (some rows) h =
          batch_rows_complete kind (fresh 0) (map v.dumps rows) positive
            (fresh-IsWithin max_rows max_bytes 0) h

  -- With positive limits, the generator ends without an error when every row has its identity and
  -- fits, with the two brackets, into `max_bytes`: no order and no number of the rows makes it
  -- refuse rows that fit one by one.
  pub iter_snapshot_batches_complete :
      (rows : RowKind → List (Row v))
      → 0 < max_rows
      → 0 < max_bytes
      → ((kind : RowKind) → Fits (projected_rows v kind (rows kind)))
      → is_complete (iter_snapshot_batches v max_rows max_bytes rows) ≡ true
  unfolding iter_snapshot_batches
  iter_snapshot_batches_complete rows some_rows some_bytes fits =
      let r : (max_rows == 0) ≡ false = ground arith in
      let b : (max_bytes == 0) ≡ false = ground arith in
      rw (r, b) (batches_of_complete rows row_kinds some_rows fits)
