-- ===== src/CodeGraph/Publication/Bounds.antt =====
-- No batch is empty, and none is larger than the limits allow.
use iwiki_mcp.Prelude.{
  ℕ, ◌+◌, ◌≤◌, ◌<◌, ◌≡◌, refl, inl, inr, true, false, not, ◌&&◌, ◌||◌, Option, none, some, List, [],
  ◌∷◌, ◌++◌, map, arith, ltb, leb, ◌==◌, if◌then◌else◌, Bool-cases, nat_eq, length, length-append,
  list_eq,
}
use iwiki_mcp.Text.{codes, join, length-join-snoc}
use iwiki_mcp.CodeGraph.Publication.Wire.{RowKind, row_kinds}
use iwiki_mcp.CodeGraph.Publication.{
  Encoding, SnapshotBatch, Batches, ended, failed, yielded, followed_by, Pending, fresh, is_empty,
  candidate_size, is_full, with_row, payload_of, Row, batch, after_full, with_full, batch_rows,
  batch_projected, kind_batches, batches_of, iter_snapshot_batches, projected_rows,
}

-- Every batch that is yielded.
abbrev pub Each : (SnapshotBatch → Type 0) → Batches → Type 0
Each P ended = Unit
Each P (failed e) = Unit
Each P (yielded b rest) = P b × Each P rest

Each-followed_by :
    (P : SnapshotBatch → Type 0) (s t : Batches) → Each P s → Each P t → Each P (followed_by s t)
unfolding followed_by
Each-followed_by P ended t h k = k
Each-followed_by P (failed e) t h k = tt
Each-followed_by P (yielded b rest) t h k = (h.0, Each-followed_by P rest t h.1 k)

length-payload_of-snoc :
    (rows : List (List ℕ)) (row : List ℕ)
    → length (payload_of (rows ++ row ∷ []))
      ≡ length (payload_of rows) + (if is_empty rows then 0 else 1) + length row
unfolding join
length-payload_of-snoc [] row = omega (arith, length-append row (codes "]"))
length-payload_of-snoc (first ∷ rows) row = omega (
  arith,
  length-append (join (codes ",") ((first ∷ rows) ++ row ∷ [])) (codes "]"),
  length-append (join (codes ",") (first ∷ rows)) (codes "]"),
  length-join-snoc (codes ",") (first ∷ rows) row,
)

module _ (max_rows max_bytes : ℕ) where
  -- The counted size is the size of the payload, and what waits is within the limits.
  pub record IsWithin (p : Pending) : Type 0 where
    pub sized : p.size ≡ length (payload_of p.rows)
    pub few : length p.rows ≤ max_rows
    pub small : 0 < length p.rows → p.size ≤ max_bytes

  pub fresh-IsWithin : (ordinal : ℕ) → IsWithin (fresh ordinal)
  unfolding fresh join
  fresh-IsWithin ordinal = record {
    sized = refl;
    few = omega arith;
    small = λ h. absurd (omega arith);
  }

  -- There is room for one row more.
  pub after_full-IsWithin :
      (p : Pending) (row : List ℕ)
      → 0 < max_rows
      → IsWithin p
      → let q = after_full p (is_full max_rows max_bytes p row) in
        IsWithin q × (length q.rows < max_rows)
  unfolding is_full fresh
  after_full-IsWithin p row positive h = elim (Bool-cases (is_full max_rows max_bytes p row)) [
    | inl e ↦ rw e (fresh-IsWithin (p.ordinal + 1), positive)
    | inr e ↦ rw e (h, room p.rows e)
  ]
    where
      room :
          (rows : List (List ℕ))
          → (not (is_empty rows)
              && (leb max_rows (length rows) || ltb max_bytes (candidate_size p row)))
            ≡ false
          → length rows < max_rows
      room [] e = positive
      room (first ∷ rows) e = ground arith

  full-not_empty :
      (p : Pending) (row : List ℕ)
      → is_full max_rows max_bytes p row ≡ true
      → is_empty p.rows ≡ false
  unfolding is_full
  full-not_empty p row h = ground arith

  pub with_row-IsWithin :
      (q : Pending) (row : List ℕ)
      → IsWithin q
      → length q.rows < max_rows
      → candidate_size q row ≤ max_bytes
      → IsWithin (with_row q row)
  unfolding with_row candidate_size
  with_row-IsWithin q row h room fits = record {
    sized = omega (arith, length-payload_of-snoc q.rows row, h.sized);
    few = omega (arith, length-append q.rows (row ∷ []));
    small = λ _. fits;
  }

  -- The batch is of at least one row and within both limits, and its counts are true.
  pub record IsBounded (b : SnapshotBatch) : Type 0 where
    pub nonempty : 0 < b.row_count
    pub few : b.row_count ≤ max_rows
    pub small : b.byte_count ≤ max_bytes
    pub counted : b.byte_count ≡ length b.payload

  module _ (v : Encoding) where
    batch-IsBounded :
        (kind : RowKind) (p : Pending)
        → IsWithin p
        → is_empty p.rows ≡ false
        → IsBounded (batch v kind p.ordinal p.rows)
    unfolding batch
    batch-IsBounded kind p h some_rows =
        let full : 0 < length p.rows = not_empty p.rows some_rows in
        record {
          nonempty = full;
          few = h.few;
          small = omega (arith, h.sized, h.small full);
          counted = refl;
        }
      where
        not_empty : {A : Type 0} (xs : List A) → is_empty xs ≡ false → 0 < length xs
        not_empty [] h = ground arith
        not_empty (x ∷ xs) h = omega arith

    with_full-IsBounded :
        (kind : RowKind) (p : Pending) (row : List ℕ) (rest : Batches)
        → IsWithin p
        → Each IsBounded rest
        → Each IsBounded (with_full v kind p (is_full max_rows max_bytes p row) rest)
    with_full-IsBounded kind p row rest h hs =
        elim (Bool-cases (is_full max_rows max_bytes p row)) [
          | inl e ↦ rw e (batch-IsBounded kind p h (full-not_empty p row e), hs)
          | inr e ↦ rw e hs
        ]

    batch_rows-IsBounded :
        (kind : RowKind) (p : Pending) (rows : List (List ℕ))
        → 0 < max_rows
        → IsWithin p
        → Each IsBounded (batch_rows v max_rows max_bytes kind p rows)
    unfolding batch_rows
    batch_rows-IsBounded kind p [] positive h = elim (Bool-cases (is_empty p.rows)) [
      | inl e ↦ rw e tt
      | inr e ↦ rw e (batch-IsBounded kind p h e, tt)
    ]
    batch_rows-IsBounded kind p (row ∷ rows) positive h =
        let q = after_full p (is_full max_rows max_bytes p row) in
        let ready = after_full-IsWithin p row positive h in
        with_full-IsBounded kind p row _ h
          (elim (Bool-cases (ltb max_bytes (candidate_size q row))) [
            | inl e ↦ rw e tt
            | inr e ↦ rw e (
                batch_rows-IsBounded kind (with_row q row) rows positive
                  (with_row-IsWithin q row ready.0 ready.1 (ground arith)))
          ])

    batches_of-IsBounded :
        (rows : RowKind → List (Row v)) (kinds : List RowKind)
        → 0 < max_rows
        → Each IsBounded (batches_of v max_rows max_bytes rows kinds)
    unfolding batches_of kind_batches
    batches_of-IsBounded rows [] positive = tt
    batches_of-IsBounded rows (kind ∷ kinds) positive =
        Each-followed_by IsBounded _ _ (of_kind (projected_rows v kind (rows kind)))
          (batches_of-IsBounded rows kinds positive)
      where
        of_kind :
            (projected : Option (List (Row v)))
            → Each IsBounded (batch_projected v max_rows max_bytes kind projected)
        of_kind none = tt
        of_kind (some rows) =
            batch_rows-IsBounded kind (fresh 0) (map v.dumps rows) positive (fresh-IsWithin 0)

-- Every batch that the generator yields, whether it ends or raises after that, has at least one row
-- and at most `max_rows`, its payload has at most `max_bytes` bytes, and its byte count is the
-- length of its payload.
pub iter_snapshot_batches-IsBounded :
    (v : Encoding) (max_rows max_bytes : ℕ) (rows : RowKind → List (Row v))
    → Each (IsBounded max_rows max_bytes) (iter_snapshot_batches v max_rows max_bytes rows)
unfolding iter_snapshot_batches
iter_snapshot_batches-IsBounded v max_rows max_bytes rows = elim (Bool-cases (max_rows == 0)) [
  | inl e ↦ rw e tt
  | inr e ↦ elim (Bool-cases (max_bytes == 0)) [
    | inl f ↦ rw (e, f) tt
    | inr f ↦ rw (e, f) (batches_of-IsBounded max_rows max_bytes v rows row_kinds (ground arith))
  ]
]
