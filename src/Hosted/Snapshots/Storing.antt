-- ===== src/Hosted/Snapshots/Storing.antt =====
-- `publish_batch` of postgres/codegraph.py: an accepted batch is stored, and a stored one stays.
use iwiki_mcp.Prelude.{
  ℕ, ◌≡◌, refl, Bool, true, false, not, Option, none, some, List, [], ◌∷◌, ◌++◌, arith, ◌==◌,
  if◌then◌else◌, nat_eq, list_beq, list_eq, list_beq_iff,
}
use iwiki_mcp.CodeGraph.Publication.Wire.{RowKind}
use iwiki_mcp.CodeGraph.Publication.{Encoding, SnapshotBatch}
use iwiki_mcp.Hosted.Snapshots.Tables.{
  Result, accepted, refused, Code, batch_conflict, snapshot_conflict, BatchRow, Store, find,
  session_key, same_kind, is_staging,
}
use iwiki_mcp.Hosted.Snapshots.Sessions.{
  Settings, answer, same_place, find_batch, batch_row, renew, accept, publish_batch,
}
use iwiki_mcp.Hosted.Snapshots.Keeping.{Ends, Ends_elim}
use iwiki_mcp.Hosted.Snapshots.Safety.{Ends-guarded, Ends-if}
use iwiki_mcp.Hosted.Snapshots.Guarding.{Ends-test, not-false}

same_kind_refl : (kind : RowKind) → same_kind kind kind ≡ true
unfolding same_kind
same_kind_refl RowKind.repositories = refl
same_kind_refl RowKind.files = refl
same_kind_refl RowKind.symbols = refl
same_kind_refl RowKind.relations = refl

equal_refl : (n : ℕ) → (n == n) ≡ true
equal_refl n = ground arith

first_or :
    {A : Type 0} (p : Bool) (c b : A) (o after : Option A)
    → (if p then some c else o) ≡ none
    → (o ≡ none → after ≡ some b)
    → (if p then some c else after) ≡ some b
first_or true c b o after h k = absurd (ground arith)
first_or false c b o after h k = k h

kept_or :
    {A : Type 0} (p : Bool) (c x : A) (o after : Option A)
    → (if p then some c else o) ≡ some x
    → (o ≡ some x → after ≡ some x)
    → (if p then some c else after) ≡ some x
kept_or true c x o after h k = h
kept_or false c x o after h k = k h

find_batch-new :
    (session_id : ℕ) (kind : RowKind) (ordinal : ℕ) (b : BatchRow) (bs : List BatchRow)
    → same_place session_id kind ordinal b ≡ true
    → find_batch session_id kind ordinal bs ≡ none
    → find_batch session_id kind ordinal (bs ++ b ∷ []) ≡ some b
unfolding find_batch
find_batch-new session_id kind ordinal b [] here h = rw (here) refl
find_batch-new session_id kind ordinal b (c ∷ bs) here h =
    first_or (same_place session_id kind ordinal c) c b (find_batch session_id kind ordinal bs)
      (find_batch session_id kind ordinal (bs ++ b ∷ [])) h
      (find_batch-new session_id kind ordinal b bs here)

find_batch-kept :
    (session_id : ℕ) (kind : RowKind) (ordinal : ℕ) (b x : BatchRow) (bs : List BatchRow)
    → find_batch session_id kind ordinal bs ≡ some x
    → find_batch session_id kind ordinal (bs ++ b ∷ []) ≡ some x
unfolding find_batch
find_batch-kept session_id kind ordinal b x [] h = absurd (ground arith)
find_batch-kept session_id kind ordinal b x (c ∷ bs) h =
    kept_or (same_place session_id kind ordinal c) c x (find_batch session_id kind ordinal bs)
      (find_batch session_id kind ordinal (bs ++ b ∷ [])) h
      (find_batch-kept session_id kind ordinal b x bs)

-- What an answer to a batch says of the stored batches.
pub record Stores {v : Encoding} (session_id : ℕ) (b : SnapshotBatch) (s : Store v)
    (r : Result × Store v) : Type 0 where
  pub stored :
      r.0 ≡ accepted
      → (row : BatchRow) × ((find_batch session_id b.kind b.ordinal r.1.batches ≡ some row)
          × (row.payload_hash ≡ b.payload_hash))
  pub kept :
      (id : ℕ) (kind : RowKind) (ordinal : ℕ) (row : BatchRow)
      → find_batch id kind ordinal s.batches ≡ some row
      → find_batch id kind ordinal r.1.batches ≡ some row

module _ {v : Encoding} where
  refused-Stores :
      (session_id : ℕ) (b : SnapshotBatch) (s : Store v) (code : Code)
      → Stores session_id b s (refused code, s)
  refused-Stores session_id b s code = record {
    stored = λ e. absurd (ground arith);
    kept = λ id kind ordinal row h. h;
  }

  accept-Stores :
      (c : Settings) (now session_id : ℕ) (b : SnapshotBatch) (s : Store v) (o : Option BatchRow)
      → find_batch session_id b.kind b.ordinal s.batches ≡ o
      → Ends (Stores session_id b s) (accept c now session_id b o s)
  unfolding accept renew
  accept-Stores c now session_id b s none e = record {
    stored = λ _. (
      batch_row session_id b,
      (
        find_batch-new session_id b.kind b.ordinal (batch_row session_id b) s.batches
            (rw (equal_refl session_id, same_kind_refl b.kind, equal_refl b.ordinal) refl) e,
        refl,
      ),
    );
    kept = λ id kind ordinal row h.
        find_batch-kept id kind ordinal (batch_row session_id b) row s.batches h;
  }
  accept-Stores c now session_id b s (some row) e =
      Ends-test (Stores session_id b s) (not (list_beq row.payload_hash b.payload_hash))
        (answer (refused batch_conflict) s) (answer accepted (renew c session_id now s))
        (λ _. refused-Stores session_id b s batch_conflict)
        (λ same. record {
          stored = λ _. (
            row,
            (
              e,
              (list_beq_iff row.payload_hash b.payload_hash).0
                  (not-false (list_beq row.payload_hash b.payload_hash) same),
            ),
          );
          kept = λ id kind ordinal r h. h;
        })

  -- Whenever `publish_batch` returns: if the batch is accepted, a batch with its payload's hash is
  -- stored at its place; and whatever the answer, every batch that was stored, of this session or
  -- another, is stored as it was.
  pub publish_batch-Stores :
      (c : Settings) (now session_id : ℕ) (b : SnapshotBatch) (s t : Store v) (x : Result)
      → publish_batch c now session_id b s ≡ some (x, t)
      → Stores session_id b s (x, t)
  unfolding publish_batch
  publish_batch-Stores c now session_id b s t x e =
      Ends_elim (Stores session_id b s) (publish_batch c now session_id b s) (x, t)
        (Ends-guarded (Stores session_id b s) s c now (find session_key session_id s.sessions) _
          (λ code. refused-Stores session_id b s code)
          (λ row.
            Ends-if (Stores session_id b s) s (not (is_staging row.state))
              (answer (refused snapshot_conflict))
              (λ u. accept c now session_id b (find_batch session_id b.kind b.ordinal u.batches) u)
              (refused-Stores session_id b s snapshot_conflict)
              (accept-Stores c now session_id b s (find_batch session_id b.kind b.ordinal s.batches)
                refl)))
        e
