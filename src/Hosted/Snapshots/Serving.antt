-- ===== src/Hosted/Snapshots/Serving.antt =====
-- postgres/codegraph.py: that the active snapshot is there and ready, and which changes of the
-- tables keep it with its rows.
use iwiki_mcp.Prelude.{
  ℕ, ◌≡◌, refl, ◌∙◌, inl, inr, Bool, true, false, not, ◌&&◌, Option, none, some, List, [], ◌∷◌,
  arith, ◌==◌, ==_iff, Bool-cases, nat_eq, select, list_eq,
}
use iwiki_mcp.Text.{Text}
use iwiki_mcp.CodeGraph.Publication.{Encoding, Row}
use iwiki_mcp.Hosted.Snapshots.Tables.{
  State, failed, is_ready, is_staging, SnapshotRow, same_text, Store, find, update_rows,
  snapshot_key,
}
use iwiki_mcp.Hosted.Snapshots.Sessions.{others, is_staged, is_taken}
use iwiki_mcp.Hosted.Snapshots.Links.{own}

-- A snapshot that is ready under a revision.
abbrev pub is_ready_as : Option Text → SnapshotRow → Bool
is_ready_as revision row = is_ready row.state && same_text row.snapshot_revision revision

abbrev pub is_ready_row : Option Text → Option SnapshotRow → Bool
is_ready_row revision none = false
is_ready_row revision (some row) = is_ready_as revision row

unfoldable pub has_ready : ℕ → Option Text → List SnapshotRow → Bool
unfolding find
has_ready id revision rows = is_ready_row revision (find snapshot_key id rows)

-- What reads the graph of a snapshot.
abbrev pub graph_of : {v : Encoding} → ℕ → Store v → List (Row v) × List (Row v) × List (Row v)
graph_of id s = (own id s.files, own id s.symbols, own id s.relations)

module _ {v : Encoding} where
  pub record Serves (id : ℕ) (revision : Option Text) (s : Store v) : Type 0 where
    pub active : s.active_snapshot_id ≡ some id
    pub is_there : has_ready id revision s.snapshots ≡ true

  -- The snapshot is still served, with the same graph.
  pub record Keeps (id : ℕ) (revision : Option Text) (s t : Store v) : Type 0 where
    pub serves : Serves id revision t
    pub graph : graph_of id t ≡ graph_of id s

  pub Keeps-refl :
      (id : ℕ) (revision : Option Text) (s : Store v) → Serves id revision s → Keeps id revision s s
  Keeps-refl id revision s h = record { serves = h; graph = refl }

  pub Keeps-trans :
      (id : ℕ) (revision : Option Text) (s t u : Store v)
      → Keeps id revision s t
      → Keeps id revision t u
      → Keeps id revision s u
  Keeps-trans id revision s t u h k = record { serves = k.serves; graph = k.graph ∙ h.graph }

pub has_ready-update :
    (id : ℕ) (revision : Option Text) (j : ℕ) (f : SnapshotRow → SnapshotRow)
    (rows : List SnapshotRow)
    → ((r : SnapshotRow) → (f r).snapshot_id ≡ r.snapshot_id)
    → ((r : SnapshotRow) → is_ready_as revision r ≡ true → is_ready_as revision (f r) ≡ true)
    → has_ready id revision rows ≡ true
    → has_ready id revision (update_rows snapshot_key j f rows) ≡ true
unfolding has_ready update_rows find
has_ready-update id revision j f [] key keeps h = h
has_ready-update id revision j f (row ∷ rows) key keeps h =
    ground (arith, key row, keeps row, has_ready-update id revision j f rows key keeps)

pub is_taken_fresh :
    (id : ℕ) (revision : Option Text) (j : ℕ) (rows : List SnapshotRow)
    → is_taken snapshot_key j rows ≡ false
    → has_ready id revision rows ≡ true
    → (j == id) ≡ false
unfolding has_ready find
is_taken_fresh id revision j [] fresh h = ground arith
is_taken_fresh id revision j (row ∷ rows) fresh h =
    ground (arith, is_taken_fresh id revision j rows)

pub has_ready-delete :
    (id : ℕ) (revision : Option Text) (j : ℕ) (rows : List SnapshotRow)
    → (j == id) ≡ false
    → has_ready id revision (select (λ r. not (r.snapshot_id == j)) rows)
      ≡ has_ready id revision rows
unfolding has_ready find
has_ready-delete id revision j [] other = refl
has_ready-delete id revision j (row ∷ rows) other =
    ground (arith, has_ready-delete id revision j rows other)

pub staging_not_ready : (x : State) → is_staging x ≡ true → is_ready x ≡ false
staging_not_ready State.staging staged = refl
staging_not_ready State.ready staged = absurd (ground arith)
staging_not_ready failed staged = refl
staging_not_ready State.aborted staged = refl

is_staged_not_ready :
    (revision : Option Text) (o : Option SnapshotRow)
    → is_staged o ≡ true
    → is_ready_row revision o ≡ false
is_staged_not_ready revision none staged = refl
is_staged_not_ready revision (some row) staged = rw (staging_not_ready row.state staged) refl

found_ready :
    (id : ℕ) (revision : Option Text) (j : ℕ) (rows : List SnapshotRow)
    → (j ≡ id)
    → has_ready id revision rows ≡ true
    → is_ready_row revision (find snapshot_key j rows) ≡ true
unfolding has_ready
found_ready id revision j rows e h = rw (e) h

pub is_staged_other :
    (id : ℕ) (revision : Option Text) (j : ℕ) (rows : List SnapshotRow)
    → is_staged (find snapshot_key j rows) ≡ true
    → has_ready id revision rows ≡ true
    → (j == id) ≡ false
unfolding has_ready
is_staged_other id revision j rows staged h = elim (Bool-cases (j == id)) [
  | inr e ↦ e
  | inl e ↦ absurd (
      grind (
        arith,
        is_staged_not_ready revision (find snapshot_key j rows) staged,
        found_ready id revision j rows ((==_iff j id).0 e) h,
      ))
]

pub own-others :
    {A : Type 0} (id j : ℕ) (rows : List (ℕ × A))
    → (j == id) ≡ false
    → own id (others j rows) ≡ own id rows
own-others id j [] other = refl
own-others id j (row ∷ rows) other = ground (arith, own-others id j rows other)
