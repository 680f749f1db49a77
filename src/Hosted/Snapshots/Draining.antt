-- ===== src/Hosted/Snapshots/Draining.antt =====
-- postgres/codegraph.py: the cleanup cycle's transactions keep the active snapshot.
use iwiki_mcp.Prelude.{
  ℕ, zero, suc, ◌≡◌, refl, inl, inr, Bool, true, false, not, ◌&&◌, Option, none, some, List, [],
  ◌∷◌, arith, ◌==◌, Bool-cases, nat_eq, any, list_eq,
}
use iwiki_mcp.Text.{Text}
use iwiki_mcp.CodeGraph.Publication.{Encoding}
use iwiki_mcp.Hosted.Snapshots.Tables.{is_ready, SnapshotRow, Store}
use iwiki_mcp.Hosted.Snapshots.Sessions.{delete_snapshot}
use iwiki_mcp.Hosted.Snapshots.Links.{own}
use iwiki_mcp.Hosted.Snapshots.Drain.{
  ChildTable, is_active, is_deletable, deleted, delete_some, delete_batch, still_superseded,
  delete_snapshot_row, rows_of,
}
use iwiki_mcp.Hosted.Snapshots.Serving.{Serves, Keeps, Keeps-refl}
use iwiki_mcp.Hosted.Snapshots.Keeping.{not-true, own-cons, delete_snapshot-Keeps}

pub equal_other : (a j id : ℕ) → (a == j) ≡ true → (j == id) ≡ false → (a == id) ≡ false
equal_other a j id e other = ground arith

pub own-delete_some :
    {A : Type 0} (id j limit : ℕ) (rows : List (ℕ × A))
    → (j == id) ≡ false
    → own id (delete_some j limit rows) ≡ own id rows
unfolding delete_some
own-delete_some id j limit [] other = refl
own-delete_some id j zero (row ∷ rows) other = refl
own-delete_some id j (suc limit) (row ∷ rows) other = elim (Bool-cases (row.0 == j)) [
  | inl e ↦ rw (e, equal_other row.0 j id e other) (own-delete_some id j limit rows other)
  | inr e ↦ rw (e) (
      own-cons id row (delete_some j (suc limit) rows) rows
        (own-delete_some id j (suc limit) rows other))
]

pub is_active_other :
    (id : ℕ) (a : Option ℕ) (j : ℕ) → is_active a j ≡ false → a ≡ some id → (j == id) ≡ false
is_active_other id none j h e = absurd (ground arith)
is_active_other id (some active) j h e = ground arith

pub any_none :
    {A : Type 0} (p : A → Bool) (xs : List A) → ((x : A) → p x ≡ false) → any p xs ≡ false
any_none p [] h = refl
any_none p (x ∷ xs) h = rw (h x) (any_none p xs h)

pub not_deletable : (a b c d : Bool) → c ≡ true → (a && b && not c && d) ≡ false
not_deletable a b c d h = ground arith

pub none_deletable :
    {v : Encoding} (j : ℕ) (s : Store v) (rows : List SnapshotRow)
    → is_active s.active_snapshot_id j ≡ true
    → any (is_deletable j s) rows ≡ false
none_deletable j s rows h = any_none (is_deletable j s) rows (λ row.
    not_deletable (row.snapshot_id == j) (is_ready row.state) (is_active s.active_snapshot_id j)
      (rows_of ChildTable.files j s == 0) h)

module _ {v : Encoding} (id : ℕ) (revision : Option Text) where
  pub still_superseded_other :
      (j : ℕ) (s : Store v)
      → still_superseded j s ≡ true
      → s.active_snapshot_id ≡ some id
      → (j == id) ≡ false
  unfolding still_superseded
  still_superseded_other j s h e =
      is_active_other id s.active_snapshot_id j (not-true (is_active s.active_snapshot_id j) h) e

  pub deletable_other :
      (j : ℕ) (s : Store v)
      → any (is_deletable j s) s.snapshots ≡ true
      → s.active_snapshot_id ≡ some id
      → (j == id) ≡ false
  deletable_other j s h e = elim (Bool-cases (is_active s.active_snapshot_id j)) [
    | inl active ↦ absurd (grind (arith, none_deletable j s s.snapshots active))
    | inr inactive ↦ is_active_other id s.active_snapshot_id j inactive e
  ]

  pub delete_batch-Keeps :
      (table : ChildTable) (j limit : ℕ) (s : Store v)
      → (j == id) ≡ false
      → Serves id revision s
      → Keeps id revision s (delete_batch table j limit s)
  unfolding delete_batch
  delete_batch-Keeps ChildTable.wiki_links j limit s other h = record {
    serves = record { active = h.active; is_there = h.is_there };
    graph = refl;
  }
  delete_batch-Keeps ChildTable.relations j limit s other h = record {
    serves = record { active = h.active; is_there = h.is_there };
    graph = rw (own-delete_some id j limit s.relations other) refl;
  }
  delete_batch-Keeps ChildTable.symbols j limit s other h = record {
    serves = record { active = h.active; is_there = h.is_there };
    graph = rw (own-delete_some id j limit s.symbols other) refl;
  }
  delete_batch-Keeps ChildTable.files j limit s other h = record {
    serves = record { active = h.active; is_there = h.is_there };
    graph = rw (own-delete_some id j limit s.files other) refl;
  }

  pub row-Keeps :
      (b : Bool) (j : ℕ) (s : Store v)
      → Serves id revision s
      → (b ≡ true → Keeps id revision s (delete_snapshot j s))
      → Keeps id revision s (deleted b j s).1
  row-Keeps true j s h k = k refl
  row-Keeps false j s h k = Keeps-refl id revision s h

  pub delete_snapshot_row-Keeps :
      (j : ℕ) (s : Store v) → Serves id revision s → Keeps id revision s (delete_snapshot_row j s).1
  unfolding delete_snapshot_row
  delete_snapshot_row-Keeps j s h =
      row-Keeps (any (is_deletable j s) s.snapshots) j s h
        (λ gone. delete_snapshot-Keeps id revision j s (deletable_other j s gone h.active) h)
