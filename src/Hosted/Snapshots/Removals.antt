-- ===== src/Hosted/Snapshots/Removals.antt =====
-- The deletions of a cleanup cycle of postgres/codegraph.py, one transaction after the other, with
-- the rows that they are counted as.
use mathlib.Core.Path.{subst}
use iwiki_mcp.Prelude.{
  ℕ, zero, suc, ◌+◌, min, ◌≡◌, refl, ap, Bool, true, false, List, [], ◌∷◌, arith, nat_eq, length,
  any, list_eq,
}
use iwiki_mcp.CodeGraph.Publication.{Encoding}
use iwiki_mcp.Hosted.Snapshots.Tables.{Store}
use iwiki_mcp.Hosted.Snapshots.Sessions.{delete_snapshot}
use iwiki_mcp.Hosted.Snapshots.Materialize.{Database}
use iwiki_mcp.Hosted.Snapshots.Steps.{Quiet, Quiets}
use iwiki_mcp.Hosted.Snapshots.Drain.{
  ChildTable, count_own, delete_some, rows_of, delete_batch, still_superseded, is_deletable,
  deleted, delete_snapshot_row,
}

delete_some-length :
    {A : Type 0} (id limit : ℕ) (rows : List (ℕ × A))
    → length rows ≡ min limit (count_own id rows) + length (delete_some id limit rows)
unfolding delete_some count_own
delete_some-length id limit [] = omega arith
delete_some-length id zero (row ∷ rows) = omega arith
delete_some-length id (suc limit) (row ∷ rows) =
    ground (arith, delete_some-length id limit rows, delete_some-length id (suc limit) rows)

module _ {v : Encoding} where
  -- All rows of a child table.
  abbrev pub table_rows : ChildTable → Store v → ℕ
  table_rows ChildTable.wiki_links s = length s.wiki_links
  table_rows ChildTable.relations s = length s.relations
  table_rows ChildTable.symbols s = length s.symbols
  table_rows ChildTable.files s = length s.files

  -- Transactions that delete, from one store to another, with the sum of what they are counted as: a
  -- batch of rows of a child table, as the rows that the table loses, and the row of a snapshot, with
  -- what refers to it, as one. Each is of a snapshot that is not the active one.
  pub data Removals : Store v → ℕ → Store v → Type 0 where
    nothing : (s : Store v) → Removals s 0 s
    batch :
        {s t : Store v} {before : ℕ}
        → Removals s before t
        → (table : ChildTable) (id limit removed total : ℕ) → still_superseded id t ≡ true
        → table_rows table t ≡ removed + table_rows table (delete_batch table id limit t)
        → total ≡ before + removed
        → Removals s total (delete_batch table id limit t)
    snapshot_row :
        {s t : Store v} {before : ℕ}
        → Removals s before t
        → (id total : ℕ) → still_superseded id t ≡ true
        → any (is_deletable id t) t.snapshots ≡ true
        → total ≡ before + 1
        → Removals s total (delete_snapshot id t)

  pub delete_batch-rows :
      (table : ChildTable) (id limit : ℕ) (s : Store v)
      → table_rows table s
        ≡ min limit (rows_of table id s) + table_rows table (delete_batch table id limit s)
  unfolding rows_of delete_batch
  delete_batch-rows ChildTable.wiki_links id limit s = delete_some-length id limit s.wiki_links
  delete_batch-rows ChildTable.relations id limit s = delete_some-length id limit s.relations
  delete_batch-rows ChildTable.symbols id limit s = delete_some-length id limit s.symbols
  delete_batch-rows ChildTable.files id limit s = delete_some-length id limit s.files

  Removals-deleted :
      (s t : Store v) (before id : ℕ) (b : Bool)
      → Removals s before t
      → still_superseded id t ≡ true
      → any (is_deletable id t) t.snapshots ≡ b
      → Removals s (before + (deleted b id t).0) (deleted b id t).1
  Removals-deleted s t before id true h superseded e =
      Removals.snapshot_row h id (before + 1) superseded e refl
  Removals-deleted s t before id false h superseded e = subst (λ n. Removals s n t) (ground arith) h

  pub Removals-row :
      (s t : Store v) (before id : ℕ)
      → Removals s before t
      → still_superseded id t ≡ true
      → Removals s (before + (delete_snapshot_row id t).0) (delete_snapshot_row id t).1
  unfolding delete_snapshot_row
  Removals-row s t before id h superseded =
      Removals-deleted s t before id (any (is_deletable id t) t.snapshots) h superseded refl

  pub Removals-append :
      (s t u : Store v) (n m : ℕ) → Removals s n t → Removals t m u → Removals s (n + m) u
  Removals-append s t u n m h (Removals.nothing _) = subst (λ k. Removals s k t) (omega arith) h
  Removals-append s t u n m h
        (Removals.batch {t = r} {before = k} rest table id limit removed _ superseded rows e) =
      Removals.batch (Removals-append s t r n k h rest) table id limit removed (n + m) superseded
        rows (omega (arith, e))
  Removals-append s t u n m h
        (Removals.snapshot_row {t = r} {before = k} rest id _ superseded deletable e) =
      Removals.snapshot_row (Removals-append s t r n k h rest) id (n + m) superseded deletable
        (omega (arith, e))

  -- Each deletion is a transaction that activates nothing.
  pub Removals-Quiets : (db : Database v) (s t : Store v) (n : ℕ) → Removals s n t → Quiets db s t
  unfolding delete_snapshot_row
  Removals-Quiets db s t n (Removals.nothing _) = Quiets.done s
  Removals-Quiets db s t n
        (Removals.batch {t = r} {before = k} rest table id limit _ _ superseded _ _) =
      Quiets.then_one (Removals-Quiets db s r k rest) (Quiet.drains table id limit r superseded)
  Removals-Quiets db s t n
        (Removals.snapshot_row {t = r} {before = k} rest id _ superseded deletable _) =
      Quiets.then_one (Removals-Quiets db s r k rest) (
        subst (Quiet db r) (ap (λ b. (deleted b id r).1) deletable) (Quiet.deletes id r superseded))
