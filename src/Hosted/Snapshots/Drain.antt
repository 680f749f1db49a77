-- ===== src/Hosted/Snapshots/Drain.antt =====
-- The cleanup cycle of postgres/codegraph.py: superseded snapshots lose their rows a batch at a
-- time. Every batch is a transaction; the rows that a foreign key of a deleted row would take along
-- are of the tables before it, which are drained.
use iwiki_mcp.Prelude.{
  ℕ, zero, suc, ◌+◌, ◌-◌, min, Bool, true, false, not, ◌&&◌, ◌||◌, Option, none, some, List, [],
  ◌∷◌, map, ltb, leb, ◌==◌, if◌then◌else◌, nat_eq, length, take, select, any, list_eq,
}
use iwiki_mcp.Prelude.Sort.{sort_by}
use iwiki_mcp.CodeGraph.Publication.{Encoding}
use iwiki_mcp.Hosted.Snapshots.Tables.{is_ready, SnapshotRow, Store}
use iwiki_mcp.Hosted.Snapshots.Sessions.{Settings, delete_snapshot}
use iwiki_mcp.Hosted.Snapshots.Links.{own}

-- The child tables, in the order of `_CLEANUP_CHILD_TABLES`.
pub data ChildTable : Type 0 where
  wiki_links : ChildTable
  relations : ChildTable
  symbols : ChildTable
  files : ChildTable

abbrev pub child_tables : List ChildTable
child_tables =
    ChildTable.wiki_links ∷ ChildTable.relations ∷ ChildTable.symbols ∷ ChildTable.files ∷ []

abbrev pub is_active : Option ℕ → ℕ → Bool
is_active none id = false
is_active (some active) id = active == id

abbrev pub is_superseded : Settings → ℕ → Option ℕ → SnapshotRow → Bool
is_superseded c now active row =
    is_ready row.state
    && leb (row.ready_at + c.superseded_retention_seconds) now
    && not (is_active active row.snapshot_id)

-- DELETE of at most so many rows of a snapshot, in a table.
unfoldable pub delete_some : {A : Type 0} → ℕ → ℕ → List (ℕ × A) → List (ℕ × A)
delete_some id limit [] = []
delete_some id zero (row ∷ rows) = row ∷ rows
delete_some id (suc limit) (row ∷ rows) =
    let fewer = delete_some id limit rows in
    let others = delete_some id (suc limit) rows in if row.0 == id then fewer else row ∷ others

unfoldable pub count_own : {A : Type 0} → ℕ → List (ℕ × A) → ℕ
count_own id rows = length (own id rows)

module _ {v : Encoding} where
  unfoldable pub superseded_candidates : Settings → ℕ → Store v → List ℕ
  unfolding sort_by
  superseded_candidates c now s = take c.superseded_cleanup_limit (
      map (λ row. row.snapshot_id)
        (sort_by (λ a b. leb a.ready_at b.ready_at)
          (select (is_superseded c now s.active_snapshot_id) s.snapshots)))

  unfoldable pub still_superseded : ℕ → Store v → Bool
  still_superseded id s = not (is_active s.active_snapshot_id id)

  -- The rows of the snapshot that the statement finds are as many as it may take, or all.
  unfoldable pub rows_of : ChildTable → ℕ → Store v → ℕ
  unfolding count_own
  rows_of ChildTable.wiki_links id s = count_own id s.wiki_links
  rows_of ChildTable.relations id s = count_own id s.relations
  rows_of ChildTable.symbols id s = count_own id s.symbols
  rows_of ChildTable.files id s = count_own id s.files

  unfoldable pub delete_batch : ChildTable → ℕ → ℕ → Store v → Store v
  unfolding delete_some
  delete_batch ChildTable.wiki_links id limit s = record s {
    wiki_links = delete_some id limit s.wiki_links;
  }
  delete_batch ChildTable.relations id limit s = record s {
    relations = delete_some id limit s.relations;
  }
  delete_batch ChildTable.symbols id limit s = record s { symbols = delete_some id limit s.symbols }
  delete_batch ChildTable.files id limit s = record s { files = delete_some id limit s.files }

  abbrev pub is_deletable : ℕ → Store v → SnapshotRow → Bool
  is_deletable id s row =
      row.snapshot_id == id
      && is_ready row.state
      && not (is_active s.active_snapshot_id id)
      && rows_of ChildTable.files id s == 0

  abbrev pub deleted : Bool → ℕ → Store v → ℕ × Store v
  deleted true id s = (1, delete_snapshot id s)
  deleted false id s = (0, s)

  -- With the sessions of the snapshot and their batches, which its foreign key takes along.
  unfoldable pub delete_snapshot_row : ℕ → Store v → ℕ × Store v
  unfolding delete_snapshot rows_of
  delete_snapshot_row id s = deleted (any (is_deletable id s) s.snapshots) id s

abbrev pub no_candidates : List ℕ → Bool
no_candidates [] = true
no_candidates (_ ∷ _) = false

abbrev pub adding_removed : {v : Encoding} → ℕ → ℕ × Store v → ℕ × Store v
adding_removed removed r = (removed + r.0, r.1)

-- The variables of `_drain_snapshot`, with whether it has returned.
module _ (v : Encoding) where
  pub record DrainState : Type 0 where
    pub removed : ℕ
    pub store : Store v
    pub returned : Bool

module _ {v : Encoding} (c : Settings) (id budget : ℕ) where
  abbrev pub batch_size : DrainState v → ℕ
  batch_size p = min c.cleanup_batch_rows (budget - p.removed)

  abbrev pub rows_taken : ChildTable → DrainState v → ℕ
  rows_taken table p = min (batch_size p) (rows_of table id p.store)

  unfoldable pub after_batch : ChildTable → DrainState v → DrainState v
  unfolding rows_of delete_batch
  after_batch table p = record p {
    removed = p.removed + rows_taken table p;
    store = delete_batch table id (batch_size p) p.store;
  }

  -- The loop over one table; every batch takes a row, so that the budget is fuel enough.
  unfoldable pub drain_table : ChildTable → ℕ → DrainState v → DrainState v
  unfolding still_superseded after_batch rows_of
  drain_table table zero p = p
  drain_table table (suc fuel) p =
      let rest = drain_table table fuel (after_batch table p) in
      if p.returned || not (ltb p.removed budget)
      then p
      else if not (still_superseded id p.store)
      then record p { returned = true }
      else if rows_taken table p == 0
      then p
      else rest

  unfoldable pub drain_tables : List ChildTable → DrainState v → DrainState v
  unfolding drain_table
  drain_tables [] p = p
  drain_tables (table ∷ tables) p = drain_tables tables (drain_table table budget p)

  abbrev pub drain_row : DrainState v → ℕ × Store v
  drain_row p =
      if p.returned || not (still_superseded id p.store)
      then (p.removed, p.store)
      else adding_removed p.removed (delete_snapshot_row id p.store)

  unfoldable pub drain_snapshot : Store v → ℕ × Store v
  unfolding drain_tables still_superseded delete_snapshot_row
  drain_snapshot s =
      drain_row (drain_tables child_tables (record { removed = 0; store = s; returned = false }))

module _ {v : Encoding} (c : Settings) where
  unfoldable pub drain_candidates : List ℕ → ℕ × Store v → ℕ × Store v
  unfolding drain_snapshot
  drain_candidates [] p = p
  drain_candidates (id ∷ ids) p =
      let r = drain_snapshot c id (c.cleanup_cycle_rows - p.0) p.1 in
      let rest = drain_candidates ids (p.0 + r.0, r.1) in
      if leb c.cleanup_cycle_rows p.0 then p else rest

  -- `_drain`, with what the clock reads in each round. None stands for no fuel.
  unfoldable pub drain : (ℕ → ℕ) → ℕ → ℕ × Store v → Option (ℕ × Store v)
  unfolding drain_candidates superseded_candidates
  drain clock zero p = none
  drain clock (suc fuel) p =
      let candidates = superseded_candidates c (clock fuel) p.1 in
      let q = drain_candidates candidates p in
      let rest = drain clock fuel q in
      if leb c.cleanup_cycle_rows p.0
      then some p
      else if no_candidates candidates
      then some p
      else if p.0 == q.0
      then some q
      else rest

  unfoldable pub run_cleanup_cycle : (ℕ → ℕ) → Store v → Option (ℕ × Store v)
  unfolding drain
  run_cleanup_cycle clock s = drain clock (c.cleanup_cycle_rows + 1) (0, s)
