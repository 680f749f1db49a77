-- ===== src/Hosted/Snapshots/Finalize.antt =====
-- `finalize`, `_activate`, `refresh_wiki_links` and `status` of postgres/codegraph.py. The pages of
-- the store stand in the order of `ORDER BY slug`.
use iwiki_mcp.Prelude.{
  ℕ, Bool, true, false, not, ◌&&◌, ◌||◌, Option, none, some, List, [], ◌∷◌, ◌++◌, ◌==◌,
  if◌then◌else◌, nat_eq, length, list_beq, list_eq,
}
use iwiki_mcp.Text.{Text, codes}
use iwiki_mcp.CodeGraph.Publication.Wire.{RowKind}
use iwiki_mcp.CodeGraph.Publication.{Encoding, Row, canonical_bytes_sha256}
use iwiki_mcp.CodeGraph.Publication.Revision.{graph_payload_revision}
use iwiki_mcp.Hosted.Snapshots.Tables.{
  ready, is_staging, snapshot_conflict, revision_mismatch, markdown_unavailable, busy, Activated,
  Result, refused, activated, SessionRow, Header, WikiLink, Store, Transaction, find, update_rows,
  session_key, snapshot_key, same_text,
}
use iwiki_mcp.Hosted.Snapshots.Sessions.{
  Settings, answer, guarded, guard, terminal_or, active_revision,
}
use iwiki_mcp.Hosted.Snapshots.Materialize.{
  Database, get, Check, raised, failure, passed, ◌>>=◌, present, require, every, materialize,
}
use iwiki_mcp.Hosted.Snapshots.Links.{
  derive_links, markdown_revision, own, has_key, insert_wiki_links,
}

abbrev pub is_not_null : Option Text → Bool
is_not_null none = false
is_not_null (some text) = true

-- What a store says of one moment: the clock, whether the pages may be read, and whether the
-- advisory lock comes within its timeout.
pub record Moment : Type 0 where
  pub now : ℕ
  pub readable : Bool
  pub locked : Bool

-- A refusal leaves the tables, whether it is returned or is an exception that is caught.
abbrev pub settle_check : {v : Encoding} → Check (Result × Store v) → Transaction v
settle_check raised s = none
settle_check (failure code) s = answer (refused code) s
settle_check (passed result) s = some result

abbrev pub with_graph :
    {v : Encoding}
    → List (ℕ × Row v)
    → List (ℕ × Row v)
    → List (ℕ × Row v)
    → Store v
    → List (ℕ × WikiLink)
    → Store v
with_graph files symbols relations s wiki_links = record s {
  files = files;
  symbols = symbols;
  relations = relations;
  wiki_links = wiki_links;
}

abbrev pub check : Bool → Check Unit
check holds = if holds then passed tt else raised

module _ {v : Encoding} (db : Database v) where
  -- The columns of a row that are NOT NULL, its primary key first.
  unfoldable pub insert_row :
      List Text → Text → ℕ → Row v → List (ℕ × Row v) → Check (List (ℕ × Row v))
  unfolding get has_key every
  insert_row required key id row rows =
      if every (λ field. is_not_null (db.as_text (get db field row))) required
        && not (has_key db key (db.as_text (get db key row)) (own id rows))
      then passed (rows ++ (id, row) ∷ [])
      else raised

  unfoldable pub insert_rows :
      List Text → Text → ℕ → List (Row v) → List (ℕ × Row v) → Check (List (ℕ × Row v))
  unfolding insert_row
  insert_rows required key id [] rows = passed rows
  insert_rows required key id (row ∷ more) rows =
      insert_row required key id row rows >>= λ inserted. insert_rows required key id more inserted

  -- A foreign key of every row; NULL refers to nothing.
  unfoldable pub refers_to : Text → List (Row v) → Text → List (Row v) → Bool
  unfolding get has_key every
  refers_to field rows key targets =
      every
        (λ row.
          let text = db.as_text (get db field row) in
          not (is_not_null text) || has_key db key text targets)
        rows

  unfoldable pub foreign_keys : List (Row v) → List (Row v) → List (Row v) → Bool
  unfolding refers_to
  foreign_keys files symbols relations =
      refers_to (codes "file_id") symbols (codes "file_id") files
      && refers_to (codes "source_file_id") relations (codes "file_id") files
      && refers_to (codes "source_symbol_id") relations (codes "symbol_id") symbols
      && refers_to (codes "target_symbol_id") relations (codes "symbol_id") symbols

  unfoldable pub snapshot_revision_of : Header → Text → Text
  unfolding canonical_bytes_sha256
  snapshot_revision_of header revision =
      canonical_bytes_sha256 v
        (v.dumps (
          (codes "graph_payload_revision", db.text_value header.graph_payload_revision)
          ∷ (codes "markdown_revision", db.text_value revision)
          ∷ (codes "repository_id", db.text_value header.repository_id)
          ∷ []))
        true

  abbrev pub insert_files : ℕ → List (Row v) → List (ℕ × Row v) → Check (List (ℕ × Row v))
  insert_files = insert_rows (codes "file_id" ∷ codes "repository_id" ∷ []) (codes "file_id")

  abbrev pub insert_symbols : ℕ → List (Row v) → List (ℕ × Row v) → Check (List (ℕ × Row v))
  insert_symbols = insert_rows (codes "symbol_id" ∷ codes "file_id" ∷ []) (codes "symbol_id")

  abbrev pub insert_relations : ℕ → List (Row v) → List (ℕ × Row v) → Check (List (ℕ × Row v))
  insert_relations =
      insert_rows (codes "relation_id" ∷ codes "source_file_id" ∷ []) (codes "relation_id")

  -- The four INSERTs.
  unfoldable pub insert_graph :
      ℕ → (RowKind → List (Row v)) → List WikiLink → Store v → Check (Store v)
  unfolding insert_rows foreign_keys insert_wiki_links
  insert_graph id rows links s = do
    files ← insert_files id (rows RowKind.files) s.files
    symbols ← insert_symbols id (rows RowKind.symbols) s.symbols
    relations ← insert_relations id (rows RowKind.relations) s.relations
    _ ← check (foreign_keys (own id files) (own id symbols) (own id relations))
    wiki_links ← insert_wiki_links db id (own id relations) links s.wiki_links
    passed (with_graph files symbols relations s wiki_links)

  -- The three UPDATEs.
  unfoldable pub mark_ready : SessionRow → ℕ → Text → Text → Activated → Store v → Store v
  unfolding update_rows
  mark_ready row now revision snapshot_revision result s = record s {
    snapshots =
        update_rows snapshot_key row.snapshot_id
          (λ r. record r {
            state = ready;
            snapshot_revision = some snapshot_revision;
            ready_at = now;
            markdown_revision = revision;
          })
          s.snapshots;
    active_snapshot_id = some row.snapshot_id;
    sessions =
        update_rows session_key row.session_id
          (λ r. record r { state = ready; terminal_result = some (activated result) }) s.sessions;
  }

  abbrev pub activation :
      SessionRow → Header → Text → (RowKind → List (Row v)) → List WikiLink → Activated
  activation row header revision rows links = record {
    snapshot_id = row.snapshot_id;
    snapshot_revision = snapshot_revision_of header revision;
    markdown_revision = revision;
    counts = λ kind. length (rows kind);
    wiki_links = length links;
  }

  unfoldable pub activate :
      SessionRow
      → (RowKind → List (Row v))
      → Header
      → ℕ
      → Text
      → List WikiLink
      → Store v
      → Check (Result × Store v)
  unfolding insert_graph mark_ready snapshot_revision_of
  activate row rows header now revision links s = do
    inserted ← insert_graph row.snapshot_id rows links s
    let result = activation row header revision rows links
    passed (activated result, mark_ready row now revision result.snapshot_revision result inserted)

  -- The session's snapshot is staged on the rows of the batches, if everything agrees.
  unfoldable pub finalize_staged : Moment → SessionRow → Store v → Check (Result × Store v)
  unfolding materialize graph_payload_revision find active_revision activate derive_links
      markdown_revision
  finalize_staged m row s = do
    rows ← materialize db row.session_id row.snapshot_id s
    snapshot ← present (find snapshot_key row.snapshot_id s.snapshots)
    revision ← present (graph_payload_revision v rows)
    _ ← require (list_beq revision snapshot.header.graph_payload_revision) revision_mismatch
    _ ← require m.readable markdown_unavailable
    _ ← require m.locked busy
    _ ← require (same_text (active_revision s) row.base_snapshot_revision) snapshot_conflict
    _ ← require (s.markdown_generation == row.captured_markdown_generation) snapshot_conflict
    activate row rows snapshot.header m.now (markdown_revision db s.pages)
        (derive_links db s.pages (rows RowKind.files) (rows RowKind.symbols)
          (rows RowKind.relations))
        s

  abbrev pub finalize_owned : Moment → SessionRow → Transaction v
  finalize_owned m row s =
      if not (is_staging row.state)
      then answer (terminal_or (refused snapshot_conflict) row) s
      else settle_check (finalize_staged m row s) s

  unfoldable pub finalize : Settings → Moment → ℕ → Transaction v
  unfolding find guard finalize_staged
  finalize c m session_id s =
      guarded c m.now (find session_key session_id s.sessions) (finalize_owned m) s
