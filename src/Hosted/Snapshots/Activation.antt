-- ===== src/Hosted/Snapshots/Activation.antt =====
-- `finalize` of postgres/codegraph.py as a compare-and-swap: what it changes, and when.
use iwiki_mcp.Prelude.{
  ℕ, ◌≡◌, refl, ap, ◌∙◌, true, false, Option, none, some, List, [], ◌∷◌, arith, ◌==◌, nat_eq,
  list_eq, list_beq_iff,
}
use iwiki_mcp.Text.{Text}
use iwiki_mcp.CodeGraph.Publication.{Encoding, Row}
use iwiki_mcp.CodeGraph.Publication.Wire.{RowKind}
use iwiki_mcp.Hosted.Snapshots.Tables.{
  SnapshotRow, SessionRow, Store, Result, Activated, activated, is_ready, ready, find, update_rows,
  session_key, snapshot_key, WikiLink, same_text,
}
use iwiki_mcp.Hosted.Snapshots.Sessions.{active_revision}
use iwiki_mcp.Hosted.Snapshots.Materialize.{Database}
use iwiki_mcp.Hosted.Snapshots.Finalize.{insert_graph, activation, activate, snapshot_revision_of}
use iwiki_mcp.Hosted.Snapshots.Links.{markdown_revision}
use iwiki_mcp.Hosted.Snapshots.Serving.{graph_of, has_ready, Serves}
use iwiki_mcp.Hosted.Snapshots.Inserting.{
  Passes, Passes-bind, Passes_elim, Inserted, insert_graph-Inserted,
}

-- A session's row once its snapshot is active.
abbrev pub activated_row : SessionRow → Activated → SessionRow
activated_row row a = record row { state = ready; terminal_result = some (activated a) }

-- One successful compare-and-swap of the session with this row.
pub record Activates {v : Encoding} (db : Database v) (row : SessionRow) (s : Store v)
    (r : Result × Store v) : Type 0 where
  pub result : Activated
  pub answered : r.0 ≡ activated result
  pub snapshot : SnapshotRow
  pub staged : find snapshot_key row.snapshot_id s.snapshots ≡ some snapshot
  pub own_revision :
      result.snapshot_revision
      ≡ snapshot_revision_of db snapshot.header (markdown_revision db s.pages)
  pub base : active_revision s ≡ row.base_snapshot_revision
  pub generation : s.markdown_generation ≡ row.captured_markdown_generation
  pub serves : Serves row.snapshot_id (some result.snapshot_revision) r.1
  pub stored : find session_key row.session_id r.1.sessions ≡ some (activated_row row result)
  pub others_graph : (j : ℕ) → (row.snapshot_id == j) ≡ false → graph_of j r.1 ≡ graph_of j s

pub same_text_eq : (a b : Option Text) → same_text a b ≡ true → a ≡ b
same_text_eq none none h = refl
same_text_eq none (some b) h = absurd (ground arith)
same_text_eq (some a) none h = absurd (ground arith)
same_text_eq (some a) (some b) h = ap some ((list_beq_iff a b).0 h)

pub same_text_refl : (a : Option Text) → same_text a a ≡ true
same_text_refl none = refl
same_text_refl (some a) = (list_beq_iff a a).1 refl

module _ {A : Type 0} (key : A → ℕ) where
  pub find-update :
      (id : ℕ) (f : A → A) (rows : List A) (row : A)
      → ((x : A) → key (f x) ≡ key x)
      → find key id rows ≡ some row
      → find key id (update_rows key id f rows) ≡ some (f row)
  unfolding find update_rows
  find-update id f [] row keeps h = absurd (ground arith)
  find-update id f (x ∷ rows) row keeps h = ground (arith, keeps x, find-update id f rows row keeps)

  pub key-find : (id : ℕ) (rows : List A) (row : A) → find key id rows ≡ some row → key row ≡ id
  unfolding find
  key-find id [] row h = absurd (ground arith)
  key-find id (x ∷ rows) row h = ground (arith, key-find id rows row)

has_ready-found :
    (id : ℕ) (revision : Text) (rows : List SnapshotRow) (row : SnapshotRow)
    → is_ready row.state ≡ true
    → row.snapshot_revision ≡ some revision
    → find snapshot_key id rows ≡ some row
    → has_ready id (some revision) rows ≡ true
unfolding has_ready
has_ready-found id revision rows row r e found = rw (found, r, e) (same_text_refl (some revision))

module _ {v : Encoding} (db : Database v) where
  pub activate-Activates :
      (row : SessionRow) (rows : RowKind → List (Row v)) (snapshot : SnapshotRow) (now : ℕ)
      (links : List WikiLink) (s : Store v)
      → find session_key row.session_id s.sessions ≡ some row
      → find snapshot_key row.snapshot_id s.snapshots ≡ some snapshot
      → active_revision s ≡ row.base_snapshot_revision
      → s.markdown_generation ≡ row.captured_markdown_generation
      → Passes
          (Activates db row s)
          (activate db row rows snapshot.header now (markdown_revision db s.pages) links s)
  unfolding activate
  activate-Activates row rows snapshot now links s found there base generation =
      let revision = markdown_revision db s.pages in
      Passes-bind (Activates db row s) (insert_graph db row.snapshot_id rows links s) _ (λ t e.
        let result = activation db row snapshot.header revision rows links in
        let i =
          Passes_elim (Inserted row.snapshot_id s) (insert_graph db row.snapshot_id rows links s) t
            (insert_graph-Inserted db row.snapshot_id rows links s) e in
        let ready_row = λ (r : SnapshotRow). record r {
          state = ready;
          snapshot_revision = some result.snapshot_revision;
          ready_at = now;
          markdown_revision = revision;
        } in
        record {
          result = result;
          answered = refl;
          snapshot = snapshot;
          staged = there;
          own_revision = refl;
          base = base;
          generation = generation;
          serves = record {
            active = refl;
            is_there =
                has_ready-found row.snapshot_id result.snapshot_revision
                  (update_rows snapshot_key row.snapshot_id ready_row t.snapshots)
                  (ready_row snapshot) refl refl
                  (find-update snapshot_key row.snapshot_id ready_row t.snapshots snapshot
                    (λ r. refl) (ap (find snapshot_key row.snapshot_id) i.snapshots ∙ there));
          };
          stored =
              find-update session_key row.session_id (λ r. activated_row r result) t.sessions row
                (λ r. refl) (ap (find session_key row.session_id) i.sessions ∙ found);
          others_graph = λ j other. i.others_graph j other;
        })
