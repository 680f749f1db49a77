-- ===== src/Hosted/Snapshots/Refresh.antt =====
-- `refresh_wiki_links` and `status` of postgres/codegraph.py, with `links_stale` of
-- codegraph/linking.py.
use iwiki_mcp.Prelude.{
  ℕ, Bool, true, false, not, Option, none, some, List, ◌==◌, if◌then◌else◌, nat_eq, length,
  list_beq, list_eq,
}
use iwiki_mcp.Text.{Text}
use iwiki_mcp.CodeGraph.Publication.{Encoding}
use iwiki_mcp.CodeGraph.Publication.Wire.{RowKind}
use iwiki_mcp.Hosted.Snapshots.Tables.{
  is_ready, SnapshotRow, WikiLink, Store, update_rows, snapshot_key,
}
use iwiki_mcp.Hosted.Snapshots.Sessions.{active_snapshot, others}
use iwiki_mcp.Hosted.Snapshots.Materialize.{Database, Check, passed, ◌>>=◌}
use iwiki_mcp.Hosted.Snapshots.Links.{derive_links, markdown_revision, own, insert_wiki_links}

pub record Refreshed : Type 0 where
  pub snapshot_id : ℕ
  pub snapshot_revision : Option Text
  pub markdown_revision : Text
  pub previous_markdown_revision : Text
  pub stored_markdown_generation : ℕ
  pub previous_markdown_generation : ℕ
  pub wiki_links : ℕ

pub data Refresh : Type 0 where
  missing_snapshot : Refresh
  pages_unavailable : Refresh
  refreshed : Refreshed → Refresh

pub record Status : Type 0 where
  pub snapshot_id : ℕ
  pub snapshot_revision : Option Text
  pub ready_at : ℕ
  pub counts : RowKind → ℕ
  pub markdown_revision : Text
  pub stored_markdown_generation : ℕ
  pub current_markdown_generation : ℕ
  pub wiki_links_stale : Bool

-- The join of the domain's state with its ready snapshot.
unfoldable pub ready_snapshot : {v : Encoding} → Store v → Option SnapshotRow
unfolding active_snapshot
ready_snapshot s = elim (active_snapshot s) [
  | none ↦ none
  | some row ↦ if is_ready row.state then some row else none
]

abbrev pub generations_agree : Option ℕ → Option ℕ → Bool
generations_agree (some stored) (some current) = stored == current
generations_agree _ _ = false

-- `links_stale`; the revision is a text here, and no call.
unfoldable pub links_stale : Text → Text → Option ℕ → Option ℕ → Bool
links_stale stored current stored_generation current_generation =
    if generations_agree stored_generation current_generation
    then false
    else not (list_beq stored current)

module _ {v : Encoding} (db : Database v) where
  abbrev pub with_links : SnapshotRow → Store v → List (ℕ × WikiLink) → Store v
  with_links row s wiki_links = record s {
    wiki_links = wiki_links;
    snapshots =
        update_rows snapshot_key row.snapshot_id
          (λ r. record r {
            markdown_revision = markdown_revision db s.pages;
            markdown_generation = s.markdown_generation;
          })
          s.snapshots;
  }

  -- DELETE of the links, INSERT of the new ones, UPDATE of the snapshot.
  unfoldable pub replace_links : SnapshotRow → List WikiLink → Store v → Check (Store v)
  unfolding insert_wiki_links update_rows markdown_revision
  replace_links row links s =
      insert_wiki_links db row.snapshot_id (own row.snapshot_id s.relations) links
        (others row.snapshot_id s.wiki_links)
      >>= λ wiki_links. passed (with_links row s wiki_links)

  abbrev pub refreshed_row : SnapshotRow → List WikiLink → Store v → Refreshed
  refreshed_row row links s = record {
    snapshot_id = row.snapshot_id;
    snapshot_revision = row.snapshot_revision;
    markdown_revision = markdown_revision db s.pages;
    previous_markdown_revision = row.markdown_revision;
    stored_markdown_generation = s.markdown_generation;
    previous_markdown_generation = row.markdown_generation;
    wiki_links = length links;
  }

  abbrev pub answer_links :
      SnapshotRow → List WikiLink → Store v → Check (Store v) → Option (Refresh × Store v)
  answer_links row links s (passed t) = some (refreshed (refreshed_row row links s), t)
  answer_links row links s _ = none

  abbrev pub refresh_active : Bool → Option SnapshotRow → Store v → Option (Refresh × Store v)
  refresh_active readable none s = some (missing_snapshot, s)
  refresh_active false (some row) s = some (pages_unavailable, s)
  refresh_active true (some row) s =
      let id = row.snapshot_id in
      let links =
        derive_links db s.pages (own id s.files) (own id s.symbols) (own id s.relations) in
      answer_links row links s (replace_links row links s)

  unfoldable pub refresh_wiki_links : Bool → Store v → Option (Refresh × Store v)
  unfolding ready_snapshot derive_links replace_links markdown_revision
  refresh_wiki_links readable s = refresh_active readable (ready_snapshot s) s

  abbrev pub status_of : Store v → SnapshotRow → Status
  status_of s row = record {
    snapshot_id = row.snapshot_id;
    snapshot_revision = row.snapshot_revision;
    ready_at = row.ready_at;
    counts = row.header.expected_counts;
    markdown_revision = row.markdown_revision;
    stored_markdown_generation = row.markdown_generation;
    current_markdown_generation = s.markdown_generation;
    wiki_links_stale =
        links_stale row.markdown_revision (markdown_revision db s.pages)
          (some row.markdown_generation) (some s.markdown_generation);
  }

  -- None for a domain without a ready snapshot.
  unfoldable pub status : Store v → Option Status
  unfolding ready_snapshot links_stale markdown_revision
  status s = elim (ready_snapshot s) [ none ↦ none | some row ↦ some (status_of s row) ]
