-- ===== src/Hosted/Snapshots/Steps.antt =====
-- postgres/codegraph.py: the transactions of a domain's tables as a step relation, each one whole
-- and after the other. Any owner's store may take a step; the pages change on their own.
use iwiki_mcp.Prelude.{ℕ, ◌≡◌, Bool, true, none, some, List, [], nat_eq, list_eq}
use iwiki_mcp.CodeGraph.Publication.{Encoding, SnapshotBatch}
use iwiki_mcp.Hosted.Snapshots.Tables.{Store, Result, Header, MarkdownPage}
use iwiki_mcp.Hosted.Snapshots.Sessions.{Settings, begin, publish_batch, abort, cleanup_staging}
use iwiki_mcp.Hosted.Snapshots.Materialize.{Database}
use iwiki_mcp.Hosted.Snapshots.Finalize.{Moment, finalize}
use iwiki_mcp.Hosted.Snapshots.Refresh.{Refresh, refresh_wiki_links}
use iwiki_mcp.Hosted.Snapshots.Drain.{
  ChildTable, delete_batch, still_superseded, delete_snapshot_row,
}

module _ {v : Encoding} (db : Database v) where
  -- The steps that activate nothing.
  pub data Quiet : Store v → Store v → Type 0 where
    begins :
        (c : Settings) (now session_id snapshot_id : ℕ) (header : Header) (a : Result)
        {s t : Store v}
        → begin c now session_id snapshot_id header s ≡ some (a, t)
        → Quiet s t
    publishes :
        (c : Settings) (now session_id : ℕ) (b : SnapshotBatch) (a : Result) {s t : Store v}
        → publish_batch c now session_id b s ≡ some (a, t)
        → Quiet s t
    aborts :
        (c : Settings) (session_id : ℕ) (a : Result) {s t : Store v}
        → abort c session_id s ≡ some (a, t)
        → Quiet s t
    cleans : (c : Settings) (now : ℕ) (s : Store v) → Quiet s (cleanup_staging c now s)
    refreshes :
        (readable : Bool) (a : Refresh) {s t : Store v}
        → refresh_wiki_links db readable s ≡ some (a, t)
        → Quiet s t
    drains :
        (table : ChildTable) (snapshot_id limit : ℕ) (s : Store v)
        → still_superseded snapshot_id s ≡ true
        → Quiet s (delete_batch table snapshot_id limit s)
    deletes :
        (snapshot_id : ℕ) (s : Store v)
        → still_superseded snapshot_id s ≡ true
        → Quiet s (delete_snapshot_row snapshot_id s).1
    edits :
        (pages : List MarkdownPage) (generation : ℕ) (s : Store v)
        → Quiet s (record s { pages = pages; markdown_generation = generation })

  pub data Quiets : Store v → Store v → Type 0 where
    done : (s : Store v) → Quiets s s
    then_one : {s t u : Store v} → Quiets s t → Quiet t u → Quiets s u

  -- Those, and the transaction that activates.
  pub data Transition : Store v → Store v → Type 0 where
    quiet : {s t : Store v} → Quiet s t → Transition s t
    finalizes :
        (c : Settings) (m : Moment) (session_id : ℕ) (a : Result) {s t : Store v}
        → finalize db c m session_id s ≡ some (a, t)
        → Transition s t

  -- What the tables may come to, from tables without rows.
  pub data Reachable : Store v → Type 0 where
    empty :
        (pages : List MarkdownPage) (generation : ℕ)
        → Reachable (record {
          sessions = [];
          batches = [];
          snapshots = [];
          files = [];
          symbols = [];
          relations = [];
          wiki_links = [];
          active_snapshot_id = none;
          markdown_generation = generation;
          pages = pages;
        })
    next : {s t : Store v} → Reachable s → Transition s t → Reachable t
