-- ===== src/Hosted/Snapshots/Unmoved.antt =====
-- postgres/codegraph.py: the transactions but finalize never move the active snapshot.
use iwiki_mcp.Prelude.{
  ℕ, ◌≡◌, refl, ◌∙◌, inl, inr, Bool, true, false, not, ◌||◌, Option, none, some, List, [], ◌∷◌,
  ◌==◌, Bool-cases, nat_eq, any, list_beq, list_eq,
}
use iwiki_mcp.CodeGraph.Publication.{Encoding, SnapshotBatch}
use iwiki_mcp.Hosted.Snapshots.Tables.{
  SnapshotRow, SessionRow, BatchRow, Store, accepted, in_state, refused, Header, is_staging, find,
  session_key, snapshot_key, aborted, snapshot_conflict, unauthorized, batch_conflict, WikiLink,
}
use iwiki_mcp.Hosted.Snapshots.Sessions.{
  Settings, answer, begin, publish_batch, accept, abort, abort_found, abort_owned, cleanup_staging,
  discard_sessions, discard_snapshot, insert_staged, staged_session, staged_snapshot, find_batch,
  renew, terminal_or, abort_session, begun_with, expired_sessions, is_staged, delete_snapshot,
  delete_sessions, fail_snapshot, is_taken,
}
use iwiki_mcp.Hosted.Snapshots.Materialize.{Database, Check, raised, failure, passed, ◌>>=◌}
use iwiki_mcp.Hosted.Snapshots.Refresh.{
  refresh_wiki_links, refresh_active, ready_snapshot, replace_links, with_links, answer_links,
}
use iwiki_mcp.Hosted.Snapshots.Drain.{
  ChildTable, delete_batch, is_deletable, deleted, delete_snapshot_row,
}
use iwiki_mcp.Hosted.Snapshots.Keeping.{Ends, Ends_elim, Ends-unless}
use iwiki_mcp.Hosted.Snapshots.Safety.{Ends-guarded, Ends-if, Ends-ite, Ends-bind}
use iwiki_mcp.Hosted.Snapshots.Steps.{Quiet}

module _ {v : Encoding} where
  pub discard_snapshot-active :
      (id : ℕ) (s : Store v) → (discard_snapshot id s).active_snapshot_id ≡ s.active_snapshot_id
  unfolding discard_snapshot delete_snapshot delete_sessions
  discard_snapshot-active id s = elim (Bool-cases (is_staged (find snapshot_key id s.snapshots))) [
    | inl e ↦ rw (e) refl
    | inr e ↦ rw (e) refl
  ]

  pub discard_sessions-active :
      (rows : List SessionRow) (s : Store v)
      → (discard_sessions rows s).active_snapshot_id ≡ s.active_snapshot_id
  unfolding discard_sessions delete_sessions
  discard_sessions-active [] s = refl
  discard_sessions-active (row ∷ rows) s =
      let t = delete_sessions (λ r. r.session_id == row.session_id) s in
      discard_sessions-active rows (discard_snapshot row.snapshot_id t)
      ∙ discard_snapshot-active row.snapshot_id t

  pub cleanup_staging-active :
      (c : Settings) (now : ℕ) (s : Store v)
      → (cleanup_staging c now s).active_snapshot_id ≡ s.active_snapshot_id
  unfolding cleanup_staging
  cleanup_staging-active c now s = discard_sessions-active (expired_sessions c now s) s

  abbrev pub Same : Store v → Store v → Type 0
  Same s t = t.active_snapshot_id ≡ s.active_snapshot_id

  pub begin-Same :
      (c : Settings) (now session_id snapshot_id : ℕ) (header : Header) (s : Store v)
      → Ends (λ r. Same s r.1) (begin c now session_id snapshot_id header s)
  unfolding begin insert_staged
  begin-Same c now session_id snapshot_id header s =
      let t = cleanup_staging c now s in
      let row = staged_session c now session_id snapshot_id t in
      let snapshot = staged_snapshot snapshot_id header t.markdown_generation in
      Ends-bind (Same t) (λ r. Same s r.1) (insert_staged snapshot row t)
        (λ u. some (begun_with row u))
        (Ends-unless (Same t)
          (is_taken snapshot_key snapshot.snapshot_id t.snapshots
            || is_taken session_key row.session_id t.sessions)
          (record t { snapshots = snapshot ∷ t.snapshots; sessions = row ∷ t.sessions })
          (λ _. refl))
        (λ u i. i ∙ cleanup_staging-active c now s)

  pub accept-Same :
      (c : Settings) (now session_id : ℕ) (b : SnapshotBatch) (o : Option BatchRow) (s : Store v)
      → Ends (λ r. Same s r.1) (accept c now session_id b o s)
  unfolding accept renew
  accept-Same c now session_id b none s = refl
  accept-Same c now session_id b (some stored) s =
      Ends-ite (λ r. Same s r.1) (not (list_beq stored.payload_hash b.payload_hash))
        (answer (refused batch_conflict) s) (answer accepted (renew c session_id now s)) refl refl

  pub publish_batch-Same :
      (c : Settings) (now session_id : ℕ) (b : SnapshotBatch) (s : Store v)
      → Ends (λ r. Same s r.1) (publish_batch c now session_id b s)
  unfolding publish_batch
  publish_batch-Same c now session_id b s =
      Ends-guarded (λ r. Same s r.1) s c now (find session_key session_id s.sessions) _ (λ a. refl)
        (λ row.
          Ends-if (λ r. Same s r.1) s (not (is_staging row.state))
            (answer (refused snapshot_conflict))
            (λ t. accept c now session_id b (find_batch session_id b.kind b.ordinal t.batches) t)
            refl
            (accept-Same c now session_id b (find_batch session_id b.kind b.ordinal s.batches) s))

  pub abort_found-Same :
      (c : Settings) (o : Option SessionRow) (s : Store v)
      → Ends (λ r. Same s r.1) (abort_found c o s)
  unfolding abort_session fail_snapshot
  abort_found-Same c none s = refl
  abort_found-Same c (some row) s =
      Ends-if (λ r. Same s r.1) s (not (list_beq row.owner_id c.owner_id))
        (answer (refused unauthorized)) (abort_owned row) refl
        (Ends-ite (λ r. Same s r.1) (not (is_staging row.state))
          (answer (terminal_or (in_state row.state) row) s)
          (answer (in_state aborted) (abort_session row s)) refl refl)

  pub links-Same :
      (db : Database v) (row : SnapshotRow) (links : List WikiLink) (s : Store v)
      (o : Check (List (ℕ × WikiLink)))
      → Ends
          (λ r. Same s r.1)
          (answer_links db row links s (o >>= λ l. passed (with_links db row s l)))
  links-Same db row links s raised = tt
  links-Same db row links s (failure code) = tt
  links-Same db row links s (passed wiki_links) = refl

  pub refresh_active-Same :
      (db : Database v) (readable : Bool) (o : Option SnapshotRow) (s : Store v)
      → Ends (λ r. Same s r.1) (refresh_active db readable o s)
  unfolding replace_links
  refresh_active-Same db readable none s = refl
  refresh_active-Same db false (some row) s = refl
  refresh_active-Same db true (some row) s = links-Same db row _ s _

  pub delete_batch-Same :
      (table : ChildTable) (id limit : ℕ) (s : Store v) → Same s (delete_batch table id limit s)
  unfolding delete_batch
  delete_batch-Same ChildTable.wiki_links id limit s = refl
  delete_batch-Same ChildTable.relations id limit s = refl
  delete_batch-Same ChildTable.symbols id limit s = refl
  delete_batch-Same ChildTable.files id limit s = refl

  pub delete_snapshot_row-Same : (id : ℕ) (s : Store v) → Same s (delete_snapshot_row id s).1
  unfolding delete_snapshot_row delete_snapshot delete_sessions
  delete_snapshot_row-Same id s = Same-if (any (is_deletable id s) s.snapshots)
    where
      Same-if : (b : Bool) → Same s (deleted b id s).1
      Same-if true = refl
      Same-if false = refl

  pub Quiet-Same : (db : Database v) (s t : Store v) → Quiet db s t → Same s t
  unfolding abort refresh_wiki_links
  Quiet-Same db s t (Quiet.begins c now session_id snapshot_id header a e) =
      Ends_elim (λ r. Same s r.1) (begin c now session_id snapshot_id header s) (a, t)
        (begin-Same c now session_id snapshot_id header s) e
  Quiet-Same db s t (Quiet.publishes c now session_id b a e) =
      Ends_elim (λ r. Same s r.1) (publish_batch c now session_id b s) (a, t)
        (publish_batch-Same c now session_id b s) e
  Quiet-Same db s t (Quiet.aborts c session_id a e) =
      Ends_elim (λ r. Same s r.1) (abort c session_id s) (a, t)
        (abort_found-Same c (find session_key session_id s.sessions) s) e
  Quiet-Same db s t (Quiet.cleans c now _) = cleanup_staging-active c now s
  Quiet-Same db s t (Quiet.refreshes readable a e) =
      Ends_elim (λ r. Same s r.1) (refresh_wiki_links db readable s) (a, t)
        (refresh_active-Same db readable (ready_snapshot s) s) e
  Quiet-Same db s t (Quiet.drains table id limit _ e) = delete_batch-Same table id limit s
  Quiet-Same db s t (Quiet.deletes id _ e) = delete_snapshot_row-Same id s
  Quiet-Same db s t (Quiet.edits pages generation _) = refl
