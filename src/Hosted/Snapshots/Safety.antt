-- ===== src/Hosted/Snapshots/Safety.antt =====
-- postgres/codegraph.py: what publishing, aborting, refreshing and cleaning never do to the active
-- snapshot.
use iwiki_mcp.Prelude.{
  ℕ, refl, Bool, true, false, not, Option, none, some, List, [], ◌∷◌, ◌++◌, if◌then◌else◌, nat_eq,
  list_beq, list_eq,
}
use iwiki_mcp.Text.{Text}
use iwiki_mcp.CodeGraph.Publication.{Encoding, SnapshotBatch}
use iwiki_mcp.Hosted.Snapshots.Tables.{
  SnapshotRow, SessionRow, BatchRow, Store, Transaction, Result, accepted, in_state, refused,
  Header, Code, is_staging, find, session_key, WikiLink, aborted, snapshot_conflict, unauthorized,
}
use iwiki_mcp.Hosted.Snapshots.Sessions.{
  Settings, guard, guarded, rejecting, answer, begin, publish_batch, accept, abort, abort_found,
  abort_owned, cleanup_staging, insert_staged, others, staged_session, staged_snapshot, find_batch,
  batch_row, renew, terminal_or, abort_session, begun_with,
}
use iwiki_mcp.CodeGraph.Publication.{◌>>=◌}
use iwiki_mcp.Hosted.Snapshots.Materialize.{
  Database, Check, raised, failure, passed, ◌>>=◌ as after_check,
}
use iwiki_mcp.Hosted.Snapshots.Links.{derive_links, insert_wiki_links, markdown_revision, own}
use iwiki_mcp.Hosted.Snapshots.Refresh.{
  refresh_wiki_links, refresh_active, ready_snapshot, replace_links, with_links, answer_links,
}
use iwiki_mcp.Hosted.Snapshots.Serving.{Serves, Keeps, Keeps-refl, Keeps-trans, has_ready-update}
use iwiki_mcp.Hosted.Snapshots.Keeping.{
  Ends, Ends_elim, cleanup_staging-Keeps, insert_staged-Keeps, renew-Keeps, abort_session-Keeps,
}
use iwiki_mcp.Hosted.Snapshots.Draining.{
  delete_batch-Keeps, delete_snapshot_row-Keeps, still_superseded_other,
}
use iwiki_mcp.Hosted.Snapshots.Steps.{Quiet, Quiets}

module _ {v : Encoding} (P : Result × Store v → Type 0) (s : Store v) where
  Ends-rejecting :
      (o : Option Code) (body : Transaction v)
      → ((code : Code) → P (refused code, s))
      → Ends P (body s)
      → Ends P (rejecting o body s)
  Ends-rejecting none body h k = k
  Ends-rejecting (some code) body h k = h code

  pub Ends-guarded :
      (c : Settings) (now : ℕ) (o : Option SessionRow) (body : SessionRow → Transaction v)
      → ((code : Code) → P (refused code, s))
      → ((row : SessionRow) → Ends P (body row s))
      → Ends P (guarded c now o body s)
  Ends-guarded c now none body h k =
      Ends-rejecting (guard c none now) (answer (refused unauthorized)) h (h unauthorized)
  Ends-guarded c now (some row) body h k =
      Ends-rejecting (guard c (some row) now) (body row) h (k row)

  pub Ends-if :
      (b : Bool) (f g : Transaction v)
      → Ends P (f s)
      → Ends P (g s)
      → Ends P ((if b then f else g) s)
  Ends-if true f g h k = h
  Ends-if false f g h k = k

pub Ends-ite :
    {A : Type 0} (P : A → Type 0) (b : Bool) (x y : Option A)
    → Ends P x
    → Ends P y
    → Ends P (if b then x else y)
Ends-ite P true x y h k = h
Ends-ite P false x y h k = k

pub Ends-bind :
    {A B : Type 0} (P : A → Type 0) (Q : B → Type 0) (o : Option A) (f : A → Option B)
    → Ends P o
    → ((x : A) → P x → Ends Q (f x))
    → Ends Q (o >>= f)
Ends-bind P Q none f h k = tt
Ends-bind P Q (some x) f h k = k x h

module _ {v : Encoding} (id : ℕ) (revision : Option Text) where
  begin-Keeps :
      (c : Settings) (now session_id snapshot_id : ℕ) (header : Header) (s : Store v)
      → Serves id revision s
      → Ends (λ r. Keeps id revision s r.1) (begin c now session_id snapshot_id header s)
  unfolding begin
  begin-Keeps c now session_id snapshot_id header s h =
      let t = cleanup_staging c now s in
      let row = staged_session c now session_id snapshot_id t in
      let snapshot = staged_snapshot snapshot_id header t.markdown_generation in
      let k = cleanup_staging-Keeps id revision c now s h in
      Ends-bind (Keeps id revision t) (λ r. Keeps id revision s r.1) (insert_staged snapshot row t)
        (λ u. some (begun_with row u)) (insert_staged-Keeps id revision snapshot row t k.serves)
        (λ u i. Keeps-trans id revision s t u k i)

  accept-Keeps :
      (c : Settings) (now session_id : ℕ) (b : SnapshotBatch) (o : Option BatchRow) (s : Store v)
      → Serves id revision s
      → Ends (λ r. Keeps id revision s r.1) (accept c now session_id b o s)
  unfolding accept
  accept-Keeps c now session_id b none s h =
      let t = record s { batches = s.batches ++ batch_row session_id b ∷ [] } in
      let k =
        renew-Keeps id revision c session_id now t
          (record { active = h.active; is_there = h.is_there }) in
      record { serves = k.serves; graph = k.graph }
  accept-Keeps c now session_id b (some stored) s h =
      Ends-ite (λ r. Keeps id revision s r.1) (not (list_beq stored.payload_hash b.payload_hash))
        (answer (refused Code.batch_conflict) s) (answer accepted (renew c session_id now s))
        (Keeps-refl id revision s h) (renew-Keeps id revision c session_id now s h)

  publish_batch-Keeps :
      (c : Settings) (now session_id : ℕ) (b : SnapshotBatch) (s : Store v)
      → Serves id revision s
      → Ends (λ r. Keeps id revision s r.1) (publish_batch c now session_id b s)
  unfolding publish_batch
  publish_batch-Keeps c now session_id b s h =
      Ends-guarded (λ r. Keeps id revision s r.1) s c now (find session_key session_id s.sessions)
        (λ row. if not (is_staging row.state) then answer (refused snapshot_conflict) else λ t.
          accept c now session_id b (find_batch session_id b.kind b.ordinal t.batches) t)
        (λ a. Keeps-refl id revision s h)
        (λ row.
          Ends-if (λ r. Keeps id revision s r.1) s (not (is_staging row.state))
            (answer (refused snapshot_conflict))
            (λ t. accept c now session_id b (find_batch session_id b.kind b.ordinal t.batches) t)
            (Keeps-refl id revision s h)
            (accept-Keeps c now session_id b (find_batch session_id b.kind b.ordinal s.batches) s
              h))

  abort_found-Keeps :
      (c : Settings) (o : Option SessionRow) (s : Store v)
      → Serves id revision s
      → Ends (λ r. Keeps id revision s r.1) (abort_found c o s)
  abort_found-Keeps c none s h = Keeps-refl id revision s h
  abort_found-Keeps c (some row) s h =
      Ends-if (λ r. Keeps id revision s r.1) s (not (list_beq row.owner_id c.owner_id))
        (answer (refused unauthorized)) (abort_owned row) (Keeps-refl id revision s h)
        (Ends-ite (λ r. Keeps id revision s r.1) (not (is_staging row.state))
          (answer (terminal_or (in_state row.state) row) s)
          (answer (in_state aborted) (abort_session row s)) (Keeps-refl id revision s h)
          (abort_session-Keeps id revision row s h))

  abort-Keeps :
      (c : Settings) (session_id : ℕ) (s : Store v)
      → Serves id revision s
      → Ends (λ r. Keeps id revision s r.1) (abort c session_id s)
  unfolding abort
  abort-Keeps c session_id s h = abort_found-Keeps c (find session_key session_id s.sessions) s h

  with_links-Keeps :
      (db : Database v) (row : SnapshotRow) (links : List WikiLink) (s : Store v)
      (o : Check (List (ℕ × WikiLink)))
      → Serves id revision s
      → Ends
          (λ r. Keeps id revision s r.1)
          (answer_links db row links s (after_check o (λ l. passed (with_links db row s l))))
  with_links-Keeps db row links s raised h = tt
  with_links-Keeps db row links s (failure code) h = tt
  with_links-Keeps db row links s (passed wiki_links) h = record {
    serves = record {
      active = h.active;
      is_there =
          has_ready-update id revision row.snapshot_id
            (λ r. record r {
              markdown_revision = markdown_revision db s.pages;
              markdown_generation = s.markdown_generation;
            })
            s.snapshots (λ r. refl) (λ r e. e) h.is_there;
    };
    graph = refl;
  }

  replace_links-Keeps :
      (db : Database v) (row : SnapshotRow) (links : List WikiLink) (s : Store v)
      → Serves id revision s
      → Ends
          (λ r. Keeps id revision s r.1)
          (answer_links db row links s (replace_links db row links s))
  unfolding replace_links
  replace_links-Keeps db row links s h =
      with_links-Keeps db row links s
        (insert_wiki_links db row.snapshot_id (own row.snapshot_id s.relations) links
          (others row.snapshot_id s.wiki_links))
        h

  refresh_active-Keeps :
      (db : Database v) (readable : Bool) (o : Option SnapshotRow) (s : Store v)
      → Serves id revision s
      → Ends (λ r. Keeps id revision s r.1) (refresh_active db readable o s)
  refresh_active-Keeps db readable none s h = Keeps-refl id revision s h
  refresh_active-Keeps db false (some row) s h = Keeps-refl id revision s h
  refresh_active-Keeps db true (some row) s h =
      replace_links-Keeps db row
        (derive_links db s.pages (own row.snapshot_id s.files) (own row.snapshot_id s.symbols)
          (own row.snapshot_id s.relations))
        s h

  refresh_wiki_links-Keeps :
      (db : Database v) (readable : Bool) (s : Store v)
      → Serves id revision s
      → Ends (λ r. Keeps id revision s r.1) (refresh_wiki_links db readable s)
  unfolding refresh_wiki_links
  refresh_wiki_links-Keeps db readable s h = refresh_active-Keeps db readable (ready_snapshot s) s h

  pub Quiet-Keeps :
      (db : Database v) {s t : Store v}
      → Quiet db s t
      → Serves id revision s
      → Keeps id revision s t
  Quiet-Keeps db {s} {t} (Quiet.begins c now session_id snapshot_id header a e) h =
      Ends_elim (λ r. Keeps id revision s r.1) (begin c now session_id snapshot_id header s) (a, t)
        (begin-Keeps c now session_id snapshot_id header s h) e
  Quiet-Keeps db {s} {t} (Quiet.publishes c now session_id b a e) h =
      Ends_elim (λ r. Keeps id revision s r.1) (publish_batch c now session_id b s) (a, t)
        (publish_batch-Keeps c now session_id b s h) e
  Quiet-Keeps db {s} {t} (Quiet.aborts c session_id a e) h =
      Ends_elim (λ r. Keeps id revision s r.1) (abort c session_id s) (a, t)
        (abort-Keeps c session_id s h) e
  Quiet-Keeps db (Quiet.cleans c now s) h = cleanup_staging-Keeps id revision c now s h
  Quiet-Keeps db {s} {t} (Quiet.refreshes readable a e) h =
      Ends_elim (λ r. Keeps id revision s r.1) (refresh_wiki_links db readable s) (a, t)
        (refresh_wiki_links-Keeps db readable s h) e
  Quiet-Keeps db (Quiet.drains table j limit s e) h =
      delete_batch-Keeps id revision table j limit s
        (still_superseded_other id revision j s e h.active) h
  Quiet-Keeps db (Quiet.deletes j s e) h = delete_snapshot_row-Keeps id revision j s h
  Quiet-Keeps db (Quiet.edits pages generation s) h = record {
    serves = record { active = h.active; is_there = h.is_there };
    graph = refl;
  }

  -- Through any transactions that activate nothing (of any owner: sessions begun, batches published,
  -- sessions aborted or cleaned up, links refreshed, superseded snapshots drained and deleted), the
  -- active snapshot stays the active one, there and ready, and its files, symbols and relations stay
  -- as they are.
  pub Quiets-Keeps :
      (db : Database v) (s u : Store v)
      → Quiets db s u
      → Serves id revision s
      → Keeps id revision s u
  Quiets-Keeps db s u (Quiets.done _) h = Keeps-refl id revision s h
  Quiets-Keeps db s u (Quiets.then_one {t = t} before step) h =
      let k = Quiets-Keeps db s t before h in
      Keeps-trans id revision s t u k (Quiet-Keeps db step k.serves)
