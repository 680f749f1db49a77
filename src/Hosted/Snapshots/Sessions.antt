-- ===== src/Hosted/Snapshots/Sessions.antt =====
-- The sessions of `PostgresCodeGraphStore`: begin, publish_batch, abort and cleanup_staging.
use iwiki_mcp.Prelude.{
  ℕ, ◌+◌, Bool, false, not, ◌&&◌, ◌||◌, Option, none, some, List, [], ◌∷◌, ◌++◌, leb, ◌==◌,
  if◌then◌else◌, nat_eq, take, select, any, list_beq, list_eq,
}
use iwiki_mcp.Prelude.Sort.{sort_by}
use iwiki_mcp.Text.{Text, codes, str_nat}
use iwiki_mcp.CodeGraph.Publication.Wire.{RowKind}
use iwiki_mcp.CodeGraph.Publication.{Encoding, SnapshotBatch, ◌>>=◌}
use iwiki_mcp.Hosted.Snapshots.Tables.{
  staging, aborted, failed, is_staging, Code, unauthorized, session_expired, batch_conflict,
  snapshot_conflict, Result, refused, begun, accepted, in_state, SessionRow, BatchRow, Header,
  SnapshotRow, Store, Transaction, find, update_rows, session_key, snapshot_key, same_kind,
}

-- The owner and the limits that a store is constructed with.
pub record Settings : Type 0 where
  pub owner_id : Text
  pub session_ttl_seconds : ℕ
  pub staging_retention_seconds : ℕ
  pub staging_cleanup_limit : ℕ
  pub superseded_retention_seconds : ℕ
  pub superseded_cleanup_limit : ℕ
  pub cleanup_batch_rows : ℕ
  pub cleanup_cycle_rows : ℕ

unfoldable pub guard : Settings → Option SessionRow → ℕ → Option Code
guard c none now = some unauthorized
guard c (some row) now =
    if not (list_beq row.owner_id c.owner_id)
    then some unauthorized
    else if not (is_staging row.state)
    then none
    else if leb row.lease_expires_at now
    then some session_expired
    else none

abbrev pub answer : {v : Encoding} → Result → Transaction v
answer a s = some (a, s)

abbrev pub rejecting : {v : Encoding} → Option Code → Transaction v → Transaction v
rejecting (some code) body s = some (refused code, s)
rejecting none body s = body s

-- `_load_session` and `_guard`; a session that passes the guard is there.
abbrev pub guarded :
    {v : Encoding} → Settings → ℕ → Option SessionRow → (SessionRow → Transaction v) → Transaction v
guarded c now none body = rejecting (guard c none now) (answer (refused unauthorized))
guarded c now (some row) body = rejecting (guard c (some row) now) (body row)

-- `dict(terminal) if terminal else ...`
abbrev pub stored_or : Result → Option Result → Result
stored_or other none = other
stored_or other (some terminal) = terminal

abbrev pub terminal_or : Result → SessionRow → Result
terminal_or other row = stored_or other row.terminal_result

abbrev pub others : {A : Type 0} → ℕ → List (ℕ × A) → List (ℕ × A)
others id rows = select (λ r. not (r.0 == id)) rows

abbrev pub is_staged : Option SnapshotRow → Bool
is_staged none = false
is_staged (some row) = is_staging row.state

abbrev pub staged_snapshot : ℕ → Header → ℕ → SnapshotRow
staged_snapshot id header generation = record {
  snapshot_id = id;
  state = staging;
  header = header;
  snapshot_revision = none;
  markdown_revision = codes "generation:" ++ str_nat generation;
  markdown_generation = generation;
  ready_at = 0;
}

abbrev pub is_taken : {A : Type 0} → (A → ℕ) → ℕ → List A → Bool
is_taken key id rows = any (λ r. key r == id) rows

abbrev pub same_place : ℕ → RowKind → ℕ → BatchRow → Bool
same_place session_id kind ordinal b =
    b.session_id == session_id && (same_kind b.kind kind && b.ordinal == ordinal)

unfoldable pub find_batch : ℕ → RowKind → ℕ → List BatchRow → Option BatchRow
unfolding same_kind
find_batch session_id kind ordinal [] = none
find_batch session_id kind ordinal (b ∷ bs) =
    let rest = find_batch session_id kind ordinal bs in
    if same_place session_id kind ordinal b then some b else rest

abbrev pub batch_row : ℕ → SnapshotBatch → BatchRow
batch_row session_id b = record {
  session_id = session_id;
  kind = b.kind;
  ordinal = b.ordinal;
  payload_hash = b.payload_hash;
  row_count = b.row_count;
  payload = b.payload;
}

module _ {v : Encoding} where
  unfoldable pub renew : Settings → ℕ → ℕ → Store v → Store v
  unfolding update_rows
  renew c session_id now s = record s {
    sessions =
        update_rows session_key session_id
          (λ r. record r { lease_expires_at = now + c.session_ttl_seconds }) s.sessions;
  }

  -- DELETE of sessions; their batches go with them.
  unfoldable pub delete_sessions : (SessionRow → Bool) → Store v → Store v
  delete_sessions gone s = record s {
    sessions = select (λ r. not (gone r)) s.sessions;
    batches =
        select (λ b. not (any (λ r. gone r && r.session_id == b.session_id) s.sessions)) s.batches;
  }

  -- DELETE of a snapshot; what refers to it goes with it.
  unfoldable pub delete_snapshot : ℕ → Store v → Store v
  unfolding delete_sessions
  delete_snapshot id s =
      let t = delete_sessions (λ r. r.snapshot_id == id) s in
      record t {
        snapshots = select (λ r. not (r.snapshot_id == id)) s.snapshots;
        files = others id s.files;
        symbols = others id s.symbols;
        relations = others id s.relations;
        wiki_links = others id s.wiki_links;
      }

  unfoldable pub discard_snapshot : ℕ → Store v → Store v
  unfolding delete_snapshot find
  discard_snapshot id s =
      if is_staged (find snapshot_key id s.snapshots) then delete_snapshot id s else s

  unfoldable pub fail_snapshot : ℕ → Store v → Store v
  unfolding update_rows
  fail_snapshot id s = record s {
    snapshots =
        update_rows snapshot_key id
          (λ r. if is_staging r.state then record r { state = failed } else r) s.snapshots;
  }

  -- The sessions that `_cleanup_staging` selects.
  unfoldable pub expired_sessions : Settings → ℕ → Store v → List SessionRow
  unfolding sort_by
  expired_sessions c now s = take c.staging_cleanup_limit (
      sort_by (λ a b. leb a.lease_expires_at b.lease_expires_at)
        (select
          (λ r. is_staging r.state && leb (r.lease_expires_at + c.staging_retention_seconds) now)
          s.sessions))

  unfoldable pub discard_sessions : List SessionRow → Store v → Store v
  unfolding discard_snapshot delete_sessions
  discard_sessions [] s = s
  discard_sessions (row ∷ rows) s =
      discard_sessions rows
        (discard_snapshot row.snapshot_id (delete_sessions (λ r. r.session_id == row.session_id) s))

  unfoldable pub cleanup_staging : Settings → ℕ → Store v → Store v
  unfolding discard_sessions expired_sessions
  cleanup_staging c now s = discard_sessions (expired_sessions c now s) s

  unfoldable pub active_snapshot : Store v → Option SnapshotRow
  unfolding find
  active_snapshot s = elim s.active_snapshot_id [
    | none ↦ none
    | some id ↦ find snapshot_key id s.snapshots
  ]

  unfoldable pub active_revision : Store v → Option Text
  unfolding active_snapshot
  active_revision s = elim (active_snapshot s) [ none ↦ none | some row ↦ row.snapshot_revision ]

  abbrev pub staged_session : Settings → ℕ → ℕ → ℕ → Store v → SessionRow
  staged_session c now session_id snapshot_id s = record {
    session_id = session_id;
    snapshot_id = snapshot_id;
    owner_id = c.owner_id;
    state = staging;
    lease_expires_at = now + c.session_ttl_seconds;
    base_snapshot_revision = active_revision s;
    captured_markdown_generation = s.markdown_generation;
    terminal_result = none;
  }

  -- The two INSERTs; a rows_taken primary key is an exception.
  unfoldable pub insert_staged : SnapshotRow → SessionRow → Store v → Option (Store v)
  insert_staged snapshot session s =
      if is_taken snapshot_key snapshot.snapshot_id s.snapshots
        || is_taken session_key session.session_id s.sessions
      then none
      else some (record s { snapshots = snapshot ∷ s.snapshots; sessions = session ∷ s.sessions })

  abbrev pub begun_with : SessionRow → Store v → Result × Store v
  begun_with row s = (
    begun (record {
      session_id = row.session_id;
      lease_expires_at = row.lease_expires_at;
      base_snapshot_revision = row.base_snapshot_revision;
      base_markdown_token = row.captured_markdown_generation;
    }),
    s,
  )

  -- `session_id` and `snapshot_id` are the two tokens that `secrets` gives.
  unfoldable pub begin : Settings → ℕ → ℕ → ℕ → Header → Transaction v
  unfolding cleanup_staging active_revision insert_staged str_nat
  begin c now session_id snapshot_id header s =
      let t = cleanup_staging c now s in
      let row = staged_session c now session_id snapshot_id t in
      insert_staged (staged_snapshot snapshot_id header t.markdown_generation) row t >>= λ u.
      some (begun_with row u)

  unfoldable pub accept : Settings → ℕ → ℕ → SnapshotBatch → Option BatchRow → Transaction v
  unfolding renew
  accept c now session_id b none s =
      answer accepted
        (renew c session_id now (record s { batches = s.batches ++ batch_row session_id b ∷ [] }))
  accept c now session_id b (some stored) s =
      if not (list_beq stored.payload_hash b.payload_hash)
      then answer (refused batch_conflict) s
      else answer accepted (renew c session_id now s)

  -- The kind and the ordinal of a batch are of their types here.
  unfoldable pub publish_batch : Settings → ℕ → ℕ → SnapshotBatch → Transaction v
  unfolding find guard accept find_batch
  publish_batch c now session_id b s =
      guarded c now (find session_key session_id s.sessions)
        (λ row. if not (is_staging row.state) then answer (refused snapshot_conflict) else λ t.
          accept c now session_id b (find_batch session_id b.kind b.ordinal t.batches) t)
        s

  unfoldable pub abort_session : SessionRow → Store v → Store v
  unfolding fail_snapshot update_rows
  abort_session row s = fail_snapshot row.snapshot_id (record s {
    sessions =
        update_rows session_key row.session_id
          (λ r. record r { state = aborted; terminal_result = some (in_state aborted) }) s.sessions;
    batches = select (λ b. not (b.session_id == row.session_id)) s.batches;
  })

  abbrev pub abort_owned : SessionRow → Transaction v
  abort_owned row s =
      if not (is_staging row.state)
      then answer (terminal_or (in_state row.state) row) s
      else answer (in_state aborted) (abort_session row s)

  abbrev pub abort_found : Settings → Option SessionRow → Transaction v
  abort_found c none = answer (refused unauthorized)
  abort_found c (some row) =
      if not (list_beq row.owner_id c.owner_id)
      then answer (refused unauthorized)
      else abort_owned row

  unfoldable pub abort : Settings → ℕ → Transaction v
  unfolding find abort_session
  abort c session_id s = abort_found c (find session_key session_id s.sessions) s
