-- ===== src/Hosted/Snapshots/Keeping.antt =====
-- postgres/codegraph.py: the parts of the transactions keep the active snapshot with its graph.
use iwiki_mcp.Prelude.{
  ℕ, ◌≡◌, refl, ap, ◌∙◌, inl, inr, Bool, true, false, not, ◌&&◌, ◌||◌, Option, none, some, List, [],
  ◌∷◌, arith, ◌==◌, if◌then◌else◌, Bool-cases, nat_eq, select, list_eq,
}
use mathlib.Core.Path.{subst}
use iwiki_mcp.Text.{Text}
use iwiki_mcp.CodeGraph.Publication.{Encoding}
use iwiki_mcp.Hosted.Snapshots.Tables.{
  same_text, State, failed, is_ready, is_staging, SnapshotRow, SessionRow, Store, find, update_rows,
  snapshot_key, session_key, Result,
}
use iwiki_mcp.Hosted.Snapshots.Sessions.{
  Settings, is_staged, is_taken, delete_sessions, delete_snapshot, discard_snapshot, fail_snapshot,
  discard_sessions, cleanup_staging, expired_sessions, insert_staged, renew, abort_session,
}
use iwiki_mcp.Hosted.Snapshots.Links.{own}
use iwiki_mcp.Hosted.Snapshots.Serving.{
  has_ready, is_ready_as, Serves, Keeps, Keeps-refl, Keeps-trans, has_ready-update,
  has_ready-delete, is_taken_fresh, is_staged_other, own-others, staging_not_ready,
}

-- A property of what a transaction returns, if it returns.
abbrev pub Ends : {A : Type 0} → (A → Type 0) → Option A → Type 0
Ends P none = Unit
Ends P (some x) = P x

pub Ends_elim : {A : Type 0} (P : A → Type 0) (o : Option A) (x : A) → Ends P o → o ≡ some x → P x
Ends_elim P o x h e = subst (Ends P) e h

pub Ends-unless :
    {A : Type 0} (P : A → Type 0) (b : Bool) (x : A)
    → (b ≡ false → P x)
    → Ends P (if b then none else some x)
Ends-unless P true x h = tt
Ends-unless P false x h = h refl

pub not-true : (b : Bool) → not b ≡ true → b ≡ false
not-true true h = absurd (ground arith)
not-true false h = refl

pub or_false : (a b : Bool) → (a || b) ≡ false → a ≡ false
or_false true b h = h
or_false false b h = refl

pub has_ready-fresh :
    (id : ℕ) (revision : Option Text) (row : SnapshotRow) (rows : List SnapshotRow)
    → is_taken snapshot_key row.snapshot_id rows ≡ false
    → has_ready id revision rows ≡ true
    → has_ready id revision (row ∷ rows) ≡ true
unfolding has_ready find
has_ready-fresh id revision row rows fresh h =
    rw (is_taken_fresh id revision row.snapshot_id rows fresh h) h

pub own-cons :
    {A : Type 0} (id : ℕ) (row : ℕ × A) (xs ys : List (ℕ × A))
    → own id xs ≡ own id ys
    → own id (row ∷ xs) ≡ own id (row ∷ ys)
own-cons id row xs ys h = elim (Bool-cases (row.0 == id)) [
  | inl e ↦ rw (e) (ap (λ zs. row.1 ∷ zs) h)
  | inr e ↦ rw (e) h
]

pub failed_key :
    (b : Bool) (r : SnapshotRow)
    → (if b then record r { state = failed } else r).snapshot_id ≡ r.snapshot_id
failed_key true r = refl
failed_key false r = refl

pub ready_not_failed : (a b : Bool) → a ≡ false → (a && b) ≡ true → ⊥
ready_not_failed a b h k = ground arith

pub failed_ready :
    (revision : Option Text) (b : Bool) (r : SnapshotRow)
    → (b ≡ true → is_ready r.state ≡ false)
    → is_ready_as revision r ≡ true
    → is_ready_as revision (if b then record r { state = failed } else r) ≡ true
failed_ready revision true r staged h =
    absurd
      (ready_not_failed (is_ready r.state) (same_text r.snapshot_revision revision) (staged refl) h)
failed_ready revision false r staged h = h

module _ {v : Encoding} (id : ℕ) (revision : Option Text) where
  pub delete_sessions-Keeps :
      (gone : SessionRow → Bool) (s : Store v)
      → Serves id revision s
      → Keeps id revision s (delete_sessions gone s)
  unfolding delete_sessions
  delete_sessions-Keeps gone s h = record {
    serves = record { active = h.active; is_there = h.is_there };
    graph = refl;
  }

  pub delete_snapshot-Keeps :
      (j : ℕ) (s : Store v)
      → (j == id) ≡ false
      → Serves id revision s
      → Keeps id revision s (delete_snapshot j s)
  unfolding delete_snapshot delete_sessions
  delete_snapshot-Keeps j s other h = record {
    serves = record {
      active = h.active;
      is_there = has_ready-delete id revision j s.snapshots other ∙ h.is_there;
    };
    graph =
        rw
          (
            own-others id j s.files other,
            own-others id j s.symbols other,
            own-others id j s.relations other,
          )
          refl;
  }

  pub Keeps-if :
      (b : Bool) (s t u : Store v)
      → (b ≡ true → Keeps id revision s t)
      → (b ≡ false → Keeps id revision s u)
      → Keeps id revision s (if b then t else u)
  Keeps-if true s t u h k = h refl
  Keeps-if false s t u h k = k refl

  pub discard_snapshot-Keeps :
      (j : ℕ) (s : Store v) → Serves id revision s → Keeps id revision s (discard_snapshot j s)
  unfolding discard_snapshot
  discard_snapshot-Keeps j s h =
      Keeps-if (is_staged (find snapshot_key j s.snapshots)) s (delete_snapshot j s) s
        (λ staged.
          delete_snapshot-Keeps j s (is_staged_other id revision j s.snapshots staged h.is_there) h)
        (λ _. Keeps-refl id revision s h)

  pub discard_sessions-Keeps :
      (rows : List SessionRow) (s : Store v)
      → Serves id revision s
      → Keeps id revision s (discard_sessions rows s)
  unfolding discard_sessions
  discard_sessions-Keeps [] s h = Keeps-refl id revision s h
  discard_sessions-Keeps (row ∷ rows) s h =
      let t = delete_sessions (λ r. r.session_id == row.session_id) s in
      let kept = delete_sessions-Keeps (λ r. r.session_id == row.session_id) s h in
      let gone = discard_snapshot-Keeps row.snapshot_id t kept.serves in
      let rest = discard_sessions-Keeps rows (discard_snapshot row.snapshot_id t) gone.serves in
      Keeps-trans id revision s t (discard_sessions rows (discard_snapshot row.snapshot_id t)) kept
        (Keeps-trans id revision t (discard_snapshot row.snapshot_id t)
          (discard_sessions rows (discard_snapshot row.snapshot_id t)) gone rest)

  pub cleanup_staging-Keeps :
      (c : Settings) (now : ℕ) (s : Store v)
      → Serves id revision s
      → Keeps id revision s (cleanup_staging c now s)
  unfolding cleanup_staging
  cleanup_staging-Keeps c now s h = discard_sessions-Keeps (expired_sessions c now s) s h

  pub insert_staged-Keeps :
      (snapshot : SnapshotRow) (session : SessionRow) (s : Store v)
      → Serves id revision s
      → Ends (Keeps id revision s) (insert_staged snapshot session s)
  unfolding insert_staged
  insert_staged-Keeps snapshot session s h =
      Ends-unless (Keeps id revision s)
        (is_taken snapshot_key snapshot.snapshot_id s.snapshots
          || is_taken session_key session.session_id s.sessions)
        (record s { snapshots = snapshot ∷ s.snapshots; sessions = session ∷ s.sessions })
        (λ e. record {
          serves = record {
            active = h.active;
            is_there =
                has_ready-fresh id revision snapshot s.snapshots
                  (or_false (is_taken snapshot_key snapshot.snapshot_id s.snapshots)
                    (is_taken session_key session.session_id s.sessions) e)
                  h.is_there;
          };
          graph = refl;
        })

  pub renew-Keeps :
      (c : Settings) (session_id now : ℕ) (s : Store v)
      → Serves id revision s
      → Keeps id revision s (renew c session_id now s)
  unfolding renew
  renew-Keeps c session_id now s h = record {
    serves = record { active = h.active; is_there = h.is_there };
    graph = refl;
  }

  pub fail_snapshot-Keeps :
      (j : ℕ) (s : Store v) → Serves id revision s → Keeps id revision s (fail_snapshot j s)
  unfolding fail_snapshot
  fail_snapshot-Keeps j s h = record {
    serves = record {
      active = h.active;
      is_there =
          has_ready-update id revision j
            (λ r. if is_staging r.state then record r { state = failed } else r) s.snapshots
            (λ r. failed_key (is_staging r.state) r)
            (λ r. failed_ready revision (is_staging r.state) r (staging_not_ready r.state))
            h.is_there;
    };
    graph = refl;
  }

  pub abort_session-Keeps :
      (row : SessionRow) (s : Store v)
      → Serves id revision s
      → Keeps id revision s (abort_session row s)
  unfolding abort_session
  abort_session-Keeps row s h =
      let t = record s {
        sessions =
            update_rows session_key row.session_id
              (λ r. record r {
                state = State.aborted;
                terminal_result = some (Result.in_state State.aborted);
              })
              s.sessions;
        batches = select (λ b. not (b.session_id == row.session_id)) s.batches;
      } in
      let k =
        fail_snapshot-Keeps row.snapshot_id t
          (record { active = h.active; is_there = h.is_there }) in
      record { serves = k.serves; graph = k.graph }
