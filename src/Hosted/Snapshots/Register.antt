-- ===== src/Hosted/Snapshots/Register.antt =====
-- postgres/codegraph.py: the transactions of a domain as steps of a register.
use mathlib.Core.Path.{subst}
use iwiki_mcp.Prelude.{
  ℕ, ◌≡◌, refl, sym, ap, ◌∙◌, ◌⊎◌, inl, inr, Bool, true, false, ◌&&◌, Option, none, some, List,
  arith, nat_eq, list_eq,
}
use iwiki_mcp.Text.{Text}
use iwiki_mcp.CodeGraph.Publication.{Encoding}
use iwiki_mcp.Hosted.Snapshots.Tables.{
  SnapshotRow, SessionRow, Store, Result, Activated, activated, is_ready, is_staging, find,
  same_text, session_key, snapshot_key,
}
use iwiki_mcp.Hosted.Snapshots.Sessions.{Settings, active_revision, active_snapshot}
use iwiki_mcp.Hosted.Snapshots.Materialize.{Database}
use iwiki_mcp.Hosted.Snapshots.Finalize.{Moment, snapshot_revision_of}
use iwiki_mcp.Hosted.Snapshots.Links.{markdown_revision}
use iwiki_mcp.Hosted.Snapshots.Serving.{has_ready, is_ready_row, Serves}
use iwiki_mcp.Hosted.Snapshots.Safety.{Quiet-Keeps}
use iwiki_mcp.Hosted.Snapshots.Steps.{Quiet, Transition, Reachable}
use iwiki_mcp.Hosted.Snapshots.Activation.{same_text_eq, key-find, activated_row}
use iwiki_mcp.Hosted.Snapshots.Swap.{Swaps, finalize-Swaps}
use iwiki_mcp.Hosted.Snapshots.Unmoved.{Quiet-Same}

abbrev row_revision : Option SnapshotRow → Option Text
row_revision o = elim o [ none ↦ none | some row ↦ row.snapshot_revision ]

abbrev find_active : List SnapshotRow → Option ℕ → Option SnapshotRow
find_active rows o = elim o [ none ↦ none | some id ↦ find snapshot_key id rows ]

and_right : (a b : Bool) → (a && b) ≡ true → b ≡ true
and_right a b h = ground arith

ready_row_revision :
    (revision : Option Text) (o : Option SnapshotRow)
    → is_ready_row revision o ≡ true
    → row_revision o ≡ revision
ready_row_revision revision none h = absurd (ground arith)
ready_row_revision revision (some row) h =
    same_text_eq row.snapshot_revision revision
      (and_right (is_ready row.state) (same_text row.snapshot_revision revision) h)

module _ {v : Encoding} where
  -- Nothing is active, or what is active is there and ready, with a revision.
  pub record Active (s : Store v) : Type 0 where
    pub id : ℕ
    pub revision : Text
    pub serves : Serves id (some revision) s

  abbrev pub IsConsistent : Store v → Type 0
  IsConsistent s = (s.active_snapshot_id ≡ none) ⊎ Active s

  -- A finalize that swaps the register: its session was open and began with the value; it answers
  -- with the new value, that of the session's own snapshot, and the session is over.
  pub record Published (db : Database v) (session_id : ℕ) (s t : Store v) (x : Result)
      : Type 0 where
    pub row : SessionRow
    pub found : find session_key session_id s.sessions ≡ some row
    pub staging : is_staging row.state ≡ true
    pub base : active_revision s ≡ row.base_snapshot_revision
    pub snapshot : SnapshotRow
    pub staged : find snapshot_key row.snapshot_id s.snapshots ≡ some snapshot
    pub result : Activated
    pub answered : x ≡ activated result
    pub own_revision :
        result.snapshot_revision
        ≡ snapshot_revision_of db snapshot.header (markdown_revision db s.pages)
    pub active : t.active_snapshot_id ≡ some row.snapshot_id
    pub published : active_revision t ≡ some result.snapshot_revision
    pub over : SessionRow
    pub stored : find session_key session_id t.sessions ≡ some over
    pub closed : is_staging over.state ≡ false

  -- What a transaction does to a register that holds the active revision: a finalize changes no
  -- table or swaps the register, and every other transaction leaves the register.
  abbrev pub Refines : (db : Database v) {s t : Store v} → Transition db s t → Type 0
  Refines db {s} {t} (Transition.quiet q) = active_revision t ≡ active_revision s
  Refines db {s} {t} (Transition.finalizes c m session_id x e) =
      (t ≡ s) ⊎ Published db session_id s t x

  pub Serves-revision :
      (id : ℕ) (revision : Option Text) (s : Store v)
      → Serves id revision s
      → active_revision s ≡ revision
  unfolding active_revision active_snapshot has_ready
  Serves-revision id revision s h =
      ap row_revision (ap (find_active s.snapshots) h.active)
      ∙ ready_row_revision revision (find snapshot_key id s.snapshots) h.is_there

  inactive-revision : (s : Store v) → s.active_snapshot_id ≡ none → active_revision s ≡ none
  unfolding active_revision active_snapshot
  inactive-revision s e = ap row_revision (ap (find_active s.snapshots) e)

  Quiet-Refines :
      (db : Database v) (s t : Store v)
      → Quiet db s t
      → IsConsistent s
      → IsConsistent t × (active_revision t ≡ active_revision s)
  Quiet-Refines db s t step (inl e) =
      let e' = Quiet-Same db s t step ∙ e in
      (inl e', inactive-revision t e' ∙ sym (inactive-revision s e))
  Quiet-Refines db s t step (inr a) =
      let k = Quiet-Keeps a.id (some a.revision) db step a.serves in
      (
        inr (record { id = a.id; revision = a.revision; serves = k.serves }),
        Serves-revision a.id (some a.revision) t k.serves
            ∙ sym (Serves-revision a.id (some a.revision) s a.serves),
      )

  swap-Published :
      (db : Database v) (c : Settings) (m : Moment) (session_id : ℕ) (s t : Store v) (x : Result)
      → Swaps db c m session_id s (x, t)
      → Active t × Published db session_id s t x
  swap-Published db c m session_id s t x w =
      let h = w.activates in
      (
        record { id = w.row.snapshot_id; revision = h.result.snapshot_revision; serves = h.serves },
        record {
          row = w.row;
          found = w.found;
          staging = w.staging;
          base = h.base;
          snapshot = h.snapshot;
          staged = h.staged;
          result = h.result;
          answered = h.answered;
          own_revision = h.own_revision;
          active = h.serves.active;
          published =
              Serves-revision w.row.snapshot_id (some h.result.snapshot_revision) t h.serves;
          over = activated_row w.row h.result;
          stored =
              ap (λ id. find session_key id t.sessions)
                (sym (key-find session_key session_id s.sessions w.row w.found))
              ∙ h.stored;
          closed = refl;
        },
      )

  step-Refines :
      (db : Database v) (s t : Store v) (step : Transition db s t)
      → IsConsistent s
      → IsConsistent t × Refines db step
  step-Refines db s t (Transition.quiet q) h = Quiet-Refines db s t q h
  step-Refines db s t (Transition.finalizes c m session_id x e) h =
      elim (finalize-Swaps db c m session_id s t x e) [
        | inl same ↦ (subst IsConsistent (sym same) h, inl same)
        | inr w ↦ let p = swap-Published db c m session_id s t x w in (inr p.0, inr p.1)
      ]

  -- In the tables that any transactions come to, from tables without rows, either no snapshot is
  -- active, or the active snapshot is there and ready under some revision.
  pub Reachable-IsConsistent : (db : Database v) (s : Store v) → Reachable db s → IsConsistent s
  Reachable-IsConsistent db s (Reachable.empty pages generation) = inl refl
  Reachable-IsConsistent db s (Reachable.next {s = r} before step) =
      (step-Refines db r s step (Reachable-IsConsistent db r before)).0

  -- On tables that transactions came to, every transaction refines a register of the active
  -- revision. A finalize changes no table, or the session it names was staging and began with the
  -- active revision: then it sets the revision of that session's snapshot and of the Markdown, which
  -- it answers with, and the session is over. Every other transaction leaves the active revision.
  pub Reachable-Refines :
      (db : Database v) (s t : Store v) (before : Reachable db s) (step : Transition db s t)
      → Refines db step
  Reachable-Refines db s t before step =
      (step-Refines db s t step (Reachable-IsConsistent db s before)).1
