-- ===== src/Hosted/Snapshots/Swap.antt =====
-- `finalize` of postgres/codegraph.py: what its answers say of the tables.
use mathlib.Core.Path.{subst}
use mathlib.Core.Option.{some-injective}
use iwiki_mcp.Prelude.{
  ℕ, ◌<◌, ◌≡◌, refl, sym, ap, ◌∙◌, ◌≢◌, ◌⊎◌, inl, inr, true, false, not, Option, none, some, arith,
  leb, ◌==◌, if◌then◌else◌, ==_iff, nat_eq, list_beq, list_eq, list_beq_iff,
}
use iwiki_mcp.CodeGraph.Publication.{Encoding}
use iwiki_mcp.CodeGraph.Publication.Wire.{RowKind}
use iwiki_mcp.CodeGraph.Publication.Revision.{graph_payload_revision}
use iwiki_mcp.Hosted.Snapshots.Tables.{
  SessionRow, Store, Result, Activated, activated, refused, Code, snapshot_conflict, is_staging,
  find, session_key, snapshot_key, same_text, revision_mismatch, markdown_unavailable, busy,
  unauthorized,
}
use iwiki_mcp.Hosted.Snapshots.Sessions.{
  Settings, guard, guarded, rejecting, answer, stored_or, terminal_or, active_revision,
}
use iwiki_mcp.Hosted.Snapshots.Materialize.{Database, Check, raised, failure, passed, materialize}
use iwiki_mcp.Hosted.Snapshots.Links.{derive_links, markdown_revision}
use iwiki_mcp.Hosted.Snapshots.Finalize.{
  Moment, activate, finalize_staged, settle_check, finalize_owned, finalize,
}
use iwiki_mcp.Hosted.Snapshots.Keeping.{not-true, Ends, Ends_elim}
use iwiki_mcp.Hosted.Snapshots.Inserting.{Passes, Passes-bind, Passes-require, Passes-present}
use iwiki_mcp.Hosted.Snapshots.Activation.{
  Activates, activate-Activates, activated_row, same_text_eq, key-find,
}
use iwiki_mcp.Hosted.Snapshots.Guarding.{
  terminal_test, Ends-test, not-false, not_leb, guard_owner, guard_passed,
}

-- The session's owner finalized it in time, and the revision that it began with is swapped.
pub record Swaps {v : Encoding} (db : Database v) (c : Settings) (m : Moment) (session_id : ℕ)
    (s : Store v) (r : Result × Store v) : Type 0 where
  pub row : SessionRow
  pub found : find session_key session_id s.sessions ≡ some row
  pub owner : row.owner_id ≡ c.owner_id
  pub staging : is_staging row.state ≡ true
  pub lease : m.now < row.lease_expires_at
  pub activates : Activates db row s r

-- The owner's session is over, with this answer stored.
pub record Terminal {v : Encoding} (c : Settings) (session_id : ℕ) (s : Store v) (x : Result)
    : Type 0 where
  pub row : SessionRow
  pub found : find session_key session_id s.sessions ≡ some row
  pub owner : list_beq row.owner_id c.owner_id ≡ true
  pub over : is_staging row.state ≡ false
  pub stored : row.terminal_result ≡ some x

-- The tables are as they were; an activation that is answered is the stored one.
pub record Unchanged {v : Encoding} (c : Settings) (session_id : ℕ) (s : Store v)
    (r : Result × Store v) : Type 0 where
  pub same : r.1 ≡ s
  pub terminal : (a : Activated) → r.0 ≡ activated a → Terminal c session_id s (activated a)

refused-Unchanged :
    {v : Encoding} (c : Settings) (session_id : ℕ) (s : Store v) (code : Code)
    → Unchanged c session_id s (refused code, s)
refused-Unchanged c session_id s code = record {
  same = refl;
  terminal = λ a e. absurd (ground arith);
}

stored_or_stored :
    (code : Code) (o : Option Result) (a : Activated)
    → stored_or (refused code) o ≡ activated a
    → o ≡ some (activated a)
stored_or_stored code none a h = absurd (ground arith)
stored_or_stored code (some x) a h = ap some h

module _ {v : Encoding} (db : Database v) where
  finalize_staged-Activates :
      (m : Moment) (row : SessionRow) (s : Store v)
      → find session_key row.session_id s.sessions ≡ some row
      → Passes (Activates db row s) (finalize_staged db m row s)
  unfolding finalize_staged
  finalize_staged-Activates m row s found =
      Passes-bind (Activates db row s) (materialize db row.session_id row.snapshot_id s) _
        (λ rows _.
          Passes-present (Activates db row s) (find snapshot_key row.snapshot_id s.snapshots) _
            (λ snapshot there.
              Passes-present (Activates db row s) (graph_payload_revision v rows) _ (λ revision _.
                Passes-require (Activates db row s)
                  (list_beq revision snapshot.header.graph_payload_revision) revision_mismatch _
                  (λ _. Passes-require (Activates db row s) m.readable markdown_unavailable _ (λ _.
                    Passes-require (Activates db row s) m.locked busy _ (λ _.
                      Passes-require (Activates db row s)
                        (same_text (active_revision s) row.base_snapshot_revision) snapshot_conflict
                        _
                        (λ base.
                          Passes-require (Activates db row s)
                            (s.markdown_generation == row.captured_markdown_generation)
                            snapshot_conflict
                            (λ _.
                              activate db row rows snapshot.header m.now
                                (markdown_revision db s.pages)
                                (derive_links db s.pages (rows RowKind.files) (rows RowKind.symbols)
                                  (rows RowKind.relations))
                                s)
                            (λ generation.
                              activate-Activates db row rows snapshot m.now
                                (derive_links db s.pages (rows RowKind.files) (rows RowKind.symbols)
                                  (rows RowKind.relations))
                                s found there
                                (same_text_eq (active_revision s) row.base_snapshot_revision base)
                                ((==_iff s.markdown_generation row.captured_markdown_generation).0
                                  generation)))))))))

  abbrev SwapsOrNot : Settings → Moment → ℕ → Store v → Result × Store v → Type 0
  SwapsOrNot c m session_id s r = Unchanged c session_id s r ⊎ Swaps db c m session_id s r

  settled :
      (c : Settings) (m : Moment) (session_id : ℕ) (row : SessionRow) (s : Store v)
      (o : Check (Result × Store v))
      → (((x : Result × Store v) → Activates db row s x → Swaps db c m session_id s x))
      → Passes (Activates db row s) o
      → Ends (SwapsOrNot c m session_id s) (settle_check o s)
  settled c m session_id row s raised k h = tt
  settled c m session_id row s (failure code) k h = inl (refused-Unchanged c session_id s code)
  settled c m session_id row s (passed x) k h = inr (k x h)

  finalize_rejected :
      (c : Settings) (m : Moment) (session_id : ℕ) (row : SessionRow) (s : Store v)
      (o : Option Code)
      → (o ≡ none → Ends (SwapsOrNot c m session_id s) (finalize_owned db m row s))
      → Ends (SwapsOrNot c m session_id s) (rejecting o (finalize_owned db m row) s)
  finalize_rejected c m session_id row s (some code) k = inl (refused-Unchanged c session_id s code)
  finalize_rejected c m session_id row s none k = k refl

  finalize_found :
      (c : Settings) (m : Moment) (session_id : ℕ) (s : Store v) (o : Option SessionRow)
      → find session_key session_id s.sessions ≡ o
      → Ends (SwapsOrNot c m session_id s) (guarded c m.now o (finalize_owned db m) s)
  unfolding guard
  finalize_found c m session_id s none e = inl (refused-Unchanged c session_id s unauthorized)
  finalize_found c m session_id s (some row) e =
      finalize_rejected c m session_id row s (guard c (some row) m.now) (λ passes.
        Ends-test (SwapsOrNot c m session_id s) (not (is_staging row.state))
          (answer (terminal_or (refused snapshot_conflict) row) s)
          (settle_check (finalize_staged db m row s) s)
          (λ over. inl (record {
            same = refl;
            terminal = λ a h. record {
              row = row;
              found = e;
              owner = guard_owner c row m.now passes;
              over = not-true (is_staging row.state) over;
              stored = stored_or_stored snapshot_conflict row.terminal_result a h;
            };
          }))
          (λ live.
            let staging = not-false (is_staging row.state) live in
            let tests = guard_passed c row m.now passes staging in
            settled c m session_id row s (finalize_staged db m row s)
              (λ x h. record {
                row = row;
                found = e;
                owner = (list_beq_iff row.owner_id c.owner_id).0 tests.0;
                staging = staging;
                lease = not_leb row.lease_expires_at m.now tests.1;
                activates = h;
              })
              (finalize_staged-Activates m row s (
                ap (λ id. find session_key id s.sessions)
                  (key-find session_key session_id s.sessions row e)
                ∙ e))))

  finalize_cases :
      (c : Settings) (m : Moment) (session_id : ℕ) (s t : Store v) (x : Result)
      → finalize db c m session_id s ≡ some (x, t)
      → SwapsOrNot c m session_id s (x, t)
  unfolding finalize
  finalize_cases c m session_id s t x e =
      Ends_elim (SwapsOrNot c m session_id s) (finalize db c m session_id s) (x, t)
        (finalize_found c m session_id s (find session_key session_id s.sessions) refl) e

  Swaps-Terminal :
      (c : Settings) (m : Moment) (session_id : ℕ) (s t : Store v) (a : Activated)
      → Swaps db c m session_id s (activated a, t)
      → Terminal c session_id t (activated a)
  Swaps-Terminal c m session_id s t a w =
      let h = w.activates in
      record {
        row = activated_row w.row h.result;
        found =
            ap (λ id. find session_key id t.sessions)
              (sym (key-find session_key session_id s.sessions w.row w.found))
            ∙ h.stored;
        owner = (list_beq_iff w.row.owner_id c.owner_id).1 w.owner;
        over = refl;
        stored = ap some (sym h.answered);
      }

  guard_terminal :
      (c : Settings) (row : SessionRow) (now : ℕ)
      → list_beq row.owner_id c.owner_id ≡ true
      → is_staging row.state ≡ false
      → guard c (some row) now ≡ none
  unfolding guard
  guard_terminal c row now owner over =
      terminal_test (list_beq row.owner_id c.owner_id) (is_staging row.state)
        (leb row.lease_expires_at now) owner over

  Terminal-repeats :
      (c : Settings) (m : Moment) (session_id : ℕ) (t : Store v) (x : Result)
      → Terminal c session_id t x
      → finalize db c m session_id t ≡ some (x, t)
  unfolding finalize
  Terminal-repeats c m session_id t x h =
      ap (λ o. guarded c m.now o (finalize_owned db m) t) h.found
      ∙ ap (λ o. rejecting o (finalize_owned db m h.row) t)
          (guard_terminal c h.row m.now h.owner h.over)
      ∙ ap
          (λ b.
            if not b
            then answer (terminal_or (refused snapshot_conflict) h.row) t
            else settle_check (finalize_staged db m h.row t) t)
          h.over
      ∙ ap (λ o. answer (stored_or (refused snapshot_conflict) o) t) h.stored

  -- A finalize that answered with an activation, repeated by the session's owner on the tables that
  -- it left, at whatever moment (with an expired lease, without the lock, with unreadable pages),
  -- answers the same and leaves the tables.
  pub finalize_repeats :
      (c : Settings) (m later : Moment) (session_id : ℕ) (s t : Store v) (a : Activated)
      → finalize db c m session_id s ≡ some (activated a, t)
      → finalize db c later session_id t ≡ some (activated a, t)
  finalize_repeats c m later session_id s t a e =
      elim (finalize_cases c m session_id s t (activated a) e) [
        | inl u ↦
            Terminal-repeats c later session_id t (activated a)
              (subst (λ z. Terminal c session_id z (activated a)) (sym u.same) (u.terminal a refl))
        | inr w ↦
            Terminal-repeats c later session_id t (activated a)
              (Swaps-Terminal c m session_id s t a w)
      ]

  -- Whenever `finalize` returns, either it left the tables as they were, or it was a compare-and-swap
  -- by the session's owner within its lease: the session was staging, the active revision and the
  -- Markdown generation were those that the session began with, the session's snapshot is now active
  -- and ready under the revision of the answer, which is that of its header and the Markdown, the
  -- answer is stored with the session, and the graphs of the other snapshots are as they were.
  pub finalize-Swaps :
      (c : Settings) (m : Moment) (session_id : ℕ) (s t : Store v) (x : Result)
      → finalize db c m session_id s ≡ some (x, t)
      → (t ≡ s) ⊎ Swaps db c m session_id s (x, t)
  finalize-Swaps c m session_id s t x e = elim (finalize_cases c m session_id s t x e) [
    | inl unchanged ↦ inl unchanged.same
    | inr swaps ↦ inr swaps
  ]

  -- A finalize whose session began under another revision than the active one leaves the tables: of
  -- two sessions that began together, the second to be finalized activates nothing.
  pub finalize_loses :
      (c : Settings) (m : Moment) (session_id : ℕ) (s t : Store v) (row : SessionRow) (x : Result)
      → find session_key session_id s.sessions ≡ some row
      → active_revision s ≢ row.base_snapshot_revision
      → finalize db c m session_id s ≡ some (x, t)
      → t ≡ s
  finalize_loses c m session_id s t row x found moved e =
      elim (finalize_cases c m session_id s t x e) [
        | inl u ↦ u.same
        | inr w ↦ absurd (
            moved (
              w.activates.base
              ∙ ap (λ r. r.base_snapshot_revision)
                  (some-injective w.row row (sym w.found ∙ found))))
      ]
