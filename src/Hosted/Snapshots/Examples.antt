-- ===== src/Hosted/Snapshots/Examples.antt =====
-- Two publishers of one domain: both begin, the first publishes a file and finalizes.
use iwiki_mcp.Prelude.{
  ℕ, ◌≤◌, ◌≡◌, refl, ◌≢◌, ◌⊎◌, true, Option, none, some, List, [], ◌∷◌, arith, nat_eq, length,
  list_beq, list_eq,
}
use iwiki_mcp.Prelude.Sort.{sort_by}
use iwiki_mcp.Text.{Text, codes, str_nat}
use iwiki_mcp.CodeGraph.Publication.Wire.{RowKind, identity_field, wire_fields}
use iwiki_mcp.CodeGraph.Publication.{Encoding, Row, SnapshotBatch, text_leb, projected_rows}
use iwiki_mcp.Hosted.Snapshots.Tables.{
  State, Store, Result, accepted, activated, Activated, refused, Header, MarkdownPage, SessionRow,
  update_rows, Code,
}
use iwiki_mcp.Hosted.Snapshots.Sessions.{Settings, begin, publish_batch, active_revision, abort}
use iwiki_mcp.Hosted.Snapshots.Materialize.{Database, Selected}
use iwiki_mcp.Hosted.Snapshots.Finalize.{Moment, finalize}
use iwiki_mcp.Hosted.Snapshots.Drain.{run_cleanup_cycle}
use iwiki_mcp.Hosted.Snapshots.Serving.{Serves, Keeps, has_ready}
use iwiki_mcp.Hosted.Snapshots.Steps.{Quiet, Quiets, Transition, Reachable}
use iwiki_mcp.Hosted.Snapshots.Safety.{Quiets-Keeps}
use iwiki_mcp.Hosted.Snapshots.Storing.{Stores, publish_batch-Stores}
use iwiki_mcp.Hosted.Snapshots.Swap.{Swaps, finalize-Swaps, finalize_repeats, finalize_loses}
use iwiki_mcp.Hosted.Snapshots.Register.{
  IsConsistent, Published, Reachable-IsConsistent, Reachable-Refines,
}
use iwiki_mcp.Hosted.Snapshots.Removals.{Removals}
use iwiki_mcp.Hosted.Snapshots.Cycle.{run_cleanup_cycle_returns}

-- A value is a text or `None`.
abbrev sample : Encoding
sample = record {
  Value = Option Text;
  as_str = λ value. value;
  dumps = λ row. codes "revision";
  dumps_kinds = λ kinds. codes "graph";
  sha256 = λ payload. payload;
}

abbrev file : Row sample
file = (codes "file_id", some (codes "f")) ∷ (codes "repository_id", some (codes "r")) ∷ []

abbrev relation : Row sample
relation = (codes "relation_id", some (codes "x")) ∷ (codes "source_file_id", some (codes "f")) ∷ []

-- The payload says its kind in its length.
abbrev payload_rows : List ℕ → Option (Option (List (Row sample)))
payload_rows [] = some (some (file ∷ []))
payload_rows (_ ∷ _) = some (some (relation ∷ []))

abbrev selected : Selected
selected = record {
  symbol_id = none;
  file_id = some (codes "f");
  selector_kind = codes "file";
  source = codes "a.py";
  link_id = codes "l";
  relation_type = codes "describes";
}

abbrev text_or_none : Option Text → Text
text_or_none none = codes "None"
text_or_none (some text) = text

abbrev database : Database sample
database = record {
  loads = payload_rows;
  null = none;
  value_beq = λ a b. list_beq (text_or_none a) (text_or_none b);
  str = text_or_none;
  as_text = λ value. value;
  text_value = some;
  dumps_pairs = λ pairs. codes "pages";
  encode = λ text. text;
  resolve_selectors = λ markdown files symbols slug. selected ∷ [];
}

abbrev settings : Settings
settings = record {
  owner_id = codes "me";
  session_ttl_seconds = 60;
  staging_retention_seconds = 10;
  staging_cleanup_limit = 5;
  superseded_retention_seconds = 100;
  superseded_cleanup_limit = 5;
  cleanup_batch_rows = 2;
  cleanup_cycle_rows = 4;
}

abbrev counts : RowKind → ℕ
counts RowKind.files = 1
counts RowKind.relations = 1
counts kind = 0

abbrev header : Header
header = record {
  repository_id = codes "r";
  graph_payload_revision = codes "sha256:graph";
  expected_counts = counts;
}

abbrev page : MarkdownPage
page = record { page_id = 1; slug = codes "p"; markdown = codes "text" }

abbrev no_tables : Store sample
no_tables = record {
  sessions = [];
  batches = [];
  snapshots = [];
  files = [];
  symbols = [];
  relations = [];
  wiki_links = [];
  active_snapshot_id = none;
  markdown_generation = 3;
  pages = page ∷ [];
}

abbrev sample_batch : RowKind → List ℕ → SnapshotBatch
sample_batch kind payload = record {
  kind = kind;
  ordinal = 0;
  row_count = 1;
  byte_count = length payload;
  payload_hash = codes "h";
  payload = payload;
}

abbrev store_of : Option (Result × Store sample) → Store sample
store_of none = no_tables
store_of (some r) = r.1

abbrev answer_of : Option (Result × Store sample) → Result
answer_of none = accepted
answer_of (some r) = r.0

abbrev at : ℕ → Moment
at now = record { now = now; readable = true; locked = true }

abbrev one_begun : Store sample
one_begun = store_of (begin settings 10 1 101 header no_tables)

abbrev both_begun : Store sample
both_begun = store_of (begin settings 11 2 102 header one_begun)

abbrev file_published : Store sample
file_published = store_of (publish_batch settings 12 1 (sample_batch RowKind.files []) both_begun)

abbrev published : Store sample
published =
    store_of (publish_batch settings 13 1 (sample_batch RowKind.relations (0 ∷ [])) file_published)

abbrev finalized : Store sample
finalized = store_of (finalize database settings (at 14) 1 published)

abbrev no_result : Activated
no_result = record {
  snapshot_id = 0;
  snapshot_revision = [];
  markdown_revision = [];
  counts = λ kind. 0;
  wiki_links = 0;
}

abbrev activated_of : Result → Activated
activated_of (activated a) = a
activated_of answer = no_result

abbrev result : Activated
result = activated_of (answer_of (finalize database settings (at 14) 1 published))

program : Unit {0}
unfolding projected_rows begin publish_batch finalize sort_by text_leb identity_field wire_fields
    str_nat run_cleanup_cycle abort update_rows active_revision
program = tt

test_finalized : finalized.active_snapshot_id ≡ some 101
unfolding program
test_finalized = refl

test_result : result.snapshot_revision ≡ codes "sha256:revision"
unfolding program
test_result = refl

test_links : length finalized.wiki_links ≡ 1
unfolding program
test_links = refl

test_loser :
    answer_of (finalize database settings (at 15) 2 finalized) ≡ refused Code.snapshot_incomplete
unfolding program
test_loser = refl

abbrev loser_published : Store sample
loser_published = store_of (publish_batch settings 16 2 (sample_batch RowKind.files []) finalized)

abbrev loser_aborted : Store sample
loser_aborted = store_of (abort settings 2 loser_published)

others_steps : Quiets database finalized loser_aborted
unfolding program
others_steps =
    Quiets.then_one
      (Quiets.then_one (Quiets.done finalized)
        (Quiet.publishes settings 16 2 (sample_batch RowKind.files []) accepted refl))
      (Quiet.aborts settings 2 (Result.in_state State.aborted) refl)

finalized-Serves : Serves 101 (some (codes "sha256:revision")) finalized
unfolding program has_ready
finalized-Serves = record { active = refl; is_there = refl }

Quiets-Keeps_example : Keeps 101 (some (codes "sha256:revision")) finalized loser_aborted
Quiets-Keeps_example =
    Quiets-Keeps 101 (some (codes "sha256:revision")) database finalized loser_aborted others_steps
      finalized-Serves

finalize-Swaps_example :
    (finalized ≡ published)
    ⊎ Swaps database settings (at 14) 1 published (activated result, finalized)
unfolding program
finalize-Swaps_example =
    finalize-Swaps database settings (at 14) 1 published finalized (activated result) refl

finalize_repeats_example :
    finalize database settings (at 500) 1 finalized ≡ some (activated result, finalized)
unfolding program
finalize_repeats_example =
    finalize_repeats database settings (at 14) (at 500) 1 published finalized result refl

abbrev loser : SessionRow
loser = record {
  session_id = 2;
  snapshot_id = 102;
  owner_id = codes "me";
  state = State.staging;
  lease_expires_at = 71;
  base_snapshot_revision = none;
  captured_markdown_generation = 3;
  terminal_result = none;
}

some_not_none : {A : Type 0} (a : A) → some a ≢ none
some_not_none a e = ground arith

test_finalize_loses : finalized ≡ finalized
unfolding program
test_finalize_loses =
    finalize_loses database settings (at 15) 2 finalized finalized loser
      (refused Code.snapshot_incomplete) refl (some_not_none (codes "sha256:revision")) refl

published-Reachable : Reachable database published
unfolding program
published-Reachable =
    Reachable.next
      (Reachable.next
        (Reachable.next
          (Reachable.next (Reachable.empty (page ∷ []) 3) (
            Transition.quiet (
              Quiet.begins settings 10 1 101 header
                (answer_of (begin settings 10 1 101 header no_tables)) refl)))
          (Transition.quiet (
            Quiet.begins settings 11 2 102 header
              (answer_of (begin settings 11 2 102 header one_begun)) refl)))
        (Transition.quiet
          (Quiet.publishes settings 12 1 (sample_batch RowKind.files []) accepted refl)))
      (Transition.quiet
        (Quiet.publishes settings 13 1 (sample_batch RowKind.relations (0 ∷ [])) accepted refl))

finalizing : Transition database published finalized
unfolding program
finalizing = Transition.finalizes settings (at 14) 1 (activated result) refl

Reachable-IsConsistent_example : IsConsistent finalized
Reachable-IsConsistent_example =
    Reachable-IsConsistent database finalized (Reachable.next published-Reachable finalizing)

Reachable-Refines_example :
    (finalized ≡ published) ⊎ Published database 1 published finalized (activated result)
unfolding program
Reachable-Refines_example =
    Reachable-Refines database published finalized published-Reachable
      (Transition.finalizes settings (at 14) 1 (activated result) refl)

run_cleanup_cycle_returns_example :
    (r : ℕ × Store sample) × ((run_cleanup_cycle settings (λ n. 20) finalized ≡ some r)
      × ((r.0 ≤ 5) × Removals finalized r.0 r.1))
run_cleanup_cycle_returns_example = run_cleanup_cycle_returns settings (λ n. 20) finalized

publish_batch-Stores_example :
    Stores 1 (sample_batch RowKind.relations (0 ∷ [])) file_published (accepted, published)
unfolding program
publish_batch-Stores_example =
    publish_batch-Stores settings 13 1 (sample_batch RowKind.relations (0 ∷ [])) file_published
      published accepted refl
