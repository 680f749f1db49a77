-- ===== src/Hosted/Snapshots/Tables.antt =====
-- The tables of one domain that `PostgresCodeGraphStore` works on (postgres/codegraph.py, with the
-- keys of postgres/migrations.py). A table is the list of its rows; columns that nothing reads are
-- left out. A session or snapshot identifier is the number that its hexadecimal digits write.
use iwiki_mcp.Prelude.{
  ℕ, Bool, true, false, Option, none, some, List, [], ◌∷◌, ◌==◌, if◌then◌else◌, nat_eq, list_beq,
  list_eq,
}
use iwiki_mcp.Text.{Text}
use iwiki_mcp.CodeGraph.Publication.Wire.{RowKind}
use iwiki_mcp.CodeGraph.Publication.{Encoding, Row}

-- The states of a session and of a snapshot.
pub data State : Type 0 where
  staging : State
  ready : State
  failed : State
  aborted : State

abbrev pub is_staging : State → Bool
is_staging staging = true
is_staging ready = false
is_staging failed = false
is_staging aborted = false

abbrev pub is_ready : State → Bool
is_ready staging = false
is_ready ready = true
is_ready failed = false
is_ready aborted = false

pub data Code : Type 0 where
  unauthorized : Code
  session_expired : Code
  snapshot_incomplete : Code
  batch_conflict : Code
  snapshot_conflict : Code
  markdown_unavailable : Code
  busy : Code
  revision_mismatch : Code
  invalid_batch : Code

pub record Activated : Type 0 where
  pub snapshot_id : ℕ
  pub snapshot_revision : Text
  pub markdown_revision : Text
  pub counts : RowKind → ℕ
  pub wiki_links : ℕ

pub record Begun : Type 0 where
  pub session_id : ℕ
  pub lease_expires_at : ℕ
  pub base_snapshot_revision : Option Text
  pub base_markdown_token : ℕ

pub data Result : Type 0 where
  refused : Code → Result
  begun : Begun → Result
  accepted : Result
  in_state : State → Result
  activated : Activated → Result

pub record SessionRow : Type 0 where
  pub session_id : ℕ
  pub snapshot_id : ℕ
  pub owner_id : Text
  pub state : State
  pub lease_expires_at : ℕ
  pub base_snapshot_revision : Option Text
  pub captured_markdown_generation : ℕ
  pub terminal_result : Option Result

pub record BatchRow : Type 0 where
  pub session_id : ℕ
  pub kind : RowKind
  pub ordinal : ℕ
  pub payload_hash : Text
  pub row_count : ℕ
  pub payload : List ℕ

-- What `header_payload` keeps of a header, with the columns that repeat parts of it.
pub record Header : Type 0 where
  pub repository_id : Text
  pub graph_payload_revision : Text
  pub expected_counts : RowKind → ℕ

pub record SnapshotRow : Type 0 where
  pub snapshot_id : ℕ
  pub state : State
  pub header : Header
  pub snapshot_revision : Option Text
  pub markdown_revision : Text
  pub markdown_generation : ℕ
  pub ready_at : ℕ

pub record MarkdownPage : Type 0 where
  pub page_id : ℕ
  pub slug : Text
  pub markdown : Text

-- A derived link; its selector is the pair of its kind and its source.
pub record WikiLink : Type 0 where
  pub relation_id : Text
  pub page_id : ℕ
  pub selector : Text × Text
  pub page : Text
  pub link_id : Text
  pub relation_type : Text

-- The child rows of a snapshot stand beside its identifier.
module _ (v : Encoding) where
  pub record Store : Type 0 where
    pub sessions : List SessionRow
    pub batches : List BatchRow
    pub snapshots : List SnapshotRow
    pub files : List (ℕ × Row v)
    pub symbols : List (ℕ × Row v)
    pub relations : List (ℕ × Row v)
    pub wiki_links : List (ℕ × WikiLink)
    pub active_snapshot_id : Option ℕ
    pub markdown_generation : ℕ
    pub pages : List MarkdownPage

-- A transaction: its answer and the tables, or none for an exception, which leaves the tables.
abbrev pub Transaction : Encoding → Type 0
Transaction v = Store v → Option (Result × Store v)

-- SELECT by a key, and UPDATE of the rows with it.
module _ {A : Type 0} (key : A → ℕ) where
  unfoldable pub find : ℕ → List A → Option A
  find id [] = none
  find id (row ∷ rows) = let rest = find id rows in if key row == id then some row else rest

  unfoldable pub update_rows : ℕ → (A → A) → List A → List A
  update_rows id change [] = []
  update_rows id change (row ∷ rows) =
      (if key row == id then change row else row) ∷ update_rows id change rows

abbrev pub session_key : SessionRow → ℕ
session_key row = row.session_id

abbrev pub snapshot_key : SnapshotRow → ℕ
snapshot_key row = row.snapshot_id

abbrev pub same_text : Option Text → Option Text → Bool
same_text none none = true
same_text (some a) (some b) = list_beq a b
same_text _ _ = false

unfoldable pub same_kind : RowKind → RowKind → Bool
same_kind RowKind.repositories RowKind.repositories = true
same_kind RowKind.files RowKind.files = true
same_kind RowKind.symbols RowKind.symbols = true
same_kind RowKind.relations RowKind.relations = true
same_kind _ _ = false
