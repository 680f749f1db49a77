-- ===== src/Hosted/Snapshots/Materialize.antt =====
-- `_materialize` and `_validate_references` of postgres/codegraph.py: the rows that the batches of
-- a session carry. A payload's rows are mappings and their identities are hashable, as canonical
-- batches write them.
use iwiki_mcp.Prelude.{
  ℕ, zero, suc, ◌+◌, Bool, true, ◌&&◌, ◌||◌, Option, none, some, List, [], ◌∷◌, ◌++◌, map, ltb, leb,
  ◌==◌, if◌then◌else◌, nat_eq, length, select, any, list_beq, list_eq,
}
use iwiki_mcp.Prelude.Sort.{sort_by}
use iwiki_mcp.Text.{Text, codes}
use iwiki_mcp.CodeGraph.Publication.Wire.{RowKind, row_kinds}
use iwiki_mcp.CodeGraph.Publication.{Encoding, Row, look_up}
use iwiki_mcp.Hosted.Snapshots.Tables.{
  Code, invalid_batch, snapshot_incomplete, BatchRow, Store, find, snapshot_key, same_kind,
}

-- A selector that `resolve_selectors` of codegraph/linking.py resolved.
pub record Selected : Type 0 where
  pub symbol_id : Option Text
  pub file_id : Option Text
  pub selector_kind : Text
  pub source : Text
  pub link_id : Text
  pub relation_type : Text

-- The JSON values and what is computed of them outside this file: `json.loads` of a payload (none
-- raises, some none is no list), `None`, `==`, `str`, the operator `->>` (none for NULL), a text as
-- a value, `json.dumps` of pairs of texts, `str.encode`, and the selectors of a page.
module _ (v : Encoding) where
  pub record Database : Type 0 where
    pub loads : List ℕ → Option (Option (List (Row v)))
    pub null : v.Value
    pub value_beq : v.Value → v.Value → Bool
    pub str : v.Value → Text
    pub as_text : v.Value → Option Text
    pub text_value : Text → v.Value
    pub dumps_pairs : List (Text × Text) → List ℕ
    pub encode : Text → List ℕ
    pub resolve_selectors : Text → List (Row v) → List (Row v) → Text → List Selected

-- What a part of a transaction comes to: an exception, a refusal, or a value.
pub data Check (A : Type 0) : Type 0 where
  raised : Check A
  failure : Code → Check A
  passed : A → Check A

infixl 10 ◌>>=◌
abbrev pub ◌>>=◌ : {A B : Type 0} → Check A → (A → Check B) → Check B
raised >>= f = raised
failure code >>= f = failure code
passed a >>= f = f a

-- A value that is not there is an exception (`None[...]`).
abbrev pub present : {A : Type 0} → Option A → Check A
present none = raised
present (some a) = passed a

abbrev pub require : Bool → Code → Check Unit
require holds code = if holds then passed tt else failure code

-- `ORDER BY kind`
unfoldable pub kind_rank : RowKind → ℕ
kind_rank RowKind.files = 0
kind_rank RowKind.relations = 1
kind_rank RowKind.repositories = 2
kind_rank RowKind.symbols = 3

abbrev pub place_leb : BatchRow → BatchRow → Bool
place_leb a b =
    ltb (kind_rank a.kind) (kind_rank b.kind)
    || (kind_rank a.kind == kind_rank b.kind && leb a.ordinal b.ordinal)

-- `range(n)`, from a first number.
unfoldable pub range : ℕ → ℕ → List ℕ
range first zero = []
range first (suc n) = first ∷ range (first + 1) n

abbrev pub in_sequence : List ℕ → Bool
in_sequence ordinals = list_beq ordinals (range 0 (length ordinals))

unfoldable pub every : {A : Type 0} → (A → Bool) → List A → Bool
every p [] = true
every p (x ∷ xs) = p x && every p xs

abbrev pub loaded_rows : {A : Type 0} → ℕ → Option (Option (List A)) → Check (List A)
loaded_rows row_count none = raised
loaded_rows row_count (some none) = failure invalid_batch
loaded_rows row_count (some (some rows)) =
    if length rows == row_count then passed rows else failure invalid_batch

-- The rows and the ordinals that `_materialize` collects, by kind.
module _ (v : Encoding) where
  pub record Collected : Type 0 where
    pub rows : RowKind → List (Row v)
    pub ordinals : RowKind → List ℕ

module _ {v : Encoding} where
  abbrev pub nothing_collected : Collected v
  nothing_collected = record { rows = λ kind. []; ordinals = λ kind. [] }

  unfoldable pub collect_batch : BatchRow → List (Row v) → Collected v → Collected v
  unfolding same_kind
  collect_batch b rows acc = record {
    rows = λ kind. if same_kind kind b.kind then acc.rows kind ++ rows else acc.rows kind;
    ordinals = λ kind.
        if same_kind kind b.kind then acc.ordinals kind ++ b.ordinal ∷ [] else acc.ordinals kind;
  }

module _ {v : Encoding} (db : Database v) where
  unfoldable pub collect_batches : List BatchRow → Collected v → Check (Collected v)
  unfolding collect_batch
  collect_batches [] acc = passed acc
  collect_batches (b ∷ bs) acc = do
    rows ← loaded_rows b.row_count (db.loads b.payload)
    collect_batches bs (collect_batch b rows acc)

  -- `row.get(field)`
  unfoldable pub get : Text → Row v → v.Value
  unfolding look_up
  get field row = elim (look_up v field row) [ none ↦ db.null | some value ↦ value ]

  abbrev pub is_among : v.Value → List v.Value → Bool
  is_among value values = any (db.value_beq value) values

  abbrev pub is_null_or_among : v.Value → List v.Value → Bool
  is_null_or_among value values = db.value_beq value db.null || is_among value values

  unfoldable pub relation_refers : List v.Value → List v.Value → Row v → Bool
  unfolding get
  relation_refers files symbols relation =
      is_among (get (codes "source_file_id") relation) files
      && is_null_or_among (get (codes "source_symbol_id") relation) symbols
      && is_null_or_among (get (codes "target_symbol_id") relation) symbols

  -- Whether `_validate_references` returns no failure.
  unfoldable pub validate_references : (RowKind → List (Row v)) → Bool
  unfolding get relation_refers every
  validate_references rows =
      let files = map (get (codes "file_id")) (rows RowKind.files) in
      let symbols = map (get (codes "symbol_id")) (rows RowKind.symbols) in
      every (λ row. is_among (get (codes "file_id") row) files) (rows RowKind.symbols)
      && every (relation_refers files symbols) (rows RowKind.relations)

  unfoldable pub session_batches : ℕ → Store v → List BatchRow
  unfolding sort_by kind_rank
  session_batches session_id s =
      sort_by place_leb (select (λ b. b.session_id == session_id) s.batches)

  abbrev pub counts_agree : (RowKind → ℕ) → (RowKind → List (Row v)) → Bool
  counts_agree expected rows = every (λ kind. length (rows kind) == expected kind) row_kinds

  unfoldable pub materialize : ℕ → ℕ → Store v → Check (RowKind → List (Row v))
  unfolding collect_batches validate_references session_batches find range every
  materialize session_id snapshot_id s = do
    collected ← collect_batches (session_batches session_id s) nothing_collected
    _ ← require (every (λ kind. in_sequence (collected.ordinals kind)) row_kinds) invalid_batch
    snapshot ← present (find snapshot_key snapshot_id s.snapshots)
    _ ← require (counts_agree snapshot.header.expected_counts collected.rows) snapshot_incomplete
    _ ← require (validate_references collected.rows) invalid_batch
    passed collected.rows
