-- ===== src/CodeGraph/Publication.antt =====
-- src/iwiki_mcp/codegraph/publication.py: the rows of a snapshot as canonical batches. A mapping
-- is its list of items; the JSON serializer and SHA-256 are parameters. A generator is the data
-- type of its runs: what it yields, and whether it ends or raises after that.
pub mod Wire
pub mod Bounds
pub mod Groups
pub mod Success
pub mod Revision
pub mod Reordering
mod Examples
use iwiki_mcp.Prelude.{
  ◌^◌, ℕ, zero, suc, ◌+◌, ◌-◌, ◌*◌, ◌/◌, ◌%◌, ◌≤◌, ◌<◌, min, max, ◌≡◌, refl, sym, ap, ◌∙◌, ◌≢◌, ◌↔◌,
  ◌⊎◌, inl, inr, Bool, true, false, not, ◌&&◌, ◌||◌, Option, none, some, List, [], ◌∷◌, ◌++◌, map,
  arith, ltb, leb, ◌==◌, if◌then◌else◌, leb→le, le→leb, ==_iff, Bool-cases, Option-cases, Eq,
  nat_eq, length, take, drop, get_elem?, length-append, length-take, take_of_length-le,
  take-append-drop, All, select, any, contains, list_beq, list_eq,
}
use iwiki_mcp.Prelude.Sort.{sort_by}
use iwiki_mcp.Text.{Text, codes, join}
use iwiki_mcp.CodeGraph.Publication.Wire.{RowKind, row_kinds, identity_field, wire_fields}

-- `json.dumps(value, sort_keys=True, ...).encode("utf-8")` of a row and of
-- the mapping from the four kinds to their rows, and `sha256(...).hexdigest()`.
pub record Encoding : Type 1 where
  pub Value : Type 0
  pub as_str : Value → Option Text
  pub dumps : List (Text × Value) → List ℕ
  pub dumps_kinds : List (List (List (Text × Value))) → List ℕ
  pub sha256 : List ℕ → Text

pub record SnapshotBatch : Type 0 where
  pub kind : RowKind
  pub ordinal : ℕ
  pub row_count : ℕ
  pub byte_count : ℕ
  pub payload_hash : Text
  pub payload : List ℕ

-- The `ValueError`s of the generator.
pub data BatchError : Type 0 where
  max_rows_not_positive : BatchError
  max_bytes_not_positive : BatchError
  identity_required : RowKind → BatchError
  row_exceeds_max_bytes : RowKind → BatchError

pub data Batches : Type 0 where
  ended : Batches
  failed : BatchError → Batches
  yielded : SnapshotBatch → Batches → Batches

-- One generator after the other.
unfoldable pub followed_by : Batches → Batches → Batches
followed_by ended next = next
followed_by (failed e) next = failed e
followed_by (yielded b rest) next = yielded b (followed_by rest next)

infixl 10 ◌>>=◌
abbrev pub ◌>>=◌ : {A B : Type 0} → Option A → (A → Option B) → Option B
none >>= f = none
some a >>= f = f a

-- Code points order the texts, as they do for `list.sort`.
unfoldable pub text_leb : Text → Text → Bool
text_leb [] t = true
text_leb (c ∷ s) [] = false
text_leb (c ∷ s) (d ∷ t) = ltb c d || (c == d && text_leb s t)

-- The variables of the loop over the rows of one kind.
pub record Pending : Type 0 where
  pub rows : List (List ℕ)
  pub size : ℕ
  pub ordinal : ℕ

unfoldable pub fresh : ℕ → Pending
fresh ordinal = record { rows = []; size = 2; ordinal = ordinal }

abbrev pub is_empty : {A : Type 0} → List A → Bool
is_empty [] = true
is_empty (_ ∷ _) = false

unfoldable pub candidate_size : Pending → List ℕ → ℕ
candidate_size p serialized = p.size + (if is_empty p.rows then 0 else 1) + length serialized

unfoldable pub is_full : ℕ → ℕ → Pending → List ℕ → Bool
unfolding candidate_size
is_full max_rows max_bytes p serialized =
    not (is_empty p.rows)
    && (leb max_rows (length p.rows) || ltb max_bytes (candidate_size p serialized))

unfoldable pub with_row : Pending → List ℕ → Pending
unfolding candidate_size
with_row p serialized = record {
  rows = p.rows ++ serialized ∷ [];
  size = candidate_size p serialized;
  ordinal = p.ordinal;
}

abbrev pub after_full : Pending → Bool → Pending
after_full p true = fresh (p.ordinal + 1)
after_full p false = p

abbrev pub unless_large : ℕ → RowKind → Pending → List ℕ → Batches → Batches
unless_large max_bytes kind p serialized rest =
    if ltb max_bytes (candidate_size p serialized)
    then failed (row_exceeds_max_bytes kind)
    else rest

abbrev pub payload_of : List (List ℕ) → List ℕ
payload_of rows = codes "[" ++ (join (codes ",") rows ++ codes "]")

module _ (v : Encoding) where
  open v use {Value}

  abbrev pub Row : Type 0
  Row = List (Text × Value)

  unfoldable pub look_up : Text → Row → Option Value
  look_up field [] = none
  look_up field ((name, value) ∷ row) =
      let rest = look_up field row in if list_beq field name then some value else rest

  abbrev pub with_field : Text → Option Value → Row → Row
  with_field field none row = row
  with_field field (some value) row = (field, value) ∷ row

  unfoldable pub project : List Text → Row → Row
  unfolding look_up
  project [] row = []
  project (field ∷ fields) row = with_field field (look_up field row) (project fields row)

  abbrev pub str_of : Option Value → Option Text
  str_of none = none
  str_of (some value) = v.as_str value

  abbrev pub if_identified : Row → Option Text → Option Row
  if_identified row none = none
  if_identified row (some []) = none
  if_identified row (some (c ∷ identity)) = some row

  -- None stands for the `ValueError` of a row without its identity.
  unfoldable pub portable_row : RowKind → Row → Option Row
  unfolding project identity_field wire_fields
  portable_row kind row =
      let portable = project (wire_fields kind) row in
      if_identified portable (str_of (look_up (identity_field kind) portable))

  unfoldable pub portable_rows : RowKind → List Row → Option (List Row)
  unfolding portable_row
  portable_rows kind [] = some []
  portable_rows kind (row ∷ rows) = do
    portable ← portable_row kind row
    others ← portable_rows kind rows
    some (portable ∷ others)

  abbrev pub text_or_empty : Option Text → Text
  text_or_empty none = []
  text_or_empty (some text) = text

  abbrev pub identity_of : RowKind → Row → Text
  identity_of kind row = text_or_empty (str_of (look_up (identity_field kind) row))

  abbrev pub identity_leb : RowKind → Row → Row → Bool
  identity_leb kind a b = text_leb (identity_of kind a) (identity_of kind b)

  unfoldable pub projected_rows : RowKind → List Row → Option (List Row)
  unfolding portable_rows sort_by look_up identity_field text_leb
  projected_rows kind rows = do
    projected ← portable_rows kind rows
    some (sort_by (identity_leb kind) projected)

  abbrev pub canonical_json_bytes : Row → List ℕ
  canonical_json_bytes row = v.dumps row

  unfoldable pub canonical_bytes_sha256 : List ℕ → Bool → Text
  canonical_bytes_sha256 payload prefix =
      let digest = v.sha256 payload in if prefix then codes "sha256:" ++ digest else digest

  unfoldable pub batch : RowKind → ℕ → List (List ℕ) → SnapshotBatch
  unfolding join canonical_bytes_sha256
  batch kind ordinal rows = record {
    kind = kind;
    ordinal = ordinal;
    row_count = length rows;
    byte_count = length (payload_of rows);
    payload_hash = canonical_bytes_sha256 (payload_of rows) true;
    payload = payload_of rows;
  }

  -- `canonical_batch`, for a kind and an ordinal of their types.
  unfoldable pub canonical_batch : RowKind → ℕ → List Row → Option SnapshotBatch
  unfolding batch portable_rows
  canonical_batch kind ordinal rows = do
    projected ← portable_rows kind rows
    some (batch kind ordinal (map canonical_json_bytes projected))

  abbrev pub last_batch : RowKind → Pending → Batches
  last_batch kind p = if is_empty p.rows then ended else yielded (batch kind p.ordinal p.rows) ended

  abbrev pub with_full : RowKind → Pending → Bool → Batches → Batches
  with_full kind p true rest = yielded (batch kind p.ordinal p.rows) rest
  with_full kind p false rest = rest

  module _ (max_rows max_bytes : ℕ) (kind : RowKind) where
    unfoldable pub batch_rows : Pending → List (List ℕ) → Batches
    unfolding fresh is_full with_row batch candidate_size
    batch_rows p [] = last_batch kind p
    batch_rows p (serialized ∷ rest) =
        let full = is_full max_rows max_bytes p serialized in
        let q = after_full p full in
        with_full kind p full
          (unless_large max_bytes kind q serialized (batch_rows (with_row q serialized) rest))

    abbrev pub batch_projected : Option (List Row) → Batches
    batch_projected none = failed (identity_required kind)
    batch_projected (some rows) = batch_rows (fresh 0) (map canonical_json_bytes rows)

    unfoldable pub kind_batches : List Row → Batches
    unfolding batch_rows projected_rows fresh
    kind_batches rows = batch_projected (projected_rows kind rows)

  unfoldable pub batches_of : ℕ → ℕ → (RowKind → List Row) → List RowKind → Batches
  unfolding kind_batches followed_by
  batches_of max_rows max_bytes rows [] = ended
  batches_of max_rows max_bytes rows (kind ∷ kinds) =
      followed_by (kind_batches max_rows max_bytes kind (rows kind))
        (batches_of max_rows max_bytes rows kinds)

  unfoldable pub iter_snapshot_batches : ℕ → ℕ → (RowKind → List Row) → Batches
  unfolding batches_of
  iter_snapshot_batches max_rows max_bytes rows =
      if max_rows == 0
      then failed max_rows_not_positive
      else if max_bytes == 0
      then failed max_bytes_not_positive
      else batches_of max_rows max_bytes rows row_kinds
