-- ===== src/CodeGraph/Publication/Revision.antt =====
-- `graph_payload_revision` of src/iwiki_mcp/codegraph/publication.py: the hash of all rows.
use iwiki_mcp.Prelude.{true, Option, some, List, [], ◌∷◌, nat_eq, list_eq}
use iwiki_mcp.Text.{Text}
use iwiki_mcp.CodeGraph.Publication.Wire.{RowKind, row_kinds}
use iwiki_mcp.CodeGraph.Publication.{Encoding, Row, ◌>>=◌, projected_rows, canonical_bytes_sha256}

module _ (v : Encoding) where
  -- The projected rows of every kind, or none for the `ValueError` of a row without its identity.
  unfoldable pub canonical_rows :
      (RowKind → List (Row v)) → List RowKind → Option (List (List (Row v)))
  canonical_rows rows [] = some []
  canonical_rows rows (kind ∷ kinds) = do
    projected ← projected_rows v kind (rows kind)
    others ← canonical_rows rows kinds
    some (projected ∷ others)

  unfoldable pub graph_payload_revision : (RowKind → List (Row v)) → Option Text
  unfolding canonical_rows
  graph_payload_revision rows = do
    canonical ← canonical_rows rows row_kinds
    some (canonical_bytes_sha256 v (v.dumps_kinds canonical) true)
