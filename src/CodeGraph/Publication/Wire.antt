-- ===== src/CodeGraph/Publication/Wire.antt =====
-- The kinds of rows of a snapshot (publication.py), and the fields that travel.
use iwiki_mcp.Prelude.{List, [], ◌∷◌}
use iwiki_mcp.Text.{Text, codes}

pub data RowKind : Type 0 where
  repositories : RowKind
  files : RowKind
  symbols : RowKind
  relations : RowKind

abbrev pub row_kinds : List RowKind
row_kinds = repositories ∷ files ∷ symbols ∷ relations ∷ []

unfoldable pub identity_field : RowKind → Text
identity_field repositories = codes "repository_id"
identity_field files = codes "file_id"
identity_field symbols = codes "symbol_id"
identity_field relations = codes "relation_id"

unfoldable pub wire_fields : RowKind → List Text
wire_fields repositories =
    codes "repository_id"
    ∷ codes "git_commit"
    ∷ codes "source_fingerprint"
    ∷ codes "config_fingerprint"
    ∷ codes "parser_fingerprint"
    ∷ codes "normalizer_version"
    ∷ codes "unicode_data_version"
    ∷ codes "state"
    ∷ codes "indexed_at"
    ∷ []
wire_fields files =
    codes "file_id"
    ∷ codes "repository_id"
    ∷ codes "path"
    ∷ codes "path_casefold"
    ∷ codes "file_local_name"
    ∷ codes "file_name_tokens_casefold"
    ∷ codes "language"
    ∷ codes "content_hash"
    ∷ codes "parser_version"
    ∷ codes "size_bytes"
    ∷ codes "start_line"
    ∷ codes "end_line"
    ∷ codes "start_byte"
    ∷ codes "end_byte"
    ∷ codes "module_key"
    ∷ codes "module_id"
    ∷ codes "module_qualified_name"
    ∷ codes "module_local_name"
    ∷ codes "module_name_tokens_casefold"
    ∷ []
wire_fields symbols =
    codes "symbol_id"
    ∷ codes "file_id"
    ∷ codes "kind"
    ∷ codes "qualified_name"
    ∷ codes "local_name"
    ∷ codes "name_tokens_casefold"
    ∷ codes "start_line"
    ∷ codes "end_line"
    ∷ codes "start_byte"
    ∷ codes "end_byte"
    ∷ codes "signature"
    ∷ codes "signature_casefold"
    ∷ codes "visibility"
    ∷ codes "content_hash"
    ∷ codes "metadata_json"
    ∷ []
wire_fields relations =
    codes "relation_id"
    ∷ codes "source_file_id"
    ∷ codes "source_module_id"
    ∷ codes "source_symbol_id"
    ∷ codes "target_module_id"
    ∷ codes "target_symbol_id"
    ∷ codes "target_reference"
    ∷ codes "relation_type"
    ∷ codes "source_start_line"
    ∷ codes "source_end_line"
    ∷ codes "source_start_byte"
    ∷ codes "source_end_byte"
    ∷ codes "binding_name"
    ∷ codes "binding_kind"
    ∷ codes "binding_name_tokens_casefold"
    ∷ codes "confidence"
    ∷ codes "resolution_state"
    ∷ codes "metadata_json"
    ∷ []
