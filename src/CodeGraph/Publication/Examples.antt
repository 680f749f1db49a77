-- ===== src/CodeGraph/Publication/Examples.antt =====
-- Batches of two repositories under a plain serializer.
use iwiki_mcp.Prelude.{ℕ, ◌≡◌, refl, true, some, List, [], ◌∷◌, ◌++◌, map, arith, nat_eq, list_eq}
use iwiki_mcp.Text.{Text, codes, join}
use iwiki_mcp.CodeGraph.Publication.Wire.{
  RowKind, repositories, files, symbols, relations, identity_field, wire_fields,
}
use iwiki_mcp.CodeGraph.Publication.{
  Encoding, Batches, ended, failed, yielded, Row, row_exceeds_max_bytes, iter_snapshot_batches,
  kind_batches, projected_rows, text_leb, portable_row,
}
use iwiki_mcp.CodeGraph.Publication.Bounds.{Each, IsBounded, iter_snapshot_batches-IsBounded}
use iwiki_mcp.CodeGraph.Publication.Groups.{is_complete, concat, stream_of, kind_batches_complete}
use iwiki_mcp.CodeGraph.Publication.Revision.{graph_payload_revision}
use iwiki_mcp.CodeGraph.Publication.Reordering.{Apart, Reordered, graph_payload_revision-Reordered}
use iwiki_mcp.CodeGraph.Publication.Success.{Fits, iter_snapshot_batches_complete}

abbrev plain_dumps : List (Text × Text) → List ℕ
plain_dumps [] = []
plain_dumps ((name, value) ∷ row) = value ++ plain_dumps row

abbrev plain_rows : List (List (Text × Text)) → List ℕ
plain_rows [] = []
plain_rows (row ∷ rows) = plain_dumps row ++ plain_rows rows

abbrev plain_kinds : List (List (List (Text × Text))) → List ℕ
plain_kinds [] = []
plain_kinds (rows ∷ kinds) = plain_rows rows ++ plain_kinds kinds

abbrev plain : Encoding
plain = record {
  Value = Text;
  as_str = some;
  dumps = plain_dumps;
  dumps_kinds = plain_kinds;
  sha256 = λ payload. payload;
}

abbrev repository : Text → Row plain
repository identity = (codes "secret", codes "x") ∷ (codes "repository_id", identity) ∷ []

abbrev two_repositories : RowKind → List (Row plain)
two_repositories repositories = repository (codes "b") ∷ repository (codes "a") ∷ []
two_repositories kind = []

program : Unit {0}
unfolding iter_snapshot_batches kind_batches projected_rows identity_field wire_fields text_leb join
program = tt

abbrev payloads : Batches → List (List ℕ)
payloads ended = []
payloads (failed e) = []
payloads (yielded b rest) = b.payload ∷ payloads rest

one_batch : payloads (iter_snapshot_batches plain 2 5 two_repositories) ≡ codes "[a,b]" ∷ []
unfolding program
one_batch = refl

two_batches :
    payloads (iter_snapshot_batches plain 2 4 two_repositories) ≡ codes "[a]" ∷ codes "[b]" ∷ []
unfolding program
two_batches = refl

too_large :
    iter_snapshot_batches plain 2 2 two_repositories ≡ failed (row_exceeds_max_bytes repositories)
unfolding program
too_large = refl

iter_snapshot_batches-IsBounded_example :
    Each (IsBounded 2 5) (iter_snapshot_batches plain 2 5 two_repositories)
iter_snapshot_batches-IsBounded_example = iter_snapshot_batches-IsBounded plain 2 5 two_repositories

kind_batches_complete_example :
    (projected : List (Row plain)) × (projected_rows plain repositories
        (two_repositories repositories)
      ≡ some projected)
    × (groups : List (List (List ℕ))) × (concat groups ≡ map plain_dumps projected)
    × (kind_batches plain 2 4 repositories (two_repositories repositories)
        ≡ stream_of plain repositories 0 groups)
unfolding program
kind_batches_complete_example =
    kind_batches_complete plain 2 4 repositories (two_repositories repositories) refl

two-small : (kind : RowKind) → Fits plain 2 5 (projected_rows plain kind (two_repositories kind))
unfolding program
two-small repositories = (omega arith, (omega arith, tt))
two-small files = tt
two-small symbols = tt
two-small relations = tt

iter_snapshot_batches_complete_example :
    is_complete (iter_snapshot_batches plain 2 5 two_repositories) ≡ true
iter_snapshot_batches_complete_example =
    iter_snapshot_batches_complete plain 2 5 two_repositories (omega arith) (omega arith) two-small

abbrev other_order : RowKind → List (Row plain)
other_order repositories = repository (codes "a") ∷ repository (codes "b") ∷ []
other_order kind = []

two_repositories-Apart :
    Apart plain repositories
      (portable_row plain repositories (repository (codes "b")))
      (portable_row plain repositories (repository (codes "a")))
unfolding program portable_row
two_repositories-Apart = λ e. grind (arith, e)

two_repositories-Reordered :
    (kind : RowKind) → Reordered plain kind (two_repositories kind) (other_order kind)
two_repositories-Reordered repositories =
    Reordered.swap (repository (codes "b")) (repository (codes "a")) [] two_repositories-Apart
two_repositories-Reordered kind = Reordered.same []

graph_payload_revision-Reordered_example :
    graph_payload_revision plain two_repositories ≡ graph_payload_revision plain other_order
graph_payload_revision-Reordered_example =
    graph_payload_revision-Reordered plain two_repositories other_order two_repositories-Reordered
