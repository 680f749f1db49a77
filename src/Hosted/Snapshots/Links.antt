-- ===== src/Hosted/Snapshots/Links.antt =====
-- The Wiki links of a snapshot (postgres/codegraph.py): their derivation, and the INSERT of them.
use iwiki_mcp.Prelude.{
  ℕ, Bool, true, not, ◌&&◌, Option, none, some, List, [], ◌∷◌, ◌++◌, map, ◌==◌, if◌then◌else◌,
  nat_eq, select, any, list_beq, list_eq,
}
use iwiki_mcp.Prelude.Sort.{sort_by}
use iwiki_mcp.Text.{Text, codes}
use iwiki_mcp.CodeGraph.Publication.{Encoding, Row, text_leb, canonical_bytes_sha256}
use iwiki_mcp.Hosted.Snapshots.Tables.{MarkdownPage, WikiLink, same_text}
use iwiki_mcp.Hosted.Snapshots.Materialize.{Database, Selected, get, raised, passed, Check}

abbrev pub all_of : {A B : Type 0} → (A → List B) → List A → List B
all_of f [] = []
all_of f (x ∷ xs) = f x ++ all_of f xs

-- `str` of what may be `None`.
abbrev pub str_or_none : Option Text → Text
str_or_none none = codes "None"
str_or_none (some text) = text

-- The child rows of a snapshot.
abbrev pub own : {A : Type 0} → ℕ → List (ℕ × A) → List A
own id rows = map (λ r. r.1) (select (λ r. r.0 == id) rows)

-- The primary key of the table of links.
abbrev pub same_link : WikiLink → WikiLink → Bool
same_link a b =
    list_beq a.relation_id b.relation_id
    && a.page_id == b.page_id
    && list_beq a.selector.0 b.selector.0
    && list_beq a.selector.1 b.selector.1

-- ON CONFLICT DO NOTHING
abbrev pub with_link : ℕ → WikiLink → List (ℕ × WikiLink) → List (ℕ × WikiLink)
with_link id link rows =
    if any (same_link link) (own id rows) then rows else rows ++ (id, link) ∷ []

module _ {v : Encoding} (db : Database v) where
  -- `relations_by_symbol.get(id, ())` and `relations_by_file.get(id, ())`
  unfoldable pub relations_by_symbol : List (Row v) → Text → List Text
  unfolding get
  relations_by_symbol relations id =
      map (λ r. db.str (get db (codes "relation_id") r))
        (select
          (λ r.
            let symbol = get db (codes "source_symbol_id") r in
            not (db.value_beq symbol db.null) && list_beq (db.str symbol) id)
          relations)

  unfoldable pub relations_by_file : List (Row v) → Text → List Text
  unfolding get
  relations_by_file relations id =
      map (λ r. db.str (get db (codes "relation_id") r))
        (select (λ r. list_beq (db.str (get db (codes "source_file_id") r)) id) relations)

  unfoldable pub candidates : List (Row v) → Selected → List Text
  unfolding relations_by_symbol relations_by_file
  candidates relations link = elim link.symbol_id [
    | none ↦ relations_by_file relations (str_or_none link.file_id)
    | some symbol_id ↦ relations_by_symbol relations symbol_id
  ]

  abbrev pub wiki_link : MarkdownPage → Selected → Text → WikiLink
  wiki_link page link relation_id = record {
    relation_id = relation_id;
    page_id = page.page_id;
    selector = (link.selector_kind, link.source);
    page = page.slug;
    link_id = link.link_id;
    relation_type = link.relation_type;
  }

  -- The rows have their identities and source files, which the callers make sure of.
  unfoldable pub derive_links :
      List MarkdownPage → List (Row v) → List (Row v) → List (Row v) → List WikiLink
  unfolding candidates
  derive_links pages files symbols relations =
      all_of
        (λ page.
          all_of (λ link. map (wiki_link page link) (candidates relations link))
            (db.resolve_selectors page.markdown files symbols page.slug))
        pages

  -- `markdown_revision` of codegraph/linking.py.
  unfoldable pub markdown_revision : List MarkdownPage → Text
  unfolding sort_by text_leb canonical_bytes_sha256
  markdown_revision pages =
      canonical_bytes_sha256 v
        (db.dumps_pairs (
          map (λ page. (page.slug, v.sha256 (db.encode page.markdown)))
            (sort_by (λ a b. text_leb a.slug b.slug) pages)))
        true

  -- Whether a row of the list has this text under the field (a primary key, or a foreign one).
  unfoldable pub has_key : Text → Option Text → List (Row v) → Bool
  unfolding get
  has_key field key rows = any (λ r. same_text (db.as_text (get db field r)) key) rows

  -- The relation of a link has to be there.
  unfoldable pub insert_wiki_links :
      ℕ → List (Row v) → List WikiLink → List (ℕ × WikiLink) → Check (List (ℕ × WikiLink))
  unfolding has_key
  insert_wiki_links id relations [] rows = passed rows
  insert_wiki_links id relations (link ∷ links) rows =
      let rest = insert_wiki_links id relations links (with_link id link rows) in
      if has_key (codes "relation_id") (some link.relation_id) relations then rest else raised
