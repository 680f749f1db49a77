-- ===== src/Hosted/Snapshots/Inserting.antt =====
-- `_activate` of postgres/codegraph.py: the INSERTs leave the rows of the other snapshots.
use mathlib.Core.Path.{subst}
use iwiki_mcp.Prelude.{
  ℕ, ◌≡◌, refl, ◌∙◌, Bool, true, false, not, ◌&&◌, Option, none, some, List, [], ◌∷◌, ◌++◌, ◌==◌,
  if◌then◌else◌, nat_eq, list_eq,
}
use iwiki_mcp.Text.{Text, codes}
use iwiki_mcp.CodeGraph.Publication.{Encoding, Row}
use iwiki_mcp.CodeGraph.Publication.Wire.{RowKind}
use iwiki_mcp.Hosted.Snapshots.Tables.{Store, Code, WikiLink}
use iwiki_mcp.Hosted.Snapshots.Materialize.{
  every, get, Database, Check, raised, failure, passed, ◌>>=◌, present, require,
}
use iwiki_mcp.Hosted.Snapshots.Links.{has_key, insert_wiki_links, own}
use iwiki_mcp.Hosted.Snapshots.Finalize.{
  is_not_null, insert_row, insert_rows, insert_files, insert_symbols, insert_relations,
  foreign_keys, with_graph, check, insert_graph,
}
use iwiki_mcp.Hosted.Snapshots.Serving.{graph_of}
use iwiki_mcp.Hosted.Snapshots.Keeping.{own-cons}

-- A property of what a part of a transaction passes on.
abbrev pub Passes : {A : Type 0} → (A → Type 0) → Check A → Type 0
Passes P raised = Unit
Passes P (failure code) = Unit
Passes P (passed x) = P x

pub Passes-bind :
    {A B : Type 0} (Q : B → Type 0) (o : Check A) (f : A → Check B)
    → ((x : A) → o ≡ passed x → Passes Q (f x))
    → Passes Q (o >>= f)
Passes-bind Q raised f k = tt
Passes-bind Q (failure code) f k = tt
Passes-bind Q (passed x) f k = k x refl

pub Passes-require :
    {B : Type 0} (Q : B → Type 0) (b : Bool) (code : Code) (f : Unit → Check B)
    → (b ≡ true → Passes Q (f tt))
    → Passes Q (require b code >>= f)
Passes-require Q true code f k = k refl
Passes-require Q false code f k = tt

pub Passes-present :
    {A B : Type 0} (Q : B → Type 0) (o : Option A) (f : A → Check B)
    → ((x : A) → o ≡ some x → Passes Q (f x))
    → Passes Q (present o >>= f)
Passes-present Q none f k = tt
Passes-present Q (some x) f k = k x refl

pub Passes-map :
    {A : Type 0} (P Q : A → Type 0) (o : Check A) → ((x : A) → P x → Q x) → Passes P o → Passes Q o
Passes-map P Q raised k h = tt
Passes-map P Q (failure code) k h = tt
Passes-map P Q (passed x) k h = k x h

-- What stays of the tables when the rows of a snapshot are inserted.
pub record Inserted {v : Encoding} (id : ℕ) (s t : Store v) : Type 0 where
  pub snapshots : t.snapshots ≡ s.snapshots
  pub sessions : t.sessions ≡ s.sessions
  pub others_graph : (j : ℕ) → (id == j) ≡ false → graph_of j t ≡ graph_of j s

pub Passes_elim :
    {A : Type 0} (P : A → Type 0) (o : Check A) (x : A) → Passes P o → o ≡ passed x → P x
Passes_elim P o x h e = subst (Passes P) e h

Passes-if :
    {A : Type 0} (P : A → Type 0) (b : Bool) (x : A)
    → P x
    → Passes P (if b then passed x else raised)
Passes-if P true x h = h
Passes-if P false x h = tt

own-append :
    {A : Type 0} (id j : ℕ) (row : A) (rows : List (ℕ × A))
    → (id == j) ≡ false
    → own j (rows ++ (id, row) ∷ []) ≡ own j rows
own-append id j row [] other = rw (other) refl
own-append id j row (r ∷ rows) other =
    own-cons j r (rows ++ (id, row) ∷ []) rows (own-append id j row rows other)

module _ {v : Encoding} (db : Database v) where
  insert_row-own :
      (required : List Text) (key : Text) (id j : ℕ) (row : Row v) (rows : List (ℕ × Row v))
      → (id == j) ≡ false
      → Passes (λ t. own j t ≡ own j rows) (insert_row db required key id row rows)
  unfolding insert_row
  insert_row-own required key id j row rows other =
      Passes-if (λ t. own j t ≡ own j rows)
        (every (λ field. is_not_null (db.as_text (get db field row))) required
          && not (has_key db key (db.as_text (get db key row)) (own id rows)))
        (rows ++ (id, row) ∷ []) (own-append id j row rows other)

  insert_rows-own :
      (required : List Text) (key : Text) (id j : ℕ) (more : List (Row v)) (rows : List (ℕ × Row v))
      → (id == j) ≡ false
      → Passes (λ t. own j t ≡ own j rows) (insert_rows db required key id more rows)
  unfolding insert_rows
  insert_rows-own required key id j [] rows other = refl
  insert_rows-own required key id j (row ∷ more) rows other =
      Passes-bind (λ t. own j t ≡ own j rows) (insert_row db required key id row rows)
        (λ t. insert_rows db required key id more t)
        (λ t e.
          Passes-map (λ u. own j u ≡ own j t) (λ u. own j u ≡ own j rows)
            (insert_rows db required key id more t)
            (λ u h.
              h
              ∙ Passes_elim (λ u. own j u ≡ own j rows) (insert_row db required key id row rows) t
                  (insert_row-own required key id j row rows other) e)
            (insert_rows-own required key id j more t other))

  insert_rows-own_elim :
      (required : List Text) (key : Text) (id j : ℕ) (more : List (Row v))
      (rows inserted : List (ℕ × Row v))
      → (id == j) ≡ false
      → insert_rows db required key id more rows ≡ passed inserted
      → own j inserted ≡ own j rows
  insert_rows-own_elim required key id j more rows inserted other =
      Passes_elim (λ t. own j t ≡ own j rows) (insert_rows db required key id more rows) inserted
        (insert_rows-own required key id j more rows other)

  pub insert_graph-Inserted :
      (id : ℕ) (rows : RowKind → List (Row v)) (links : List WikiLink) (s : Store v)
      → Passes (Inserted id s) (insert_graph db id rows links s)
  unfolding insert_graph
  insert_graph-Inserted id rows links s =
      Passes-bind (Inserted id s) (insert_files db id (rows RowKind.files) s.files) _ (λ files f.
        Passes-bind (Inserted id s) (insert_symbols db id (rows RowKind.symbols) s.symbols) _
          (λ symbols g.
            Passes-bind (Inserted id s)
              (insert_relations db id (rows RowKind.relations) s.relations) _
              (λ relations h.
                Passes-bind (Inserted id s)
                  (check (foreign_keys db (own id files) (own id symbols) (own id relations))) _
                  (λ _ _.
                    Passes-bind (Inserted id s)
                      (insert_wiki_links db id (own id relations) links s.wiki_links)
                      (λ wiki_links. passed (with_graph files symbols relations s wiki_links))
                      (λ wiki_links _. record {
                        snapshots = refl;
                        sessions = refl;
                        others_graph = λ j other.
                            rw
                              (
                                insert_rows-own_elim (codes "file_id" ∷ codes "repository_id" ∷ [])
                                    (codes "file_id") id j (rows RowKind.files) s.files files other
                                    f,
                                insert_rows-own_elim (codes "symbol_id" ∷ codes "file_id" ∷ [])
                                    (codes "symbol_id") id j (rows RowKind.symbols) s.symbols
                                    symbols other g,
                                insert_rows-own_elim
                                    (codes "relation_id" ∷ codes "source_file_id" ∷ [])
                                    (codes "relation_id") id j (rows RowKind.relations) s.relations
                                    relations other h,
                              )
                              refl;
                      })))))
