-- ===== src/Engine/Rerank.antt =====
-- src/iwiki_mcp/engine/rerank.py: the scores of a reranking service, merged into the candidates of
-- a search. The HTTP request and the decoding of its answer are a parameter; a candidate is its
-- text and the rest of its fields, and it is ranked with its index at its side.
pub mod Order
pub mod Duplicates
mod Examples
use iwiki_mcp.Prelude.{
  ◌^◌, ℕ, zero, suc, ◌+◌, ◌-◌, ◌*◌, ◌/◌, ◌%◌, ◌≤◌, ◌<◌, min, max, ◌≡◌, refl, sym, ap, ◌∙◌, ◌≢◌, ◌↔◌,
  ◌⊎◌, inl, inr, Bool, true, false, not, ◌&&◌, ◌||◌, Option, none, some, List, [], ◌∷◌, ◌++◌, map,
  arith, ltb, leb, ◌==◌, if◌then◌else◌, leb→le, le→leb, ==_iff, Bool-cases, Option-cases, Eq,
  nat_eq, length, take, drop, get_elem?, length-append, length-take, take_of_length-le,
  take-append-drop, All, select, any, contains, list_beq, list_eq,
}
use iwiki_mcp.Prelude.Sort.{sort_by}
use iwiki_mcp.Text.{Text}
use iwiki_mcp.Float.{Float}

pub record Candidate (R : Type 0) : Type 0 where
  pub text : Text
  pub fields : R

-- What stands under "index": a natural number, or what is no index of a list.
pub data Index : Type 0 where
  natural : ℕ → Index
  no_index : Index

-- What stands under "relevance_score", after `float(score)`: none when that is refused or fails.
pub data Row (F : Type 0) : Type 0 where
  not_a_row : Row F
  row : Index → Option F → Row F

-- The answer: the list under "results", or none for a failed request and for anything else.
pub record Reranker (f : Float) : Type 0 where
  pub post : Text → List Text → ℕ → Option (List (Row (f.F)))
  pub isfinite : f.F → Bool

-- The variables of the loop over the rows; a dictionary is the function of its look-ups.
pub record Tally (F : Type 0) : Type 0 where
  pub scores : ℕ → Option F
  pub seen : List ℕ
  pub duplicates : List ℕ

pub record Reranked (R F : Type 0) : Type 0 where
  pub ranked : List (R × Option F)
  pub applied : Bool
  pub scored_count : Option ℕ

abbrev pub is_some : {A : Type 0} → Option A → Bool
is_some none = false
is_some (some a) = true

abbrev pub is_none : {A : Type 0} → Option A → Bool
is_none o = not (is_some o)

-- `enumerate(candidates)` from an index on.
unfoldable pub enumerate {ℓ} : {A : Type ℓ} → ℕ → List A → List (ℕ × A)
enumerate i [] = []
enumerate i (a ∷ rest) = (i, a) ∷ enumerate (suc i) rest

-- `min(max(1, top_n), len(candidates))`
unfoldable pub result_count : Option ℕ → ℕ → ℕ
result_count none total = total
result_count (some top_n) total = min (max 1 top_n) total

abbrev pub counted : Option ℕ → ℕ → Option ℕ
counted none count = none
counted (some top_n) count = some count

module _ (f : Float) (service : Reranker f) where
  open f use {F, lt}
  open service use {isfinite}

  unfoldable pub put_score : ℕ → Option F → (ℕ → Option F) → ℕ → Option F
  put_score i none scores j = scores j
  put_score i (some x) scores j = if isfinite x && i == j then some x else scores j

  unfoldable pub take_index : ℕ → Option F → Tally F → Tally F
  unfolding put_score
  take_index i score t =
      if contains t.seen i
      then record t { duplicates = i ∷ t.duplicates }
      else record t { seen = i ∷ t.seen; scores = put_score i score t.scores }

  unfoldable pub take_row : ℕ → Row F → Tally F → Tally F
  unfolding take_index
  take_row total not_a_row t = t
  take_row total (row no_index score) t = t
  take_row total (row (natural i) score) t = if ltb i total then take_index i score t else t

  unfoldable pub take_rows : ℕ → List (Row F) → Tally F → Tally F
  unfolding take_row
  take_rows total [] t = t
  take_rows total (r ∷ rows) t = take_rows total rows (take_row total r t)

  -- `scores.pop(index, None)` for every duplicate.
  unfoldable pub without_duplicates : Tally F → ℕ → Option F
  without_duplicates t i = if contains t.duplicates i then none else t.scores i

  unfoldable pub scores_of : ℕ → List (Row F) → ℕ → Option F
  unfolding take_rows without_duplicates
  scores_of total rows =
      without_duplicates
        (take_rows total rows (record { scores = λ _. none; seen = []; duplicates = [] }))

  unfoldable pub precedes : Option F → Option F → ℕ → ℕ → Bool
  precedes (some x) (some y) i j = lt y x || (not (lt x y) && leb i j)
  precedes _ _ i j = leb i j

  module _ {R : Type 0} where
    abbrev pub score_at : (ℕ → Option F) → ℕ × R → Option F
    score_at scores numbered = scores numbered.0

    -- The key `(-scores[index], index)`.
    abbrev pub better : (ℕ → Option F) → ℕ × R → ℕ × R → Bool
    better scores a b = precedes (score_at scores a) (score_at scores b) a.0 b.0

    abbrev pub with_score : (ℕ → Option F) → ℕ × R → R × Option F
    with_score scores numbered = (numbered.1, score_at scores numbered)

    abbrev pub without_text : List (Candidate R) → List R
    without_text candidates = map (λ (c : Candidate R). c.fields) candidates

    -- `ranked_indices`, each index with its candidate. The keys of the dictionary come in
    -- increasing order here: their order does not matter to a sort whose key has the index in it.
    unfoldable pub ranked_indices : (ℕ → Option F) → List (ℕ × R) → List (ℕ × R)
    unfolding sort_by precedes
    ranked_indices scores numbered =
        sort_by (better scores) (select (λ c. is_some (score_at scores c)) numbered)
        ++ select (λ c. is_none (score_at scores c)) numbered

    abbrev pub unranked : List R → Reranked R F
    unranked preliminary = record {
      ranked = map (λ r. (r, none)) preliminary;
      applied = false;
      scored_count = none;
    }

    unfoldable pub merge_scores : Option ℕ → (ℕ → Option F) → List R → Reranked R F
    unfolding ranked_indices enumerate
    merge_scores top_n scores preliminary =
        let numbered = enumerate 0 preliminary in
        let scored = length (select (λ c. is_some (score_at scores c)) numbered) in
        if scored == 0 then unranked preliminary else record {
          ranked = map (with_score scores) (ranked_indices scores numbered);
          applied = true;
          scored_count = counted top_n scored;
        }

    unfoldable pub merge_answer : Option ℕ → List R → Option (List (Row F)) → Reranked R F
    unfolding scores_of merge_scores
    merge_answer top_n preliminary none = unranked preliminary
    merge_answer top_n preliminary (some rows) =
        merge_scores top_n (scores_of (length preliminary) rows) preliminary

    unfoldable pub rerank_candidates : Text → List (Candidate R) → Option ℕ → Reranked R F
    unfolding merge_answer result_count
    rerank_candidates query [] top_n = unranked []
    rerank_candidates query (c ∷ cs) top_n =
        let documents = map (λ (c : Candidate R). c.text) (c ∷ cs) in
        merge_answer top_n (without_text (c ∷ cs))
          (service.post query documents (result_count top_n (length (c ∷ cs))))
