-- ===== src/Engine/Neighbors.antt =====
-- engine/hier.py: `rank_neighbor_pages`, the pages near the seeds in a graph of pages. The provider
-- of the neighbours is an argument; a dictionary is the list of its rows in the order of insertion.
pub mod Scope
mod Examples
use iwiki_mcp.Prelude.{
  ◌^◌, ℕ, zero, suc, ◌+◌, ◌-◌, ◌*◌, ◌/◌, ◌%◌, ◌≤◌, ◌<◌, min, max, ◌≡◌, refl, sym, ap, ◌∙◌, ◌≢◌, ◌↔◌,
  ◌⊎◌, inl, inr, Bool, true, false, not, ◌&&◌, ◌||◌, Option, none, some, List, [], ◌∷◌, ◌++◌, map,
  arith, ltb, leb, ◌==◌, if◌then◌else◌, leb→le, le→leb, ==_iff, Bool-cases, Option-cases, Eq,
  nat_eq, length, take, drop, get_elem?, length-append, length-take, take_of_length-le,
  take-append-drop, All, select, any, contains, list_beq, list_eq,
}
use iwiki_mcp.Prelude.Sort.{sort_by}
use iwiki_mcp.Text.{Text}
use iwiki_mcp.CodeGraph.Publication.{text_leb}

pub record PageRow : Type 0 where
  pub file : Text
  pub is_seed : Bool
  pub seed_origins : List Text
  pub distance : ℕ
  pub seed_rank : ℕ
  pub discovery : ℕ

pub record Seed : Type 0 where
  pub file : Text
  pub origin : Text
  pub seed_rank : ℕ

-- `sorted(set(texts))`
unfoldable pub unique : List Text → List Text
unique [] = []
unique (t ∷ ts) = let rest = unique ts in if contains rest t then rest else t ∷ rest

unfoldable pub sorted_set : List Text → List Text
unfolding sort_by unique text_leb
sorted_set texts = sort_by text_leb (unique texts)

-- The order of tuples: `first` decides where it is strict.
abbrev pub then_by : ℕ → ℕ → Bool → Bool
then_by a b rest = ltb a b || (a == b && rest)

abbrev pub then_by_text : Text → Text → Bool → Bool
then_by_text a b rest = if list_beq a b then rest else text_leb a b

abbrev pub seed_leb : Seed → Seed → Bool
seed_leb a b =
    then_by a.seed_rank b.seed_rank (then_by_text a.file b.file (text_leb a.origin b.origin))

abbrev pub in_scope : Option (List Text) → Text → Bool
in_scope none file = true
in_scope (some allowed) file = contains allowed file

unfoldable pub find_row : Text → List PageRow → Option PageRow
find_row file [] = none
find_row file (row ∷ rows) =
    let rest = find_row file rows in if list_beq file row.file then some row else rest

unfoldable pub change_row : Text → (PageRow → PageRow) → List PageRow → List PageRow
change_row file change [] = []
change_row file change (row ∷ rows) =
    (if list_beq file row.file then change row else row) ∷ change_row file change rows

-- The variables `rows`, `discovery` and `discovered`.
pub record Search : Type 0 where
  pub rows : List PageRow
  pub discovery : ℕ
  pub discovered : List Text

abbrev pub join_row : List Text → ℕ → PageRow → PageRow
join_row origins seed_rank row = record row {
  seed_origins = sorted_set (row.seed_origins ++ origins);
  seed_rank = min row.seed_rank seed_rank;
}

abbrev pub put_seed : Seed → Option PageRow → Search → Search
put_seed seed none s = record s {
  rows =
      s.rows
      ++ (record {
        file = seed.file;
        is_seed = true;
        seed_origins = seed.origin ∷ [];
        distance = 0;
        seed_rank = seed.seed_rank;
        discovery = s.discovery;
      })
        ∷ [];
  discovery = s.discovery + 1;
}
put_seed seed (some row) s = record s {
  rows = change_row seed.file (join_row (seed.origin ∷ []) seed.seed_rank) s.rows;
}

unfoldable pub put_seeds : Option (List Text) → List Seed → Search → Search
unfolding find_row change_row sorted_set
put_seeds allowed [] s = s
put_seeds allowed (seed ∷ seeds) s =
    put_seeds allowed seeds
      (if not (in_scope allowed seed.file) then s else put_seed seed (find_row seed.file s.rows) s)

abbrev pub reach : ℕ → PageRow → Text → Option PageRow → Search → Search
reach distance parent neighbor none s = record {
  rows =
      s.rows
      ++ (record {
        file = neighbor;
        is_seed = false;
        seed_origins = parent.seed_origins;
        distance = distance;
        seed_rank = parent.seed_rank;
        discovery = s.discovery;
      })
        ∷ [];
  discovery = s.discovery + 1;
  discovered = s.discovered ++ neighbor ∷ [];
}
reach distance parent neighbor (some row) s =
    if row.distance == distance
    then record s {
      rows = change_row neighbor (join_row parent.seed_origins parent.seed_rank) s.rows;
    }
    else s

unfoldable pub reach_all : Option (List Text) → ℕ → PageRow → List Text → Search → Search
unfolding find_row change_row sorted_set
reach_all allowed distance parent [] s = s
reach_all allowed distance parent (neighbor ∷ neighbors) s =
    reach_all allowed distance parent neighbors (
      if not (in_scope allowed neighbor)
      then s
      else reach distance parent neighbor (find_row neighbor s.rows) s)

module _ (neighbor_provider : Text → List Text) (allowed : Option (List Text)) where
  -- A file of the frontier has its row.
  abbrev pub expand_row : ℕ → Option PageRow → List Text → Search → Search
  expand_row distance none neighbors s = s
  expand_row distance (some parent) neighbors s = reach_all allowed distance parent neighbors s

  unfoldable pub expand : ℕ → List Text → Search → Search
  unfolding reach_all sorted_set find_row
  expand distance [] s = s
  expand distance (file ∷ files) s =
      expand distance files
        (expand_row distance (find_row file s.rows) (sorted_set (neighbor_provider file)) s)

abbrev pub found_leb : PageRow → PageRow → Bool
found_leb a b =
    then_by a.seed_rank b.seed_rank (then_by_text a.file b.file (leb a.discovery b.discovery))

-- What the cap leaves of the pages that were discovered last.
unfoldable pub kept_files : ℕ → ℕ → Search → List Text
unfolding sort_by text_leb
kept_files cap seed_count s =
    let previous = length s.rows - seed_count - length s.discovered in
    take (cap - previous) (
      map (λ row. row.file)
        (sort_by found_leb (select (λ row. contains s.discovered row.file) s.rows)))

-- `next_frontier` holds what was discovered.
unfoldable pub cut_discovered : ℕ → ℕ → Search → Search
unfolding kept_files
cut_discovered cap seed_count s =
    let kept = kept_files cap seed_count s in
    let previous = length s.rows - seed_count - length s.discovered in
    if cap == 0 then s else if leb (length s.discovered) (cap - previous) then s else record s {
      rows = select (λ row. not (contains s.discovered row.file) || contains kept row.file) s.rows;
      discovered = select (contains kept) s.discovered;
    }

module _ (neighbor_provider : Text → List Text) (allowed : Option (List Text)) where
  -- `levels` distances are left; this one is `distance`.
  unfoldable pub search_levels : ℕ → ℕ → ℕ → ℕ → List Text → Search → Search
  unfolding expand cut_discovered
  search_levels cap seed_count zero distance frontier s = s
  search_levels cap seed_count (suc levels) distance frontier s =
      let next =
        cut_discovered cap seed_count
          (expand neighbor_provider allowed distance frontier (record s { discovered = [] })) in
      let rest = search_levels cap seed_count levels (distance + 1) next.discovered next in
      if not (cap == 0) && leb cap (length s.rows - seed_count) then s else rest

abbrev pub source_rank : PageRow → ℕ
source_rank row = if row.is_seed then 0 else 1

abbrev pub ranked_leb : PageRow → PageRow → Bool
ranked_leb a b =
    then_by (source_rank a) (source_rank b) (then_by a.distance b.distance (found_leb a b))

abbrev pub nothing_found : Search
nothing_found = record { rows = []; discovery = 0; discovered = [] }

unfoldable pub seeded : Option (List Text) → List Seed → Search
unfolding put_seeds sort_by text_leb
seeded allowed seeds = put_seeds allowed (sort_by seed_leb seeds) nothing_found

abbrev pub capped_rows : ℕ → ℕ → List PageRow → List PageRow
capped_rows zero seed_count rows = rows
capped_rows (suc cap) seed_count rows = take (seed_count + suc cap) rows

-- A depth or a cap that is not positive is 0.
unfoldable pub rank_neighbor_pages :
    List Seed → (Text → List Text) → ℕ → ℕ → Option (List Text) → List PageRow
unfolding seeded search_levels sort_by text_leb
rank_neighbor_pages seeds neighbor_provider depth cap allowed =
    let s = seeded allowed seeds in
    let found =
      search_levels neighbor_provider allowed cap (length s.rows) depth 1
        (map (λ row. row.file) s.rows) s in
    capped_rows cap (length s.rows) (sort_by ranked_leb found.rows)
