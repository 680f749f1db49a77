-- ===== src/Engine/Neighbors/Scope.antt =====
-- engine/hier.py: the allowed pages are a boundary of the search of `rank_neighbor_pages`.
use iwiki_mcp.Prelude.{
  ℕ, zero, suc, ◌+◌, ◌-◌, ◌≡◌, refl, ap, ◌∙◌, inl, inr, Bool, true, false, not, ◌&&◌, ◌||◌, Option,
  none, some, List, [], ◌∷◌, ◌++◌, map, leb, ◌==◌, if◌then◌else◌, Bool-cases, nat_eq, length, take,
  All, select, contains, list_beq, list_eq,
}
use iwiki_mcp.Text.{Text}
use iwiki_mcp.Engine.Neighbors.{
  PageRow, Seed, Search, in_scope, find_row, change_row, join_row, put_seed, put_seeds, reach,
  reach_all, expand, expand_row, cut_discovered, kept_files, search_levels, seeded, nothing_found,
  seed_leb, sorted_set, ranked_leb, capped_rows, rank_neighbor_pages,
}
use iwiki_mcp.Prelude.Sort.{sort_by, All-sort_by}

All-append : {A : Type 0} (P : A → Type 0) (xs ys : List A) → All P xs → All P ys → All P (xs ++ ys)
All-append P [] ys h k = k
All-append P (x ∷ xs) ys h k = (h.0, All-append P xs ys h.1 k)

All-select :
    {A : Type 0} (P : A → Type 0) (keep : A → Bool) (xs : List A)
    → All P xs
    → All P (select keep xs)
All-select P keep [] h = tt
All-select P keep (x ∷ xs) h = elim (Bool-cases (keep x)) [
  | inl e ↦ rw (e) (h.0, All-select P keep xs h.1)
  | inr e ↦ rw (e) (All-select P keep xs h.1)
]

All-take : {A : Type 0} (P : A → Type 0) (n : ℕ) (xs : List A) → All P xs → All P (take n xs)
All-take P zero xs h = tt
All-take P (suc n) [] h = tt
All-take P (suc n) (x ∷ xs) h = (h.0, All-take P n xs h.1)

module _ (allowed : Option (List Text)) where
  abbrev pub IsIn : Text → Type 0
  IsIn file = in_scope allowed file ≡ true

  abbrev pub RowIn : PageRow → Type 0
  RowIn row = IsIn row.file

  record IsWithin (s : Search) : Type 0 where
    rows : All RowIn s.rows
    discovered : All IsIn s.discovered

  changed-RowIn :
      (b : Bool) (change : PageRow → PageRow) (row : PageRow)
      → (change row).file ≡ row.file
      → RowIn row
      → RowIn (if b then change row else row)
  changed-RowIn true change row same h = ap (in_scope allowed) same ∙ h
  changed-RowIn false change row same h = h

  change_row-In :
      (file : Text) (change : PageRow → PageRow) (rows : List PageRow)
      → ((row : PageRow) → (change row).file ≡ row.file)
      → All RowIn rows
      → All RowIn (change_row file change rows)
  unfolding change_row
  change_row-In file change [] same h = tt
  change_row-In file change (row ∷ rows) same h = (
    changed-RowIn (list_beq file row.file) change row (same row) h.0,
    change_row-In file change rows same h.1,
  )

  put_seed-In :
      (seed : Seed) (o : Option PageRow) (s : Search)
      → IsIn seed.file
      → IsWithin s
      → IsWithin (put_seed seed o s)
  put_seed-In seed none s i h = record {
    rows = All-append RowIn s.rows _ h.rows (i, tt);
    discovered = h.discovered;
  }
  put_seed-In seed (some row) s i h = record {
    rows =
        change_row-In seed.file (join_row (seed.origin ∷ []) seed.seed_rank) s.rows (λ r. refl)
          h.rows;
    discovered = h.discovered;
  }

  unless_out :
      (b : Bool) (s t : Search)
      → (b ≡ true → IsWithin t)
      → IsWithin s
      → IsWithin (if not b then s else t)
  unless_out true s t k h = k refl
  unless_out false s t k h = h

  put_seeds-In :
      (seeds : List Seed) (s : Search) → IsWithin s → IsWithin (put_seeds allowed seeds s)
  unfolding put_seeds
  put_seeds-In [] s h = h
  put_seeds-In (seed ∷ seeds) s h = put_seeds-In seeds _ (
      unless_out (in_scope allowed seed.file) s (put_seed seed (find_row seed.file s.rows) s)
        (λ i. put_seed-In seed (find_row seed.file s.rows) s i h) h)

  reach-In :
      (distance : ℕ) (parent : PageRow) (neighbor : Text) (o : Option PageRow) (s : Search)
      → IsIn neighbor
      → IsWithin s
      → IsWithin (reach distance parent neighbor o s)
  reach-In distance parent neighbor none s i h = record {
    rows = All-append RowIn s.rows _ h.rows (i, tt);
    discovered = All-append IsIn s.discovered _ h.discovered (i, tt);
  }
  reach-In distance parent neighbor (some row) s i h = same_distance (row.distance == distance)
    where
      same_distance :
          (b : Bool)
          → IsWithin (
              if b
              then record s {
                rows = change_row neighbor (join_row parent.seed_origins parent.seed_rank) s.rows;
              }
              else s)
      same_distance true = record {
        rows =
            change_row-In neighbor (join_row parent.seed_origins parent.seed_rank) s.rows
              (λ r. refl) h.rows;
        discovered = h.discovered;
      }
      same_distance false = h

  reach_all-In :
      (distance : ℕ) (parent : PageRow) (neighbors : List Text) (s : Search)
      → IsWithin s
      → IsWithin (reach_all allowed distance parent neighbors s)
  unfolding reach_all
  reach_all-In distance parent [] s h = h
  reach_all-In distance parent (n ∷ neighbors) s h = reach_all-In distance parent neighbors _ (
      unless_out (in_scope allowed n) s (reach distance parent n (find_row n s.rows) s)
        (λ i. reach-In distance parent n (find_row n s.rows) s i h) h)

  expand_row-In :
      (p : Text → List Text) (distance : ℕ) (o : Option PageRow) (neighbors : List Text)
      (s : Search)
      → IsWithin s
      → IsWithin (expand_row p allowed distance o neighbors s)
  expand_row-In p distance none neighbors s h = h
  expand_row-In p distance (some parent) neighbors s h = reach_all-In distance parent neighbors s h

  expand-In :
      (p : Text → List Text) (distance : ℕ) (files : List Text) (s : Search)
      → IsWithin s
      → IsWithin (expand p allowed distance files s)
  unfolding expand
  expand-In p distance [] s h = h
  expand-In p distance (file ∷ files) s h =
      expand-In p distance files _
        (expand_row-In p distance (find_row file s.rows) (sorted_set (p file)) s h)

  cut_discovered-In :
      (cap seed_count : ℕ) (s : Search) → IsWithin s → IsWithin (cut_discovered cap seed_count s)
  unfolding cut_discovered
  cut_discovered-In cap seed_count s h = first (cap == 0)
    where
      kept : List Text
      kept = kept_files cap seed_count s

      fewer : Search
      fewer = record s {
        rows =
            select (λ row. not (contains s.discovered row.file) || contains kept row.file) s.rows;
        discovered = select (contains kept) s.discovered;
      }

      second : (b : Bool) → IsWithin (if b then s else fewer)
      second true = h
      second false = record {
        rows = All-select RowIn _ s.rows h.rows;
        discovered = All-select IsIn _ s.discovered h.discovered;
      }

      first :
          (b : Bool)
          → IsWithin (
              if b
              then s
              else if leb
                  (length s.discovered)
                  (cap - (length s.rows - seed_count - length s.discovered))
              then s
              else fewer)
      first true = h
      first false =
          second
            (leb (length s.discovered) (cap - (length s.rows - seed_count - length s.discovered)))

  stop_or :
      (b : Bool) (s x y : Search)
      → (x ≡ y) × IsWithin x
      → IsWithin s
      → ((if b then s else x) ≡ (if b then s else y)) × IsWithin (if b then s else x)
  stop_or true s x y r h = (refl, h)
  stop_or false s x y r h = r

  files-In : (rows : List PageRow) → All RowIn rows → All IsIn (map (λ row. row.file) rows)
  files-In [] h = tt
  files-In (row ∷ rows) h = (h.0, files-In rows h.1)

  seeded-In : (seeds : List Seed) → IsWithin (seeded allowed seeds)
  unfolding seeded
  seeded-In seeds =
      put_seeds-In (sort_by seed_leb seeds) nothing_found (record { rows = tt; discovered = tt })

  capped-In :
      (cap seed_count : ℕ) (rows : List PageRow)
      → All RowIn rows
      → All RowIn (capped_rows cap seed_count rows)
  capped-In zero seed_count rows h = h
  capped-In (suc cap) seed_count rows h = All-take RowIn (seed_count + suc cap) rows h

  module _ (p q : Text → List Text) (agree : (file : Text) → IsIn file → p file ≡ q file) where
    expand-same :
        (distance : ℕ) (files : List Text) (s : Search)
        → All IsIn files
        → expand p allowed distance files s ≡ expand q allowed distance files s
    unfolding expand
    expand-same distance [] s h = refl
    expand-same distance (file ∷ files) s h =
        expand-same distance files _ h.1
        ∙ ap
            (λ ns.
              expand q allowed distance files
                (expand_row q allowed distance (find_row file s.rows) (sorted_set ns) s))
            (agree file h.0)

    search_levels-same :
        (cap seed_count levels distance : ℕ) (frontier : List Text) (s : Search)
        → All IsIn frontier
        → IsWithin s
        → (search_levels p allowed cap seed_count levels distance frontier s
            ≡ search_levels q allowed cap seed_count levels distance frontier s)
          × IsWithin (search_levels p allowed cap seed_count levels distance frontier s)
    unfolding search_levels
    search_levels-same cap seed_count zero distance frontier s f h = (refl, h)
    search_levels-same cap seed_count (suc levels) distance frontier s f h =
        let start : Search = record s { discovered = [] } in
        let t = cut_discovered cap seed_count (expand p allowed distance frontier start) in
        let same = ap (cut_discovered cap seed_count) (expand-same distance frontier start f) in
        let k =
          cut_discovered-In cap seed_count (expand p allowed distance frontier start)
            (expand-In p distance frontier start (record { rows = h.rows; discovered = tt })) in
        let r =
          search_levels-same cap seed_count levels (distance + 1) t.discovered t k.discovered k in
        stop_or (not (cap == 0) && leb cap (length s.rows - seed_count)) s _ _
          (
            r.0
                ∙ ap
                    (λ z.
                      search_levels q allowed cap seed_count levels (distance + 1) z.discovered z)
                    same,
            r.1,
          )
          h

    -- The search depends on no page out of scope: two providers that agree on the allowed pages
    -- rank the same pages for the same seeds, depth and cap, and all of them are allowed.
    pub rank_neighbor_pages_scope :
        (seeds : List Seed) (depth cap : ℕ)
        → (rank_neighbor_pages seeds p depth cap allowed
            ≡ rank_neighbor_pages seeds q depth cap allowed)
          × All RowIn (rank_neighbor_pages seeds p depth cap allowed)
    unfolding rank_neighbor_pages
    rank_neighbor_pages_scope seeds depth cap =
        let s = seeded allowed seeds in
        let h = seeded-In seeds in
        let found =
          search_levels p allowed cap (length s.rows) depth 1 (map (λ row. row.file) s.rows) s in
        let r =
          search_levels-same cap (length s.rows) depth 1 (map (λ row. row.file) s.rows) s
            (files-In s.rows h.rows) h in
        (
          ap (λ z. capped_rows cap (length s.rows) (sort_by ranked_leb z.rows)) r.0,
          capped-In cap (length s.rows) (sort_by ranked_leb found.rows)
              (All-sort_by ranked_leb RowIn found.rows r.1.rows),
        )
