-- ===== src/Hosted/Snapshots/Cycle.antt =====
-- The cleanup cycle of postgres/codegraph.py: its loops on their budgets.
use iwiki_mcp.Prelude.{
  ℕ, zero, suc, ◌+◌, ◌-◌, ◌≤◌, min, ◌≡◌, refl, ap, ◌∙◌, ◌≢◌, Bool, true, false, not, ◌||◌, Option,
  some, List, [], ◌∷◌, arith, ltb, leb, ◌==◌, if◌then◌else◌, nat_eq, any, list_eq,
}
use iwiki_mcp.CodeGraph.Publication.{Encoding}
use iwiki_mcp.Hosted.Snapshots.Tables.{Store}
use iwiki_mcp.Hosted.Snapshots.Sessions.{Settings}
use iwiki_mcp.Hosted.Snapshots.Drain.{
  ChildTable, child_tables, DrainState, batch_size, rows_taken, after_batch, rows_of,
  still_superseded, drain_table, drain_tables, drain_row, drain_snapshot, drain_candidates, drain,
  run_cleanup_cycle, delete_snapshot_row, superseded_candidates, no_candidates, adding_removed,
  deleted, is_deletable,
}
use iwiki_mcp.Hosted.Snapshots.Guarding.{not-false, not_leb}
use iwiki_mcp.Hosted.Snapshots.Removals.{Removals, delete_batch-rows, Removals-row, Removals-append}

holds-if :
    {A : Type 0} (P : A → Type 0) (b : Bool) (x y : A)
    → (b ≡ true → P x)
    → (b ≡ false → P y)
    → P (if b then x else y)
holds-if P true x y h k = h refl
holds-if P false x y h k = k refl

not_same : (a b : ℕ) → (a == b) ≡ false → a ≢ b
not_same a b h = ground arith

add_one : (n : ℕ) → n + 1 ≡ suc n
add_one n = omega arith

in_budget : (a b : Bool) → (a || not b) ≡ false → b ≡ true
in_budget a b h = ground arith

taken_within :
    (removed budget a b : ℕ)
    → removed ≤ budget
    → removed + min (min a (budget - removed)) b ≤ budget
taken_within removed budget a b h = omega arith

-- The store was come to by deletions that the number counts, and that is no more than the budget.
record Drained {v : Encoding} (s : Store v) (budget : ℕ) (r : ℕ × Store v) : Type 0 where
  steps : Removals s r.0 r.1
  within : r.0 ≤ budget

room_left :
    (cycle done more : ℕ)
    → leb cycle done ≡ false
    → more ≤ cycle - done + 1
    → done + more ≤ cycle + 1
room_left cycle done more room h = omega (arith, not_leb cycle done room)

more_fuel :
    (cycle done next fuel : ℕ)
    → cycle ≤ done + suc fuel
    → done ≤ next
    → (done == next) ≡ false
    → cycle ≤ next + fuel
more_fuel cycle done next fuel enough grows moved =
    omega (arith, enough, grows, not_same done next moved)

drain_candidates-grows :
    {v : Encoding} (c : Settings) (ids : List ℕ) (p : ℕ × Store v)
    → p.0 ≤ (drain_candidates c ids p).0
unfolding drain_candidates
drain_candidates-grows c [] p = omega arith
drain_candidates-grows c (id ∷ ids) p =
    let r = drain_snapshot c id (c.cleanup_cycle_rows - p.0) p.1 in
    holds-if (λ q. p.0 ≤ q.0) (leb c.cleanup_cycle_rows p.0) p
      (drain_candidates c ids (p.0 + r.0, r.1)) (λ _. omega arith)
      (λ _. omega (arith, drain_candidates-grows c ids (p.0 + r.0, r.1)))

-- The option holds a value, with the property.
abbrev Returns : {A : Type 0} → (A → Type 0) → Option A → Type 0
Returns P o = (x : _) × ((o ≡ some x) × P x)

if_else :
    {A : Type 0} (b : Bool) (x y z : A)
    → (b ≡ false → y ≡ z)
    → (if b then x else y) ≡ (if b then x else z)
if_else true x y z h = refl
if_else false x y z h = h refl

-- More fuel than the room that is left of the budget changes nothing.
drain_table_fuel :
    {v : Encoding} (c : Settings) (id budget : ℕ) (table : ChildTable) (fuel : ℕ) (p : DrainState v)
    → budget ≤ p.removed + fuel
    → drain_table c id budget table (suc fuel) p ≡ drain_table c id budget table fuel p
unfolding drain_table after_batch
drain_table_fuel c id budget table zero p enough =
    holds-if (λ q. q ≡ p) (p.returned || not (ltb p.removed budget)) p _ (λ _. refl)
      (λ runs. absurd (ground (arith, in_budget p.returned (ltb p.removed budget) runs, enough)))
drain_table_fuel c id budget table (suc fuel) p enough =
    if_else (p.returned || not (ltb p.removed budget)) p _ _ (λ _.
      if_else (not (still_superseded id p.store)) (record p { returned = true }) _ _
        (λ _. if_else (rows_taken c id budget table p == 0) p _ _ (λ some_taken.
          drain_table_fuel c id budget table fuel (after_batch c id budget table p)
            (omega (arith, enough, not_same (rows_taken c id budget table p) 0 some_taken)))))

module _ {v : Encoding} (s : Store v) (c : Settings) (id budget : ℕ) where
  drain_table-Drained :
      (table : ChildTable) (fuel : ℕ) (p : DrainState v)
      → Drained s budget (p.removed, p.store)
      → Drained s budget (
        (drain_table c id budget table fuel p).removed,
        (drain_table c id budget table fuel p).store,
      )
  unfolding drain_table after_batch
  drain_table-Drained table zero p h = h
  drain_table-Drained table (suc fuel) p h =
      holds-if P (p.returned || not (ltb p.removed budget)) p _ (λ _. h)
        (λ runs.
          holds-if P (not (still_superseded id p.store)) (record p { returned = true }) _
            (λ _. record { steps = h.steps; within = h.within })
            (λ superseded.
              holds-if P (rows_taken c id budget table p == 0) p
                (drain_table c id budget table fuel (after_batch c id budget table p)) (λ _. h)
                (λ _. drain_table-Drained table fuel (after_batch c id budget table p) (record {
                  steps =
                      Removals.batch h.steps table id (batch_size c id budget p)
                        (rows_taken c id budget table p)
                        (p.removed + rows_taken c id budget table p)
                        (not-false (still_superseded id p.store) superseded)
                        (delete_batch-rows table id (batch_size c id budget p) p.store) refl;
                  within =
                      taken_within p.removed budget c.cleanup_batch_rows (rows_of table id p.store)
                        h.within;
                }))))
    where
      P : DrainState v → Type 0
      P q = Drained s budget (q.removed, q.store)

  drain_tables-Drained :
      (tables : List ChildTable) (p : DrainState v)
      → Drained s budget (p.removed, p.store)
      → Drained s budget
          ((drain_tables c id budget tables p).removed, (drain_tables c id budget tables p).store)
  unfolding drain_tables
  drain_tables-Drained [] p h = h
  drain_tables-Drained (table ∷ tables) p h =
      drain_tables-Drained tables (drain_table c id budget table budget p)
        (drain_table-Drained table budget p h)

  deleted_one : (b : Bool) (t : Store v) → (deleted b id t).0 ≤ 1
  deleted_one true t = omega arith
  deleted_one false t = omega arith

  drain_row-Drained :
      (p : DrainState v)
      → Drained s budget (p.removed, p.store)
      → Drained s (budget + 1) (drain_row c id budget p)
  unfolding delete_snapshot_row
  drain_row-Drained p h =
      holds-if (Drained s (budget + 1)) (p.returned || not (still_superseded id p.store))
        (p.removed, p.store) (adding_removed p.removed (delete_snapshot_row id p.store))
        (λ _. record { steps = h.steps; within = omega (arith, h.within) })
        (λ runs. record {
          steps =
              Removals-row s p.store p.removed id h.steps
                (in_budget p.returned (still_superseded id p.store) runs);
          within = omega (
            arith,
            h.within,
            deleted_one (any (is_deletable id p.store) p.store.snapshots) p.store,
          );
        })

  drain_snapshot-Drained : Drained s (budget + 1) (drain_snapshot c id budget s)
  unfolding drain_snapshot
  drain_snapshot-Drained =
      let p : DrainState v = record { removed = 0; store = s; returned = false } in
      drain_row-Drained (drain_tables c id budget child_tables p) (
        drain_tables-Drained child_tables p
          (record { steps = Removals.nothing s; within = omega arith }))

module _ {v : Encoding} where
  module _ (s : Store v) (c : Settings) where
    drain_candidates-Drained :
        (ids : List ℕ) (p : ℕ × Store v)
        → Drained s (c.cleanup_cycle_rows + 1) p
        → Drained s (c.cleanup_cycle_rows + 1) (drain_candidates c ids p)
    unfolding drain_candidates
    drain_candidates-Drained [] p h = h
    drain_candidates-Drained (id ∷ ids) p h =
        let r = drain_snapshot c id (c.cleanup_cycle_rows - p.0) p.1 in
        let k = drain_snapshot-Drained p.1 c id (c.cleanup_cycle_rows - p.0) in
        holds-if (Drained s (c.cleanup_cycle_rows + 1)) (leb c.cleanup_cycle_rows p.0) p
          (drain_candidates c ids (p.0 + r.0, r.1)) (λ _. h)
          (λ room.
            drain_candidates-Drained ids (p.0 + r.0, r.1)
              (record {
                steps = Removals-append s p.1 r.1 p.0 r.0 h.steps k.steps;
                within = room_left c.cleanup_cycle_rows p.0 r.0 room k.within;
              }))

    drain-Drained :
        (clock : ℕ → ℕ) (fuel : ℕ) (p : ℕ × Store v)
        → c.cleanup_cycle_rows ≤ p.0 + fuel
        → Drained s (c.cleanup_cycle_rows + 1) p
        → Returns (Drained s (c.cleanup_cycle_rows + 1)) (drain c clock (suc fuel) p)
    unfolding drain
    drain-Drained clock zero p enough h =
        holds-if P (leb c.cleanup_cycle_rows p.0) (some p) _ (λ _. (p, (refl, h)))
          (λ room. absurd (omega (arith, enough, not_leb c.cleanup_cycle_rows p.0 room)))
      where
        P : Option (ℕ × Store v) → Type 0
        P = Returns (Drained s (c.cleanup_cycle_rows + 1))
    drain-Drained clock (suc fuel) p enough h =
        let ids = superseded_candidates c (clock (suc fuel)) p.1 in
        let q = drain_candidates c ids p in
        let k = drain_candidates-Drained ids p h in
        holds-if P (leb c.cleanup_cycle_rows p.0) (some p) _ (λ _. (p, (refl, h)))
          (λ _.
            holds-if P (no_candidates ids) (some p) _ (λ _. (p, (refl, h)))
              (λ _.
                holds-if P (p.0 == q.0) (some q) (drain c clock (suc fuel) q) (λ _. (q, (refl, k)))
                  (λ moved.
                    drain-Drained clock fuel q
                      (more_fuel c.cleanup_cycle_rows p.0 q.0 fuel enough
                        (drain_candidates-grows c ids p) moved)
                      k)))
      where
        P : Option (ℕ × Store v) → Type 0
        P = Returns (Drained s (c.cleanup_cycle_rows + 1))

  -- The cleanup cycle of a store with any settings and clock returns with a number that is at most
  -- one more than the rows of a cycle, and the tables that it leaves come from that number of counted
  -- deletions and nothing else: transactions that delete a batch of rows of one snapshot in a child
  -- table, counted as the rows that the table loses, or the row of a snapshot that is ready and has
  -- no files, counted as one whatever goes with it, each while the snapshot is not the active one.
  pub run_cleanup_cycle_returns :
      (c : Settings) (clock : ℕ → ℕ) (s : Store v)
      → (r : ℕ × Store v) × ((run_cleanup_cycle c clock s ≡ some r)
          × ((r.0 ≤ c.cleanup_cycle_rows + 1) × Removals s r.0 r.1))
  unfolding run_cleanup_cycle
  run_cleanup_cycle_returns c clock s =
      let d =
        drain-Drained s c clock c.cleanup_cycle_rows (0, s) (omega arith)
          (record { steps = Removals.nothing s; within = omega arith }) in
      (
        d.0,
        (
          ap (λ n. drain c clock n (0, s)) (add_one c.cleanup_cycle_rows) ∙ d.1.0,
          (d.1.1.within, d.1.1.steps),
        ),
      )
