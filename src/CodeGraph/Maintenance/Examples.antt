-- ===== src/CodeGraph/Maintenance/Examples.antt =====
-- Two domains and a queue with one place: the second job is dropped, the first runs.
use iwiki_mcp.Prelude.{◌≤◌, ◌≡◌, refl, ◌↔◌, true, [], ◌∷◌, arith, nat_eq, length, list_eq}
use iwiki_mcp.Text.{codes}
use iwiki_mcp.CodeGraph.Maintenance.{
  CleanupJob, key, work, Runtime, initial, start, submit_begin, submit_put, submit_drop, worker_get,
  Pick, here, starts, submits, puts, drops, gets, Reach, made, after,
}
use iwiki_mcp.CodeGraph.Maintenance.Invariant.{in_play}
use iwiki_mcp.CodeGraph.Maintenance.Safety.{Reach-once, Reach-bounded, Reach-exact}

abbrev docs : CleanupJob
docs = record {
  iwiki_id = codes "w";
  domain = codes "docs";
  owner_id = codes "o";
  lock_timeout_ms = 1000;
}

abbrev ops : CleanupJob
ops = record {
  iwiki_id = codes "w";
  domain = codes "ops";
  owner_id = codes "o";
  lock_timeout_ms = 1000;
}

abbrev started : Runtime
started = start (initial 2 1)

abbrev submitted : Runtime
submitted = submit_begin ops (submit_begin docs started)

abbrev queued : Runtime
queued = submit_put ops [] (submit_put docs (ops ∷ []) submitted)

abbrev dropped : Runtime
dropped = submit_drop ops [] queued

abbrev taken : Runtime
taken = worker_get (work docs) [] 1 dropped

program : Unit {0}
unfolding initial start submit_begin submit_put submit_drop worker_get
program = tt

one_dropped : taken.dropped ≡ 1
unfolding program
one_dropped = refl

one_runs : taken.running ≡ docs ∷ []
unfolding program
one_runs = refl

-- A second job of the running domain is refused.
deduplicated : submit_begin docs taken ≡ taken
unfolding program
deduplicated = refl

reached : Reach 2 1 taken
unfolding program
reached =
    let submitting = after (after (after made starts) (submits docs)) (submits ops) in
    let putting =
      after (after submitting (puts docs (ops ∷ []) (Pick.there here))) (puts ops [] here) in
    after (after putting (drops ops [] here)) (gets (work docs) [] 1 refl refl)

Reach-once_example : in_play (key docs) taken ≤ 1
Reach-once_example = Reach-once reached (key docs)

Reach-bounded_example : (length taken.queue ≤ 1) × (length taken.running ≤ 2)
Reach-bounded_example = Reach-bounded reached (omega arith)

Reach-exact_example : (taken.scheduled (key ops) ≡ true) ↔ (in_play (key ops) taken ≡ 1)
unfolding program
Reach-exact_example = Reach-exact reached refl (key ops)
