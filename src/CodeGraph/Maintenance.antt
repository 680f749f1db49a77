-- ===== src/CodeGraph/Maintenance.antt =====
-- src/iwiki_mcp/codegraph/maintenance.py: `MaintenanceRuntime`, as a step relation between the
-- points at which its threads hold the lock or touch the queue. The binding and the settings of a
-- job, which the runtime only hands on, are left out; so are the log lines. What the runner
-- returns or raises does not matter: `_run` releases the key in both cases.
pub mod Invariant
pub mod Steps
pub mod Safety
mod Examples
use iwiki_mcp.Prelude.{
  ◌^◌, ℕ, zero, suc, ◌+◌, ◌-◌, ◌*◌, ◌/◌, ◌%◌, ◌≤◌, ◌<◌, min, max, ◌≡◌, refl, sym, ap, ◌∙◌, ◌≢◌, ◌↔◌,
  ◌⊎◌, inl, inr, Bool, true, false, not, ◌&&◌, ◌||◌, Option, none, some, List, [], ◌∷◌, ◌++◌, map,
  arith, ltb, leb, ◌==◌, if◌then◌else◌, leb→le, le→leb, ==_iff, Bool-cases, Option-cases, Eq,
  nat_eq, length, take, drop, get_elem?, length-append, length-take, take_of_length-le,
  take-append-drop, All, select, any, contains, list_beq, list_eq,
}
use iwiki_mcp.Text.{Text}

abbrev pub Key : Type 0
Key = Text × Text

abbrev pub same_key : Key → Key → Bool
same_key k q = list_beq k.0 q.0 && list_beq k.1 q.1

pub record CleanupJob : Type 0 where
  pub iwiki_id : Text
  pub domain : Text
  pub owner_id : Text
  pub lock_timeout_ms : ℕ

abbrev pub key : CleanupJob → Key
key job = (job.iwiki_id, job.domain)

pub data Item : Type 0 where
  work : CleanupJob → Item
  shutdown : Item

-- How far the one call of `stop` is.
pub data Phase : Type 0 where
  serving : Phase
  draining : Phase
  sending : ℕ → Phase
  joining : Phase
  stopped : Phase

-- The attributes of the runtime, and where its threads stand: the jobs of the submitters before
-- `put_nowait` and after `queue.Full`, those that `stop` has taken and not released yet, the
-- workers that wait for an item, and the jobs that run.
pub record Runtime : Type 0 where
  pub workers_wanted : ℕ
  pub queue_size : ℕ
  pub queue : List Item
  pub scheduled : Key → Bool
  pub threads : ℕ
  pub stopping : Bool
  pub dropped : ℕ
  pub submitting : List CleanupJob
  pub turned_away : List CleanupJob
  pub drained : List CleanupJob
  pub idle : ℕ
  pub running : List CleanupJob
  pub phase : Phase

abbrev pub maintenance_workers : ℕ
maintenance_workers = 2

abbrev pub maintenance_queue_size : ℕ
maintenance_queue_size = 256

unfoldable pub initial : ℕ → ℕ → Runtime
initial workers queue_size = record {
  workers_wanted = workers;
  queue_size = queue_size;
  queue = [];
  scheduled = λ _. false;
  threads = 0;
  stopping = false;
  dropped = 0;
  submitting = [];
  turned_away = [];
  drained = [];
  idle = 0;
  running = [];
  phase = serving;
}

unfoldable pub add : Key → (Key → Bool) → Key → Bool
add q scheduled k = if same_key k q then true else scheduled k

unfoldable pub discard : Key → (Key → Bool) → Key → Bool
discard q scheduled k = if same_key k q then false else scheduled k

-- `queue.Queue.full()`: a maximal size of zero is no bound.
unfoldable pub is_full : Runtime → Bool
is_full s = not (s.queue_size == 0) && leb s.queue_size (length s.queue)

unfoldable pub start : Runtime → Runtime
start s =
    if not (s.threads == 0) || s.stopping
    then s
    else record s { threads = s.workers_wanted; idle = s.idle + s.workers_wanted }

-- The first critical section of `submit`; where it refuses, `submit` returns False.
unfoldable pub submit_begin : CleanupJob → Runtime → Runtime
unfolding add
submit_begin job s =
    if s.stopping
    then s
    else if s.scheduled (key job)
    then s
    else record s { scheduled = add (key job) s.scheduled; submitting = job ∷ s.submitting }

-- `put_nowait` of one of the waiting submitters; the others are `rest`.
unfoldable pub submit_put : CleanupJob → List CleanupJob → Runtime → Runtime
unfolding is_full
submit_put job rest s =
    if is_full s
    then record s { submitting = rest; turned_away = job ∷ s.turned_away }
    else record s { submitting = rest; queue = s.queue ++ work job ∷ [] }

unfoldable pub submit_drop : CleanupJob → List CleanupJob → Runtime → Runtime
unfolding discard
submit_drop job rest s = record s {
  turned_away = rest;
  scheduled = discard (key job) s.scheduled;
  dropped = s.dropped + 1;
}

-- A waiting worker takes an item: it runs the job, or leaves at the sentinel.
unfoldable pub worker_get : Item → List Item → ℕ → Runtime → Runtime
worker_get (work job) rest idle s = record s {
  queue = rest;
  idle = idle;
  running = job ∷ s.running;
}
worker_get shutdown rest idle s = record s { queue = rest; idle = idle }

unfoldable pub worker_done : CleanupJob → List CleanupJob → Runtime → Runtime
unfolding discard
worker_done job rest s = record s {
  running = rest;
  scheduled = discard (key job) s.scheduled;
  idle = s.idle + 1;
}

unfoldable pub stop_begin : Runtime → Runtime
stop_begin s = record s { stopping = true; phase = draining }

unfoldable pub stop_take : Item → List Item → Runtime → Runtime
stop_take (work job) rest s = record s { queue = rest; drained = job ∷ s.drained }
stop_take shutdown rest s = record s { queue = rest }

unfoldable pub stop_release : CleanupJob → List CleanupJob → Runtime → Runtime
unfolding discard
stop_release job rest s = record s { drained = rest; scheduled = discard (key job) s.scheduled }

-- `put_nowait(_SHUTDOWN)`, which leaves the loop when the queue is full.
unfoldable pub stop_send : ℕ → Runtime → Runtime
unfolding is_full
stop_send left s =
    if is_full s
    then record s { phase = joining }
    else record s { phase = sending left; queue = s.queue ++ shutdown ∷ [] }

unfoldable pub stop_clear : Runtime → Runtime
stop_clear s = record s { threads = 0; scheduled = λ _. false; phase = stopped }

-- One element of a list, and the others in their order.
pub data Pick (job : CleanupJob) : List CleanupJob → List CleanupJob → Type 0 where
  here : {jobs : List CleanupJob} → Pick job (job ∷ jobs) jobs
  there :
      {other : CleanupJob} {jobs rest : List CleanupJob}
      → Pick job jobs rest
      → Pick job (other ∷ jobs) (other ∷ rest)

-- The steps of all threads, in whatever order they come.
pub data Step (s : Runtime) : Runtime → Type 0 where
  starts : Step s (start s)
  submits : (job : CleanupJob) → Step s (submit_begin job s)
  puts :
      (job : CleanupJob) (rest : List CleanupJob)
      → Pick job s.submitting rest
      → Step s (submit_put job rest s)
  drops :
      (job : CleanupJob) (rest : List CleanupJob)
      → Pick job s.turned_away rest
      → Step s (submit_drop job rest s)
  gets :
      (item : Item) (rest : List Item) (idle : ℕ)
      → s.queue ≡ item ∷ rest
      → s.idle ≡ suc idle
      → Step s (worker_get item rest idle s)
  finishes :
      (job : CleanupJob) (rest : List CleanupJob)
      → Pick job s.running rest
      → Step s (worker_done job rest s)
  stops : s.phase ≡ serving → Step s (stop_begin s)
  takes :
      (item : Item) (rest : List Item)
      → s.phase ≡ draining
      → s.drained ≡ []
      → s.queue ≡ item ∷ rest
      → Step s (stop_take item rest s)
  releases :
      (job : CleanupJob) (rest : List CleanupJob)
      → Pick job s.drained rest
      → Step s (stop_release job rest s)
  empties :
      s.phase ≡ draining
      → s.drained ≡ []
      → s.queue ≡ []
      → Step s (record s { phase = sending s.threads })
  sends : (left : ℕ) → s.phase ≡ sending (suc left) → Step s (stop_send left s)
  sent : s.phase ≡ sending 0 → Step s (record s { phase = joining })
  clears : s.phase ≡ joining → Step s (stop_clear s)

-- The states of a runtime from its construction on.
pub data Reach (workers queue_size : ℕ) : Runtime → Type 0 where
  made : Reach workers queue_size (initial workers queue_size)
  after : {s t : Runtime} → Reach workers queue_size s → Step s t → Reach workers queue_size t
