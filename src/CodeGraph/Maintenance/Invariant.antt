-- ===== src/CodeGraph/Maintenance/Invariant.antt =====
-- The invariant of the maintenance runtime, and the counting of its jobs.
use iwiki_mcp.Prelude.{
  ℕ, suc, ◌+◌, ◌≤◌, ◌<◌, ◌≡◌, refl, ap, ◌∙◌, inl, inr, Bool, true, false, List, [], ◌∷◌, ◌++◌,
  arith, Bool-cases, nat_eq, length, length-append, list_eq, list_beq_iff,
}
use iwiki_mcp.CodeGraph.Maintenance.{
  Key, same_key, CleanupJob, key, Item, work, shutdown, Phase, serving, draining, sending, joining,
  stopped, Runtime, add, discard, is_full, Pick, here, there,
}

abbrev pub bit : Bool → ℕ
bit true = 1
bit false = 0

-- How many of the jobs are for the key.
abbrev pub count : Key → List CleanupJob → ℕ
count k [] = 0
count k (job ∷ jobs) = bit (same_key k (key job)) + count k jobs

abbrev pub count_item : Key → Item → ℕ
count_item k (work job) = bit (same_key k (key job))
count_item k shutdown = 0

abbrev pub count_items : Key → List Item → ℕ
count_items k [] = 0
count_items k (item ∷ items) = count_item k item + count_items k items

-- How many jobs of the key the runtime holds, wherever they are.
abbrev pub in_play : Key → Runtime → ℕ
in_play k s =
    count k s.submitting
    + count k s.turned_away
    + count_items k s.queue
    + count k s.drained
    + count k s.running

abbrev pub is_stopped : Phase → Bool
is_stopped serving = false
is_stopped draining = false
is_stopped (sending n) = false
is_stopped joining = false
is_stopped stopped = true

abbrev pub is_serving : Phase → Bool
is_serving serving = true
is_serving draining = false
is_serving (sending n) = false
is_serving joining = false
is_serving stopped = false

pub record IsSound (s : Runtime) : Type 0 where
  -- Until `stop` clears the set, a key is scheduled when a job of it is held, and once at most.
  pub exact : (k : Key) → is_stopped s.phase ≡ false → in_play k s ≡ bit (s.scheduled k)
  pub once : (k : Key) → in_play k s ≤ 1
  pub halted : is_serving s.phase ≡ false → s.stopping ≡ true
  pub room : 0 < s.queue_size → length s.queue ≤ s.queue_size
  pub crew : s.idle + length s.running ≤ s.workers_wanted
  pub manned : s.stopping ≡ false → s.threads ≡ 0 → s.idle + length s.running ≡ 0

pub bit-le : (b : Bool) → bit b ≤ 1
bit-le true = omega arith
bit-le false = omega arith

pub room_for_one :
    (s : Runtime) (item : Item)
    → is_full s ≡ false
    → 0 < s.queue_size
    → length (s.queue ++ item ∷ []) ≤ s.queue_size
unfolding is_full
room_for_one s item e bounded = ground (arith, length-append s.queue (item ∷ []))

pub Pick-count :
    {job : CleanupJob} {jobs rest : List CleanupJob} (k : Key)
    → Pick job jobs rest
    → count k jobs ≡ bit (same_key k (key job)) + count k rest
Pick-count k here = refl
Pick-count k (there p) = omega (arith, Pick-count k p)

pub Pick-length :
    {job : CleanupJob} {jobs rest : List CleanupJob}
    → Pick job jobs rest
    → length jobs ≡ suc (length rest)
Pick-length here = refl
Pick-length (there p) = omega (arith, Pick-length p)

pub count_items-snoc :
    (k : Key) (items : List Item) (item : Item)
    → count_items k (items ++ item ∷ []) ≡ count_items k items + count_item k item
count_items-snoc k [] item = omega arith
count_items-snoc k (first ∷ items) item = omega (arith, count_items-snoc k items item)

pub same_key-eq : (k q : Key) → same_key k q ≡ true → k ≡ q
same_key-eq k q h = ground (arith, list_beq_iff k.0 q.0, list_beq_iff k.1 q.1)

-- Discarding the key of a job that leaves keeps the count exact.
pub discard-exact :
    (q : Key) (scheduled : Key → Bool) (k : Key) (held left : ℕ)
    → held ≡ bit (same_key k q) + left
    → held ≡ bit (scheduled k)
    → left ≡ bit (discard q scheduled k)
unfolding discard
discard-exact q scheduled k held left split exact = ground arith

-- Adding a key that is not scheduled keeps it, too.
pub add-exact :
    (q : Key) (scheduled : Key → Bool) (k : Key) (n : ℕ)
    → scheduled q ≡ false
    → n ≡ bit (scheduled k)
    → bit (same_key k q) + n ≡ bit (add q scheduled k)
unfolding add
add-exact q scheduled k n absent exact = elim (Bool-cases (same_key k q)) [
  | inl e ↦
      let none_of_k : scheduled k ≡ false = ap scheduled (same_key-eq k q e) ∙ absent in
      rw e (omega (arith, exact, ap bit none_of_k))
  | inr e ↦ rw e (omega (arith, exact))
]
