-- ===== src/CodeGraph/Maintenance/Steps.antt =====
-- What every step of the maintenance runtime keeps, one by one.
use iwiki_mcp.Prelude.{
  ℕ, suc, ◌+◌, ◌≡◌, refl, ap, inl, inr, Bool, true, false, not, ◌||◌, List, ◌∷◌, arith, ◌==◌,
  if◌then◌else◌, Bool-cases, nat_eq, length, list_eq,
}
use iwiki_mcp.CodeGraph.Maintenance.{
  Key, same_key, CleanupJob, key, Item, work, shutdown, Phase, serving, draining, sending, joining,
  stopped, Runtime, initial, add, is_full, start, submit_begin, submit_put, submit_drop, worker_get,
  worker_done, stop_take, stop_release, Pick,
}
use iwiki_mcp.CodeGraph.Maintenance.Invariant.{
  IsSound, bit, count_items, in_play, is_stopped, is_serving, Pick-count, Pick-length,
  count_items-snoc, discard-exact, add-exact, bit-le, room_for_one,
}

pub initial-IsSound : (workers queue_size : ℕ) → IsSound (initial workers queue_size)
unfolding initial
initial-IsSound workers queue_size = record {
  exact = λ k h. refl;
  once = λ k. omega arith;
  halted = λ h. ground arith;
  room = λ h. omega arith;
  crew = omega arith;
  manned = λ h k. refl;
}

pub start-IsSound : (s : Runtime) → IsSound s → IsSound (start s)
unfolding start
start-IsSound s h = elim (Bool-cases (not (s.threads == 0) || s.stopping)) [
  | inl e ↦ rw e h
  | inr e ↦
      let none : s.idle + length s.running ≡ 0 = h.manned (ground arith) (ground arith) in
      rw e (record {
        exact = h.exact;
        once = h.once;
        halted = h.halted;
        room = h.room;
        crew = omega (arith, none);
        manned = λ k z. omega (arith, none, z);
      })
]

-- A runtime that is not stopping has not cleared its set.
pub serving-exact : (s : Runtime) → IsSound s → s.stopping ≡ false → is_stopped s.phase ≡ false
serving-exact s h free = of_phase s.phase h.halted
  where
    of_phase : (p : Phase) → (is_serving p ≡ false → s.stopping ≡ true) → is_stopped p ≡ false
    of_phase serving halted = refl
    of_phase draining halted = refl
    of_phase (sending n) halted = refl
    of_phase joining halted = refl
    of_phase stopped halted = ground (arith, halted refl)

pub scheduled_new-IsSound :
    (job : CleanupJob) (s : Runtime)
    → IsSound s
    → s.stopping ≡ false
    → s.scheduled (key job) ≡ false
    → IsSound (record s { scheduled = add (key job) s.scheduled; submitting = job ∷ s.submitting })
scheduled_new-IsSound job s h free absent =
    let exact_then : (k : Key)
        → bit (same_key k (key job)) + in_play k s ≡ bit (add (key job) s.scheduled k) =
      λ k.
        add-exact (key job) s.scheduled k (in_play k s) absent
          (h.exact k (serving-exact s h free)) in
    record {
      exact = λ k live. omega (arith, exact_then k);
      once = λ k. omega (arith, exact_then k, bit-le (add (key job) s.scheduled k));
      halted = h.halted;
      room = h.room;
      crew = h.crew;
      manned = h.manned;
    }

pub IsSound-if :
    {s t : Runtime} (b : Bool)
    → (b ≡ true → IsSound s)
    → (b ≡ false → IsSound t)
    → IsSound (if b then s else t)
IsSound-if true h k = h refl
IsSound-if false h k = k refl

pub submit_begin-IsSound :
    (job : CleanupJob) (s : Runtime) → IsSound s → IsSound (submit_begin job s)
unfolding submit_begin
submit_begin-IsSound job s h =
    IsSound-if s.stopping (λ _. h)
      (λ free. IsSound-if (s.scheduled (key job)) (λ _. h) (scheduled_new-IsSound job s h free))

pub submit_put-IsSound :
    (job : CleanupJob) (rest : List CleanupJob) (s : Runtime)
    → Pick job s.submitting rest
    → IsSound s
    → IsSound (submit_put job rest s)
unfolding submit_put
submit_put-IsSound job rest s p h = elim (Bool-cases (is_full s)) [
  | inl e ↦ rw e (record {
    exact = λ k live. omega (arith, Pick-count k p, h.exact k live);
    once = λ k. omega (arith, Pick-count k p, h.once k);
    halted = h.halted;
    room = h.room;
    crew = h.crew;
    manned = h.manned;
  })
  | inr e ↦ rw e (record {
    exact = λ k live.
        omega (arith, Pick-count k p, h.exact k live, count_items-snoc k s.queue (work job));
    once = λ k. omega (arith, Pick-count k p, h.once k, count_items-snoc k s.queue (work job));
    halted = h.halted;
    room = room_for_one s (work job) e;
    crew = h.crew;
    manned = h.manned;
  })
]

pub submit_drop-IsSound :
    (job : CleanupJob) (rest : List CleanupJob) (s : Runtime)
    → Pick job s.turned_away rest
    → IsSound s
    → IsSound (submit_drop job rest s)
unfolding submit_drop
submit_drop-IsSound job rest s p h = record {
  exact = λ k live.
      discard-exact (key job) s.scheduled k (in_play k s) _ (omega (arith, Pick-count k p))
        (h.exact k live);
  once = λ k. omega (arith, Pick-count k p, h.once k);
  halted = h.halted;
  room = h.room;
  crew = h.crew;
  manned = h.manned;
}

pub worker_get-IsSound :
    (item : Item) (rest : List Item) (idle : ℕ) (s : Runtime)
    → s.queue ≡ item ∷ rest
    → s.idle ≡ suc idle
    → IsSound s
    → IsSound (worker_get item rest idle s)
unfolding worker_get
worker_get-IsSound (work job) rest idle s e i h =
    let counted : (k : Key)
        → count_items k s.queue ≡ bit (same_key k (key job)) + count_items k rest =
      λ k. ap (count_items k) e in
    let shorter : length s.queue ≡ suc (length rest) = ap length e in
    record {
      exact = λ k live. omega (arith, counted k, h.exact k live);
      once = λ k. omega (arith, counted k, h.once k);
      halted = h.halted;
      room = λ bounded. omega (arith, shorter, h.room bounded);
      crew = omega (arith, i, h.crew);
      manned = λ free none. absurd (omega (arith, i, h.manned free none));
    }
worker_get-IsSound shutdown rest idle s e i h =
    let counted : (k : Key) → count_items k s.queue ≡ 0 + count_items k rest =
      λ k. ap (count_items k) e in
    let shorter : length s.queue ≡ suc (length rest) = ap length e in
    record {
      exact = λ k live. omega (arith, counted k, h.exact k live);
      once = λ k. omega (arith, counted k, h.once k);
      halted = h.halted;
      room = λ bounded. omega (arith, shorter, h.room bounded);
      crew = omega (arith, i, h.crew);
      manned = λ free none. absurd (omega (arith, i, h.manned free none));
    }

pub worker_done-IsSound :
    (job : CleanupJob) (rest : List CleanupJob) (s : Runtime)
    → Pick job s.running rest
    → IsSound s
    → IsSound (worker_done job rest s)
unfolding worker_done
worker_done-IsSound job rest s p h = record {
  exact = λ k live.
      discard-exact (key job) s.scheduled k (in_play k s) _ (omega (arith, Pick-count k p))
        (h.exact k live);
  once = λ k. omega (arith, Pick-count k p, h.once k);
  halted = h.halted;
  room = h.room;
  crew = omega (arith, Pick-length p, h.crew);
  manned = λ free none. absurd (omega (arith, Pick-length p, h.manned free none));
}

pub stop_take-IsSound :
    (item : Item) (rest : List Item) (s : Runtime)
    → s.queue ≡ item ∷ rest
    → IsSound s
    → IsSound (stop_take item rest s)
unfolding stop_take
stop_take-IsSound (work job) rest s e h =
    let counted : (k : Key)
        → count_items k s.queue ≡ bit (same_key k (key job)) + count_items k rest =
      λ k. ap (count_items k) e in
    let shorter : length s.queue ≡ suc (length rest) = ap length e in
    record {
      exact = λ k live. omega (arith, counted k, h.exact k live);
      once = λ k. omega (arith, counted k, h.once k);
      halted = h.halted;
      room = λ bounded. omega (arith, shorter, h.room bounded);
      crew = h.crew;
      manned = h.manned;
    }
stop_take-IsSound shutdown rest s e h =
    let counted : (k : Key) → count_items k s.queue ≡ 0 + count_items k rest =
      λ k. ap (count_items k) e in
    let shorter : length s.queue ≡ suc (length rest) = ap length e in
    record {
      exact = λ k live. omega (arith, counted k, h.exact k live);
      once = λ k. omega (arith, counted k, h.once k);
      halted = h.halted;
      room = λ bounded. omega (arith, shorter, h.room bounded);
      crew = h.crew;
      manned = h.manned;
    }

pub stop_release-IsSound :
    (job : CleanupJob) (rest : List CleanupJob) (s : Runtime)
    → Pick job s.drained rest
    → IsSound s
    → IsSound (stop_release job rest s)
unfolding stop_release
stop_release-IsSound job rest s p h = record {
  exact = λ k live.
      discard-exact (key job) s.scheduled k (in_play k s) _ (omega (arith, Pick-count k p))
        (h.exact k live);
  once = λ k. omega (arith, Pick-count k p, h.once k);
  halted = h.halted;
  room = h.room;
  crew = h.crew;
  manned = h.manned;
}
