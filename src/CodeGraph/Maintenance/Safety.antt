-- ===== src/CodeGraph/Maintenance/Safety.antt =====
-- What holds in every state that a maintenance runtime reaches.
use iwiki_mcp.Prelude.{
  ℕ, suc, ◌≤◌, ◌<◌, ◌≡◌, refl, ap, ◌∙◌, ◌↔◌, Bool, true, false, arith, nat_eq, length, list_eq,
}
use iwiki_mcp.CodeGraph.Maintenance.{
  Key, work, shutdown, Phase, serving, sending, joining, Runtime, initial, is_full, start,
  submit_begin, submit_put, submit_drop, worker_get, worker_done, stop_begin, stop_take,
  stop_release, stop_send, stop_clear, Step, starts, submits, puts, drops, gets, finishes, stops,
  takes, releases, empties, sends, sent, clears, Reach, made, after,
}
use iwiki_mcp.CodeGraph.Maintenance.Invariant.{
  IsSound, bit, in_play, is_stopped, is_serving, count_items-snoc, room_for_one,
}
use iwiki_mcp.CodeGraph.Maintenance.Steps.{
  initial-IsSound, start-IsSound, submit_begin-IsSound, submit_put-IsSound, submit_drop-IsSound,
  worker_get-IsSound, worker_done-IsSound, stop_take-IsSound, stop_release-IsSound, IsSound-if,
}

stop_begin-IsSound : (s : Runtime) → s.phase ≡ serving → IsSound s → IsSound (stop_begin s)
unfolding stop_begin
stop_begin-IsSound s e h = record {
  exact = λ k live. h.exact k (ap is_stopped e);
  once = h.once;
  halted = λ _. refl;
  room = h.room;
  crew = h.crew;
  manned = λ free none. ground arith;
}

-- From one phase of `stop` to a later one in which the set is not cleared yet.
phase-IsSound :
    (s : Runtime) (p : Phase)
    → is_serving s.phase ≡ false
    → is_stopped s.phase ≡ false
    → IsSound s
    → IsSound (record s { phase = p })
phase-IsSound s p begun uncleared h = record {
  exact = λ k live. h.exact k uncleared;
  once = h.once;
  halted = λ _. h.halted begun;
  room = h.room;
  crew = h.crew;
  manned = h.manned;
}

stop_send-IsSound :
    (left : ℕ) (s : Runtime) → s.phase ≡ sending (suc left) → IsSound s → IsSound (stop_send left s)
unfolding stop_send
stop_send-IsSound left s e h =
    IsSound-if (is_full s) (λ _. phase-IsSound s joining (ap is_serving e) (ap is_stopped e) h)
      (λ free. record {
        exact = λ k live.
            omega (arith, h.exact k (ap is_stopped e), count_items-snoc k s.queue shutdown);
        once = λ k. omega (arith, h.once k, count_items-snoc k s.queue shutdown);
        halted = λ _. h.halted (ap is_serving e);
        room = room_for_one s shutdown free;
        crew = h.crew;
        manned = h.manned;
      })

stop_clear-IsSound : (s : Runtime) → s.phase ≡ joining → IsSound s → IsSound (stop_clear s)
unfolding stop_clear
stop_clear-IsSound s e h = record {
  exact = λ k live. ground arith;
  once = h.once;
  halted = λ _. h.halted (ap is_serving e);
  room = h.room;
  crew = h.crew;
  manned = λ free none. ground (arith, h.halted (ap is_serving e));
}

Step-IsSound : {s t : Runtime} → Step s t → IsSound s → IsSound t
Step-IsSound {s} starts h = start-IsSound s h
Step-IsSound {s} (submits job) h = submit_begin-IsSound job s h
Step-IsSound {s} (puts job rest p) h = submit_put-IsSound job rest s p h
Step-IsSound {s} (drops job rest p) h = submit_drop-IsSound job rest s p h
Step-IsSound {s} (gets item rest idle e i) h = worker_get-IsSound item rest idle s e i h
Step-IsSound {s} (finishes job rest p) h = worker_done-IsSound job rest s p h
Step-IsSound {s} (stops e) h = stop_begin-IsSound s e h
Step-IsSound {s} (takes item rest e d q) h = stop_take-IsSound item rest s q h
Step-IsSound {s} (releases job rest p) h = stop_release-IsSound job rest s p h
Step-IsSound {s} (empties e d q) h =
    phase-IsSound s (sending s.threads) (ap is_serving e) (ap is_stopped e) h
Step-IsSound {s} (sends left e) h = stop_send-IsSound left s e h
Step-IsSound {s} (sent e) h = phase-IsSound s joining (ap is_serving e) (ap is_stopped e) h
Step-IsSound {s} (clears e) h = stop_clear-IsSound s e h

Reach-IsSound : {workers queue_size : ℕ} {s : Runtime} → Reach workers queue_size s → IsSound s
Reach-IsSound {workers} {queue_size} made = initial-IsSound workers queue_size
Reach-IsSound (after r step) = Step-IsSound step (Reach-IsSound r)

Step-sizes :
    {s t : Runtime}
    → Step s t
    → (t.queue_size ≡ s.queue_size) × (t.workers_wanted ≡ s.workers_wanted)
unfolding start submit_begin submit_put submit_drop worker_get worker_done stop_begin stop_take
    stop_release stop_send stop_clear
Step-sizes {s} starts = ground arith
Step-sizes {s} (submits job) = ground arith
Step-sizes {s} (puts job rest p) = ground arith
Step-sizes (drops job rest p) = (refl, refl)
Step-sizes (gets (work job) rest idle e i) = (refl, refl)
Step-sizes (gets shutdown rest idle e i) = (refl, refl)
Step-sizes (finishes job rest p) = (refl, refl)
Step-sizes (stops e) = (refl, refl)
Step-sizes (takes (work job) rest e d q) = (refl, refl)
Step-sizes (takes shutdown rest e d q) = (refl, refl)
Step-sizes (releases job rest p) = (refl, refl)
Step-sizes (empties e d q) = (refl, refl)
Step-sizes {s} (sends left e) = ground arith
Step-sizes (sent e) = (refl, refl)
Step-sizes (clears e) = (refl, refl)

Reach-sizes :
    {workers queue_size : ℕ} {s : Runtime}
    → Reach workers queue_size s
    → (s.queue_size ≡ queue_size) × (s.workers_wanted ≡ workers)
unfolding initial
Reach-sizes made = (refl, refl)
Reach-sizes (after r step) =
    ((Step-sizes step).0 ∙ (Reach-sizes r).0, (Step-sizes step).1 ∙ (Reach-sizes r).1)

-- Whatever the threads do and in whatever order, a runtime never holds two jobs of one domain: not
-- two queued, not two running, and none queued while one runs.
pub Reach-once :
    {workers queue_size : ℕ} {s : Runtime}
    → Reach workers queue_size s
    → (k : Key) → in_play k s ≤ 1
Reach-once r k = (Reach-IsSound r).once k

-- With a positive size, the queue never holds more items than it, the sentinels included, and no
-- more jobs run at a time than there are workers.
pub Reach-bounded :
    {workers queue_size : ℕ} {s : Runtime}
    → Reach workers queue_size s
    → 0 < queue_size
    → (length s.queue ≤ queue_size) × (length s.running ≤ workers)
Reach-bounded {workers} {queue_size} {s} r positive =
    let h = Reach-IsSound r in
    let sizes = Reach-sizes r in
    (omega (arith, sizes.0, h.room (omega (arith, sizes.0))), omega (arith, sizes.1, h.crew))

-- No domain is stranded: until `stop` has cleared the set, a key is in the set of scheduled keys
-- exactly when a job of it is held somewhere.
pub Reach-exact :
    {workers queue_size : ℕ} {s : Runtime}
    → Reach workers queue_size s
    → is_stopped s.phase ≡ false
    → (k : Key) → (s.scheduled k ≡ true) ↔ (in_play k s ≡ 1)
Reach-exact {s} r live k = of_bit (s.scheduled k) ((Reach-IsSound r).exact k live)
  where
    of_bit : (b : Bool) → in_play k s ≡ bit b → (b ≡ true) ↔ (in_play k s ≡ 1)
    of_bit true e = (λ _. e, λ _. refl)
    of_bit false e = (λ h. ground arith, λ h. absurd (omega arith))
