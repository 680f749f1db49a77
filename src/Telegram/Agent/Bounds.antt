-- ===== src/Telegram/Agent/Bounds.antt =====
-- The agent loop ends within its eight rounds, and makes at most six tool calls.
use iwiki_mcp.Prelude.{
  ℕ, zero, suc, ◌+◌, ◌-◌, ◌/◌, ◌≤◌, ◌<◌, max, ◌≡◌, refl, ◌∙◌, ◌⊎◌, inl, inr, Bool, true, false,
  ◌||◌, Option, none, some, List, [], ◌∷◌, arith, leb, ◌==◌, if◌then◌else◌, leb→le, Bool-cases,
  Option-cases, nat_eq, length, select, list_beq, list_eq,
}
use iwiki_mcp.Exec.{Outcome, done, raised, pure, modify, ◌>>=◌}
use iwiki_mcp.Exec.Keeps.{
  Returns, Returns-pure, Returns-raise, Returns-any, Returns-weaken, Returns-bind, Returns-catch,
  Returns-if,
}
use iwiki_mcp.Text.{Text}
use iwiki_mcp.Telegram.Budget
use iwiki_mcp.Telegram.Services.{
  Failure, inference_error, remote_error, key_error, os_error, ToolCall, ToolResponse, Message,
  ToolChoice, none_allowed, auto, Services,
}
use iwiki_mcp.Telegram.Agent.{
  max_tool_calls, Turn, Next, finished, again, begin_round, run_call, run_calls, respond, round,
  complete, shrink, loop, announce, opening, answer_prompt, draft_prompt, rounds, run, is_droppable,
  drop_oldest, context_overflow,
}

-- The rounds that a turn may still take.
rank : Turn → ℕ
rank t =
    if t.forced
    then (if leb 1 t.forced_retries then 1 else 2)
    else (max_tool_calls - t.calls_used) + 2

abbrev IsAnswer : Option Text → Type 0
IsAnswer none = ⊥
IsAnswer (some content) = Unit {0}

-- A response without text asks for tools: `_parse_tool_response` refuses any other.
abbrev pub IsProductive : ToolResponse → Type 0
IsProductive r = (0 < length r.tool_calls) ⊎ ((content : Text) × (r.content ≡ some content))

module _ (v : Services) where
  open v use {W}

  module _ (domain question : Text) (limit_chars : ℕ) where
    -- What the calls of one round do to the counters.
    record IsAfter (calls : List ToolCall) (t u : Turn) : Type 0 where
      forced : u.forced ≡ t.forced
      used : t.calls_used ≤ u.calls_used
      within : t.calls_used ≤ max_tool_calls → u.calls_used ≤ max_tool_calls
      more : 0 < length calls → t.calls_used < max_tool_calls → t.calls_used < u.calls_used

    run_call-counts :
        (call : ToolCall) (t : Turn)
        → Returns
            (λ u. (u.forced ≡ t.forced) × (u.calls_used ≡ suc t.calls_used))
            (run_call v domain question limit_chars call t)
    unfolding run_call
    run_call-counts call t = record { at = λ s u h. ground arith }

    run_calls-IsAfter :
        (calls : List ToolCall) (t : Turn)
        → Returns (IsAfter calls t) (run_calls v domain question limit_chars calls t)
    unfolding run_calls
    run_calls-IsAfter [] t = Returns-pure _ t (record {
      forced = refl;
      used = omega arith;
      within = λ h. h;
      more = λ h. absurd (omega arith);
    })
    run_calls-IsAfter (call ∷ calls) t = elim (Bool-cases (leb max_tool_calls t.calls_used)) [
      | inl full ↦ rw full (
          Returns-pure _ t (record {
            forced = refl;
            used = omega arith;
            within = λ h. h;
            more = λ h k. absurd (omega (arith, leb→le max_tool_calls t.calls_used full));
          }))
      | inr room ↦ rw room (
          Returns-bind _ _ (run_call v domain question limit_chars call t)
            (run_calls v domain question limit_chars calls) (run_call-counts call t)
            (λ u counted. Returns-weaken _ _ _ (run_calls-IsAfter calls u) (λ w after. record {
              forced = after.forced ∙ counted.0;
              used = omega (arith, counted.1, after.used);
              within = λ h. after.within (ground (arith, counted.1, room));
              more = λ h k. omega (arith, counted.1, after.used);
            })))
    ]

  -- The start of a round forces the answer or leaves room for a call, and adds no rounds.
  record IsReady (s t : Turn) : Type 0 where
    lower : rank t ≤ rank s
    ready : (t.forced ≡ true) ⊎ (t.calls_used < max_tool_calls)

  begin_round-IsReady : (limit_chars : ℕ) (s : Turn) → IsReady s (begin_round limit_chars s)
  unfolding begin_round rank
  begin_round-IsReady limit_chars s = record { lower = ground (arith); ready = ground (arith) }

  -- Every completion that the provider's client returns has text or asks for tools.
  abbrev pub Responsive : Type 0
  Responsive =
      (ms : List Message) (choice : ToolChoice)
      → Returns IsProductive (v.complete_with_tools ms choice)

  module _ (responsive : Responsive) where
    complete-IsProductive :
        (ms : List Message) (choice : ToolChoice)
        → Returns (λ x. IsProductive x.1) (complete v ms choice)
    unfolding complete
    complete-IsProductive ms choice =
        Returns-catch _ _ _
          (Returns-bind IsProductive _ (v.complete_with_tools ms choice) _ (responsive ms choice)
            (λ r h. Returns-pure _ _ h))
          shrunk
      where
        cut : List Message
        cut = drop_oldest (max 1 (length (select is_droppable ms) / 2)) ms

        shrunk : (e : Failure) → Returns (λ x. IsProductive x.1) (shrink v ms choice e)
        shrunk (inference_error code retryable) =
            Returns-if _ (list_beq code context_overflow) _ _
              (λ _.
                Returns-if _ (length (select is_droppable ms) == 0) _ _ (λ _. Returns-raise _ _)
                  (λ _.
                    Returns-bind IsProductive _ (v.complete_with_tools cut choice) _
                      (responsive cut choice) (λ r h. Returns-pure _ _ h)))
              (λ _. Returns-raise _ _)
        shrunk (remote_error code retryable) = Returns-raise _ _
        shrunk key_error = Returns-raise _ _
        shrunk os_error = Returns-raise _ _

    module _ (domain question : Text) (limit_chars : ℕ) where
      -- A round finishes, or leaves fewer rounds to go.
      abbrev Falls : Turn → Next → Type 0
      Falls s (finished content) = Unit {0}
      Falls s (again u) = rank u < rank s

      calls-Falls :
          (s t : Turn) (calls : List ToolCall)
          → IsReady s t
          → t.forced ≡ false
          → 0 < length calls
          → Returns
              (Falls s)
              (do u ← run_calls v domain question limit_chars calls t; pure (again u))
      unfolding rank
      calls-Falls s t calls ready free some_calls =
          Returns-bind _ _ (run_calls v domain question limit_chars calls t) _
            (run_calls-IsAfter domain question limit_chars calls t)
            (λ u after. Returns-pure _ _ (lower u after))
        where
          lower : (u : Turn) → IsAfter domain question limit_chars calls t u → rank u < rank s
          lower u after =
              let room : t.calls_used < max_tool_calls = ground (arith, ready.ready) in
              let grown = after.more some_calls room in
              let bound = after.within (omega arith) in
              ground (arith, ready.lower, grown, bound, after.forced)

      respond-Falls :
          (s t : Turn) (r : ToolResponse)
          → IsReady s t
          → IsProductive r
          → Returns (Falls s) (respond v domain question limit_chars t r)
      unfolding respond rank
      respond-Falls s t r ready productive = elim (Option-cases r.content) [
        | inl e ↦
            rw (e, respond)
              (Returns-if _ t.forced _ _
                (λ forced.
                  Returns-if _ (leb 1 t.forced_retries) _ _ (λ _. Returns-raise _ _)
                    (λ first. Returns-pure _ _ (ground (arith, ready.lower))))
                (λ free. calls-Falls s t r.tool_calls ready free (ground arith)))
        | inr (content, e) ↦
            rw (e, respond)
              (Returns-if _ (t.forced || length r.tool_calls == 0) _ _ (λ _. Returns-pure _ _ tt)
                (λ more.
                  calls-Falls s t r.tool_calls ready (ground (arith, more)) (ground (arith, more))))
      ]

      round-Falls : (s : Turn) → Returns (Falls s) (round v domain question limit_chars s)
      unfolding round rank
      round-Falls s =
          let t = begin_round limit_chars s in
          let ready = begin_round-IsReady limit_chars s in
          Returns-bind (λ _. Unit {0}) _ (modify (announce v t)) _ (Returns-any _)
            (λ _ _.
              Returns-bind (λ x. IsProductive x.1) _
                (complete v t.messages (if t.forced then none_allowed else auto)) _
                (complete-IsProductive t.messages (if t.forced then none_allowed else auto))
                (λ x h.
                  respond-Falls s (record t { messages = x.0 }) x.1
                    (record { lower = ready.lower; ready = ready.ready }) h))

      -- What is left to do fits the fuel.
      abbrev Within : ℕ → Next → Type 0
      Within fuel (finished content) = Unit {0}
      Within fuel (again t) = rank t ≤ fuel

      rank-pos : (t : Turn) → 0 < rank t
      unfolding rank
      rank-pos t = ground arith

      loop-IsAnswer :
          (fuel : ℕ) (next : Next)
          → Within fuel next
          → Returns IsAnswer (loop v fuel domain question limit_chars next)
      unfolding loop
      loop-IsAnswer zero (finished content) h = Returns-pure _ _ tt
      loop-IsAnswer (suc fuel) (finished content) h = Returns-pure _ _ tt
      loop-IsAnswer zero (again t) h = absurd (omega (arith, rank-pos t))
      loop-IsAnswer (suc fuel) (again t) h =
          Returns-bind _ _ (round v domain question limit_chars t) _ (round-Falls t)
            (λ next falls. loop-IsAnswer fuel next (fall next falls))
        where
          fall : (next : Next) → Falls t next → Within fuel next
          fall (finished content) f = tt
          fall (again u) f = omega arith

    ends :
        (o : Outcome Failure (Option Text))
        → ((a : Option Text) → o ≡ done a → IsAnswer a)
        → ((content : Text) × (o ≡ done (some content))) ⊎ ((e : Failure) × (o ≡ raised e))
    ends (done none) h = absurd (h none refl)
    ends (done (some content)) h = inl (content, refl)
    ends (raised e) h = inr (e, refl)

    -- With a provider that always answers or asks for tools, eight rounds are enough for every
    -- question: the run raises or returns an answer, and never leaves the loop for lack of fuel.
    pub run-terminates :
        (domain question : Text) (drafting : Bool) (w : W)
        → ((content : Text) × ((run v domain question drafting w).0 ≡ done (some content)))
          ⊎ ((e : Failure) × ((run v domain question drafting w).0 ≡ raised e))
    unfolding run
    run-terminates domain question drafting w =
        let prompt = if drafting then draft_prompt domain else answer_prompt domain in
        let limit_chars = Budget.chars v.float (v.budget w) (length prompt + length question) in
        ends (run v domain question drafting w).0 (λ a e.
          (loop-IsAnswer domain question limit_chars rounds (again (opening prompt question))
              (unfold rank in omega arith)).at
            w a e)
