-- ===== src/Telegram/Agent/Calls.antt =====
-- What the transcript of the agent loop records: its tool calls, and the reads that succeeded.
use iwiki_mcp.Prelude.{
  ℕ, zero, suc, ◌+◌, ◌-◌, ◌/◌, ◌≤◌, ◌<◌, max, ◌≡◌, refl, ap, ◌∙◌, inl, inr, false, not, ◌&&◌, ◌||◌,
  Option, none, some, List, [], ◌∷◌, ◌++◌, arith, leb, ◌==◌, if◌then◌else◌, Bool-cases,
  Option-cases, nat_eq, length, select, any, list_beq, list_eq,
}
use iwiki_mcp.Exec.{done, pure, modify, catch, ◌>>=◌}
use iwiki_mcp.Exec.Keeps.{
  Returns, Returns-pure, Returns-raise, Returns-any, Returns-bind, Returns-catch, Returns-if,
}
use iwiki_mcp.Text.{Text, codes}
use iwiki_mcp.Telegram.Services.{
  Failure, inference_error, Field, value, Page, body_or_markdown, ToolCall, ToolResponse, Message,
  system, user, assistant, tool, ToolChoice, none_allowed, auto, Arguments, not_json, not_object,
  object, Decoded, Services,
}
use iwiki_mcp.Telegram.Agent.{
  max_tool_calls, ReadKey, same_key, Turn, Next, finished, again, begin_round, run_call, run_calls,
  respond, round, complete, shrink, announce, opening, execute, dispatch, read, stage_of, read_key,
  use_page, search, use_body, read_members, execute_decoded, transcript_chars, force_answer,
  is_droppable, drop_oldest, context_overflow, tell_unavailable,
}

-- The tool results of a transcript.
abbrev pub tool_results : List Message → ℕ
tool_results [] = 0
tool_results (tool i t ∷ ms) = suc (tool_results ms)
tool_results (m ∷ ms) = tool_results ms

-- No read stands twice among the successful ones.
abbrev pub IsDistinct : List ReadKey → Type 0
IsDistinct [] = Unit
IsDistinct (k ∷ ks) = (any (same_key k) ks ≡ false) × IsDistinct ks

pub record IsBounded (t : Turn) : Type 0 where
  pub few : t.calls_used ≤ max_tool_calls
  pub counted : tool_results t.messages ≡ t.calls_used
  pub distinct : IsDistinct t.seen

abbrev pub IsBoundedNext : Next → Type 0
IsBoundedNext (finished content) = Unit
IsBoundedNext (again t) = IsBounded t

tool_results-append :
    (ms ns : List Message) → tool_results (ms ++ ns) ≡ tool_results ms + tool_results ns
tool_results-append [] ns = omega arith
tool_results-append (system t ∷ ms) ns = tool_results-append ms ns
tool_results-append (user t ∷ ms) ns = tool_results-append ms ns
tool_results-append (assistant c ∷ ms) ns = tool_results-append ms ns
tool_results-append (tool i t ∷ ms) ns = omega (arith, tool_results-append ms ns)

tool_results-drop_oldest :
    (n : ℕ) (ms : List Message) → tool_results (drop_oldest n ms) ≡ tool_results ms
unfolding drop_oldest
tool_results-drop_oldest zero ms = refl
tool_results-drop_oldest (suc n) [] = refl
tool_results-drop_oldest (suc n) (system t ∷ ms) = tool_results-drop_oldest (suc n) ms
tool_results-drop_oldest (suc n) (user t ∷ ms) = tool_results-drop_oldest (suc n) ms
tool_results-drop_oldest (suc n) (assistant c ∷ ms) = tool_results-drop_oldest (suc n) ms
tool_results-drop_oldest (suc n) (tool i t ∷ ms) =
    ground (arith, tool_results-drop_oldest (suc n) ms, tool_results-drop_oldest n ms)

module _ (v : Services) where
  open v use {W}

  -- A call's result leaves the successful reads distinct.
  abbrev SeenDistinct : Text × List ReadKey → Type 0
  SeenDistinct (result, seen) = IsDistinct seen

  use_body-distinct :
      (question : Text) (key : ReadKey) (seen : List ReadKey) (left : ℕ) (body : Field Text)
      → IsDistinct (key ∷ seen)
      → Returns SeenDistinct (use_body v question key seen left body)
  unfolding use_body
  use_body-distinct question (slug, heading, part) seen left (value (c ∷ t)) h = Returns-pure _ _ h
  use_body-distinct question key seen left _ h = Returns-pure _ _ h.1

  use_page-distinct :
      (question : Text) (key : ReadKey) (seen : List ReadKey) (left : ℕ) (page : Option Page)
      → IsDistinct (key ∷ seen)
      → Returns SeenDistinct (use_page v question key seen left page)
  unfolding use_page
  use_page-distinct question key seen left none h = Returns-pure _ _ h.1
  use_page-distinct question key seen left (some page) h =
      use_body-distinct question key seen left (body_or_markdown page) h

  read_key-distinct :
      (domain question : Text) (key : ReadKey) (seen : List ReadKey) (left : ℕ)
      → IsDistinct seen
      → Returns SeenDistinct (read_key v domain question key seen left)
  unfolding read_key
  read_key-distinct domain question (slug, heading, part) seen left h =
      let key : ReadKey = (slug, heading, part) in
      Returns-if _ (any (same_key key) seen) _ _ (λ _. Returns-pure _ _ h)
        (λ new.
          Returns-bind (λ _. Unit {0}) _
            (catch (do p ← v.read_page domain slug (some heading); pure (some p))
              (tell_unavailable v none))
            (use_page v question key seen left) (Returns-any _)
            (λ page _. use_page-distinct question key seen left page (new, h)))

  read_members-distinct :
      (domain question : Text) (seen : List ReadKey) (left : ℕ) (s h : Option Text) (p : Option ℕ)
      → IsDistinct seen
      → Returns SeenDistinct (read_members v domain question seen left s h p)
  unfolding read_members
  read_members-distinct domain question seen left none heading part d = Returns-pure _ _ d
  read_members-distinct domain question seen left (some slug) none part d = Returns-pure _ _ d
  read_members-distinct domain question seen left (some slug) (some heading) none d =
      Returns-pure _ _ d
  read_members-distinct domain question seen left (some slug) (some heading) (some part) d =
      read_key-distinct domain question (slug, heading, part) seen left d

  dispatch-distinct :
      (domain question name : Text) (arguments : Arguments) (seen : List ReadKey) (left : ℕ)
      → IsDistinct seen
      → Returns SeenDistinct (dispatch v domain question name arguments seen left)
  unfolding dispatch read
  dispatch-distinct domain question name arguments seen left h =
      Returns-if _ (list_beq name (codes "search_wiki")) _ _
        (λ _.
          Returns-bind (λ _. Unit {0}) _ (search v domain arguments) _ (Returns-any _)
            (λ _ _. Returns-pure _ _ h))
        (λ _.
          Returns-if _ (list_beq name (codes "read_section")) _ _
            (λ _. read_members-distinct domain question seen left _ _ _ h)
            (λ _. Returns-pure _ _ h))

  execute_decoded-distinct :
      (domain question name : Text) (seen : List ReadKey) (left : ℕ) (d : Decoded)
      → IsDistinct seen
      → Returns SeenDistinct (execute_decoded v domain question name seen left d)
  unfolding execute_decoded
  execute_decoded-distinct domain question name seen left not_json h = Returns-pure _ _ h
  execute_decoded-distinct domain question name seen left not_object h = Returns-pure _ _ h
  execute_decoded-distinct domain question name seen left (object arguments) h =
      dispatch-distinct domain question name arguments seen left h

  -- The turn after a call with its result and the successful reads.
  abbrev recorded : Turn → ToolCall → Text × List ReadKey → Turn
  recorded t call x = record t {
    messages = t.messages ++ assistant call ∷ tool call.id x.0 ∷ [];
    calls_used = suc t.calls_used;
    seen = x.1;
  }

  module _ (domain question : Text) (limit_chars : ℕ) where
    run_call-IsBounded :
        (call : ToolCall) (t : Turn)
        → t.calls_used < max_tool_calls
        → IsBounded t
        → Returns IsBounded (run_call v domain question limit_chars call t)
    unfolding run_call execute
    run_call-IsBounded call t room h =
        Returns-bind SeenDistinct _
          (execute v domain question call t.seen (limit_chars - transcript_chars t.messages)) _
          (execute_decoded-distinct domain question call.name t.seen _ (v.decode call.arguments)
            h.distinct)
          (λ x seen.
            Returns-bind (λ _. Unit {0}) _
              (modify (v.report (stage_of call.name (suc t.calls_used))))
              (λ _. pure (recorded t call x)) (Returns-any _)
              (λ _ _. Returns-pure _ (recorded t call x) (record {
                few = room;
                counted = omega (
                  arith,
                  tool_results-append t.messages (assistant call ∷ tool call.id x.0 ∷ []),
                  h.counted,
                );
                distinct = seen;
              })))

    run_calls-IsBounded :
        (calls : List ToolCall) (t : Turn)
        → IsBounded t
        → Returns IsBounded (run_calls v domain question limit_chars calls t)
    unfolding run_calls
    run_calls-IsBounded [] t h = Returns-pure _ _ h
    run_calls-IsBounded (call ∷ calls) t h =
        Returns-if _ (leb max_tool_calls t.calls_used) _ _ (λ _. Returns-pure _ _ h)
          (λ room.
            Returns-bind IsBounded _ (run_call v domain question limit_chars call t) _
              (run_call-IsBounded call t (ground (arith, room)) h)
              (λ u hu. run_calls-IsBounded calls u hu))

    again-IsBounded :
        (calls : List ToolCall) (t : Turn)
        → IsBounded t
        → Returns IsBoundedNext
            (do u ← run_calls v domain question limit_chars calls t; pure (again u))
    again-IsBounded calls t h =
        Returns-bind IsBounded _ (run_calls v domain question limit_chars calls t) _
          (run_calls-IsBounded calls t h) (λ u hu. Returns-pure _ _ hu)

    forced-IsBounded :
        (t : Turn) (retries : ℕ)
        → IsBounded t
        → IsBounded
            (record t { messages = t.messages ++ force_answer ∷ []; forced_retries = retries })
    forced-IsBounded t retries h = record {
      few = h.few;
      counted = omega (arith, tool_results-append t.messages (force_answer ∷ []), h.counted);
      distinct = h.distinct;
    }

    respond-IsBounded :
        (t : Turn) (r : ToolResponse)
        → IsBounded t
        → Returns IsBoundedNext (respond v domain question limit_chars t r)
    unfolding respond
    respond-IsBounded t r h = elim (Option-cases r.content) [
      | inl e ↦
          rw (e, respond)
            (Returns-if _ t.forced _ _
              (λ _.
                Returns-if _ (leb 1 t.forced_retries) _ _ (λ _. Returns-raise _ _)
                  (λ _. Returns-pure _ _ (forced-IsBounded t (suc t.forced_retries) h)))
              (λ _. again-IsBounded r.tool_calls t h))
      | inr (content, e) ↦
          rw (e, respond)
            (Returns-if _ (t.forced || length r.tool_calls == 0) _ _ (λ _. Returns-pure _ _ tt)
              (λ _. again-IsBounded r.tool_calls t h))
    ]

  begin_round-IsBounded :
      (limit_chars : ℕ) (t : Turn) → IsBounded t → IsBounded (begin_round limit_chars t)
  unfolding begin_round
  begin_round-IsBounded limit_chars t h =
      elim (Bool-cases (
        not t.forced
        && (leb max_tool_calls t.calls_used || leb limit_chars (transcript_chars t.messages)))) [
          | inl e ↦ rw e (record {
            few = h.few;
            counted = omega (arith, tool_results-append t.messages (force_answer ∷ []), h.counted);
            distinct = h.distinct;
          })
          | inr e ↦ rw e h
        ]

  -- What `_complete` keeps of the transcript has as many tool results.
  SameResults : List Message → List Message × ToolResponse → Type 0
  SameResults ms (kept, r) = tool_results kept ≡ tool_results ms

  complete-SameResults :
      (ms : List Message) (choice : ToolChoice) → Returns (SameResults ms) (complete v ms choice)
  unfolding complete SameResults
  complete-SameResults ms choice =
      Returns-catch _ _ _
        (Returns-bind (λ _. Unit {0}) _ (v.complete_with_tools ms choice) _ (Returns-any _)
          (λ r _. Returns-pure _ _ refl))
        shrunk
    where
      cut : List Message
      cut = drop_oldest (max 1 (length (select is_droppable ms) / 2)) ms

      shrunk : (e : Failure) → Returns (SameResults ms) (shrink v ms choice e)
      shrunk (inference_error code retryable) =
          Returns-if _ (list_beq code context_overflow) _ _
            (λ _.
              Returns-if _ (length (select is_droppable ms) == 0) _ _ (λ _. Returns-raise _ _)
                (λ _.
                  Returns-bind (λ _. Unit {0}) _ (v.complete_with_tools cut choice) _
                    (Returns-any _) (λ r _. Returns-pure _ _ (tool_results-drop_oldest _ ms))))
            (λ _. Returns-raise _ _)
      shrunk _ = Returns-raise _ _

  round-IsBounded :
      (domain question : Text) (limit_chars : ℕ) (t : Turn)
      → IsBounded t
      → Returns IsBoundedNext (round v domain question limit_chars t)
  unfolding round SameResults
  round-IsBounded domain question limit_chars s h =
      let t = begin_round limit_chars s in
      let ready = begin_round-IsBounded limit_chars s h in
      Returns-bind (λ _. Unit {0}) _ (modify (announce v t)) _ (Returns-any _)
        (λ _ _.
          Returns-bind (SameResults t.messages) _
            (complete v t.messages (if t.forced then none_allowed else auto)) _
            (complete-SameResults t.messages (if t.forced then none_allowed else auto))
            (λ x same.
              respond-IsBounded domain question limit_chars (record t { messages = x.0 }) x.1
                (record {
                  few = ready.few;
                  counted = same ∙ ready.counted;
                  distinct = ready.distinct;
                })))

  -- A round that goes on keeps three facts of its turn, which hold at the opening: at most six tool
  -- calls are made, the transcript holds one tool result for each of them, and no two of its
  -- successful reads are of the same part of a section.
  pub round_bounds :
      (domain question : Text) (limit_chars : ℕ) (t u : Turn) (w after : W)
      → IsBounded t
      → round v domain question limit_chars t w ≡ (done (again u), after)
      → IsBounded u
  round_bounds domain question limit_chars t u w after h e =
      (round-IsBounded domain question limit_chars t h).at w (again u) (ap (λ x. x.0) e)

pub opening-IsBounded : (prompt question : Text) → IsBounded (opening prompt question)
opening-IsBounded prompt question = record { few = omega arith; counted = refl; distinct = tt }
