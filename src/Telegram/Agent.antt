-- ===== src/Telegram/Agent.antt =====
-- src/iwiki_mcp/telegram_bot/agent.py: the loop that lets the model search and read the wiki before
-- it answers.
pub mod Bounds
pub mod Calls
pub mod Parts
mod Examples
use iwiki_mcp.Prelude.{
  ◌^◌, ℕ, zero, suc, ◌+◌, ◌-◌, ◌*◌, ◌/◌, ◌%◌, ◌≤◌, ◌<◌, min, max, ◌≡◌, refl, sym, ap, ◌∙◌, ◌≢◌, ◌↔◌,
  ◌⊎◌, inl, inr, Bool, true, false, not, ◌&&◌, ◌||◌, Option, none, some, List, [], ◌∷◌, ◌++◌, map,
  arith, ltb, leb, ◌==◌, if◌then◌else◌, leb→le, le→leb, ==_iff, Bool-cases, Option-cases, Eq,
  nat_eq, length, take, drop, get_elem?, length-append, length-take, take_of_length-le,
  take-append-drop, All, select, any, contains, list_beq, list_eq,
}
use iwiki_mcp.Exec.{Outcome, done, raised, Exec, pure, raise, modify, ◌>>=◌, ◌>>◌, catch}
use iwiki_mcp.Text.{Text, codes, strip, join}
use iwiki_mcp.Telegram.Budget
use iwiki_mcp.Telegram.Context.{Section, Selection, select_context}
use iwiki_mcp.Telegram.Services.{
  Failure, remote_error, inference_error, key_error, Field, absent, value, other, Hit, Page,
  body_or_markdown, ToolCall, ToolResponse, Message, system, user, assistant, tool, ToolChoice,
  none_allowed, auto, Arguments, Decoded, not_json, not_object, object, Services,
}

abbrev pub max_tool_calls : ℕ
max_tool_calls = 6

abbrev pub part_chars : ℕ
part_chars = 4000

abbrev pub force_answer : Message
force_answer = user (codes "Answer now from the context above.")

abbrev pub dropped : Text
dropped = codes "[dropped]"

abbrev pub context_overflow : Text
context_overflow = codes "context_overflow"

unfoldable pub message_chars : Message → ℕ
message_chars (system t) = length t
message_chars (user t) = length t
message_chars (assistant c) = 0
message_chars (tool i t) = length t

unfoldable pub transcript_chars : List Message → ℕ
unfolding message_chars
transcript_chars [] = 0
transcript_chars (m ∷ ms) = message_chars m + transcript_chars ms

-- The tool results that `_complete` may still drop.
unfoldable pub is_droppable : Message → Bool
is_droppable (tool i t) = not (list_beq t dropped)
is_droppable _ = false

unfoldable pub drop_content : Message → Message
drop_content (tool i t) = tool i dropped
drop_content m = m

-- The first `n` of them lose their content.
unfoldable pub drop_oldest : ℕ → List Message → List Message
unfolding is_droppable drop_content
drop_oldest zero ms = ms
drop_oldest (suc n) [] = []
drop_oldest (suc n) (m ∷ ms) =
    let kept = m ∷ drop_oldest (suc n) ms in
    let cut = drop_content m ∷ drop_oldest n ms in if is_droppable m then cut else kept

-- The arguments of one read: slug, heading and part.
abbrev pub ReadKey : Type 0
ReadKey = Text × Text × ℕ

unfoldable pub same_key : ReadKey → ReadKey → Bool
same_key (a, b, c) (d, e, f) = list_beq a d && (list_beq b e && c == f)

-- `body[start:start + _PART_CHARS]` for `part >= 1`, with `start = (part - 1) * _PART_CHARS`.
unfoldable pub part_of : Text → ℕ → Text
part_of body part = take part_chars (drop ((part - 1) * part_chars) body)

abbrev pub is_blank : Text → Bool
is_blank t = elim (strip t) [ [] ↦ true | _ ∷ _ ↦ false ]

-- `isinstance(v, str) and v.strip()`
unfoldable pub text_member : Field Text → Option Text
text_member (value t) = if is_blank t then none else some t
text_member _ = none

-- `arguments.get("part", 0)`, a non-negative integer
unfoldable pub part_member : Field ℕ → Option ℕ
part_member absent = some 0
part_member (value n) = some n
part_member other = none

-- `isinstance(heading, str) and heading`
unfoldable pub hit_suffix : Field Text → Text
hit_suffix (value (c ∷ t)) = codes "#" ++ (c ∷ t)
hit_suffix _ = []

-- The progress line of a call; the number is one digit, since it is at most `max_tool_calls`.
unfoldable pub stage_of : Text → ℕ → Text
stage_of name calls_used =
    (if list_beq name (codes "search_wiki")
      then codes "Searching wiki"
      else codes "Reading section")
    ++ (codes " (" ++ ((48 + calls_used) ∷ codes "/6)"))

unfoldable pub answer_prompt : Text → Text
answer_prompt domain =
    codes "You answer questions using only the '"
    ++ (domain
        ++ (codes "' wiki domain."
            ++ (10
                ∷ (codes
                      "Rules: answer only from tool results; attribute statements as page#heading; if searching finds nothing relevant, say so - never invent."
                    ++ (10
                        ∷ (codes
                              "Strategy: start with search_wiki; reformulate with narrower or different terms when hits are weak; read only the sections you need; request a part continuation only when the trimmed section visibly cut something essential."
                            ++ (10
                                ∷ codes
                                    "You have at most 6 tool calls; answer as soon as you have enough. Answer in the user's language.")))))))

unfoldable pub draft_prompt : Text → Text
draft_prompt domain =
    codes "You draft wiki Markdown using only the '"
    ++ (domain
        ++ (codes "' wiki domain for context."
            ++ (10
                ∷ (codes "Use search_wiki and read_section to gather related content first."
                    ++ (10
                        ∷ (codes "You have at most 6 tool calls."
                            ++ (10
                                ∷ codes
                                    "Your final message must be only the Markdown page body for the requested change - no commentary.")))))))

module _ {S : Type 0} where
  unfoldable pub hit_lines : List Hit → Exec S Failure (List Text)
  unfolding hit_suffix
  hit_lines [] = pure []
  hit_lines (h ∷ hits) = elim h.slug [
    | none ↦ raise key_error
    | some slug ↦ do rest ← hit_lines hits; pure ((slug ++ hit_suffix h.heading) ∷ rest)
  ]

-- The variables of `run`; `seen` is the set of the reads that succeeded.
pub record Turn : Type 0 where
  pub messages : List Message
  pub calls_used : ℕ
  pub seen : List ReadKey
  pub forced : Bool
  pub forced_retries : ℕ

pub data Next : Type 0 where
  finished : Text → Next
  again : Turn → Next

-- The start of a round: past the limits the answer is forced.
unfoldable pub begin_round : ℕ → Turn → Turn
unfolding transcript_chars
begin_round limit_chars t =
    if not t.forced
      && (leb max_tool_calls t.calls_used || leb limit_chars (transcript_chars t.messages))
    then record t { messages = t.messages ++ force_answer ∷ []; forced = true }
    else t

abbrev pub opening : Text → Text → Turn
opening instruction question = record {
  messages = system instruction ∷ user question ∷ [];
  calls_used = 0;
  seen = [];
  forced = false;
  forced_retries = 0;
}

abbrev pub rounds : ℕ
rounds = 8

module _ (v : Services) where
  open v use {W, float, unicode}

  -- A remote failure that may be retried ends the run, any other is told to the model.
  abbrev pub tell_unavailable : {A : Type 0} → A → Failure → Exec W Failure A
  tell_unavailable told (remote_error code true) = raise (remote_error code true)
  tell_unavailable told (remote_error code false) = pure told
  tell_unavailable told e = raise e

  unfoldable pub no_hits : List Hit → Exec W Failure Text
  unfolding hit_lines join
  no_hits [] = pure (codes "no results")
  no_hits (h ∷ hits) = do lines ← hit_lines (h ∷ hits); pure (join (10 ∷ []) lines)

  unfoldable pub search : Text → Arguments → Exec W Failure Text
  unfolding text_member no_hits
  search domain arguments = elim (text_member arguments.query) [
    | none ↦ pure (codes "error: query must be a non-empty string")
    | some query ↦ do
      found ← catch (do hits ← v.search domain query; pure (some hits)) (tell_unavailable none)
      elim found [ none ↦ pure (codes "error: wiki is unavailable") | some hits ↦ no_hits hits ]
  ]

  -- The view of a section that was read: its share of what is left, or one part of it.
  unfoldable pub section_view : Text → Text → Text → Text → ℕ → ℕ → Text
  unfolding part_of select_context
  section_view question slug heading body zero remaining_chars =
      let share = max 500 (remaining_chars / 2) in
      let section : Section = record { slug = slug; heading = heading; body = body } in
      let text = (select_context unicode (section ∷ []) share question).text in
      elim text [ [] ↦ take share body | c ∷ t ↦ c ∷ t ]
  section_view question slug heading body (suc part) remaining_chars =
      elim (part_of body (suc part)) [ [] ↦ codes "error: no such part" | c ∷ t ↦ c ∷ t ]

  unfoldable pub use_body :
      Text → ReadKey → List ReadKey → ℕ → Field Text → Exec W Failure (Text × List ReadKey)
  unfolding section_view
  use_body question (slug, heading, part) seen remaining_chars (value (c ∷ body)) = pure (
    section_view question slug heading (c ∷ body) part remaining_chars,
    (slug, heading, part) ∷ seen,
  )
  use_body question key seen remaining_chars _ = pure (codes "error: section is unavailable", seen)

  unfoldable pub use_page :
      Text → ReadKey → List ReadKey → ℕ → Option Page → Exec W Failure (Text × List ReadKey)
  unfolding use_body
  use_page question key seen remaining_chars none = pure (codes "error: wiki is unavailable", seen)
  use_page question key seen remaining_chars (some page) =
      use_body question key seen remaining_chars (body_or_markdown page)

  unfoldable pub read_key :
      Text → Text → ReadKey → List ReadKey → ℕ → Exec W Failure (Text × List ReadKey)
  unfolding same_key use_page
  read_key domain question (slug, heading, part) seen remaining_chars =
      if any (same_key (slug, heading, part)) seen
      then pure (codes "already provided", seen)
      else do
        page ←
            catch (do p ← v.read_page domain slug (some heading); pure (some p))
              (tell_unavailable none)
        use_page question (slug, heading, part) seen remaining_chars page

  -- The members that `_read` checks, in its order: slug, heading and part.
  unfoldable pub read_members :
      Text
      → Text
      → List ReadKey
      → ℕ
      → Option Text
      → Option Text
      → Option ℕ
      → Exec W Failure (Text × List ReadKey)
  unfolding read_key
  read_members domain question seen remaining_chars none heading part =
      pure (codes "error: slug must be a non-empty string", seen)
  read_members domain question seen remaining_chars (some slug) none part =
      pure (codes "error: heading must be a non-empty string", seen)
  read_members domain question seen remaining_chars (some slug) (some heading) none =
      pure (codes "error: part must be a non-negative integer", seen)
  read_members domain question seen remaining_chars (some slug) (some heading) (some part) =
      read_key domain question (slug, heading, part) seen remaining_chars

  unfoldable pub read :
      Text → Text → Arguments → List ReadKey → ℕ → Exec W Failure (Text × List ReadKey)
  unfolding text_member part_member read_members
  read domain question arguments seen remaining_chars =
      read_members domain question seen remaining_chars (text_member arguments.slug)
        (text_member arguments.heading) (part_member arguments.part)

  unfoldable pub dispatch :
      Text → Text → Text → Arguments → List ReadKey → ℕ → Exec W Failure (Text × List ReadKey)
  unfolding search read
  dispatch domain question name arguments seen remaining_chars =
      if list_beq name (codes "search_wiki")
      then (do result ← search domain arguments; pure (result, seen))
      else if list_beq name (codes "read_section")
      then read domain question arguments seen remaining_chars
      else pure (codes "error: unknown tool " ++ v.repr name, seen)

  unfoldable pub execute_decoded :
      Text → Text → Text → List ReadKey → ℕ → Decoded → Exec W Failure (Text × List ReadKey)
  unfolding dispatch
  execute_decoded domain question name seen remaining_chars not_json =
      pure (codes "error: tool arguments are not valid JSON", seen)
  execute_decoded domain question name seen remaining_chars not_object =
      pure (codes "error: tool arguments are not an object", seen)
  execute_decoded domain question name seen remaining_chars (object arguments) =
      dispatch domain question name arguments seen remaining_chars

  unfoldable pub execute :
      Text → Text → ToolCall → List ReadKey → ℕ → Exec W Failure (Text × List ReadKey)
  unfolding execute_decoded
  execute domain question call seen remaining_chars =
      execute_decoded domain question call.name seen remaining_chars (v.decode call.arguments)

  -- On an overflow the older half of the tool results goes, and the request is made once more.
  abbrev pub shrink :
      List Message → ToolChoice → Failure → Exec W Failure (List Message × ToolResponse)
  shrink ms choice (inference_error code retryable) =
      let droppable = length (select is_droppable ms) in
      let cut = drop_oldest (max 1 (droppable / 2)) ms in
      if list_beq code context_overflow
      then (if droppable == 0
          then raise (inference_error context_overflow false)
          else (do response ← v.complete_with_tools cut choice; pure (cut, response)))
      else raise (inference_error code retryable)
  shrink ms choice e = raise e

  unfoldable pub complete : List Message → ToolChoice → Exec W Failure (List Message × ToolResponse)
  unfolding drop_oldest
  complete ms choice =
      catch (do response ← v.complete_with_tools ms choice; pure (ms, response)) (shrink ms choice)

  unfoldable pub run_call : Text → Text → ℕ → ToolCall → Turn → Exec W Failure Turn
  unfolding transcript_chars execute
  run_call domain question limit_chars call t = do
    (result, seen) ← execute domain question call t.seen (limit_chars - transcript_chars t.messages)
    modify (v.report (stage_of call.name (suc t.calls_used)))
    pure (record t {
      messages = t.messages ++ assistant call ∷ tool call.id result ∷ [];
      calls_used = suc t.calls_used;
      seen = seen;
    })

  unfoldable pub run_calls : Text → Text → ℕ → List ToolCall → Turn → Exec W Failure Turn
  unfolding run_call
  run_calls domain question limit_chars [] t = pure t
  run_calls domain question limit_chars (call ∷ calls) t =
      if leb max_tool_calls t.calls_used then pure t else do
        u ← run_call domain question limit_chars call t
        run_calls domain question limit_chars calls u

  -- What becomes of the model's response to a turn.
  unfoldable pub respond : Text → Text → ℕ → Turn → ToolResponse → Exec W Failure Next
  unfolding run_calls
  respond domain question limit_chars t response = elim response.content [
    | some content ↦
        if t.forced || length response.tool_calls == 0
        then pure (finished content)
        else (do u ← run_calls domain question limit_chars response.tool_calls t; pure (again u))
    | none ↦
        if t.forced
        then (if leb 1 t.forced_retries
            then raise (inference_error (codes "invalid_inference_response") false)
            else pure (
                again (record t {
                  messages = t.messages ++ force_answer ∷ [];
                  forced_retries = suc t.forced_retries;
                })))
        else (do u ← run_calls domain question limit_chars response.tool_calls t; pure (again u))
  ]

  abbrev pub announce : Turn → W → W
  announce t =
      if t.forced || ltb 0 t.calls_used then v.report (codes "Generating answer") else λ w. w

  unfoldable pub round : Text → Text → ℕ → Turn → Exec W Failure Next
  unfolding begin_round complete respond
  round domain question limit_chars s =
      let t = begin_round limit_chars s in
      do
        modify (announce t)
        (ms, response) ← complete t.messages (if t.forced then none_allowed else auto)
        respond domain question limit_chars (record t { messages = ms }) response

  -- The `while True` loop on fuel: `none` means that the fuel ran out.
  unfoldable pub loop : ℕ → Text → Text → ℕ → Next → Exec W Failure (Option Text)
  unfolding round
  loop fuel domain question limit_chars (finished content) = pure (some content)
  loop zero domain question limit_chars (again t) = pure none
  loop (suc fuel) domain question limit_chars (again t) = do
    next ← round domain question limit_chars t
    loop fuel domain question limit_chars next

  unfoldable pub run : Text → Text → Bool → Exec W Failure (Option Text)
  unfolding loop answer_prompt draft_prompt
  run domain question drafting w =
      let prompt = if drafting then draft_prompt domain else answer_prompt domain in
      loop rounds domain question
        (Budget.chars float (v.budget w) (length prompt + length question))
        (again (opening prompt question)) w
