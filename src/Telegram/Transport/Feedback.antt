-- ===== src/Telegram/Transport/Feedback.antt =====
-- telegram_bot/transport.py: the progress of one update, `_ProgressSession` and
-- `_run_with_feedback`. The Bot API is a parameter: its response to a call after the calls before.
-- All calls of an update name the same chat; the typing actions that `_keep_alive` repeats while the
-- work runs are left out.
use iwiki_mcp.Prelude.{
  ℕ, Bool, true, false, Option, none, some, List, [], ◌∷◌, ◌++◌, if◌then◌else◌, nat_eq, list_eq,
}
use iwiki_mcp.Text.{Text}
use iwiki_mcp.Telegram.Retrieval.{Answer, replied, preview}

pub data Call : Type 0 where
  set_reaction : ℕ → Text → Call
  chat_action : Call
  send_status : Text → Call
  edit_status : ℕ → Text → Call
  edit_reply : ℕ → Answer → Call
  send : Answer → Call

-- `_api`: a `TelegramError`, or a result with its `message_id` if that is an int.
pub data Response : Type 0 where
  telegram_error : Response
  result : Option ℕ → Response

pub record Event : Type 0 where
  pub call : Call
  pub response : Response

-- The events so far, the last one first.
abbrev pub Api : Type 0
Api = List Event → Call → Response

abbrev pub called : Api → Call → List Event → List Event
called api c events = record { call = c; response = api events c } ∷ events

-- `_ProgressSession` with what was called.
pub record Progress : Type 0 where
  pub message_id : Option ℕ
  pub is_muted : Bool
  pub events : List Event

-- What `send_status` returns.
abbrev pub posted_id : Response → Option ℕ
posted_id telegram_error = none
posted_id (result message_id) = message_id

abbrev pub is_error : Response → Bool
is_error telegram_error = true
is_error (result message_id) = false

abbrev pub has_none : Option ℕ → Bool
has_none none = true
has_none (some id) = false

abbrev pub rendered : Text → Text
rendered text = 0x23F3 ∷ 32 ∷ (text ++ 0x2026 ∷ [])

module _ (api : Api) where
  abbrev pub post_stage : Text → Progress → Progress
  post_stage text p =
      let id = posted_id (api p.events (send_status text)) in
      record {
        message_id = id;
        is_muted = has_none id;
        events = called api (send_status text) p.events;
      }

  abbrev pub show_stage : Text → Option ℕ → Progress → Progress
  show_stage text none p = post_stage text p
  show_stage text (some id) p = record p { events = called api (edit_status id text) p.events }

  unfoldable pub stage : Text → Progress → Progress
  stage text p = if p.is_muted then p else show_stage (rendered text) p.message_id p

  unfoldable pub stages : List Text → Progress → Progress
  unfolding stage
  stages [] p = p
  stages (text ∷ texts) p = stages texts (stage text p)

  -- Whether it raises, and the events.
  abbrev pub send_answer : Answer → List Event → Bool × List Event
  send_answer answer events = (is_error (api events (send answer)), called api (send answer) events)

  abbrev pub edit_answer : ℕ → Answer → List Event → Response → Bool × List Event
  edit_answer id answer events telegram_error =
      send_answer answer (called api (edit_reply id answer) events)
  edit_answer id answer events (result message_id) =
      (false, called api (edit_reply id answer) events)

  abbrev pub finish_in : Option ℕ → Answer → List Event → Bool × List Event
  finish_in none answer events = send_answer answer events
  finish_in (some id) answer events =
      edit_answer id answer events (api events (edit_reply id answer))

  unfoldable pub finish : Answer → Progress → Bool × List Event
  finish answer p = finish_in p.message_id answer p.events

  abbrev pub react : Option ℕ → Text → List Event → List Event
  react none emoji events = events
  react (some id) emoji events = called api (set_reaction id emoji) events

-- What the work does: the stages that it reports, and its answer, or none for an exception.
pub record Work : Type 0 where
  pub reported : List Text
  pub answer : Option Answer

abbrev pub is_failed : Answer → Bool
is_failed (replied r) = r.failed
is_failed (preview p) = false

abbrev pub working : Text
working = 0x1F440 ∷ []

abbrev pub outcome : Answer → Text
outcome answer = if is_failed answer then 0x1F928 ∷ [] else 0x1F44D ∷ []

module _ (api : Api) where
  abbrev pub deliver : Option ℕ → Option Answer → Progress → Bool × List Event
  deliver message_id none p = (true, p.events)
  deliver message_id (some answer) p =
      let (raises, events) = finish api answer p in
      (raises, react api message_id (outcome answer) events)

  -- Whether it raises, and what was called.
  unfoldable pub run_with_feedback : Option ℕ → Work → Bool × List Event
  unfolding stages finish
  run_with_feedback message_id work = deliver message_id work.answer (
      stages api work.reported (record {
        message_id = none;
        is_muted = false;
        events = called api chat_action (react api message_id working []);
      }))
