-- ===== src/Telegram/Transport/Delivery.antt =====
-- telegram_bot/transport.py: an answer is delivered once, and an update posts one status at most.
use iwiki_mcp.Prelude.{
  ℕ, ◌+◌, ◌≤◌, ◌≡◌, refl, ap, ◌∙◌, Bool, true, false, Option, none, some, List, [], ◌∷◌, arith,
  if◌then◌else◌, nat_eq, list_eq,
}
use iwiki_mcp.Text.{Text}
use iwiki_mcp.Telegram.Retrieval.{Answer}
use iwiki_mcp.Telegram.Transport.Feedback.{
  Call, chat_action, send_status, edit_reply, send, Response, telegram_error, result, Event, Api,
  called, Progress, stage, stages, show_stage, posted_id, has_none, finish, finish_in, edit_answer,
  send_answer, react, Work, run_with_feedback, deliver, outcome, working, is_error, rendered,
}

-- The answers that the API took, and the status messages that were asked of it.
abbrev pub delivered : Call → Response → ℕ
delivered (edit_reply id answer) (result message_id) = 1
delivered (send answer) (result message_id) = 1
delivered c r = 0

abbrev pub posted : Call → ℕ
posted (send_status text) = 1
posted c = 0

unfoldable pub deliveries : List Event → ℕ
deliveries [] = 0
deliveries (e ∷ events) = delivered e.call e.response + deliveries events

unfoldable pub statuses : List Event → ℕ
statuses [] = 0
statuses (e ∷ events) = posted e.call + statuses events

-- Nothing is delivered yet, and a status is posted only once there is none to edit.
record IsQuiet (p : Progress) : Type 0 where
  delivered_none : deliveries p.events ≡ 0
  posted_one : statuses p.events ≤ 1
  fresh : p.is_muted ≡ false → p.message_id ≡ none → statuses p.events ≡ 0

muted_gone : {A : Type 0} (id : Option ℕ) → has_none id ≡ false → id ≡ none → A
muted_gone none loud gone = absurd (ground arith)
muted_gone (some id) loud gone = absurd (ground arith)

zero_deliveries : (n : ℕ) → n ≡ 0 → 0 + n ≡ 0
zero_deliveries n h = omega (arith, h)

one_delivery : (n : ℕ) → n ≡ 0 → 1 + n ≡ 1
one_delivery n h = omega (arith, h)

module _ (api : Api) where
  show_stage-IsQuiet :
      (text : Text) (id : Option ℕ) (p : Progress)
      → p.message_id ≡ id
      → p.is_muted ≡ false
      → IsQuiet p
      → IsQuiet (show_stage api text id p)
  unfolding deliveries statuses
  show_stage-IsQuiet text none p e loud h = record {
    delivered_none = omega (arith, h.delivered_none);
    posted_one = omega (arith, h.fresh loud e);
    fresh = λ muted gone. (muted_gone (posted_id (api p.events (send_status text))) muted gone);
  }
  show_stage-IsQuiet text (some id) p e loud h = record {
    delivered_none = omega (arith, h.delivered_none);
    posted_one = omega (arith, h.posted_one);
    fresh = λ muted gone. omega (arith, h.fresh muted gone);
  }

  stage-IsQuiet : (text : Text) (p : Progress) → IsQuiet p → IsQuiet (stage api text p)
  unfolding stage
  stage-IsQuiet text p h = muted_or p.is_muted refl
    where
      muted_or :
          (b : Bool)
          → p.is_muted ≡ b
          → IsQuiet (if b then p else show_stage api (rendered text) p.message_id p)
      muted_or true e = h
      muted_or false e = show_stage-IsQuiet (rendered text) p.message_id p refl e h

  stages-IsQuiet : (texts : List Text) (p : Progress) → IsQuiet p → IsQuiet (stages api texts p)
  unfolding stages
  stages-IsQuiet [] p h = h
  stages-IsQuiet (text ∷ texts) p h =
      stages-IsQuiet texts (stage api text p) (stage-IsQuiet text p h)

  -- One answer was delivered, unless it raises; the statuses are those of before.
  abbrev Delivers : List Event → Bool × List Event → Type 0
  Delivers before r = (deliveries r.1 ≡ (if r.0 then 0 else 1)) × (statuses r.1 ≡ statuses before)

  send_answer-Delivers :
      (answer : Answer) (events : List Event)
      → deliveries events ≡ 0
      → Delivers events (send_answer api answer events)
  unfolding deliveries statuses
  send_answer-Delivers answer events h = sent (api events (send answer))
    where
      sent :
          (r : Response)
          → (delivered (send answer) r + deliveries events ≡ (if is_error r then 0 else 1))
            × (0 + statuses events ≡ statuses events)
      sent telegram_error = (omega (arith, h), omega arith)
      sent (result id) = (omega (arith, h), omega arith)

  edit_answer-Delivers :
      (id : ℕ) (answer : Answer) (events : List Event) (r : Response)
      → api events (edit_reply id answer) ≡ r
      → deliveries events ≡ 0
      → Delivers events (edit_answer api id answer events r)
  unfolding deliveries statuses
  edit_answer-Delivers id answer events telegram_error e h =
      let quiet =
        ap (λ r. delivered (edit_reply id answer) r + deliveries events) e
        ∙ zero_deliveries (deliveries events) h in
      let k = send_answer-Delivers answer (called api (edit_reply id answer) events) quiet in
      (k.0, k.1 ∙ omega arith)
  edit_answer-Delivers id answer events (result message_id) e h = (
    ap (λ r. delivered (edit_reply id answer) r + deliveries events) e
        ∙ one_delivery (deliveries events) h,
    omega arith,
  )

  finish-Delivers :
      (answer : Answer) (p : Progress)
      → deliveries p.events ≡ 0
      → Delivers p.events (finish api answer p)
  unfolding finish
  finish-Delivers answer p h = finish_in-Delivers p.message_id
    where
      finish_in-Delivers : (id : Option ℕ) → Delivers p.events (finish_in api id answer p.events)
      finish_in-Delivers none = send_answer-Delivers answer p.events h
      finish_in-Delivers (some id) =
          edit_answer-Delivers id answer p.events (api p.events (edit_reply id answer)) refl h

  react-same :
      (message_id : Option ℕ) (emoji : Text) (events : List Event)
      → (deliveries (react api message_id emoji events) ≡ deliveries events)
        × (statuses (react api message_id emoji events) ≡ statuses events)
  unfolding deliveries statuses
  react-same none emoji events = (refl, refl)
  react-same (some id) emoji events = (omega arith, omega arith)

  deliver_once :
      (message_id : Option ℕ) (answer : Option Answer) (p : Progress)
      → IsQuiet p
      → (deliveries (deliver api message_id answer p).1
          ≡ (if (deliver api message_id answer p).0 then 0 else 1))
        × (statuses (deliver api message_id answer p).1 ≤ 1)
  deliver_once message_id none p h = (h.delivered_none, h.posted_one)
  deliver_once message_id (some answer) p h =
      let k = finish-Delivers answer p h.delivered_none in
      let r = react-same message_id (outcome answer) (finish api answer p).1 in
      (r.0 ∙ k.0, omega (arith, r.1, k.1, h.posted_one))

  started-IsQuiet :
      (message_id : Option ℕ)
      → IsQuiet (record {
        message_id = none;
        is_muted = false;
        events = called api chat_action (react api message_id working []);
      })
  unfolding deliveries statuses
  started-IsQuiet none = record {
    delivered_none = omega arith;
    posted_one = omega arith;
    fresh = λ _ _. omega arith;
  }
  started-IsQuiet (some id) = record {
    delivered_none = omega arith;
    posted_one = omega arith;
    fresh = λ _ _. omega arith;
  }

  -- Whatever the Bot API responds and whatever stages the work reports: an update whose work ends
  -- without an exception that comes out has its answer taken by the API once, in the status message
  -- or as a message of its own, one whose exception comes out has none, and at most one status
  -- message is asked for.
  pub run_with_feedback_delivers :
      (message_id : Option ℕ) (work : Work)
      → (deliveries (run_with_feedback api message_id work).1
          ≡ (if (run_with_feedback api message_id work).0 then 0 else 1))
        × (statuses (run_with_feedback api message_id work).1 ≤ 1)
  unfolding run_with_feedback
  run_with_feedback_delivers message_id work =
      let p : Progress = record {
        message_id = none;
        is_muted = false;
        events = called api chat_action (react api message_id working []);
      } in
      deliver_once message_id work.answer (stages api work.reported p)
        (stages-IsQuiet work.reported p (started-IsQuiet message_id))
