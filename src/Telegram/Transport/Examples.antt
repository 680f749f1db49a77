-- ===== src/Telegram/Transport/Examples.antt =====
-- Updates of one sender, an API that fails to edit, and a batch of two updates.
use iwiki_mcp.Prelude.{
  ◌^◌, ℕ, ◌+◌, ◌*◌, ◌≤◌, min, ◌≡◌, refl, ◌⊎◌, Bool, true, false, Option, none, some, List, [], ◌∷◌,
  arith, if◌then◌else◌, nat_eq, length, list_eq,
}
use iwiki_mcp.Samples.{hundredths}
use iwiki_mcp.Text.{Text, codes, strip}
use iwiki_mcp.Telegram.Retrieval.{replied, say, denied}
use iwiki_mcp.Telegram.Commands.{revision, question, domains}
use iwiki_mcp.Telegram.Transport.Routing.{
  reply, ask, Body, callback_query, message, IncomingMessage, Callback, ignored, sends, works,
  routed, help_text, dispatch_text, handle_update,
}
use iwiki_mcp.Telegram.Transport.Roundtrip.{dispatch_text-update, handle_update-denied}
use iwiki_mcp.Telegram.Transport.Feedback.{
  edit_reply, telegram_error, result, Api, Work, run_with_feedback,
}
use iwiki_mcp.Telegram.Transport.Delivery.{deliveries, statuses, run_with_feedback_delivers}
use iwiki_mcp.Telegram.Transport.Polling.{
  Update, Poll, dispatch_updates, Ascending, Raised, dispatch_updates_replays,
}
use iwiki_mcp.Telegram.Transport.Backoff.{Backoff, with_jitter, next_delay, next_delay_power}

program : Unit {0}
unfolding strip dispatch_text handle_update run_with_feedback deliveries statuses dispatch_updates
    Ascending next_delay
program = tt

test_help : length help_text ≡ 285
unfolding program
test_help = refl

test_question : dispatch_text (codes "why?") ≡ ask (question (codes "why?"))
unfolding program
test_question = refl

test_unknown : dispatch_text (codes "/create") ≡ reply (say (codes "Unknown command. Send /menu."))
unfolding program
test_unknown = refl

test_spaces :
    dispatch_text (codes "/update  a # b : c ") ≡ ask (revision (codes "a") (codes "b") (codes "c"))
unfolding program
test_spaces = refl

abbrev from_sender : ℕ → Text → IncomingMessage
from_sender sender text = record {
  sender = some sender;
  chat = some 7;
  message_id = some 3;
  voice = none;
  text = some text;
}

test_domains :
    handle_update (5 ∷ []) (message (from_sender 5 (codes " /domains ")))
    ≡ works 5 7 (some 3) (routed (ask domains))
unfolding program
test_domains = refl

dispatch_text-update_example :
    dispatch_text (codes "/update intro#Aims: shorter")
    ≡ ask (revision (codes "intro") (codes "Aims") (codes "shorter"))
unfolding strip
dispatch_text-update_example =
    dispatch_text-update (codes "intro") (codes "Aims") (codes " shorter") refl refl refl refl refl
      refl

handle_update-denied_example :
    (handle_update (5 ∷ []) (message (from_sender 6 (codes "/domains"))) ≡ ignored)
    ⊎ ((chat_id : ℕ) × (handle_update (5 ∷ []) (message (from_sender 6 (codes "/domains")))
          ≡ sends chat_id denied))
handle_update-denied_example =
    handle_update-denied (5 ∷ []) (message (from_sender 6 (codes "/domains"))) 6 refl refl

-- Edits of a reply fail; the first status gets the number 9.
abbrev api : Api
api events (edit_reply id answer) = telegram_error
api events call = result (some 9)

abbrev two_stages : Work
two_stages = record {
  reported = codes "searching" ∷ codes "answering" ∷ [];
  answer = some (replied (say (codes "yes")));
}

test_events : length (run_with_feedback api (some 3) two_stages).1 ≡ 7
unfolding program
test_events = refl

run_with_feedback_delivers_example :
    (deliveries (run_with_feedback api (some 3) two_stages).1
      ≡ (if (run_with_feedback api (some 3) two_stages).0 then 0 else 1))
    × (statuses (run_with_feedback api (some 3) two_stages).1 ≤ 1)
run_with_feedback_delivers_example = run_with_feedback_delivers api (some 3) two_stages

-- The second update's exception comes out.
abbrev handle_body : Body → ℕ → Bool × ℕ
handle_body (callback_query c) handled = (true, handled)
handle_body body handled = (false, handled + 1)

abbrev pressed : Callback
pressed = record { id = none; sender = some 5; chat = some 7; payload = none }

abbrev updates : List (Option Update)
updates =
    some (record { update_id = some 20; body = message (from_sender 5 (codes "x")) })
    ∷ some (record { update_id = some 21; body = callback_query pressed })
    ∷ []

abbrev poll : Poll ℕ
poll = record { poll_offset = none; world = 0 }

test_offset : (dispatch_updates handle_body updates poll).1.poll_offset ≡ some 21
unfolding program
test_offset = refl

dispatch_updates_replays_example : Raised handle_body updates poll
unfolding program
dispatch_updates_replays_example =
    dispatch_updates_replays handle_body 0 updates poll (omega arith, (omega arith, tt)) tt refl

abbrev third : Backoff hundredths
third = record { initial = 1; maximum = 30; jitter_ratio = hundredths.decimal 2 1; attempt = 3 }

-- The least random value takes a fifth off eight seconds.
test_delay : (next_delay hundredths 0 third).0 ≡ 640
unfolding program
test_delay = refl

next_delay_power_example :
    next_delay hundredths 0 third
    ≡ (with_jitter hundredths (min 30 (1 * 2 ^ 3)) 20 0, record third { attempt = 4 })
next_delay_power_example = next_delay_power hundredths 0 third (omega arith)
