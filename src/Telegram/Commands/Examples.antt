-- ===== src/Telegram/Commands/Examples.antt =====
-- One bot with one pending change, on the small services.
use iwiki_mcp.Prelude.{ℕ, ◌≡◌, refl, none, some, [], ◌∷◌, arith, nat_eq, list_eq}
use iwiki_mcp.Exec.{done}
use iwiki_mcp.Text.{Text, codes}
use iwiki_mcp.Telegram.Toy.{World, world, toy}
use iwiki_mcp.Telegram.Session.{
  create, PendingWrite, WritePreview, Bot, invalid, pending, Dict, put,
}
use iwiki_mcp.Telegram.Retrieval.{say, denied, replied, preview}
use iwiki_mcp.Telegram.Changes.{confirm_write}
use iwiki_mcp.Telegram.Commands.{question, creation, rejection, confirmation, handle}
use iwiki_mcp.Telegram.Commands.Access.{handle-denied, handle_stranger}
use iwiki_mcp.Telegram.Commands.Confirm.{Refuses, handle_spent}
use iwiki_mcp.Telegram.Commands.Preview.{Place, confirming, handle_previews}

abbrev token : Text
token = codes "t"

abbrev waiting_until : ℕ → PendingWrite
waiting_until time = record {
  token = token;
  telegram_id = 1;
  change = create (codes "docs") (codes "new") (codes "text");
  expires_at = time;
}

abbrev bot_until : ℕ → Bot World
bot_until time = record {
  allowed_telegram_ids = 1 ∷ 2 ∷ [];
  confirmation_ttl_seconds = 600;
  selected_domains = put 1 (codes "docs") (λ _. none);
  pending_writes = put token (waiting_until time) (λ _. none);
  pending_questions = λ _. none;
  world = world;
}

-- The owner's confirmation in time writes the page.
saves_page :
    (handle toy 1 (confirmation token) (bot_until 150)).1.world.saved
    ≡ (codes "docs", codes "new", codes "text") ∷ []
unfolding handle iwiki_mcp.Telegram.Session.consume_pending
saves_page = refl

handle-denied_example :
    handle toy 3 (question (codes "Hi")) (bot_until 150) ≡ (done (replied denied), bot_until 150)
handle-denied_example = handle-denied toy 3 (question (codes "Hi")) (bot_until 150) refl

handle_stranger_example :
    (handle toy 2 (confirmation token) (bot_until 150)
      ≡ (done (replied (say invalid)), bot_until 150))
    × (handle toy 2 (rejection token) (bot_until 150)
        ≡ (done (replied (say invalid)), bot_until 150))
handle_stranger_example =
    handle_stranger toy 2 token (bot_until 150) (waiting_until 150) refl refl (ground arith)

handle_spent_example :
    Refuses toy 1 token (handle toy 1 (confirmation token) (bot_until 150)).1
    × Refuses toy 1 token (handle toy 1 (rejection token) (bot_until 150)).1
handle_spent_example = handle_spent toy 1 token (bot_until 150) (waiting_until 150) refl refl refl

abbrev after_request : Bot World
after_request = (handle toy 1 (creation (codes "new") (codes "Write.")) (bot_until 150)).1

abbrev shown : WritePreview
shown = record { token = codes "token"; text = codes "draft" }

handle_previews_example :
    (p : PendingWrite) × (after_request.pending_writes (codes "token") ≡ some p)
    × (p.telegram_id ≡ 1)
    × ((place : Place) × (confirm_write toy 1 (codes "token") after_request
          ≡ confirming toy (codes "token") p.expires_at place (codes "draft") after_request))
unfolding handle iwiki_mcp.Telegram.Session.selected_domain
    iwiki_mcp.Telegram.Retrieval.collect_sections iwiki_mcp.Text.strip
    iwiki_mcp.Telegram.Retrieval.chars iwiki_mcp.Telegram.Session.store_preview
handle_previews_example =
    handle_previews toy 1 (creation (codes "new") (codes "Write.")) (bot_until 150) after_request
      after_request shown refl refl refl
