-- ===== src/Telegram/Commands.antt =====
-- The entry points of `ConversationService`, as one data type and its handler.
pub mod Access
pub mod Confirm
pub mod Preview
mod Examples
use iwiki_mcp.Prelude.{
  ◌^◌, ℕ, zero, suc, ◌+◌, ◌-◌, ◌*◌, ◌/◌, ◌%◌, ◌≤◌, ◌<◌, min, max, ◌≡◌, refl, sym, ap, ◌∙◌, ◌≢◌, ◌↔◌,
  ◌⊎◌, inl, inr, Bool, true, false, not, ◌&&◌, ◌||◌, Option, none, some, List, [], ◌∷◌, ◌++◌, map,
  arith, ltb, leb, ◌==◌, if◌then◌else◌, leb→le, le→leb, ==_iff, Bool-cases, Option-cases, Eq,
  nat_eq, length, take, drop, get_elem?, length-append, length-take, take_of_length-le,
  take-append-drop, All, select, any, contains, list_beq, list_eq,
}
use iwiki_mcp.Exec.{pure, ◌>>=◌}
use iwiki_mcp.Text.{Text}
use iwiki_mcp.Telegram.Services.{Services}
use iwiki_mcp.Telegram.Session.{Act, BotReply}
use iwiki_mcp.Telegram.Retrieval.{Answer, replied, list_domains}
use iwiki_mcp.Telegram.Conversation.{select_domain, answer_question, answer_voice}
use iwiki_mcp.Telegram.Changes.{propose_create, propose_update, reject_write, confirm_write}

pub data Command : Type 0 where
  domains : Command
  domain : Text → Command
  question : Text → Command
  voice : List ℕ → Command
  creation : Text → Text → Command
  revision : Text → Text → Text → Command
  rejection : Text → Command
  confirmation : Text → Command

module _ (v : Services) where
  abbrev replying : Act v BotReply → Act v Answer
  replying m = do reply ← m; pure (replied reply)

  unfoldable pub handle : ℕ → Command → Act v Answer
  unfolding list_domains select_domain answer_question answer_voice propose_create propose_update
      reject_write confirm_write
  handle telegram_id domains = replying (list_domains v telegram_id)
  handle telegram_id (domain d) = replying (select_domain v telegram_id d)
  handle telegram_id (question q) = replying (answer_question v telegram_id q)
  handle telegram_id (voice audio) = replying (answer_voice v telegram_id audio)
  handle telegram_id (creation slug request) = propose_create v telegram_id slug request
  handle telegram_id (revision slug heading request) =
      propose_update v telegram_id slug heading request
  handle telegram_id (rejection token) = replying (reject_write v telegram_id token)
  handle telegram_id (confirmation token) = replying (confirm_write v telegram_id token)
