-- ===== src/Telegram/Commands/Access.antt =====
-- Who may use the bot, and whose changes they may confirm.
use iwiki_mcp.Prelude.{ℕ, ◌≡◌, ◌≢◌, true, false, some, arith, ◌==◌, nat_eq, contains, list_eq}
use iwiki_mcp.Exec.{done}
use iwiki_mcp.Text.{Text}
use iwiki_mcp.Telegram.Services.{Services}
use iwiki_mcp.Telegram.Session.{PendingWrite, Bot, allowed, invalid, consume_pending}
use iwiki_mcp.Telegram.Retrieval.{say, denied, replied}
use iwiki_mcp.Telegram.Commands.{
  Command, domains, domain, question, voice, creation, revision, rejection, confirmation, handle,
}

module _ (v : Services) where
  open v use {W}

  -- A sender who is not on the allowlist gets the refusal to every command: nothing of the bot's
  -- state changes, and no service is called.
  pub handle-denied :
      (telegram_id : ℕ) (c : Command) (b : Bot W)
      → contains b.allowed_telegram_ids telegram_id ≡ false
      → handle v telegram_id c b ≡ (done (replied denied), b)
  unfolding handle allowed
  handle-denied telegram_id domains b h = rw h
  handle-denied telegram_id (domain d) b h = rw h
  handle-denied telegram_id (question q) b h = rw h
  handle-denied telegram_id (voice audio) b h = rw h
  handle-denied telegram_id (creation slug request) b h = rw h
  handle-denied telegram_id (revision slug heading request) b h = rw h
  handle-denied telegram_id (rejection token) b h = rw h
  handle-denied telegram_id (confirmation token) b h = rw h

  -- Nobody but its author can confirm or reject a change: the command of another allowed sender is
  -- refused, and the change stays pending.
  pub handle_stranger :
      (telegram_id : ℕ) (token : Text) (b : Bot W) (p : PendingWrite)
      → contains b.allowed_telegram_ids telegram_id ≡ true
      → b.pending_writes token ≡ some p
      → p.telegram_id ≢ telegram_id
      → (handle v telegram_id (confirmation token) b ≡ (done (replied (say invalid)), b))
        × (handle v telegram_id (rejection token) b ≡ (done (replied (say invalid)), b))
  unfolding handle allowed consume_pending
  handle_stranger telegram_id token b p h e other =
      let differs : (p.telegram_id == telegram_id) ≡ false = ground arith in
      (rw (h, e, differs), rw (h, e, differs))
