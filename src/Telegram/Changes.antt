-- ===== src/Telegram/Changes.antt =====
-- The page changes of src/iwiki_mcp/telegram_bot/conversation.py: a draft is previewed, and written
-- only when it is confirmed.
use iwiki_mcp.Prelude.{
  ℕ, true, false, ◌||◌, Option, none, some, ◌==◌, if◌then◌else◌, nat_eq, length, list_beq, list_eq,
}
use iwiki_mcp.Exec.{pure, raise, gets, ◌>>=◌, ◌>>◌, catch}
use iwiki_mcp.Text.{Text, codes}
use iwiki_mcp.Telegram.Context.{select_context}
use iwiki_mcp.Telegram.Services.{Failure, remote_error, Field, value, body_or_markdown, Services}
use iwiki_mcp.Telegram.Session.{
  PageTarget, Change, create, update, BotReply, Act, call, report, allowed, selected_domain,
  store_preview, Consumed, pending, refused, consume_pending, invalid,
}
use iwiki_mcp.Telegram.Retrieval.{
  say, failing, denied, Answer, replied, preview, draft_unavailable, offer_domains,
  collect_sections, chars,
}
use iwiki_mcp.Telegram.Conversation.{Admitted, go, stop, agentic_pass}

module _ (v : Services) where
  open v use {W, unicode}

  abbrev pub check_writable : Option Text → Act v (Admitted Text)
  check_writable none = do
    reply ← offer_domains v (codes "Select a domain, then send the command again.")
    pure (stop reply)
  check_writable (some domain) = do
    ok ← gets (λ b. v.writable b.world domain)
    pure (if ok then go domain else stop (say (codes "Selected domain is read-only.")))

  unfoldable pub write_domain : ℕ → Act v (Admitted Text)
  write_domain telegram_id = do
    ok ← allowed v telegram_id
    if ok
        then (do domain ← selected_domain v telegram_id; check_writable domain)
        else pure (stop denied)

  unfoldable pub retrieve_context : Text → Text → Act v Text
  retrieve_context domain query = do
    sections ← collect_sections v domain query
    budget ← chars v (length query)
    pure (select_context unicode sections budget query).text

  abbrev pub or_draft : Text → Text → Option Text → Act v Text
  or_draft domain request (some markdown) = pure markdown
  or_draft domain request none = do
    context ← retrieve_context domain request
    report v (codes "Drafting Markdown")
    call v (v.draft_markdown request context)

  -- The draft of a new page, or the reply that the services failed.
  unfoldable pub draft_page : Text → Text → Act v (Admitted Text)
  unfolding retrieve_context
  draft_page domain request =
      catch
        (do
          report v (codes "Searching wiki")
          agentic ← gets (λ b. v.tools_supported b.world)
          drafted ← if agentic then agentic_pass v domain request true else pure none
          markdown ← or_draft domain request drafted
          pure (go markdown))
        (λ e. do reply ← draft_unavailable v e; pure (stop reply))

  abbrev pub preview_of : ℕ → (Text → Change) → Admitted Text → Act v Answer
  preview_of telegram_id change (stop reply) = pure (replied reply)
  preview_of telegram_id change (go markdown) = do
    shown ← store_preview v telegram_id (change markdown) markdown
    pure (preview shown)

  abbrev pub create_in : ℕ → Text → Text → Admitted Text → Act v Answer
  create_in telegram_id slug request (stop reply) = pure (replied reply)
  create_in telegram_id slug request (go domain) = do
    drafted ← draft_page domain request
    preview_of telegram_id (create domain slug) drafted

  unfoldable pub propose_create : ℕ → Text → Text → Act v Answer
  unfolding write_domain draft_page
  propose_create telegram_id slug request = do
    domain ← write_domain telegram_id
    create_in telegram_id slug request domain

  abbrev pub draft_from : Text → Field Text → Act v (Admitted Text)
  draft_from request (value context) = do
    report v (codes "Drafting Markdown")
    markdown ← call v (v.draft_markdown request context)
    pure (go markdown)
  draft_from request _ = pure (stop (failing (codes "Page section is unavailable.")))

  unfoldable pub draft_section : Text → Text → Text → Text → Act v (Admitted Text)
  draft_section domain slug heading request =
      catch
        (do
          report v (codes "Reading section")
          page ← call v (v.read_page domain slug (some heading))
          draft_from request (body_or_markdown page))
        (λ e. do reply ← draft_unavailable v e; pure (stop reply))

  abbrev pub target_at : Text → Text → Text → PageTarget
  target_at domain slug heading = record { domain = domain; slug = slug; heading = some heading }

  abbrev pub update_in : ℕ → Text → Text → Text → Admitted Text → Act v Answer
  update_in telegram_id slug heading request (stop reply) = pure (replied reply)
  update_in telegram_id slug heading request (go domain) =
      if length slug == 0 || length heading == 0
      then pure (replied (say (codes "Page and section are required.")))
      else do
        drafted ← draft_section domain slug heading request
        preview_of telegram_id (update (target_at domain slug heading)) drafted

  unfoldable pub propose_update : ℕ → Text → Text → Text → Act v Answer
  unfolding write_domain draft_section
  propose_update telegram_id slug heading request = do
    domain ← write_domain telegram_id
    update_in telegram_id slug heading request domain

  abbrev pub rejected : Consumed → Act v BotReply
  rejected (pending p) = pure (say (codes "Change rejected."))
  rejected (refused text) = pure (say text)

  unfoldable pub reject_write : ℕ → Text → Act v BotReply
  reject_write telegram_id token = do
    ok ← allowed v telegram_id
    if ok then (do found ← consume_pending v telegram_id token; rejected found) else pure denied

  -- The page that an update finds now: its revision and the hash of its section.
  abbrev pub save_section : PageTarget → Text → Text → Field ℕ → Field Text → Act v BotReply
  save_section t heading new_body (value revision) (value section_hash) = do
    call v (v.update_section t.domain t.slug heading new_body revision section_hash)
    pure (say (codes "Page change saved."))
  save_section t heading new_body _ _ = pure (failing (codes "Page section is unavailable."))

  abbrev pub save_at : PageTarget → Option Text → Text → Act v BotReply
  save_at t none new_body = pure (say invalid)
  save_at t (some heading) new_body = do
    page ← call v (v.read_page t.domain t.slug (some heading))
    save_section t heading new_body page.revision page.section_hash

  unfoldable pub save : Change → Act v BotReply
  save (create domain slug markdown) = do
    call v (v.write_page domain slug markdown)
    pure (say (codes "Page change saved."))
  save (update t new_body) = save_at t t.heading new_body

  abbrev pub save_failed : Failure → Act v BotReply
  save_failed (remote_error code true) = raise (remote_error code true)
  save_failed (remote_error code false) =
      if list_beq code (codes "conflict") || list_beq code (codes "section_conflict")
      then pure (say (codes "Page changed; request a new preview."))
      else pure (failing (codes "Wiki service is unavailable."))
  save_failed e = raise e

  abbrev pub confirmed : Consumed → Act v BotReply
  confirmed (refused text) = pure (say text)
  confirmed (pending p) = catch (do report v (codes "Saving page"); save p.change) save_failed

  unfoldable pub confirm_write : ℕ → Text → Act v BotReply
  unfolding save
  confirm_write telegram_id token = do
    ok ← allowed v telegram_id
    if ok then (do found ← consume_pending v telegram_id token; confirmed found) else pure denied
