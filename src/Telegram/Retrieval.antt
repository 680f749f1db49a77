-- ===== src/Telegram/Retrieval.antt =====
-- The replies, the handlers of failures and the retrieval of
-- src/iwiki_mcp/telegram_bot/conversation.py.
use iwiki_mcp.Prelude.{
  ℕ, ◌*◌, ◌/◌, max, Bool, true, false, not, ◌&&◌, Option, none, some, List, [], ◌∷◌, ◌++◌, map,
  if◌then◌else◌, nat_eq, any, list_beq, list_eq,
}
use iwiki_mcp.Exec.{pure, raise, gets, ◌>>=◌, ◌>>◌, catch}
use iwiki_mcp.Text.{Text, codes, strip, str_nat}
use iwiki_mcp.Telegram.Budget
use iwiki_mcp.Telegram.Context.{Section, Selection, truncated, select_context}
use iwiki_mcp.Telegram.Services.{
  Failure, remote_error, inference_error, key_error, Field, value, Hit, body_or_markdown, Services,
}
use iwiki_mcp.Telegram.Agent.{context_overflow}
use iwiki_mcp.Telegram.Session.{WritePreview, BotReply, Act, call, allowed, keep_question}

abbrev pub transcription_max_bytes : ℕ
transcription_max_bytes = 50 * 1024 * 1024

abbrev pub say : Text → BotReply
say text = record { text = text; buttons = []; failed = false }

abbrev pub failing : Text → BotReply
failing text = record { text = text; buttons = []; failed = true }

abbrev pub denied : BotReply
denied = say (codes "Access denied.")

unfoldable pub context_note : Selection → Text
unfolding truncated str_nat
context_note s =
    if not (truncated s)
    then []
    else 10
      ∷ 10
      ∷ (codes "Context: "
          ++ (str_nat s.full
              ++ (codes " of " ++ (str_nat s.total ++ codes " sections used in full."))))

-- `heading.strip() if isinstance(heading, str) else ""`
unfoldable pub heading_of : Field Text → Text
heading_of (value t) = strip t
heading_of _ = []

unfoldable pub hit_key : Hit → Text × Text
unfolding heading_of
hit_key h = ((elim h.slug [ none ↦ [] | some slug ↦ slug ]), heading_of h.heading)

abbrev pub same_hit : Text × Text → Text × Text → Bool
same_hit (a, b) (c, d) = list_beq a c && list_beq b d

-- The loop of `_unique_hits`; `seen` holds the keys of the hits that were kept.
unfoldable pub unique_from : List (Text × Text) → List Hit → List Hit
unfolding hit_key
unique_from seen [] = []
unique_from seen (h ∷ hits) =
    let repeated = unique_from seen hits in
    let kept = h ∷ unique_from (hit_key h ∷ seen) hits in
    if any (same_hit (hit_key h)) seen then repeated else kept

abbrev pub unique_hits : List Hit → List Hit
unique_hits = unique_from []

-- What a command answers with: a reply, or the preview of a change.
pub data Answer : Type 0 where
  replied : BotReply → Answer
  preview : WritePreview → Answer

module _ (v : Services) where
  open v use {W, float, unicode}

  unfoldable pub remote_unavailable : Failure → Act v BotReply
  remote_unavailable (remote_error code true) = raise (remote_error code true)
  remote_unavailable (remote_error code false) =
      pure (failing (codes "Wiki service is unavailable."))
  remote_unavailable e = raise e

  unfoldable pub inference_unavailable : Failure → Act v BotReply
  inference_unavailable (inference_error code retryable) =
      if list_beq code context_overflow
      then pure (failing (codes "Question context is too large. Ask a narrower question."))
      else if retryable
      then pure (failing (codes "Inference service is busy or too slow. Send the question again."))
      else pure (failing (codes "Inference service is unavailable."))
  inference_unavailable e = raise e

  -- The handlers of `_answer_selected`, in its order.
  unfoldable pub answer_unavailable : Failure → Act v BotReply
  unfolding remote_unavailable inference_unavailable
  answer_unavailable key_error = pure (failing (codes "Wiki service is unavailable."))
  answer_unavailable (remote_error code retryable) =
      remote_unavailable (remote_error code retryable)
  answer_unavailable e = inference_unavailable e

  -- The handlers of `propose_create` and `propose_update`.
  unfoldable pub draft_unavailable : Failure → Act v BotReply
  unfolding remote_unavailable inference_unavailable
  draft_unavailable (remote_error code retryable) = remote_unavailable (remote_error code retryable)
  draft_unavailable e = inference_unavailable e

  unfoldable pub domain_buttons : Act v (List (Text × Text))
  domain_buttons = do
    domains ← call v v.list_domains
    pure (map (λ d. (d, codes "domain:" ++ d)) domains)

  unfoldable pub offer_domains : Text → Act v BotReply
  unfolding domain_buttons remote_unavailable
  offer_domains text =
      catch
        (do
          buttons ← domain_buttons
          pure (record { text = text; buttons = buttons; failed = false }))
        remote_unavailable

  unfoldable pub list_domains : ℕ → Act v BotReply
  unfolding offer_domains allowed
  list_domains telegram_id = do
    ok ← allowed v telegram_id
    if ok then offer_domains (codes "Available domains:") else pure denied

  unfoldable pub defer_question : ℕ → Text → Act v BotReply
  unfolding offer_domains keep_question
  defer_question telegram_id question = do
    keep_question v telegram_id question
    offer_domains (codes "Select a domain and I will answer this question:" ++ (10 ∷ question))

  -- A section with a body, or nothing.
  abbrev pub section_of : Text → Text → Field Text → Option Section
  section_of slug heading (value (c ∷ body)) =
      some (record { slug = slug; heading = heading; body = c ∷ body })
  section_of slug heading _ = none

  unfoldable pub read_section_at : Text → Text → Text → Act v (Option Section)
  read_section_at domain slug [] = do
    page ← call v (v.read_page domain slug none)
    pure (section_of slug [] page.markdown)
  read_section_at domain slug (c ∷ heading) = do
    page ← call v (v.read_page domain slug (some (c ∷ heading)))
    pure (section_of slug (c ∷ heading) (body_or_markdown page))

  unfoldable pub read_section : Text → Hit → Act v (Option Section)
  unfolding read_section_at heading_of
  read_section domain h = elim h.slug [
    | none ↦ raise key_error
    | some slug ↦ read_section_at domain slug (heading_of h.heading)
  ]

  abbrev pub with_section : Option Section → List Section → List Section
  with_section none sections = sections
  with_section (some s) sections = s ∷ sections

  unfoldable pub read_sections : Text → List Hit → Act v (List Section)
  unfolding read_section
  read_sections domain [] = pure []
  read_sections domain (h ∷ hits) = do
    section ← read_section domain h
    sections ← read_sections domain hits
    pure (with_section section sections)

  unfoldable pub collect_sections : Text → Text → Act v (List Section)
  unfolding read_sections unique_from
  collect_sections domain query = do
    results ← call v (v.search domain query)
    read_sections domain (unique_hits results)

  -- The budget object that the inference client has calibrated so far.
  unfoldable pub chars : ℕ → Act v ℕ
  chars fixed_chars = gets (λ b. Budget.chars float (v.budget b.world) fixed_chars)

  abbrev pub halved : ℕ → ℕ
  halved budget = max (budget / 2) 1

  abbrev pub retry_smaller : Text → List Section → ℕ → Failure → Act v (Text × Selection)
  retry_smaller question sections budget (inference_error code retryable) =
      let retried = select_context unicode sections (halved budget) question in
      if list_beq code context_overflow
      then (do answer ← call v (v.answer question retried.text); pure (answer, retried))
      else raise (inference_error code retryable)
  retry_smaller question sections budget e = raise e

  unfoldable pub answer_within_budget :
      Text → Selection → List Section → ℕ → Act v (Text × Selection)
  answer_within_budget question selection sections budget =
      catch (do answer ← call v (v.answer question selection.text); pure (answer, selection))
        (retry_smaller question sections budget)
