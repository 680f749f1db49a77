-- ===== src/Telegram/Conversation.antt =====
-- The commands of src/iwiki_mcp/telegram_bot/conversation.py, over the state of `Session`.
use iwiki_mcp.Prelude.{
  ℕ, Bool, false, not, ◌&&◌, Option, none, some, List, [], ◌∷◌, ◌++◌, ltb, if◌then◌else◌, nat_eq,
  length, take, drop, contains, list_beq, list_eq,
}
use iwiki_mcp.Exec.{pure, raise, gets, ◌>>=◌, ◌>>◌, catch}
use iwiki_mcp.Text.{Text, codes}
use iwiki_mcp.Telegram.Context.{select_context}
use iwiki_mcp.Telegram.Services.{Failure, inference_error, os_error, Services}
use iwiki_mcp.Telegram.Agent
use iwiki_mcp.Telegram.Session.{
  BotReply, Act, call, report, allowed, expire_state, selected_domain, select, take_question,
}
use iwiki_mcp.Telegram.Retrieval.{
  say, failing, denied, context_note, remote_unavailable, answer_unavailable, defer_question,
  collect_sections, chars, answer_within_budget, transcription_max_bytes,
}

-- A domain to work in, or the reply that refuses the work.
pub data Admitted (A : Type 0) : Type 0 where
  go : A → Admitted A
  stop : BotReply → Admitted A

abbrev pub tools_unsupported : Text
tools_unsupported = codes "tools_unsupported"

module _ (v : Services) where
  open v use {W, unicode}

  -- `AgentLoop.run`, whose fuel is enough for a provider that `Agent.Bounds` describes.
  abbrev pub run_agent : Text → Text → Bool → Act v (Option Text)
  run_agent domain question drafting = call v (Agent.run v domain question drafting)

  -- A demotion of the provider during the run falls back to the single pass.
  abbrev pub demoted : Failure → Act v (Option Text)
  demoted (inference_error code retryable) =
      if list_beq code tools_unsupported then pure none else raise (inference_error code retryable)
  demoted e = raise e

  abbrev pub agentic_pass : Text → Text → Bool → Act v (Option Text)
  agentic_pass domain question drafting = catch (run_agent domain question drafting) demoted

  unfoldable pub single_pass : Text → Text → Act v BotReply
  single_pass domain question = do
    report v (codes "Searching wiki")
    sections ← collect_sections v domain question
    budget ← chars v (length question)
    let selection = select_context unicode sections budget question
    elim selection.text [
      | [] ↦ pure (say (codes "No relevant wiki content found."))
      | _ ∷ _ ↦ do
        report v (codes "Generating answer")
        (answer, used) ← answer_within_budget v question selection sections budget
        pure (say (answer ++ context_note used))
    ]

  abbrev pub or_single_pass : Text → Text → Option Text → Act v BotReply
  or_single_pass domain question none = single_pass domain question
  or_single_pass domain question (some answer) = pure (say answer)

  abbrev pub agentic_answer : Text → Text → Act v (Option Text)
  agentic_answer domain question = do
    report v (codes "Searching wiki")
    agentic_pass domain question false

  unfoldable pub answer_selected : Text → Text → Act v BotReply
  unfolding single_pass
  answer_selected domain question =
      catch
        (do
          agentic ← gets (λ b. v.tools_supported b.world)
          answer ← if agentic then agentic_answer domain question else pure none
          or_single_pass domain question answer)
        (answer_unavailable v)

  abbrev pub answer_pending : Text → Option (Text × ℕ) → Act v BotReply
  answer_pending domain none = pure (say (codes "Selected domain: " ++ domain))
  answer_pending domain (some (question, expires_at)) = do
    answer ← answer_selected domain question
    pure (record answer {
      text = codes "Selected domain: " ++ (domain ++ (10 ∷ 10 ∷ answer.text));
      buttons = [];
    })

  abbrev pub select_available : ℕ → Text → List Text → Act v BotReply
  select_available telegram_id domain domains =
      if not (contains domains domain) then pure (say (codes "Domain is not available.")) else do
        select v telegram_id domain
        expire_state v
        waiting ← take_question v telegram_id
        answer_pending domain waiting

  -- The domains of the remote wiki, or the reply that it is unavailable.
  abbrev pub known_domains : Act v (Admitted (List Text))
  known_domains =
      catch (do domains ← call v v.list_domains; pure (go domains))
        (λ e. do reply ← remote_unavailable v e; pure (stop reply))

  abbrev pub select_among : ℕ → Text → Admitted (List Text) → Act v BotReply
  select_among telegram_id domain (go domains) = select_available telegram_id domain domains
  select_among telegram_id domain (stop reply) = pure reply

  unfoldable pub select_domain : ℕ → Text → Act v BotReply
  unfolding answer_selected
  select_domain telegram_id domain = do
    ok ← allowed v telegram_id
    if ok
        then (do domains ← known_domains; select_among telegram_id domain domains)
        else pure denied

  abbrev pub answer_in : ℕ → Text → Option Text → Act v BotReply
  answer_in telegram_id question none = defer_question v telegram_id question
  answer_in telegram_id question (some domain) = answer_selected domain question

  unfoldable pub answer_question : ℕ → Text → Act v BotReply
  unfolding answer_selected
  answer_question telegram_id question = do
    ok ← allowed v telegram_id
    if ok
        then (do domain ← selected_domain v telegram_id; answer_in telegram_id question domain)
        else pure denied

  abbrev pub no_transcription : BotReply
  no_transcription = failing (codes "Voice transcription is unavailable.")

  -- A RIFF file of the WAVE kind, by its first twelve bytes.
  abbrev pub is_wave : List ℕ → Bool
  is_wave bytes =
      list_beq (take 4 bytes) (codes "RIFF") && list_beq (take 4 (drop 8 bytes)) (codes "WAVE")

  abbrev pub transcription_failed : Failure → Act v (Admitted Text)
  transcription_failed (inference_error code retryable) = pure (stop no_transcription)
  transcription_failed os_error = pure (stop no_transcription)
  transcription_failed e = raise e

  unfoldable pub transcribe : List ℕ → Act v (Admitted Text)
  transcribe audio =
      catch
        (do
          report v (codes "Transcribing voice")
          wav ← call v (v.convert_audio audio)
          if ltb transcription_max_bytes (length wav)
              then pure (stop no_transcription)
              else if not (is_wave wav)
              then pure (stop no_transcription)
              else (do question ← call v (v.transcribe wav); pure (go question)))
        transcription_failed

  abbrev pub answer_transcript : ℕ → Admitted Text → Act v BotReply
  answer_transcript telegram_id (stop reply) = pure reply
  answer_transcript telegram_id (go question) = do
    domain ← selected_domain v telegram_id
    answer_in telegram_id question domain

  unfoldable pub answer_voice : ℕ → List ℕ → Act v BotReply
  unfolding transcribe answer_selected
  answer_voice telegram_id audio = do
    ok ← allowed v telegram_id
    if ok
        then (do question ← transcribe audio; answer_transcript telegram_id question)
        else pure denied
