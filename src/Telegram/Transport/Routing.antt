-- ===== src/Telegram/Transport/Routing.antt =====
-- telegram_bot/transport.py: what a message or a pressed button asks for. A message is what the
-- `get` and `isinstance` tests of the code make of it; a text that is no str is none.
use iwiki_mcp.Prelude.{
  ℕ, Bool, true, false, not, ◌||◌, Option, none, some, List, [], ◌∷◌, ◌++◌, ◌==◌, if◌then◌else◌,
  nat_eq, contains, list_beq, list_eq,
}
use iwiki_mcp.Text.{Text, codes, strip}
use iwiki_mcp.Telegram.Session.{BotReply}
use iwiki_mcp.Telegram.Retrieval.{say, denied}
use iwiki_mcp.Telegram.Commands.{
  Command, domains, domain, question, creation, revision, rejection, confirmation,
}

-- A reply of the transport itself, or a call of the conversation.
pub data Route : Type 0 where
  reply : BotReply → Route
  ask : Command → Route

-- A line feed ends every line but the last.
abbrev pub help_text : Text
help_text =
    codes "/menu opens this menu."
    ++ 10 ∷ codes "/domains lists domains; a domain button selects one."
    ++ 10 ∷ codes "Plain text asks a question about the selected domain."
    ++ 10 ∷ codes "A voice message is transcribed and asked the same way."
    ++ 10 ∷ codes "/create <slug>: <request> drafts a new page."
    ++ 10 ∷ codes "/update <slug>#<heading>: <request> drafts one section."

abbrev pub menu_buttons : List (Text × Text)
menu_buttons =
    (codes "Domains", codes "menu:domains")
    ∷ (codes "Create page", codes "menu:create")
    ∷ (codes "Update section", codes "menu:update")
    ∷ (codes "Help", codes "menu:help")
    ∷ []

abbrev pub create_hint : Text
create_hint = codes "Use /create <slug>: <request>."

abbrev pub update_hint : Text
update_hint = codes "Use /update <slug>#<heading>: <request>."

-- `_MENU_HINTS.get(value)`
unfoldable pub menu_hint : Text → Option Text
menu_hint value =
    if list_beq value (codes "create")
    then some create_hint
    else if list_beq value (codes "update")
    then some update_hint
    else if list_beq value (codes "help")
    then some help_text
    else none

-- `value.split(c, 1)`, or none for a text without the character.
unfoldable pub split_once : ℕ → Text → Option (Text × Text)
split_once c [] = none
split_once c (d ∷ rest) =
    let further = split_once c rest in
    if d == c
    then some ([], rest)
    else elim further [ none ↦ none | some parts ↦ some (d ∷ parts.0, parts.1) ]

-- `text.removeprefix(prefix)` of a text with the prefix, and none for one without.
unfoldable pub after_prefix : Text → Text → Option Text
after_prefix [] text = some text
after_prefix (c ∷ prefix) [] = none
after_prefix (c ∷ prefix) (d ∷ text) =
    let rest = after_prefix prefix text in if c == d then rest else none

abbrev pub is_empty_text : Text → Bool
is_empty_text [] = true
is_empty_text (_ ∷ _) = false

-- Both parts stripped, unless one is empty.
abbrev pub stripped_parts : Option (Text × Text) → Option (Text × Text)
stripped_parts none = none
stripped_parts (some parts) =
    let first = strip parts.0 in
    let second = strip parts.1 in
    if is_empty_text first || is_empty_text second then none else some (first, second)

unfoldable pub split_command : Text → Option (Text × Text)
unfolding split_once strip
split_command value = stripped_parts (split_once 58 value)

unfoldable pub immediate_reply : Text → Option BotReply
immediate_reply text =
    if list_beq text (codes "/menu") || list_beq text (codes "/start")
    then some (record { text = codes "Choose an action:"; buttons = menu_buttons; failed = false })
    else if list_beq text (codes "/help")
    then some (say help_text)
    else none

abbrev pub create_route : Option (Text × Text) → Route
create_route none = reply (say create_hint)
create_route (some (slug, request)) = ask (creation slug request)

abbrev pub section_route : Text → Option (Text × Text) → Route
section_route request none = reply (say update_hint)
section_route request (some (slug, heading)) = ask (revision slug heading request)

unfoldable pub update_route : Option (Text × Text) → Route
unfolding split_once strip
update_route none = reply (say update_hint)
update_route (some (target, request)) =
    section_route request (stripped_parts (split_once 35 target))

abbrev pub question_route : Text → Route
question_route [] = reply (say (codes "Send a question."))
question_route (c ∷ text) =
    if c == 47
    then reply (say (codes "Unknown command. Send /menu."))
    else ask (question (c ∷ text))

abbrev pub update_or_question : Text → Option Text → Route
update_or_question text none = question_route text
update_or_question text (some rest) = update_route (split_command rest)

abbrev pub create_or_else : Option Text → Route → Route
create_or_else none other = other
create_or_else (some rest) other = create_route (split_command rest)

abbrev pub reply_or_else : Option BotReply → Route → Route
reply_or_else none other = other
reply_or_else (some r) other = reply r

unfoldable pub dispatch_text : Text → Route
unfolding immediate_reply split_command update_route after_prefix
dispatch_text text = reply_or_else (immediate_reply text) (
    if list_beq text (codes "/domains")
    then ask domains
    else create_or_else (after_prefix (codes "/create ") text)
        (update_or_question text (after_prefix (codes "/update ") text)))

abbrev pub invalid_action : BotReply
invalid_action = say (codes "Invalid action.")

unfoldable pub callback_reply : Text → Text → Route
callback_reply action value =
    if list_beq action (codes "menu")
    then (if list_beq value (codes "domains") then ask domains else reply invalid_action)
    else if list_beq action (codes "domain")
    then ask (domain value)
    else if list_beq action (codes "confirm")
    then ask (confirmation value)
    else if list_beq action (codes "reject")
    then ask (rejection value)
    else reply invalid_action

-- `_identity`: the numbers of the sender and of the chat.
abbrev pub identity : Option ℕ → Option ℕ → Option (ℕ × ℕ)
identity (some telegram_id) (some chat_id) = some (telegram_id, chat_id)
identity _ _ = none

pub record IncomingMessage : Type 0 where
  pub sender : Option ℕ
  pub chat : Option ℕ
  pub message_id : Option ℕ
  pub voice : Option Text
  pub text : Option Text

pub record Callback : Type 0 where
  pub id : Option Text
  pub sender : Option ℕ
  pub chat : Option ℕ
  pub payload : Option Text

pub data Body : Type 0 where
  callback_query : Callback → Body
  message : IncomingMessage → Body
  other : Body

-- What is worked on with feedback: a route, or the voice file of a sender.
pub data Job : Type 0 where
  routed : Route → Job
  transcribed : Text → Job

-- What an update leads to: a reply that is sent at once, or a job for a sender with the message that
-- it reacts to.
pub data Handling : Type 0 where
  ignored : Handling
  sends : ℕ → BotReply → Handling
  works : ℕ → ℕ → Option ℕ → Job → Handling

unfoldable pub text_handling : ℕ → ℕ → Option ℕ → Text → Handling
unfolding strip immediate_reply dispatch_text
text_handling telegram_id chat_id message_id text =
    let stripped = strip text in
    elim (immediate_reply stripped) [
      | none ↦ works telegram_id chat_id message_id (routed (dispatch_text stripped))
      | some r ↦ sends chat_id r
    ]

abbrev pub message_handling : ℕ → ℕ → Option ℕ → Option Text → Option Text → Handling
message_handling telegram_id chat_id message_id (some file_id) text =
    works telegram_id chat_id message_id (transcribed file_id)
message_handling telegram_id chat_id message_id none none = ignored
message_handling telegram_id chat_id message_id none (some text) =
    text_handling telegram_id chat_id message_id text

unfoldable pub action_handling : ℕ → ℕ → Option (Text × Text) → Handling
unfolding menu_hint callback_reply
action_handling telegram_id chat_id none = sends chat_id invalid_action
action_handling telegram_id chat_id (some (action, value)) =
    let work = works telegram_id chat_id none (routed (callback_reply action value)) in
    if list_beq action (codes "menu")
    then elim (menu_hint value) [ none ↦ work | some hint ↦ sends chat_id (say hint) ]
    else work

abbrev pub split_data : Option Text → Option (Text × Text)
split_data none = none
split_data (some text) = split_once 58 text

abbrev pub if_allowed : List ℕ → Option (ℕ × ℕ) → (ℕ → ℕ → Handling) → Handling
if_allowed allowed none handling = ignored
if_allowed allowed (some (telegram_id, chat_id)) handling =
    if not (contains allowed telegram_id)
    then sends chat_id denied
    else handling telegram_id chat_id

unfoldable pub handle_message : List ℕ → IncomingMessage → Handling
unfolding text_handling
handle_message allowed m =
    if_allowed allowed (identity m.sender m.chat)
      (λ telegram_id chat_id. message_handling telegram_id chat_id m.message_id m.voice m.text)

-- The query is answered first.
unfoldable pub handle_callback : List ℕ → Callback → Handling
unfolding action_handling split_once
handle_callback allowed c =
    if_allowed allowed (identity c.sender c.chat)
      (λ telegram_id chat_id. action_handling telegram_id chat_id (split_data c.payload))

-- The query of a callback that `answerCallbackQuery` names.
abbrev pub acknowledged : Callback → Option Text
acknowledged c = elim (identity c.sender c.chat) [ none ↦ none | some _ ↦ c.id ]

unfoldable pub handle_update : List ℕ → Body → Handling
unfolding handle_message handle_callback
handle_update allowed (callback_query c) = handle_callback allowed c
handle_update allowed (message m) = handle_message allowed m
handle_update allowed other = ignored
