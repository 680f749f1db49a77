-- ===== src/Telegram/Services.antt =====
-- The values of src/iwiki_mcp/telegram_bot/models.py, iwiki.py and inference.py that the bot's
-- workflows exchange, and the services that they call: the remote wiki, the inference provider,
-- the clock, the token source and the progress callback.
use iwiki_mcp.Prelude.{ℕ, Bool, Option, List, nat_eq, list_eq}
use iwiki_mcp.Exec.{Exec}
use iwiki_mcp.Float.{Float}
use iwiki_mcp.Text.{Text}
use iwiki_mcp.Telegram.Words.{Unicode}
use iwiki_mcp.Telegram.Budget.{ContextBudget}

-- The exceptions by which a workflow ends.
pub data Failure : Type 0 where
  remote_error : Text → Bool → Failure
  inference_error : Text → Bool → Failure
  key_error : Failure
  os_error : Failure

-- A member of a JSON object: absent, of the type that the code asks for, or of another type.
pub data Field (A : Type 0) : Type 0 where
  absent : Field A
  value : A → Field A
  other : Field A

-- A search hit. `str(result["slug"])` is `none` where the member is missing.
pub record Hit : Type 0 where
  pub slug : Option Text
  pub heading : Field Text

pub record Page : Type 0 where
  pub body : Field Text
  pub markdown : Field Text
  pub revision : Field ℕ
  pub section_hash : Field Text

-- `page.get("body", page.get("markdown"))`
abbrev pub body_or_markdown : Page → Field Text
body_or_markdown page = elim page.body [
  | absent ↦ page.markdown
  | value t ↦ value t
  | other ↦ other
]

pub record ToolCall : Type 0 where
  pub id : Text
  pub name : Text
  pub arguments : Text

pub record ToolResponse : Type 0 where
  pub content : Option Text
  pub tool_calls : List ToolCall

pub data Message : Type 0 where
  system : Text → Message
  user : Text → Message
  assistant : ToolCall → Message
  tool : Text → Text → Message

pub data ToolChoice : Type 0 where
  none_allowed : ToolChoice
  auto : ToolChoice

-- The members that the tools read of their decoded arguments. A JSON `true` is no integer here.
pub record Arguments : Type 0 where
  pub query : Field Text
  pub slug : Field Text
  pub heading : Field Text
  pub part : Field ℕ

-- `json.loads(call.arguments)`
pub data Decoded : Type 0 where
  not_json : Decoded
  not_object : Decoded
  object : Arguments → Decoded

pub record Services : Type 1 where
  pub float : Float
  pub unicode : Unicode
  pub W : Type 0
  pub list_domains : Exec W Failure (List Text)
  pub writable : W → Text → Bool
  pub search : Text → Text → Exec W Failure (List Hit)
  pub read_page : Text → Text → Option Text → Exec W Failure Page
  pub write_page : Text → Text → Text → Exec W Failure (Unit {0})
  pub update_section : Text → Text → Text → Text → ℕ → Text → Exec W Failure (Unit {0})
  pub answer : Text → Text → Exec W Failure Text
  pub draft_markdown : Text → Text → Exec W Failure Text
  pub complete_with_tools : List Message → ToolChoice → Exec W Failure ToolResponse
  pub decode : Text → Decoded
  -- Python's `repr` of a string
  pub repr : Text → Text
  pub tools_supported : W → Bool
  -- ffmpeg and its files: the converted voice message
  pub convert_audio : List ℕ → Exec W Failure (List ℕ)
  pub transcribe : List ℕ → Exec W Failure Text
  -- the budget object that the inference client calibrates
  pub budget : W → ContextBudget (float.F)
  pub report : Text → W → W
  pub clock : W → ℕ × W
  pub token_urlsafe : W → Text × W
