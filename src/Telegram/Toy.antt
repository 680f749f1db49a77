-- ===== src/Telegram/Toy.antt =====
-- Small services for runs of the bot: one page, a scripted model, a clock that stands still.
use iwiki_mcp.Prelude.{
  ◌++◌, ℕ, Bool, false, none, some, List, [], ◌∷◌, if◌then◌else◌, nat_eq, list_beq, list_eq,
}
use iwiki_mcp.Exec.{done, pure, raise}
use iwiki_mcp.Text.{Text, codes}
use iwiki_mcp.Samples.{hundredths, ascii}
use iwiki_mcp.Telegram.Services.{
  remote_error, absent, value, Page, ToolCall, ToolResponse, ToolChoice, none_allowed, auto,
  not_json, object, Services,
}

-- The script holds the tool calls that the model asks for; after them it answers.
pub record World : Type 0 where
  pub script : List ToolCall
  pub now : ℕ
  pub saved : List (Text × Text × Text)
  pub agentic : Bool

abbrev pub world : World
world = record { script = []; now = 100; saved = []; agentic = false }

abbrev pub the_page : Page
the_page = record {
  body = value (codes "Body of the page.");
  markdown = absent;
  revision = value 7;
  section_hash = value (codes "h");
}

abbrev pub reply : List ToolCall → ToolChoice → ToolResponse
reply [] choice = record { content = some (codes "answer"); tool_calls = [] }
reply (call ∷ calls) none_allowed = record { content = some (codes "forced"); tool_calls = [] }
reply (call ∷ calls) auto = record { content = none; tool_calls = call ∷ [] }

abbrev pub rest : List ToolCall → List ToolCall
rest [] = []
rest (call ∷ calls) = calls

abbrev pub toy : Services
toy = record {
  float = hundredths;
  unicode = ascii;
  W = World;
  list_domains = pure (codes "docs" ∷ codes "ops" ∷ []);
  writable = λ w domain. list_beq domain (codes "docs");
  search = λ domain query.
      pure (record { slug = some (codes "page"); heading = value (codes "Use") } ∷ []);
  read_page = λ domain slug heading.
      if list_beq slug (codes "page")
      then pure the_page
      else raise (remote_error (codes "missing") false);
  write_page =
      λ domain slug markdown w. (done tt, record w { saved = (domain, slug, markdown) ∷ w.saved });
  update_section = λ domain slug heading body revision hash w.
      (done tt, record w { saved = (domain, slug, body) ∷ w.saved });
  answer = λ question context. pure (codes "answer");
  draft_markdown = λ request context. pure (codes "draft");
  complete_with_tools =
      λ ms choice w. (done (reply w.script choice), record w { script = rest w.script });
  repr = λ name. 39 ∷ name ++ 39 ∷ [];
  decode = λ arguments.
      if list_beq arguments []
      then not_json
      else object (record {
        query = value arguments;
        slug = value arguments;
        heading = value (codes "Use");
        part = absent;
      });
  tools_supported = λ w. w.agentic;
  convert_audio = λ audio. pure audio;
  transcribe = λ audio. pure (codes "voice");
  budget = λ w. record {
    window_tokens = 32768;
    output_tokens = 1024;
    ceiling_chars = 48000;
    ratio = 75;
  };
  report = λ stage w. w;
  clock = λ w. (w.now, w);
  token_urlsafe = λ w. (codes "token", w);
}
