-- ===== src/Telegram/Agent/Examples.antt =====
-- Runs of the agent loop, and its theorems at them.
use iwiki_mcp.Prelude.{
  ◌≡◌, refl, ap, ◌⊎◌, inl, inr, true, false, Option, none, some, List, [], ◌∷◌, arith, nat_eq,
  list_eq,
}
use iwiki_mcp.Exec.{Outcome, done, raised}
use iwiki_mcp.Exec.Keeps.{Returns}
use iwiki_mcp.Text.{Text, codes, strip, join}
use iwiki_mcp.Telegram.Budget
use iwiki_mcp.Telegram.Context.{select_context, label, render, pack, trim, paragraphs}
use iwiki_mcp.Telegram.Words.{terms}
use iwiki_mcp.Telegram.Services.{
  Failure, ToolCall, ToolResponse, ToolChoice, none_allowed, auto, Message,
}
use iwiki_mcp.Telegram.Toy.{World, world, toy, reply}
use iwiki_mcp.Telegram.Agent.{Turn, Next, again, opening, round, run}
use iwiki_mcp.Telegram.Agent.Bounds.{IsProductive, run-terminates}
use iwiki_mcp.Telegram.Agent.Calls.{IsBounded, opening-IsBounded, round_bounds}
use iwiki_mcp.Telegram.Agent.Parts.{parts_to, parts_to-eq-body}

abbrev search_call : ToolCall
search_call = record { id = codes "1"; name = codes "search_wiki"; arguments = codes "q" }

abbrev asking : World
asking = record world { script = search_call ∷ search_call ∷ [] }

program : Unit {0}
unfolding run select_context Budget.chars label render pack trim paragraphs terms join strip
program = tt

run-asking : (run toy (codes "docs") (codes "q") false asking).0 ≡ done (some (codes "answer"))
unfolding program
run-asking = refl

-- A model that only ever asks for tools is forced to answer after six calls.
run_stubborn :
    (run toy (codes "docs") (codes "q") true (record world {
      script =
          search_call ∷ search_call ∷ search_call ∷ search_call ∷ search_call ∷ search_call
          ∷ search_call ∷ search_call ∷ [];
    })).0
    ≡ done (some (codes "forced"))
unfolding program
run_stubborn = refl

toy-responsive :
    (ms : List Message) (choice : ToolChoice)
    → Returns IsProductive (toy.complete_with_tools ms choice)
toy-responsive ms choice = record { at = λ w r e. given w.script choice r (ap answered e) }
  where
    answered : Outcome Failure ToolResponse → Option ToolResponse
    answered (done r) = some r
    answered (raised e) = none

    given :
        (script : List ToolCall) (choice : ToolChoice) (r : ToolResponse)
        → some (reply script choice) ≡ some r
        → IsProductive r
    given [] choice r e = inr (codes "answer", ground arith)
    given (call ∷ calls) none_allowed r e = inr (codes "forced", ground arith)
    given (call ∷ calls) auto r e = inl (ground arith)

run-terminates_example :
    ((content : Text) × ((run toy (codes "docs") (codes "q") false asking).0 ≡ done (some content)))
    ⊎ ((e : Failure) × ((run toy (codes "docs") (codes "q") false asking).0 ≡ raised e))
run-terminates_example = run-terminates toy toy-responsive (codes "docs") (codes "q") false asking

abbrev first_round : Outcome Failure Next × World
first_round = round toy (codes "docs") (codes "q") 1000 (opening (codes "p") (codes "q")) asking

abbrev turn_of : Outcome Failure Next → Turn
turn_of (done (again t)) = t
turn_of _ = opening [] []

round_bounds_example : IsBounded (turn_of first_round.0)
unfolding program
round_bounds_example =
    round_bounds toy (codes "docs") (codes "q") 1000 (opening (codes "p") (codes "q"))
      (turn_of first_round.0) asking first_round.1 (opening-IsBounded (codes "p") (codes "q")) refl

parts_to-eq-body_example : parts_to (codes "short") 1 ≡ codes "short"
parts_to-eq-body_example = parts_to-eq-body (codes "short") 1 (omega arith)
