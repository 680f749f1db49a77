-- ===== src/Telegram/Budget/Examples.antt =====
-- Runs of the budget, and its theorems at them.
use iwiki_mcp.Prelude.{ℕ, ◌≤◌, ◌≡◌, refl, List, [], ◌∷◌, arith, nat_eq, list_eq}
use iwiki_mcp.Float.{min_float, max_float}
use iwiki_mcp.Samples.{hundredths, hundredths-IsOrdered}
use iwiki_mcp.Telegram.Budget.{ContextBudget, chars, observe, escalate, initial_budget}
use iwiki_mcp.Telegram.Budget.Laws.{
  Event, observed, refused, calibrate, IsCalibrated, IsCalibrating, chars-bounds,
  calibrate-IsCalibrated,
}

abbrev default_budget : ContextBudget ℕ
default_budget = record {
  window_tokens = 32768;
  output_tokens = 1024;
  ceiling_chars = 48000;
  ratio = 75;
}

-- 32768 - 1024 - 512 - 75 tokens at 0.75 * 1.25 a character
chars_default : chars hundredths default_budget 100 ≡ 33502
unfolding chars
chars_default = refl

chars_no_room : chars hundredths (record default_budget { window_tokens = 1500 }) 100 ≡ 4000
unfolding chars
chars_no_room = refl

observe_once : (observe hundredths default_budget 100 40).ratio ≡ 68
unfolding observe min_float max_float
observe_once = refl

escalate_twice : (escalate hundredths (escalate hundredths default_budget)).ratio ≡ 150
unfolding escalate min_float
escalate_twice = refl

chars-bounds_example :
    (chars hundredths default_budget 100 ≤ 48000) × (4000 ≤ chars hundredths default_budget 100)
chars-bounds_example = chars-bounds hundredths default_budget 100

hundredths-IsCalibrating : IsCalibrating hundredths
hundredths-IsCalibrating = record {
  ordered = hundredths-IsOrdered;
  limits = refl;
  initial_low = refl;
  initial_high = refl;
  growing = λ x h. ground arith;
}

abbrev events : List Event
events = refused ∷ refused ∷ observed 400 100 ∷ observed 0 3 ∷ []

calibrate-IsCalibrated_example :
    IsCalibrated hundredths
      (calibrate hundredths events (initial_budget hundredths 32768 1024 48000))
calibrate-IsCalibrated_example =
    calibrate-IsCalibrated hundredths hundredths-IsCalibrating 32768 1024 48000 events
