-- ===== src/Telegram/Budget.antt =====
-- `ContextBudget` of src/iwiki_mcp/telegram_bot/context.py: the characters of wiki context that fit
-- the window of the chat model, and the calibration of its estimate.
pub mod Laws
mod Examples
use iwiki_mcp.Prelude.{
  ℕ, zero, suc, ◌+◌, ◌-◌, ◌*◌, ◌/◌, ◌%◌, ◌≤◌, ◌<◌, min, max, ◌≡◌, refl, sym, ap, ◌∙◌, ◌≢◌, ◌↔◌, ◌⊎◌,
  inl, inr, Bool, true, false, not, ◌&&◌, ◌||◌, Option, none, some, List, [], ◌∷◌, ◌++◌, map, arith,
  ltb, leb, ◌==◌, if◌then◌else◌, leb→le, le→leb, ==_iff, Bool-cases, Option-cases, Eq, nat_eq,
  length, take, drop, get_elem?, length-append, length-take, take_of_length-le, take-append-drop,
  All, select, any, contains, list_beq, list_eq,
}
use iwiki_mcp.Float.{Float, min_float, max_float}

abbrev pub reserve_tokens : ℕ
reserve_tokens = 512

abbrev pub min_budget_chars : ℕ
min_budget_chars = 4000

pub record ContextBudget (F : Type 0) : Type 0 where
  pub window_tokens : ℕ
  pub output_tokens : ℕ
  pub ceiling_chars : ℕ
  pub ratio : F

module _ (f : Float) where
  open f use {F, add, sub, mul, div, of_nat, decimal, ceil, trunc}

  abbrev pub initial_ratio : F
  initial_ratio = decimal 75 2

  abbrev pub min_ratio : F
  min_ratio = decimal 25 2

  abbrev pub max_ratio : F
  max_ratio = decimal 15 1

  abbrev pub ratio_safety : F
  ratio_safety = decimal 125 2

  abbrev pub overflow_factor : F
  overflow_factor = decimal 15 1

  abbrev pub ewma_weight : F
  ewma_weight = decimal 2 1

  unfoldable pub initial_budget : ℕ → ℕ → ℕ → ContextBudget F
  initial_budget window output ceiling = record {
    window_tokens = window;
    output_tokens = output;
    ceiling_chars = ceiling;
    ratio = initial_ratio;
  }

  -- `available <= 0` of the integers is `available == 0` of the truncated difference.
  unfoldable pub chars : ContextBudget F → ℕ → ℕ
  chars b fixed_chars =
      let available =
        b.window_tokens
        - b.output_tokens
        - reserve_tokens
        - ceil (mul (of_nat fixed_chars) b.ratio) in
      if available == 0
      then min b.ceiling_chars min_budget_chars
      else min b.ceiling_chars
          (max min_budget_chars (trunc (div (of_nat available) (mul b.ratio ratio_safety))))

  abbrev clamp : F → F
  clamp x = min_float f max_ratio (max_float f min_ratio x)

  unfoldable pub observe : ContextBudget F → ℕ → ℕ → ContextBudget F
  observe b prompt_chars prompt_tokens =
      if prompt_chars == 0 || prompt_tokens == 0 then b else record b {
        ratio = clamp (
            add (mul (sub (of_nat 1) ewma_weight) b.ratio)
              (mul ewma_weight (div (of_nat prompt_tokens) (of_nat prompt_chars))));
      }

  unfoldable pub escalate : ContextBudget F → ContextBudget F
  escalate b = record b { ratio = min_float f max_ratio (mul b.ratio overflow_factor) }
