-- ===== src/Telegram/Budget/Laws.antt =====
-- The budget stays within the configured ceiling, and the estimate within its range.
use iwiki_mcp.Prelude.{
  ℕ, ◌≤◌, min, ◌≡◌, inl, inr, true, false, ◌||◌, List, [], ◌∷◌, arith, ◌==◌, Bool-cases, nat_eq,
  list_eq,
}
use iwiki_mcp.Float.{Float, IsOrdered, min_float, max_float}
use iwiki_mcp.Telegram.Budget.{
  ContextBudget, min_budget_chars, min_ratio, max_ratio, chars, initial_budget, observe, escalate,
  initial_ratio, overflow_factor,
}

-- What the inference client reports of a completion: its usage, or that the prompt was refused.
pub data Event : Type 0 where
  observed : ℕ → ℕ → Event
  refused : Event

module _ (f : Float) where
  open f use {F, lt}

  abbrev pub calibrate : List Event → ContextBudget F → ContextBudget F
  calibrate [] b = b
  calibrate (observed pc pt ∷ events) b = calibrate events (observe f b pc pt)
  calibrate (refused ∷ events) b = calibrate events (escalate f b)

  -- The budget never passes the operator's ceiling, and falls below the floor of 4000 characters
  -- only where the ceiling is lower, on every branch.
  pub chars-bounds :
      (b : ContextBudget F) (fixed_chars : ℕ)
      → (chars f b fixed_chars ≤ b.ceiling_chars)
        × (min b.ceiling_chars min_budget_chars ≤ chars f b fixed_chars)
  unfolding chars
  chars-bounds b fixed_chars = ground arith

  -- The ratio is neither below the least ratio nor above the greatest.
  pub record IsCalibrated (b : ContextBudget F) : Type 0 where
    pub not_low : lt b.ratio (min_ratio f) ≡ false
    pub not_high : lt (max_ratio f) b.ratio ≡ false

  -- What the calibration relies on of float arithmetic: comparison goes one way round, the
  -- literals are in order, and a factor of 1.5 takes no ratio below the least one.
  pub record IsCalibrating : Type 0 where
    pub ordered : IsOrdered f
    pub limits : lt (min_ratio f) (max_ratio f) ≡ true
    pub initial_low : lt (initial_ratio f) (min_ratio f) ≡ false
    pub initial_high : lt (max_ratio f) (initial_ratio f) ≡ false
    pub growing :
        (x : F)
        → lt x (min_ratio f) ≡ false
        → lt (f.mul x (overflow_factor f)) (min_ratio f) ≡ false

  module _ (c : IsCalibrating) where
    open c use {ordered}

    irreflexive : (x : F) → lt x x ≡ false
    irreflexive x = ground (arith, ordered.lt_asymm x x)

    min_float-IsCalibrated :
        (b : ContextBudget F) (x : F)
        → lt x (min_ratio f) ≡ false
        → IsCalibrated (record b { ratio = min_float f (max_ratio f) x })
    unfolding min_float
    min_float-IsCalibrated b x h = record {
      not_low = ground (arith, ordered.lt_asymm (min_ratio f) (max_ratio f) c.limits);
      not_high = ground (arith, ordered.lt_asymm x (max_ratio f), irreflexive (max_ratio f));
    }

    max_float-not_low : (x : F) → lt (max_float f (min_ratio f) x) (min_ratio f) ≡ false
    unfolding max_float
    max_float-not_low x =
        ground (arith, ordered.lt_asymm (min_ratio f) x, irreflexive (min_ratio f))

    observe-IsCalibrated :
        (b : ContextBudget F) (prompt_chars prompt_tokens : ℕ)
        → IsCalibrated b
        → IsCalibrated (observe f b prompt_chars prompt_tokens)
    unfolding observe
    observe-IsCalibrated b prompt_chars prompt_tokens h =
        elim (Bool-cases (prompt_chars == 0 || prompt_tokens == 0)) [
          | inl e ↦ rw e h
          | inr e ↦ rw e (min_float-IsCalibrated b _ (max_float-not_low _))
        ]

    escalate-IsCalibrated : (b : ContextBudget F) → IsCalibrated b → IsCalibrated (escalate f b)
    unfolding escalate
    escalate-IsCalibrated b h = min_float-IsCalibrated b _ (c.growing b.ratio h.not_low)

    -- From its start, whatever completions the bot observes and whatever refusals it meets, in any
    -- order, the estimate stays between its two limits.
    pub calibrate-IsCalibrated :
        (window output ceiling : ℕ) (events : List Event)
        → IsCalibrated (calibrate events (initial_budget f window output ceiling))
    unfolding initial_budget
    calibrate-IsCalibrated window output ceiling events =
        from events _ (record { not_low = c.initial_low; not_high = c.initial_high })
      where
        from :
            (events : List Event) (b : ContextBudget F)
            → IsCalibrated b
            → IsCalibrated (calibrate events b)
        from [] b h = h
        from (observed pc pt ∷ events) b h =
            from events (observe f b pc pt) (observe-IsCalibrated b pc pt h)
        from (refused ∷ events) b h = from events (escalate f b) (escalate-IsCalibrated b h)
