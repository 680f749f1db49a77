-- ===== src/Telegram/Transport/Backoff.antt =====
-- `Backoff` of telegram_bot/runtime.py: the initial delay and the maximum are whole seconds, which
-- doubling and the minimum keep exact in floats; the jitter is computed in floats.
use native.Mathlib.Nat.{mul_assoc, pow-succ', one-le-pow, le-mul_of_pos_right, mul-le-mul_right}
use iwiki_mcp.Float.{Float}
use iwiki_mcp.Prelude.{
  ◌^◌, ℕ, zero, suc, ◌+◌, ◌*◌, ◌≤◌, min, ◌≡◌, sym, ap, ◌∙◌, ◌⊎◌, inl, inr, false, arith, ltb,
  if◌then◌else◌, Bool-cases, nat_eq, list_eq,
}

pub record Backoff (f : Float) : Type 0 where
  pub initial : ℕ
  pub maximum : ℕ
  pub jitter_ratio : f.F
  pub attempt : ℕ

-- The loop, with `remaining` rounds left.
unfoldable pub doubled : ℕ → ℕ → ℕ → ℕ
doubled maximum zero base = base
doubled maximum (suc remaining) base =
    let more = doubled maximum remaining (min maximum (base * 2)) in
    if ltb base maximum then more else base

module _ (f : Float) where
  abbrev pub default_backoff : Backoff f
  default_backoff = record { initial = 1; maximum = 30; jitter_ratio = f.decimal 2 1; attempt = 0 }

  -- `base * (1 - ratio + 2 * ratio * random_value)`
  abbrev pub with_jitter : ℕ → f.F → f.F → f.F
  with_jitter base ratio random_value =
      f.mul (f.of_nat base)
        (f.add (f.sub (f.of_nat 1) ratio) (f.mul (f.mul (f.of_nat 2) ratio) random_value))

  -- The delay, and the next state.
  unfoldable pub next_delay : f.F → Backoff f → f.F × Backoff f
  unfolding doubled
  next_delay random_value b =
      let base = doubled b.maximum b.attempt b.initial in
      (with_jitter base b.jitter_ratio random_value, record b { attempt = b.attempt + 1 })

  unfoldable pub reset : Backoff f → Backoff f
  reset b = record b { attempt = 0 }

twice_power : (base r : ℕ) → base * 2 * 2 ^ r ≡ base * 2 ^ suc r
twice_power base r = mul_assoc base 2 (2 ^ r) ∙ ap (λ n. base * n) (sym (pow-succ' 2 r))

power_grows : (n r : ℕ) → n ≤ n * 2 ^ r
power_grows n r = le-mul_of_pos_right n (one-le-pow r 2 (omega arith))

le_total : (a b : ℕ) → (a ≤ b) ⊎ (b ≤ a)
le_total a b = ground arith

min_left : (a b : ℕ) → a ≤ b → min a b ≡ a
min_left a b h = omega arith

min_right : (a b : ℕ) → b ≤ a → min a b ≡ b
min_right a b h = omega arith

-- Once the base is the maximum, or past it at the next doubling, the minimum is the maximum.
capped :
    (maximum base r : ℕ)
    → maximum ≤ base * 2
    → min maximum (maximum * 2 ^ r) ≡ min maximum (base * 2 ^ suc r)
capped maximum base r h =
    let more = mul-le-mul_right (2 ^ r) h in
    omega (arith, power_grows maximum r, power_grows (base * 2) r, twice_power base r)

not_ltb : (a b : ℕ) → ltb a b ≡ false → b ≤ a
not_ltb a b h = ground arith

room :
    (maximum base r : ℕ)
    → min maximum (min maximum (base * 2) * 2 ^ r) ≡ min maximum (base * 2 ^ suc r)
room maximum base r = elim (le_total maximum (base * 2)) [
  | inl h ↦ rw (min_left maximum (base * 2) h) (capped maximum base r h)
  | inr h ↦ rw (min_right maximum (base * 2) h) (ap (min maximum) (twice_power base r))
]

doubled_power :
    (maximum remaining base : ℕ)
    → base ≤ maximum
    → doubled maximum remaining base ≡ min maximum (base * 2 ^ remaining)
unfolding doubled
doubled_power maximum zero base h = omega arith
doubled_power maximum (suc r) base h = elim (Bool-cases (ltb base maximum)) [
  | inr e ↦ rw (e) (omega (arith, not_ltb base maximum e, h, power_grows base (suc r)))
  | inl e ↦
      rw (e) (doubled_power maximum r (min maximum (base * 2)) (omega arith) ∙ room maximum base r)
]

-- The delay, after any attempts since the reset, is the initial delay doubled once for every
-- attempt, cut to the maximum, with the jitter of the random value, if the initial delay is at most
-- the maximum; and the next one counts one attempt more.
pub next_delay_power :
    (f : Float) (random_value : f.F) (b : Backoff f)
    → b.initial ≤ b.maximum
    → next_delay f random_value b ≡ (
      with_jitter f (min b.maximum (b.initial * 2 ^ b.attempt)) b.jitter_ratio random_value,
      record b { attempt = b.attempt + 1 },
    )
unfolding next_delay
next_delay_power f random_value b h =
    ap
      (λ base.
        (with_jitter f base b.jitter_ratio random_value, record b { attempt = b.attempt + 1 }))
      (doubled_power b.maximum b.attempt b.initial h)
