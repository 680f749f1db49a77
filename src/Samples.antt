-- ===== src/Samples.antt =====
-- Concrete instances of the parameters, for the runs and the examples of the other modules.
use iwiki_mcp.Prelude.{
  ◌^◌, ℕ, ◌+◌, ◌-◌, ◌*◌, ◌/◌, ◌&&◌, ◌||◌, map, arith, ltb, leb, ◌==◌, if◌then◌else◌, nat_eq,
  list_eq,
}
use iwiki_mcp.Float.{Float, IsOrdered}
use iwiki_mcp.Telegram.Words.{Unicode}

-- Numbers in hundredths.
abbrev pub hundredths : Float
hundredths = record {
  F = ℕ;
  add = λ a b. a + b;
  sub = λ a b. a - b;
  mul = λ a b. (a * b) / 100;
  div = λ a b. (a * 100) / b;
  lt = ltb;
  of_nat = λ n. n * 100;
  decimal = λ m k. (m * 100) / 10 ^ k;
  ceil = λ a. (a + 99) / 100;
  trunc = λ a. a / 100;
}

pub hundredths-IsOrdered : IsOrdered hundredths
hundredths-IsOrdered = record { lt_asymm = λ a b h. ground arith }

abbrev pub lower : ℕ → ℕ
lower c = if leb 65 c && leb c 90 then c + 32 else c

-- ASCII letters, digits and the underscore.
abbrev pub ascii : Unicode
ascii = record {
  word_char =
      λ c. (leb 48 c && leb c 57) || (leb 65 c && leb c 90) || (leb 97 c && leb c 122) || c == 95;
  casefold = map lower;
}
