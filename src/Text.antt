-- ===== src/Text.antt =====
-- Python's `str` as its list of code points, with the methods that the program calls.
use Prim.Native.Char.{code}
use Prim.Native.String.{String}
use mathlib.Core.List.{reverse}
use iwiki_mcp.Prelude.{
  ltb, ◌/◌, ◌%◌, suc, zero, ℕ, ◌+◌, ◌≡◌, Bool, true, false, ◌&&◌, ◌||◌, List, [], ◌∷◌, ◌++◌, arith,
  leb, ◌==◌, if◌then◌else◌, nat_eq, length, length-append, list_eq,
}

abbrev pub Text : Type 0
Text = List ℕ

-- The code points of a literal.
abbrev pub codes : String → Text
codes String.[] = []
codes (String.◌∷◌ c s) = code c ∷ codes s

-- `str.isspace` of one character.
unfoldable pub is_space : ℕ → Bool
is_space c =
    (leb 9 c && leb c 13)
    || (leb 28 c && leb c 32)
    || c == 0x85
    || c == 0xA0
    || c == 0x1680
    || (leb 0x2000 c && leb c 0x200A)
    || c == 0x2028
    || c == 0x2029
    || c == 0x202F
    || c == 0x205F
    || c == 0x3000

-- `str.lstrip()`
unfoldable pub strip_left : Text → Text
unfolding is_space
strip_left [] = []
strip_left (c ∷ cs) = let rest = strip_left cs in if is_space c then rest else c ∷ cs

-- `str.strip()`
unfoldable pub strip : Text → Text
unfolding strip_left
strip s = reverse (strip_left (reverse (strip_left s)))

-- `separator.join(parts)`
unfoldable pub join : Text → List Text → Text
join separator [] = []
join separator (part ∷ []) = part
join separator (part ∷ next ∷ parts) = part ++ (separator ++ join separator (next ∷ parts))

-- `s.split("\n\n")`: the pieces between blank lines, found from the left.
unfoldable pub split_blank : Text → List Text
split_blank s = cut [] s
  where
    cut : Text → Text → List Text
    cut piece [] = reverse piece ∷ []
    cut piece (c ∷ []) = reverse (c ∷ piece) ∷ []
    cut piece (c ∷ d ∷ rest) = elim (c == 10 && d == 10) [
      | true ↦ reverse piece ∷ cut [] rest
      | false ↦ cut (c ∷ piece) (d ∷ rest)
    ]

digits : ℕ → ℕ → Text → Text
digits zero n acc = acc
digits (suc fuel) n acc =
    let more = digits fuel (n / 10) ((48 + n % 10) ∷ acc) in
    if ltb n 10 then (48 + n) ∷ acc else more

-- `str(n)`: a number has no more digits than units, and one.
unfoldable pub str_nat : ℕ → Text
unfolding digits
str_nat n = digits (suc n) n []

-- What `join` puts in front of one part more.
abbrev pub gap : Text → List Text → ℕ
gap separator [] = 0
gap separator (_ ∷ _) = length separator

-- Joining one part more adds the separator and the part.
pub length-join-snoc :
    (separator : Text) (parts : List Text) (last : Text)
    → length (join separator (parts ++ last ∷ []))
      ≡ length (join separator parts) + gap separator parts + length last
unfolding join
length-join-snoc separator [] last = omega arith
length-join-snoc separator (part ∷ []) last =
    omega (arith, length-append part (separator ++ last), length-append separator last)
length-join-snoc separator (part ∷ next ∷ parts) last = omega (
  arith,
  length-append part (separator ++ join separator ((next ∷ parts) ++ last ∷ [])),
  length-append separator (join separator ((next ∷ parts) ++ last ∷ [])),
  length-append part (separator ++ join separator (next ∷ parts)),
  length-append separator (join separator (next ∷ parts)),
  length-join-snoc separator (next ∷ parts) last,
)
