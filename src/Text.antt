-- ===== src/Text.antt =====
-- The functions of `str` and `char` of Rust's standard library that the program uses on whole texts.
use Prim.Native.Char.{code}
use Prim.Native.String
use curator_rs.Prelude.{
  ℕ, zero, suc, ◌/◌, ◌%◌, get_or, ltb, List, [], ◌∷◌, String, Bool, true, ◌&&◌, ◌||◌, leb, ◌==◌,
  if◌then◌else◌,
}

-- `char::is_whitespace`
unfoldable pub is_whitespace : ℕ → Bool
is_whitespace c =
    leb 9 c && leb c 13
    || c == 32
    || c == 0x85
    || c == 0xa0
    || c == 0x1680
    || leb 0x2000 c && leb c 0x200a
    || c == 0x2028
    || c == 0x2029
    || c == 0x202f
    || c == 0x205f
    || c == 0x3000

-- `text.trim().is_empty()`
unfoldable pub is_blank : String → Bool
is_blank String.[] = true
is_blank (String.◌∷◌ c s) = is_whitespace (code c) && is_blank s

-- `text.trim_start()`
unfoldable pub trim_start : String → String
trim_start String.[] = String.[]
trim_start (String.◌∷◌ c s) =
    let rest = trim_start s in if is_whitespace (code c) then rest else String.◌∷◌ c s

-- `text.trim_end()`
unfoldable pub trim_end : String → String
trim_end String.[] = String.[]
trim_end (String.◌∷◌ c s) =
    if is_blank (String.◌∷◌ c s) then String.[] else String.◌∷◌ c (trim_end s)

unfoldable pub trim : String → String
trim s = trim_end (trim_start s)

abbrev pub decimal_digits : List String
decimal_digits = "0" ∷ "1" ∷ "2" ∷ "3" ∷ "4" ∷ "5" ∷ "6" ∷ "7" ∷ "8" ∷ "9" ∷ []

-- The decimal digits of a number, with fuel for as many.
unfoldable pub show_digits : ℕ → ℕ → String
show_digits zero n = ""
show_digits (suc fuel) n =
    let front = show_digits fuel (n / 10) in
    let last = get_or decimal_digits (n % 10) "" in
    if ltb n 10 then last else String.◌++◌ front last

-- `{n}` of an unsigned integer: a number has no more digits than itself and one.
unfoldable pub show : ℕ → String
show n = show_digits (suc n) n
