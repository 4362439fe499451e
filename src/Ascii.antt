-- ===== src/Ascii.antt =====
-- Texts as lists of code points, and the functions of `str` that look inside a text.
use Prim.Native.Char.{code}
use curator_rs.Prelude.{
  ◌≡◌, refl, ==_iff, arith, ℕ, ◌+◌, ◌-◌, Bool, true, false, ◌&&◌, ◌||◌, List, [], ◌∷◌, ◌++◌, map,
  Option, some, none, String, any, ltb, leb, ◌==◌, length, drop, is_empty, if◌then◌else◌,
}
use mathlib.Core.List.{reverse}
use curator_rs.Text.{is_whitespace}

abbrev pub codes : String → List ℕ
codes String.[] = []
codes (String.◌∷◌ c s) = code c ∷ codes s

unfoldable pub to_lower : ℕ → ℕ
to_lower c = if leb b'A' c && leb c b'Z' then c + 32 else c

unfoldable pub to_upper : ℕ → ℕ
to_upper c = if leb b'a' c && leb c b'z' then c - 32 else c

-- `text.to_ascii_lowercase()`
unfoldable pub lowered : List ℕ → List ℕ
lowered s = map to_lower s

unfoldable pub raised : List ℕ → List ℕ
raised s = map to_upper s

unfoldable pub same : List ℕ → List ℕ → Bool
same [] [] = true
same (x ∷ xs) (y ∷ ys) = x == y && same xs ys
same xs ys = false

pub same_refl : (s : List ℕ) → same s s ≡ true
unfolding same
same_refl [] = refl
same_refl (c ∷ s) = ground (arith, same_refl s, ==_iff c c)

unfoldable pub starts_with : List ℕ → List ℕ → Bool
starts_with s [] = true
starts_with [] (p ∷ ps) = false
starts_with (c ∷ s) (p ∷ ps) = c == p && starts_with s ps

-- `text.contains(needle)`
unfoldable pub contains_text : List ℕ → List ℕ → Bool
contains_text [] needle = starts_with [] needle
contains_text (c ∷ s) needle = starts_with (c ∷ s) needle || contains_text s needle

-- `matches!(text, "…" | "…")`
unfoldable pub is_one_of : List String → List ℕ → Bool
is_one_of names s = any (λ n. same (codes n) s) names

-- Whether a text contains one of these.
unfoldable pub contains_one_of : List String → List ℕ → Bool
contains_one_of needles s = any (λ n. contains_text s (codes n)) needles

-- The text after the first place where the needle stands.
unfoldable pub after_text : List ℕ → List ℕ → Option (List ℕ)
after_text needle [] = if starts_with [] needle then some [] else none
after_text needle (c ∷ s) =
    let rest = after_text needle s in
    if starts_with (c ∷ s) needle then some (drop (length needle) (c ∷ s)) else rest

-- `text.split(c).next()`
unfoldable pub before_byte : ℕ → List ℕ → List ℕ
before_byte at [] = []
before_byte at (c ∷ s) = let rest = before_byte at s in if c == at then [] else c ∷ rest

-- `text.split(c).next_back()`
unfoldable pub after_last : ℕ → List ℕ → List ℕ
after_last at [] = []
after_last at (c ∷ s) =
    let rest = after_last at s in
    if any (λ d. d == at) s then rest else if c == at then s else c ∷ s

unfoldable pub drop_spaces : List ℕ → List ℕ
drop_spaces [] = []
drop_spaces (c ∷ s) = let rest = drop_spaces s in if is_whitespace c then rest else c ∷ s

-- `text.trim()`
unfoldable pub trimmed : List ℕ → List ℕ
trimmed s = reverse (drop_spaces (reverse (drop_spaces s)))

-- The last characters of a text, `n` at most.
unfoldable pub last_chars : ℕ → List ℕ → List ℕ
last_chars n s = drop (length s - n) s

-- `text.lines()`: the lines without their ends, and no empty one after the last end.
unfoldable pub without_return : List ℕ → List ℕ
without_return s = elim (reverse s) [ [] ↦ [] | c ∷ rest ↦ if c == 13 then reverse rest else s ]

unfoldable pub lines_from : List ℕ → List ℕ → List (List ℕ)
lines_from line [] = if is_empty line then [] else reverse line ∷ []
lines_from line (c ∷ s) =
    let next = lines_from [] s in
    let more = lines_from (c ∷ line) s in
    if c == 10 then without_return (reverse line) ∷ next else more

unfoldable pub lines : List ℕ → List (List ℕ)
lines s = lines_from [] s

-- `lines.join("\n")`
unfoldable pub joined : List (List ℕ) → List ℕ
joined [] = []
joined (l ∷ []) = l
joined (l ∷ m ∷ ls) = l ++ 10 ∷ joined (m ∷ ls)

-- `text.len()`, in bytes of UTF-8.
unfoldable pub byte_length : List ℕ → ℕ
byte_length [] = 0
byte_length (c ∷ s) =
    (if ltb c 0x80 then 1 else if ltb c 0x800 then 2 else if ltb c 0x10000 then 3 else 4)
    + byte_length s
