-- ===== src/Provenance/Names.antt =====
-- src/provenance.rs: `normalize_tag`.
use curator_rs.Prelude.{
  ℕ, Bool, false, not, ◌&&◌, Option, some, none, List, [], ◌∷◌, ◌++◌, leb, is_empty, if◌then◌else◌,
}
use curator_rs.Ascii.{trimmed, lowered, byte_length}
use curator_rs.Text.{is_whitespace}

abbrev pub goes_on : List ℕ → Bool
goes_on [] = false
goes_on (c ∷ s) = not (is_whitespace c)

abbrev pub put_first : ℕ → List (List ℕ) → List (List ℕ)
put_first c [] = (c ∷ []) ∷ []
put_first c (w ∷ ws) = (c ∷ w) ∷ ws

-- `text.split_whitespace()`
unfoldable pub words : List ℕ → List (List ℕ)
words [] = []
words (c ∷ s) =
    let rest = words s in
    if is_whitespace c then rest else if goes_on s then put_first c rest else (c ∷ []) ∷ rest

-- `words.join(" ")`
unfoldable pub join_words : List (List ℕ) → List ℕ
join_words [] = []
join_words (w ∷ []) = w
join_words (w ∷ v ∷ ws) = w ++ 32 ∷ join_words (v ∷ ws)

unfoldable pub spaced : List ℕ → List ℕ
spaced raw = lowered (trimmed (join_words (words raw)))

unfoldable pub normalize_tag : List ℕ → Option (List ℕ)
normalize_tag raw =
    if not (is_empty (spaced raw)) && leb (byte_length (spaced raw)) 160
    then some (spaced raw)
    else none
