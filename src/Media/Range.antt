-- ===== src/Media/Range.antt =====
-- src/services/media.rs: `plan_range`, which reads one byte range of a request. The header is a list
-- of bytes.
use curator_rs.Prelude.{
  ℕ, ◌+◌, ◌-◌, Bool, true, false, not, ◌||◌, Option, some, none, List, [], ◌∷◌, min, ltb, leb, ◌==◌,
  if◌then◌else◌, any, all,
}
use curator_rs.Ascii.{codes}
use curator_rs.Media.Digits.{is_digit, parse_u64}

pub record StreamPlan : Type 0 where
  pub start : ℕ
  pub length : ℕ
  pub total : ℕ
  pub partial : Bool

-- `StreamPlan::end`
unfoldable pub end : StreamPlan → ℕ
end p = p.start + (p.length - 1)

-- `none` is `Err(InvalidRange)`.
abbrev pub Plan : Type 0
Plan = Option StreamPlan

unfoldable pub strip_prefix : List ℕ → List ℕ → Option (List ℕ)
strip_prefix [] s = some s
strip_prefix (p ∷ ps) [] = none
strip_prefix (p ∷ ps) (c ∷ s) = let rest = strip_prefix ps s in if p == c then rest else none

abbrev with_front : ℕ → Option (List ℕ × List ℕ) → Option (List ℕ × List ℕ)
with_front c none = none
with_front c (some (a, b)) = some (c ∷ a, b)

-- The text before the first such byte, and the text after it.
unfoldable pub split_once : ℕ → List ℕ → Option (List ℕ × List ℕ)
split_once at [] = none
split_once at (c ∷ cs) =
    let rest = split_once at cs in if c == at then some ([], cs) else with_front c rest

-- `byte.is_ascii_whitespace()`
unfoldable pub is_ascii_whitespace : ℕ → Bool
is_ascii_whitespace c = c == 32 || c == 9 || c == 10 || c == 12 || c == 13

abbrev checked : ℕ → ℕ → ℕ → Plan
checked total start end =
    if ltb end start
    then none
    else some (record { start = start; length = end - start + 1; total = total; partial = true })

-- `-suffix`: the last bytes.
unfoldable pub plan_suffix : ℕ → List ℕ → Plan
plan_suffix total end = elim (parse_u64 end) [
  | none ↦ none
  | some suffix ↦ if suffix == 0 then none else checked total (total - suffix) (total - 1)
]

abbrev end_of : ℕ → List ℕ → Option ℕ
end_of total [] = some (total - 1)
end_of total (c ∷ cs) = elim (parse_u64 (c ∷ cs)) [
  | none ↦ none
  | some end ↦ some (min end (total - 1))
]

-- `start-` and `start-end`.
unfoldable pub plan_from : ℕ → List ℕ → List ℕ → Plan
plan_from total start end = elim (parse_u64 start) [
  | none ↦ none
  | some first ↦
      if leb total first
      then none
      else elim (end_of total end) [ none ↦ none | some last ↦ checked total first last ]
]

unfoldable pub plan_bounds : ℕ → List ℕ → List ℕ → Plan
plan_bounds total [] end = plan_suffix total end
plan_bounds total (c ∷ cs) end = plan_from total (c ∷ cs) end

unfoldable pub plan_spec : ℕ → List ℕ → Plan
plan_spec total spec =
    if total == 0 || any (λ c. c == b',') spec || any is_ascii_whitespace spec
    then none
    else elim (split_once b'-' spec) [
      | none ↦ none
      | some (start, end) ↦
          if not (all is_digit start) || not (all is_digit end)
          then none
          else plan_bounds total start end
    ]

abbrev pub bytes_prefix : List ℕ
bytes_prefix = codes "bytes="

unfoldable pub plan_range : ℕ → Option (List ℕ) → Plan
plan_range total none = some (record { start = 0; length = total; total = total; partial = false })
plan_range total (some range) = elim (strip_prefix bytes_prefix range) [
  | none ↦ none
  | some spec ↦ plan_spec total spec
]
