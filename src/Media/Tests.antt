-- ===== src/Media/Tests.antt =====
-- Runs of `plan_range`, and its theorems at these runs.
use curator_rs.Prelude.{
  ℕ, ◌≡◌, refl, true, Option, some, none, List, ◌∷◌, ◌++◌, ◌+◌, ◌-◌, min, arith,
}
use curator_rs.Ascii.{codes}
use curator_rs.Media.Digits.{is_digit, parse_from, parse_u64, digits, decimal}
use curator_rs.Media.Range.{
  StreamPlan, strip_prefix, split_once, is_ascii_whitespace, plan_suffix, plan_from, plan_bounds,
  plan_spec, plan_range, bytes_prefix,
}
use curator_rs.Media.Bounds.{IsWithin, plan_range-IsWithin, plan_range-decimal}

model : Unit {0}
unfolding is_digit parse_from parse_u64 digits decimal strip_prefix split_once is_ascii_whitespace
    plan_suffix plan_from plan_bounds plan_spec plan_range
model = tt

abbrev header : Option (List ℕ)
header = some (codes "bytes=90-400")

abbrev tail_plan : StreamPlan
tail_plan = record { start = 90; length = 10; total = 100; partial = true }

header_plan : plan_range 100 header ≡ some tail_plan
unfolding model
header_plan = refl

suffix_test :
    plan_range 100 (some (codes "bytes=-30"))
    ≡ some (record { start = 70; length = 30; total = 100; partial = true })
unfolding model
suffix_test = refl

-- Several ranges, a reversed range and one that begins after the file are refused.
several_test : plan_range 100 (some (codes "bytes=0-1,5-6")) ≡ none
unfolding model
several_test = refl

reversed_test : plan_range 100 (some (codes "bytes=9-3")) ≡ none
unfolding model
reversed_test = refl

late_test : plan_range 100 (some (codes "bytes=100-")) ≡ none
unfolding model
late_test = refl

plan_range-IsWithin_example : IsWithin 100 tail_plan
plan_range-IsWithin_example = plan_range-IsWithin 100 header tail_plan header_plan

plan_range-decimal_example :
    plan_range 100 (some (bytes_prefix ++ (decimal 90 ++ b'-' ∷ decimal 400)))
    ≡ some (record { start = 90; length = min 400 99 - 90 + 1; total = 100; partial = true })
plan_range-decimal_example =
    plan_range-decimal 100 90 400 (omega arith) (omega arith) (omega arith) (omega arith)
