-- ===== src/Criterion/Evidence.antt =====
-- Operators that ask for contraries, whatever the parser of JSON and of numbers returns.
use cmap.Common.{false, String, Option, none, some, ◌&&◌, ◌≡◌, refl, arith, inl, inr, Option-cases}
use cmap.Json.{Json}
use cmap.Json.Numbers.{Number, num_eq, num_lt, num_le}
use cmap.Criterion.{
  Operator, less, at_most, greater, at_least, equal, not_equal, contains, not_contains,
  CriterionResult, strict_number, judge, settled, both, recompute_criterion_passed,
}

-- the operator that asks for the contrary
unfoldable pub opposite : Operator → Operator
opposite less = at_least
opposite at_most = greater
opposite greater = at_most
opposite at_least = less
opposite equal = not_equal
opposite not_equal = equal
opposite contains = not_contains
opposite not_contains = contains

-- a < b and b <= a exclude each other
lt_excludes_le : (a b : Number) → (num_lt a b && num_le b a) ≡ false
unfolding num_lt num_le num_eq
lt_excludes_le a b = ground arith

module _ (parse_json : String → Option Json) (number : String → Number) where
  pair_excludes :
      (x y : Option Number)
      → (settled parse_json number (both num_lt x y) && settled parse_json number (both num_le y x))
        ≡ false
  pair_excludes none y = ground arith
  pair_excludes (some a) none = ground arith
  pair_excludes (some a) (some b) = lt_excludes_le a b

  excludes_pair :
      (x y : Option Number)
      → (settled parse_json number (both num_le x y) && settled parse_json number (both num_lt y x))
        ≡ false
  excludes_pair none y = ground arith
  excludes_pair (some a) none = ground arith
  excludes_pair (some a) (some b) = ground (arith, lt_excludes_le b a)

  judge_excludes :
      (o : Operator) (e a : Json)
      → (judge parse_json number o e a && judge parse_json number (opposite o) e a) ≡ false
  unfolding judge opposite
  judge_excludes less e a =
      pair_excludes (strict_number parse_json number a) (strict_number parse_json number e)
  judge_excludes at_most e a =
      excludes_pair (strict_number parse_json number a) (strict_number parse_json number e)
  judge_excludes greater e a =
      pair_excludes (strict_number parse_json number e) (strict_number parse_json number a)
  judge_excludes at_least e a =
      excludes_pair (strict_number parse_json number e) (strict_number parse_json number a)
  judge_excludes equal e a = ground arith
  judge_excludes not_equal e a = ground arith
  judge_excludes contains e a = ground arith
  judge_excludes not_contains e a = ground arith

  -- No report passes a criterion and the criterion of the contrary operator (< and >=, <= and >,
  -- equal and not equal, contains and not contains) with the same expected value.
  pub opposites_exclude :
      (o : Operator) (e : Json) (r : Option CriterionResult)
      → (recompute_criterion_passed parse_json number (record { operator = o; expected = e }) r
          && recompute_criterion_passed parse_json number
              (record { operator = opposite o; expected = e })
              r)
        ≡ false
  unfolding recompute_criterion_passed
  opposites_exclude o e none = refl
  opposites_exclude o e (some r) = elim (Option-cases r.actual) [
    | inl missing ↦ rw missing (ground arith)
    | inr (a, there) ↦ rw there (ground (arith, judge_excludes o e a))
  ]
