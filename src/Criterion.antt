-- ===== src/Criterion.antt =====
-- packages/domain-model/src/criterion-check.ts: the control plane's own computation of a criterion
-- from what an agent reports. What the agent reports and what a criterion expects are JSON values.
-- `JSON.parse` (none where it throws) and `Number` of a decimal text are parameters.
pub mod Evidence
use Prim.Native.Char.{code}
use Prim.Native.String
use cmap.Common.{
  ℕ, Bool, true, false, String, ◌==◌, Option, none, some, if◌then◌else◌, not, ◌&&◌, ◌||◌, eqb, leb,
  ltb, is_space, is_blank,
}
use cmap.Json.{Json, null, bool, num, str, arr, obj, Items, nil, cons, json_equal}
use cmap.Json.Numbers.{Number, num_eq, num_lt, num_le, is_finite}

pub data Operator : Type 0 where
  less at_most greater at_least equal not_equal contains not_contains : Operator

pub record CheckableCriterion : Type 0 where
  pub operator : Operator
  pub expected : Json

-- `actual` is none where it is undefined
pub record CriterionResult : Type 0 where
  pub actual : Option Json
  pub passed : Bool

abbrev is_digit : ℕ → Bool
is_digit c = leb b'0' c && leb c b'9'

-- \d*, as the rest of the text
unfoldable pub skip_digits : String → String
skip_digits String.[] = ""
skip_digits (String.◌∷◌ c s) =
    let rest = skip_digits s in if is_digit (code c) then rest else String.◌∷◌ c s

abbrev starts_with_digit : String → Bool
starts_with_digit String.[] = false
starts_with_digit (String.◌∷◌ c s) = is_digit (code c)

-- [+-]?
unfoldable pub skip_sign : String → String
skip_sign String.[] = ""
skip_sign (String.◌∷◌ c s) = if eqb (code c) b'+' || eqb (code c) b'-' then s else String.◌∷◌ c s

abbrev is_empty : String → Bool
is_empty String.[] = true
is_empty (String.◌∷◌ c s) = false

-- (?:[eE][+-]?\d+)?$
unfoldable pub is_exponent : String → Bool
unfolding skip_sign skip_digits
is_exponent String.[] = true
is_exponent (String.◌∷◌ c s) =
    (eqb (code c) b'e' || eqb (code c) b'E')
    && starts_with_digit (skip_sign s)
    && is_empty (skip_digits (skip_sign s))

-- (?:\.\d*)? and what follows
unfoldable pub is_fraction : String → Bool
unfolding is_exponent skip_digits
is_fraction String.[] = true
is_fraction (String.◌∷◌ c s) =
    if eqb (code c) b'.' then is_exponent (skip_digits s) else is_exponent (String.◌∷◌ c s)

-- \.\d+ and what follows
unfoldable pub is_bare_fraction : String → Bool
unfolding is_exponent skip_digits
is_bare_fraction String.[] = false
is_bare_fraction (String.◌∷◌ c s) =
    eqb (code c) b'.' && starts_with_digit s && is_exponent (skip_digits s)

-- the whole pattern of strictNumber
unfoldable pub is_decimal : String → Bool
unfolding skip_sign skip_digits is_fraction is_bare_fraction
is_decimal s =
    let body = skip_sign s in
    if starts_with_digit body then is_fraction (skip_digits body) else is_bare_fraction body

unfoldable pub trim_start : String → String
unfolding is_space
trim_start String.[] = ""
trim_start (String.◌∷◌ c s) =
    let rest = trim_start s in if is_space (code c) then rest else String.◌∷◌ c s

unfoldable pub trim_end : String → String
unfolding is_blank
trim_end String.[] = ""
trim_end (String.◌∷◌ c s) =
    let rest = trim_end s in if is_blank (String.◌∷◌ c s) then "" else String.◌∷◌ c rest

-- a.startsWith(b)
unfoldable pub starts_with : String → String → Bool
starts_with s String.[] = true
starts_with String.[] (String.◌∷◌ d t) = false
starts_with (String.◌∷◌ c s) (String.◌∷◌ d t) = eqb (code c) (code d) && starts_with s t

-- a.includes(b)
unfoldable pub has_text : String → String → Bool
unfolding starts_with
has_text String.[] t = starts_with "" t
has_text (String.◌∷◌ c s) t = starts_with (String.◌∷◌ c s) t || has_text s t

-- actual.some((x) => jsonEqual(x, expected))
unfoldable pub has_item : Items → Json → Bool
has_item nil e = false
has_item (cons x xs) e = json_equal x e || has_item xs e

unfoldable pub bool_value : Json → Option Bool
bool_value (bool b) = some b
bool_value (str s) = if s == "true" then some true else if s == "false" then some false else none
bool_value _ = none

abbrev same_truth : Bool → Bool → Bool
same_truth true b = b
same_truth false b = not b

-- the results of the comparisons of two options: none where either is none
abbrev pub both {ℓ} : {A : Type ℓ} → (A → A → Bool) → Option A → Option A → Option Bool
both test none b = none
both test (some a) none = none
both test (some a) (some b) = some (test a b)

-- null, array or object, whichever `expected` is
unfoldable pub same_shape : Json → Json → Bool
same_shape null null = true
same_shape (arr _) (arr _) = true
same_shape (obj _) (obj _) = true
same_shape _ _ = false

abbrev pub is_str : Json → Bool
is_str (str _) = true
is_str _ = false

module _ (parse_json : String → Option Json) (number : String → Number) where
  abbrev finite_only : Number → Option Number
  finite_only n = if is_finite n then some n else none

  unfoldable pub strict_number : Json → Option Number
  unfolding is_decimal trim_start trim_end
  strict_number (num n) = finite_only n
  strict_number (str v) =
      let s = trim_end (trim_start v) in if is_decimal s then finite_only (number s) else none
  strict_number _ = none

  abbrev of_shape : Json → Option Json → Option Json
  of_shape expected none = none
  of_shape expected (some v) = if same_shape expected v then some v else none

  -- for an `expected` that is null, an array or an object
  unfoldable pub actual_json_value : Json → Json → Option Json
  actual_json_value expected (str s) = of_shape expected (parse_json s)
  actual_json_value expected actual = of_shape expected (some actual)

  unfoldable pub same_by_expected_type : Json → Json → Option Bool
  unfolding strict_number bool_value actual_json_value
  same_by_expected_type (num n) actual = both num_eq (strict_number actual) (strict_number (num n))
  same_by_expected_type (bool b) actual = both same_truth (bool_value actual) (some b)
  same_by_expected_type (str e) (str a) = some (a == e)
  same_by_expected_type (str e) _ = none
  same_by_expected_type expected actual = elim (actual_json_value expected actual) [
    | none ↦ none
    | some a ↦ some (json_equal expected a)
  ]

  abbrev items_have : Option Json → Json → Option Bool
  items_have (some (arr xs)) e = some (has_item xs e)
  items_have _ e = none

  -- the `has` of contains and not_contains
  unfoldable pub has_expected : Json → Json → Option Bool
  unfolding has_text has_item
  has_expected (str a) (str e) = some (has_text a e)
  has_expected (arr xs) e = items_have (some (arr xs)) e
  has_expected (str a) e = items_have (parse_json a) e
  has_expected _ e = none

  -- null is not a pass
  abbrev pub settled : Option Bool → Bool
  settled none = false
  settled (some b) = b

  abbrev pub flipped : Option Bool → Option Bool
  flipped none = none
  flipped (some b) = some (not b)

  -- the switch, where `actual` is there
  unfoldable pub judge : Operator → Json → Json → Bool
  unfolding same_by_expected_type has_expected
  judge less e a = settled (both num_lt (strict_number a) (strict_number e))
  judge at_most e a = settled (both num_le (strict_number a) (strict_number e))
  judge greater e a = settled (both num_lt (strict_number e) (strict_number a))
  judge at_least e a = settled (both num_le (strict_number e) (strict_number a))
  judge equal e a = settled (same_by_expected_type e a)
  judge not_equal e a = settled (flipped (same_by_expected_type e a))
  judge contains e a = settled (has_expected a e)
  judge not_contains e a = settled (flipped (has_expected a e))

  -- recomputeCriterionPassed; an undefined `actual` has no number, no equal, and no members
  unfoldable pub recompute_criterion_passed : CheckableCriterion → Option CriterionResult → Bool
  unfolding judge
  recompute_criterion_passed criterion none = false
  recompute_criterion_passed criterion (some result) =
      if result.passed
      then elim result.actual [
        | none ↦ false
        | some a ↦ judge criterion.operator criterion.expected a
      ]
      else false
