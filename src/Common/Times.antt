-- ===== src/Common/Times.antt =====
-- What the source takes of the platform's `Date`: parsing and printing of ISO times. A time value is
-- given in milliseconds from the earliest one that ECMAScript has, so it is never negative; `none`
-- is NaN, with which every comparison is false.
use Prim.Native.Nat.{ℕ}
use Prim.Native.String.{String}
use mathlib.Core.Bool.{Bool, false}
use mathlib.Core.Option.{Option, none, some}
use package.cmap.Common.Tests.{leb, ltb}

pub record Platform : Type 0 where
  pub date_parse : String → Option ℕ  -- Date.parse(s)
  pub iso : ℕ → String  -- new Date(ms).toISOString()

-- a < b
abbrev pub earlier : Option ℕ → Option ℕ → Bool
earlier none b = false
earlier (some a) none = false
earlier (some a) (some b) = ltb a b

-- a <= b
abbrev pub not_later : Option ℕ → Option ℕ → Bool
not_later none b = false
not_later (some a) none = false
not_later (some a) (some b) = leb a b
