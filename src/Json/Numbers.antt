-- ===== src/Json/Numbers.antt =====
-- ECMAScript numbers. A finite double is a whole multiple of 2^-1074: it is kept as its sign and its
-- size in that unit, so comparisons are exact; -0 is `finite true 0`.
use cmap.Common.{ℕ, ◌+◌, Bool, true, false, ◌≡◌, ◌&&◌, ◌||◌, not, arith, eqb, ltb}

pub data Number : Type 0 where
  nan : Number
  infinite : Bool → Number
  finite : Bool → ℕ → Number

abbrev same_sign : Bool → Bool → Bool
same_sign true b = b
same_sign false b = not b

-- Object.is(a, b)
unfoldable pub object_is : Number → Number → Bool
object_is nan nan = true
object_is (infinite s) (infinite t) = same_sign s t
object_is (finite s a) (finite t b) = same_sign s t && eqb a b
object_is _ _ = false

-- a === b
unfoldable pub num_eq : Number → Number → Bool
num_eq (infinite s) (infinite t) = same_sign s t
num_eq (finite s a) (finite t b) = eqb a b && (same_sign s t || eqb a 0)
num_eq _ _ = false

-- a < b
unfoldable pub num_lt : Number → Number → Bool
num_lt (infinite s) (infinite t) = s && not t
num_lt (infinite s) (finite t b) = s
num_lt (finite s a) (infinite t) = not t
num_lt (finite false a) (finite false b) = ltb a b
num_lt (finite true a) (finite false b) = ltb 0 (a + b)
num_lt (finite false a) (finite true b) = false
num_lt (finite true a) (finite true b) = ltb b a
num_lt _ _ = false

-- a <= b
unfoldable pub num_le : Number → Number → Bool
unfolding num_eq num_lt
num_le a b = num_lt a b || num_eq a b

-- Number.isFinite(a)
unfoldable pub is_finite : Number → Bool
is_finite (finite _ _) = true
is_finite _ = false

pub object_is_refl : (a : Number) → object_is a a ≡ true
unfolding object_is
object_is_refl nan = ground arith
object_is_refl (infinite s) = ground arith
object_is_refl (finite s a) = ground arith

pub object_is→eq : (a b : Number) → object_is a b ≡ true → a ≡ b
unfolding object_is
object_is→eq nan b h = ground arith
object_is→eq (infinite s) b h = ground arith
object_is→eq (finite s a) b h = ground arith

-- On finite numbers exactly one of <, ===, > holds.
pub num_trichotomy :
    (s t : Bool) (a b : ℕ)
    → let x = finite s a in let y = finite t b in num_le x y ≡ not (num_lt y x)
unfolding num_le
num_trichotomy s t a b = ground arith
