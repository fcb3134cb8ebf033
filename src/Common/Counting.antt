-- ===== src/Common/Counting.antt =====
-- Lists of texts without repetition: a list of distinct members of another is not longer.
use Prim.Native.Nat.{suc, ◌≤◌}
use Prim.Native.String.{String}
use mathlib.Core.Path.{◌≡◌, refl, subst}
use mathlib.Core.Logic.{inl, inr}
use mathlib.Core.Bool.{true, false}
use mathlib.Core.List.{List, [], ◌∷◌}
use native.Mathlib.Omega.{arith}
use text.Mathlib.Text.{◌==◌}
use text.Mathlib.TextEquality.{eq_iff}
use package.cmap.Common.Tests.{if◌then◌else◌, Bool-cases, ==→eq, ==_refl}
use package.cmap.Common.Lists.{length, includes, distinct, All}

-- a member of the list has what all members have
pub all_includes {κ} :
    (P : String → Type κ) (xs : List String) (y : String) → All P xs → includes xs y ≡ true → P y
all_includes P [] y h i = cc
all_includes P (x ∷ xs) y h i = elim (Bool-cases (x == y)) [
  | inl same ↦ subst P (==→eq x y same) h.0
  | inr other ↦ all_includes P xs y h.1 (ground arith)
]

-- the list without the first occurrence of a member
without : String → List String → List String
without x [] = []
without x (y ∷ ys) = if y == x then ys else y ∷ without x ys

length-without :
    (x : String) (ys : List String) → includes ys x ≡ true → suc (length (without x ys)) ≡ length ys
unfolding without
length-without x [] h = cc
length-without x (y ∷ ys) h = ground (arith, length-without x ys)

includes-without :
    (x z : String) (ys : List String)
    → (x == z) ≡ false
    → includes ys z ≡ true
    → includes (without x ys) z ≡ true
unfolding without
includes-without x z [] n h = cc
includes-without x z (y ∷ ys) n h =
    ground (arith, includes-without x z ys n, eq_iff y x, eq_iff y z, eq_iff x z)

AllIn-without :
    (x : String) (xs ys : List String)
    → includes xs x ≡ false
    → All (λ z. includes ys z ≡ true) xs
    → All (λ z. includes (without x ys) z ≡ true) xs
AllIn-without x [] ys fresh h = tt
AllIn-without x (z ∷ zs) ys fresh h = (
  includes-without x z ys (ground (arith, eq_iff x z, eq_iff z x)) h.0,
  AllIn-without x zs ys (ground arith) h.1,
)

-- Distinct members of a list are no more than its length.
pub distinct-le :
    (xs ys : List String)
    → distinct xs ≡ true
    → All (λ z. includes ys z ≡ true) xs
    → length xs ≤ length ys
distinct-le [] ys d h = omega arith
distinct-le (x ∷ xs) ys d h =
    let fresh : includes xs x ≡ false = ground arith in
    let tail : distinct xs ≡ true = ground arith in
    omega (
      arith,
      length-without x ys h.0,
      distinct-le xs (without x ys) tail (AllIn-without x xs ys fresh h.1),
    )

-- A list whose members are all in another, member by member.
pub members_inside :
    (ids xs : List String)
    → ((x : String) → includes ids x ≡ true → includes xs x ≡ true)
    → All (λ z. includes xs z ≡ true) ids
members_inside [] xs h = tt
members_inside (i ∷ ids) xs h =
    (h i (rw ==_refl refl), members_inside ids xs (λ x inn. h x (ground arith)))
