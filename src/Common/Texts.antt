-- ===== src/Common/Texts.antt =====
-- Template literals: joining of texts, and `String(n)` with `padStart`.
use Prim.Native.Nat.{ℕ, zero, suc, ◌+◌, ◌/◌, ◌%◌}
use Prim.Native.Char.{code}
use Prim.Native.String
use Prim.Native.String.{String}
use mathlib.Core.Bool.{Bool, true, false, ◌&&◌, ◌||◌}
use text.Mathlib.Text.{◌==◌}
use package.cmap.Common.Tests.{eqb, leb, ltb, if◌then◌else◌}

infixl 65 ◌⧺◌
abbrev pub ◌⧺◌ : String → String → String
s ⧺ t = String.◌++◌ s t

unfoldable pub digit : ℕ → String
digit zero = "0"
digit (suc zero) = "1"
digit (suc (suc zero)) = "2"
digit (suc (suc (suc zero))) = "3"
digit (suc (suc (suc (suc zero)))) = "4"
digit (suc (suc (suc (suc (suc zero))))) = "5"
digit (suc (suc (suc (suc (suc (suc zero)))))) = "6"
digit (suc (suc (suc (suc (suc (suc (suc zero))))))) = "7"
digit (suc (suc (suc (suc (suc (suc (suc (suc zero)))))))) = "8"
digit _ = "9"

-- a number has fewer digits than its fuel n + 1
unfoldable pub digits : ℕ → ℕ → String
digits zero n = ""
digits (suc fuel) n =
    let rest = digits fuel (n / 10) in if ltb n 10 then digit n else rest ⧺ digit (n % 10)

-- String(n)
unfoldable pub decimal : ℕ → String
unfolding digits digit
decimal n = digits (suc n) n

-- s.padStart(n, '0'), with the count of zeros to add
unfoldable pub zeros : ℕ → String
zeros zero = ""
zeros (suc n) = "0" ⧺ zeros n

-- the white space that `trim` removes
unfoldable pub is_space : ℕ → Bool
is_space c =
    (leb 9 c && leb c 13)
    || eqb c 32
    || eqb c 0xa0
    || eqb c 0x1680
    || (leb 0x2000 c && leb c 0x200a)
    || eqb c 0x2028
    || eqb c 0x2029
    || eqb c 0x202f
    || eqb c 0x205f
    || eqb c 0x3000
    || eqb c 0xfeff

-- s.trim() is empty
unfoldable pub is_blank : String → Bool
unfolding is_space
is_blank String.[] = true
is_blank (String.◌∷◌ c s) = is_space (code c) && is_blank s

unfoldable pub trim_start : String → String
unfolding is_space
trim_start String.[] = ""
trim_start (String.◌∷◌ c s) =
    let rest = trim_start s in if is_space (code c) then rest else String.◌∷◌ c s

unfoldable pub trim_end : String → String
unfolding is_space
trim_end String.[] = ""
trim_end (String.◌∷◌ c s) =
    let rest = trim_end s in if is_space (code c) && rest == "" then "" else String.◌∷◌ c rest

-- s.trim()
abbrev pub trim : String → String
trim s = trim_end (trim_start s)

abbrev lower : ℕ → ℕ
lower c = if leb b'A' c && leb c b'Z' then c + 32 else c

-- the text starts with the prefix, in lower case, whatever the case of its ASCII letters
unfoldable pub starts_with_any_case : String → String → Bool
starts_with_any_case String.[] s = true
starts_with_any_case (String.◌∷◌ c p) String.[] = false
starts_with_any_case (String.◌∷◌ c p) (String.◌∷◌ d s) =
    eqb (code c) (lower (code d)) && starts_with_any_case p s
