-- ===== src/Common/Splitting.antt =====
-- `split` at a character, and the characters of a text.
use Prim.Native.Nat.{ℕ}
use Prim.Native.Char.{Char, code}
use Prim.Native.String.{String}
use mathlib.Core.Path.{◌≡◌, refl, ap, ◌∙◌}
use mathlib.Core.Bool.{Bool, true, false, ◌&&◌, not}
use mathlib.Core.Logic.{inl, inr}
use mathlib.Core.List.{List, [], ◌∷◌}
use native.Mathlib.Omega.{arith}
use package.cmap.Common.Tests.{if◌then◌else◌, eqb, Bool-cases}
use text.Mathlib.TextLemmas.{nil-append, cons-append}
use package.cmap.Common.Lists.{All}
use package.cmap.Common.Texts.{◌⧺◌}

-- every character of the text passes the test
unfoldable pub all_chars : (ℕ → Bool) → String → Bool
all_chars p String.[] = true
all_chars p (String.◌∷◌ c s) = p (code c) && all_chars p s

-- the text is not empty and every character passes
unfoldable pub some_chars : (ℕ → Bool) → String → Bool
unfolding all_chars
some_chars p String.[] = false
some_chars p (String.◌∷◌ c s) = p (code c) && all_chars p s

-- !s.includes(sep)
abbrev pub lacks : ℕ → String → Bool
lacks sep = all_chars (λ c. not (eqb c sep))

-- the character goes before the first part
abbrev onto_first : Char → List String → List String
onto_first c [] = []
onto_first c (s ∷ ss) = String.◌∷◌ c s ∷ ss

-- s.split(sep)
unfoldable pub split : ℕ → String → List String
split sep String.[] = "" ∷ []
split sep (String.◌∷◌ c s) =
    let rest = split sep s in if eqb (code c) sep then "" ∷ rest else onto_first c rest

eqb_self : (n : ℕ) → eqb n n ≡ true
eqb_self n = ground arith

pub split-lacks : (sep : ℕ) (s : String) → lacks sep s ≡ true → split sep s ≡ s ∷ []
unfolding split all_chars
split-lacks sep String.[] h = refl
split-lacks sep (String.◌∷◌ c s) h = elim (Bool-cases (eqb (code c) sep)) [
  | inl same ↦ absurd (ground arith)
  | inr other ↦ rw (other, split-lacks sep s (ground arith)) refl
]

-- The first part ends at the first separator.
pub split-append :
    (c : Char) (s t : String)
    → lacks (code c) s ≡ true
    → split (code c) (s ⧺ String.◌∷◌ c t) ≡ s ∷ split (code c) t
unfolding split all_chars
split-append c String.[] t h = rw (nil-append (String.◌∷◌ c t), eqb_self (code c)) refl
split-append c (String.◌∷◌ d s) t h = elim (Bool-cases (eqb (code d) (code c))) [
  | inl same ↦ absurd (ground arith)
  | inr other ↦ rw (cons-append d s (String.◌∷◌ c t), other, split-append c s t (ground arith)) refl
]

-- lines.join('\n')
unfoldable pub lines : List String → String
lines [] = ""
lines (s ∷ []) = s
lines (s ∷ t ∷ ss) = s ⧺ ("\n" ⧺ lines (t ∷ ss))

abbrev newline : Char
newline = "\n"

newline-append : (s : String) → "\n" ⧺ s ≡ String.◌∷◌ newline s
newline-append s = cons-append newline "" s ∙ ap (λ t. String.◌∷◌ newline t) (nil-append s)

-- Lines without a line feed are read back from the text that joins them.
pub split-lines :
    (s : String) (ss : List String)
    → All (λ t. lacks b'\n' t ≡ true) (s ∷ ss)
    → split b'\n' (lines (s ∷ ss)) ≡ s ∷ ss
unfolding lines
split-lines s [] h = split-lacks b'\n' s h.0
split-lines s (t ∷ ss) h =
    ap (λ u. split b'\n' (s ⧺ u)) (newline-append (lines (t ∷ ss)))
    ∙ split-append newline s (lines (t ∷ ss)) h.0
    ∙ ap (λ us. s ∷ us) (split-lines t ss h.1)

-- what passes one test passes a weaker one
pub all_chars-weaken :
    (p q : ℕ → Bool) (s : String)
    → ((c : ℕ) → p c ≡ true → q c ≡ true)
    → all_chars p s ≡ true
    → all_chars q s ≡ true
unfolding all_chars
all_chars-weaken p q String.[] w h = refl
all_chars-weaken p q (String.◌∷◌ c s) w h =
    rw (w (code c) (ground arith)) (all_chars-weaken p q s w (ground arith))
