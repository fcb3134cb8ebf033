-- ===== src/Common/Decimals.antt =====
-- `Number(s)` of a text of digits, and back.
use Prim.Native.Nat.{ℕ, zero, suc, ◌+◌, ◌-◌, ◌*◌, ◌/◌, ◌%◌, ◌<◌}
use Prim.Native.Char.{code}
use Prim.Native.String.{String}
use mathlib.Core.Path.{◌≡◌, refl, ap, ◌∙◌}
use mathlib.Core.Logic.{inl, inr}
use mathlib.Core.Bool.{Bool, true, ◌&&◌}
use native.Mathlib.Omega.{arith}
use text.Mathlib.TextLemmas.{nil-append, cons-append}
use package.cmap.Common.Tests.{ltb, leb, ltb→lt, &&_left, &&_right, Bool-cases}
use package.cmap.Common.Splitting.{all_chars}
use package.cmap.Common.Texts.{◌⧺◌, digit, digits, decimal}

-- the number of the digits read so far, and then those of the text
unfoldable pub number_from : ℕ → String → ℕ
number_from a String.[] = a
number_from a (String.◌∷◌ c s) = number_from (a * 10 + (code c - b'0')) s

-- Number(s)
unfoldable pub number_of : String → ℕ
unfolding number_from
number_of s = number_from 0 s

number_from-append :
    (a : ℕ) (s t : String) → number_from a (s ⧺ t) ≡ number_from (number_from a s) t
unfolding number_from
number_from-append a String.[] t = rw (nil-append t) refl
number_from-append a (String.◌∷◌ c s) t =
    rw (cons-append c s t) (number_from-append (a * 10 + (code c - b'0')) s t)

number_from-digit : (a d : ℕ) → d < 10 → number_from a (digit d) ≡ a * 10 + d
unfolding number_from digit
number_from-digit a zero h = refl
number_from-digit a (suc zero) h = refl
number_from-digit a (suc (suc zero)) h = refl
number_from-digit a (suc (suc (suc zero))) h = refl
number_from-digit a (suc (suc (suc (suc zero)))) h = refl
number_from-digit a (suc (suc (suc (suc (suc zero))))) h = refl
number_from-digit a (suc (suc (suc (suc (suc (suc zero)))))) h = refl
number_from-digit a (suc (suc (suc (suc (suc (suc (suc zero))))))) h = refl
number_from-digit a (suc (suc (suc (suc (suc (suc (suc (suc zero)))))))) h = refl
number_from-digit a (suc (suc (suc (suc (suc (suc (suc (suc (suc zero))))))))) h = refl
number_from-digit a (suc (suc (suc (suc (suc (suc (suc (suc (suc (suc d)))))))))) h =
    absurd (omega arith)

number_of-digits : (fuel n : ℕ) → n < fuel → number_from 0 (digits fuel n) ≡ n
unfolding digits
number_of-digits zero n h = absurd (omega arith)
number_of-digits (suc fuel) n h = elim (Bool-cases (ltb n 10)) [
  | inl small ↦ let e = number_from-digit 0 n (ltb→lt n 10 small) in rw small (e ∙ omega arith)
  | inr big ↦
      let e =
        number_from-append 0 (digits fuel (n / 10)) (digit (n % 10))
        ∙ ap (λ a. number_from a (digit (n % 10))) (number_of-digits fuel (n / 10) (ground arith))
        ∙ number_from-digit (n / 10) (n % 10) (omega arith) in
      rw big (e ∙ omega arith)
]

-- A number is read back from its decimal text.
pub number_of-decimal : (n : ℕ) → number_of (decimal n) ≡ n
unfolding number_of decimal
number_of-decimal n = number_of-digits (suc n) n (omega arith)

all_chars-append :
    (p : ℕ → Bool) (s t : String)
    → all_chars p s ≡ true
    → all_chars p t ≡ true
    → all_chars p (s ⧺ t) ≡ true
unfolding all_chars
all_chars-append p String.[] t h g = rw (nil-append t) g
all_chars-append p (String.◌∷◌ c s) t h g =
    rw (cons-append c s t, &&_left (p (code c)) (all_chars p s) h)
      (all_chars-append p s t (&&_right (p (code c)) (all_chars p s) h) g)

all_chars-digit : (d : ℕ) → all_chars (λ c. leb b'0' c && leb c b'9') (digit d) ≡ true
unfolding all_chars digit
all_chars-digit zero = refl
all_chars-digit (suc zero) = refl
all_chars-digit (suc (suc zero)) = refl
all_chars-digit (suc (suc (suc zero))) = refl
all_chars-digit (suc (suc (suc (suc zero)))) = refl
all_chars-digit (suc (suc (suc (suc (suc zero))))) = refl
all_chars-digit (suc (suc (suc (suc (suc (suc zero)))))) = refl
all_chars-digit (suc (suc (suc (suc (suc (suc (suc zero))))))) = refl
all_chars-digit (suc (suc (suc (suc (suc (suc (suc (suc zero)))))))) = refl
all_chars-digit (suc (suc (suc (suc (suc (suc (suc (suc (suc zero))))))))) = refl
all_chars-digit (suc (suc (suc (suc (suc (suc (suc (suc (suc (suc d)))))))))) = refl

all_chars-digits : (fuel n : ℕ) → all_chars (λ c. leb b'0' c && leb c b'9') (digits fuel n) ≡ true
unfolding digits all_chars
all_chars-digits zero n = refl
all_chars-digits (suc fuel) n = elim (Bool-cases (ltb n 10)) [
  | inl small ↦ rw small (all_chars-digit n)
  | inr big ↦ rw big (
      all_chars-append (λ c. leb b'0' c && leb c b'9') (digits fuel (n / 10)) (digit (n % 10))
        (all_chars-digits fuel (n / 10)) (all_chars-digit (n % 10)))
]

-- A decimal text has digits only.
pub all_chars-decimal : (n : ℕ) → all_chars (λ c. leb b'0' c && leb c b'9') (decimal n) ≡ true
unfolding decimal
all_chars-decimal n = all_chars-digits (suc n) n
