-- ===== src/Common/Keeping.antt =====
-- `filter` on lists that are appended to or sorted.
use mathlib.Core.Path.{◌≡◌, refl, sym, ◌∙◌}
use mathlib.Core.Logic.{◌≢◌, inl, inr}
use mathlib.Core.Bool.{Bool, true, false}
use mathlib.Core.List.{List, [], ◌∷◌, ◌++◌}
use native.Mathlib.Omega.{arith}
use package.cmap.Common.Tests.{Bool-cases}
use package.cmap.Common.Lists.{keep}
use package.cmap.Common.Sorting.{insert_by, sort_by}

module _ {ℓ} {A : Type ℓ} (p : A → Bool) (le : A → A → Bool) where
  pub keep-append : (xs : List A) (e : A) → p e ≡ true → keep p (xs ++ e ∷ []) ≡ keep p xs ++ e ∷ []
  keep-append [] e h = rw h refl
  keep-append (x ∷ xs) e h = ground (arith, keep-append xs e h)

  keep-insert_false : (a : A) (xs : List A) → p a ≡ false → keep p (insert_by le a xs) ≡ keep p xs
  unfolding insert_by
  keep-insert_false a [] h = ground arith
  keep-insert_false a (x ∷ xs) h = ground (arith, keep-insert_false a xs h)

  keep-insert_true :
      (a : A) (xs : List A) → p a ≡ true → keep p xs ≡ [] → keep p (insert_by le a xs) ≡ a ∷ []
  unfolding insert_by
  keep-insert_true a [] h g = ground arith
  keep-insert_true a (x ∷ xs) h g = ground (arith, keep-insert_true a xs h)

  keep-insert_some : (a : A) (xs : List A) → p a ≡ true → keep p (insert_by le a xs) ≢ []
  unfolding insert_by
  keep-insert_some a [] h e = absurd (ground arith)
  keep-insert_some a (x ∷ xs) h e = absurd (ground (arith, keep-insert_some a xs h))

  -- of a sorted list with no match, one more element that matches is the only match
  pub keep-sort_append :
      (xs : List A) (e : A)
      → p e ≡ true
      → keep p (sort_by le xs) ≡ []
      → keep p (sort_by le (xs ++ e ∷ [])) ≡ e ∷ []
  unfolding sort_by insert_by
  keep-sort_append [] e h g = rw h refl
  keep-sort_append (x ∷ xs) e h g = elim (Bool-cases (p x)) [
    | inl match ↦ absurd (keep-insert_some x (sort_by le xs) match g)
    | inr other ↦
        keep-insert_false x (sort_by le (xs ++ e ∷ [])) other
        ∙ keep-sort_append xs e h (sym (keep-insert_false x (sort_by le xs) other) ∙ g)
  ]
