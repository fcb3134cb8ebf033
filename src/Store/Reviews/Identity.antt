-- ===== src/Store/Reviews/Identity.antt =====
-- putReview: the list of reviews that it leaves.
use cmap.Common.{
  true, false, String, ◌==◌, eq_iff, none, some, List, [], ◌∷◌, ◌++◌, find, map, includes, distinct,
  ◌||◌, ◌≡◌, refl, arith, Option-cases, Outcome-cases, Bool-cases, if◌then◌else◌, inl, inr,
}
use cmap.Entities.Evidence.{Review}
use cmap.Store.{MemoryStore}
use cmap.Store.Compare.{assert_same_review_input}
use cmap.Store.Reviews.{put_review}

-- the ids of the reviews
abbrev pub review_ids : List Review → List String
review_ids = map (λ r. r.id)

find-includes :
    (rs : List Review) (id : String)
    → find (λ (x : Review). x.id == id) rs ≡ none
    → includes (review_ids rs) id ≡ false
find-includes [] id h = refl
find-includes (r ∷ rs) id h = ground (arith, find-includes rs id)

includes-snoc :
    (rs : List Review) (r : Review) (x : String)
    → includes (review_ids (rs ++ r ∷ [])) x ≡ (includes (review_ids rs) x || r.id == x)
includes-snoc [] r x = ground arith
includes-snoc (q ∷ rs) r x = ground (arith, includes-snoc rs r x)

distinct-snoc :
    (rs : List Review) (r : Review)
    → includes (review_ids rs) r.id ≡ false
    → distinct (review_ids rs) ≡ true
    → distinct (review_ids (rs ++ r ∷ [])) ≡ true
distinct-snoc [] r h d = refl
distinct-snoc (q ∷ rs) r h d =
    ground (arith, includes-snoc rs r q.id, distinct-snoc rs r, eq_iff q.id r.id, eq_iff r.id q.id)

includes-find :
    (rs : List Review) (id : String) (r : Review)
    → find (λ (x : Review). x.id == id) rs ≡ some r
    → includes (review_ids rs) id ≡ true
includes-find [] id r h = absurd (ground arith)
includes-find (q ∷ rs) id r h = elim (Bool-cases (q.id == id)) [
  | inl same ↦ rw same refl
  | inr other ↦ rw other (includes-find rs id r (ground arith))
]

-- A put of a review, accepted or refused, leaves the reviews on record as they are if its id is among
-- them, and else appends exactly this review at their end; if the ids on record are distinct they stay
-- so.
pub put_review_lem :
    (r : Review) (s : MemoryStore)
    → distinct (review_ids s.reviews) ≡ true
    → ((put_review r s).1.reviews
        ≡ (if includes (review_ids s.reviews) r.id then s.reviews else s.reviews ++ r ∷ []))
      × (distinct (review_ids (put_review r s).1.reviews) ≡ true)
unfolding put_review
put_review_lem r s d = elim (Option-cases (find (λ x. x.id == r.id) s.reviews)) [
  | inl fresh ↦
      let free = find-includes s.reviews r.id fresh in
      (rw (put_review, fresh, free) refl, rw (put_review, fresh) (distinct-snoc s.reviews r free d))
  | inr (existing, found) ↦
      let taken = includes-find s.reviews r.id existing found in
      elim (Outcome-cases (assert_same_review_input existing r)) [
        | inl (u, same) ↦ (rw (put_review, found, same, taken) refl, rw (put_review, found, same) d)
        | inr (e, differs) ↦
            (rw (put_review, found, differs, taken) refl, rw (put_review, found, differs) d)
      ]
]
