-- ===== src/Store/Reviews.antt =====
-- Reviews of packages/domain-model/src/memory-store.ts: putReview and listReviews.
pub mod Identity
use cmap.Common.{
  ℕ, Bool, String, ◌==◌, Option, none, some, List, [], ◌∷◌, ◌++◌, find, keep, leb, ok, err, sort_by,
  if◌then◌else◌,
}
use cmap.Entities.Evidence.{Review}
use cmap.Store.{MemoryStore, Method}
use cmap.Store.Compare.{assert_same_review_input}

unfoldable pub put_review : Review → Method Review
put_review r s = elim (find (λ x. x.id == r.id) s.reviews) [
  | none ↦ (ok r, record s { reviews = s.reviews ++ r ∷ [] })
  | some existing ↦ elim (assert_same_review_input existing r) [
    | ok _ ↦ (ok existing, s)
    | err e ↦ (err e, s)
  ]
]

-- in the order of rounds
unfoldable pub list_reviews : String → MemoryStore → List Review
list_reviews mission s =
    sort_by (λ a b. leb a.round b.round) (keep (λ r. r.mission_id == mission) s.reviews)
