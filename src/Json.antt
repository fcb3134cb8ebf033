-- ===== src/Json.antt =====
-- JSON values, as the ledger stores them and as criteria compare them: ECMAScript numbers, the
-- comparisons of packages/domain-model/src/criterion-check.ts, and node's `isDeepStrictEqual`, which
-- agrees with `jsonEqual` on JSON values (both compare primitives by `Object.is`, arrays in order and
-- objects by their own keys in any order).
pub mod Numbers
pub mod Laws
use cmap.Common.{
  ℕ, ◌+◌, suc, Bool, true, false, ◌≡◌, ◌≢◌, ◌&&◌, ◌||◌, not, Option, none, some, String, ◌==◌, eqb,
  ltb, if◌then◌else◌,
}
use Numbers.{Number, object_is}

mutual
  pub data Json : Type 0 where
    null : Json
    bool : Bool → Json
    num : Number → Json
    str : String → Json
    arr : Items → Json
    obj : Fields → Json

  pub data Items : Type 0 where
    nil : Items
    cons : Json → Items → Items

  pub data Fields : Type 0 where
    end : Fields
    field : String → Json → Fields → Fields

-- a.length
unfoldable pub count_items : Items → ℕ
count_items nil = 0
count_items (cons x xs) = suc (count_items xs)

-- Object.keys(a).length
unfoldable pub count_fields : Fields → ℕ
count_fields end = 0
count_fields (field k v fs) = suc (count_fields fs)

-- b[k], none if b has no own key k
unfoldable pub get_field : Fields → String → Option Json
get_field end k = none
get_field (field j v fs) k = if j == k then some v else get_field fs k

abbrev same_bool : Bool → Bool → Bool
same_bool true b = b
same_bool false b = not b

-- jsonEqual. An object that is compared with itself is equal to itself by its parts, so identity of
-- references needs no case of its own.
unfoldable mutual
  unfolding object_is count_items count_fields get_field

  pub json_equal : Json → Json → Bool
  json_equal null null = true
  json_equal (bool a) (bool b) = same_bool a b
  json_equal (num a) (num b) = object_is a b
  json_equal (str a) (str b) = a == b
  json_equal (arr xs) (arr ys) = eqb (count_items xs) (count_items ys) && items_equal xs ys
  json_equal (obj fs) (obj gs) = eqb (count_fields fs) (count_fields gs) && fields_equal fs gs
  json_equal _ _ = false

  -- a.every((x, i) => jsonEqual(x, b[i])), for lists of one length
  pub items_equal : Items → Items → Bool
  items_equal nil ys = true
  items_equal (cons x xs) (cons y ys) = json_equal x y && items_equal xs ys
  items_equal (cons x xs) nil = false

  -- aKeys.every((k) => Object.hasOwn(b, k) && jsonEqual(a[k], b[k]))
  pub fields_equal : Fields → Fields → Bool
  fields_equal end gs = true
  fields_equal (field k v fs) gs =
      elim (get_field gs k) [ none ↦ false | some w ↦ json_equal v w ] && fields_equal fs gs
