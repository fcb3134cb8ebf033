-- ===== src/Json/Laws.antt =====
-- Laws of the comparison of JSON values, for values whose objects have distinct keys, as every value
-- that `JSON.parse` returns.
use cmap.Common.{
  ℕ, Bool, true, false, ◌≡◌, refl, inl, inr, ◌&&◌, not, none, some, String, ◌==◌, eq_iff, ==_refl,
  eqb, arith, Bool-cases, &&_left, &&_right, &&_both, not-eq_true,
}
use cmap.Json.{
  Json, null, bool, num, str, arr, obj, Items, nil, cons, Fields, end, field, count_items,
  count_fields, get_field, json_equal, items_equal, fields_equal,
}
use cmap.Json.Numbers.{object_is_refl}

-- Object.hasOwn(b, k)
unfoldable pub has_field : Fields → String → Bool
unfolding get_field
has_field fs k = elim (get_field fs k) [ none ↦ false | some _ ↦ true ]

-- every object in the value has distinct keys
unfoldable mutual
  unfolding has_field

  pub distinct_keys : Json → Bool
  distinct_keys (arr xs) = distinct_keys_items xs
  distinct_keys (obj fs) = distinct_keys_fields fs
  distinct_keys _ = true

  pub distinct_keys_items : Items → Bool
  distinct_keys_items nil = true
  distinct_keys_items (cons x xs) = distinct_keys x && distinct_keys_items xs

  pub distinct_keys_fields : Fields → Bool
  distinct_keys_fields end = true
  distinct_keys_fields (field k v fs) =
      not (has_field fs k) && (distinct_keys v && distinct_keys_fields fs)

-- what a lookup in the tail finds, a lookup in the whole finds too
get_field-tail :
    (k j : String) (v w : Json) (fs : Fields)
    → has_field fs k ≡ false
    → get_field fs j ≡ some w
    → get_field (field k v fs) j ≡ some w
unfolding get_field has_field
get_field-tail k j v w fs fresh found = elim (Bool-cases (k == j)) [
  | inl same ↦
      let e : k ≡ j = (eq_iff k j).0 same in
      let miss : has_field fs j ≡ false = rw e at fresh in ground (arith, miss)
  | inr other ↦ rw other found
]

eqb_refl : (n : ℕ) → eqb n n ≡ true
eqb_refl n = ground arith

mutual
  unfolding json_equal distinct_keys

  equal_refl : (j : Json) → distinct_keys j ≡ true → json_equal j j ≡ true
  equal_refl null h = refl
  equal_refl (bool true) h = refl
  equal_refl (bool false) h = refl
  equal_refl (num a) h = object_is_refl a
  equal_refl (str s) h = ==_refl s
  equal_refl (arr xs) h = rw (eqb_refl (count_items xs)) (equal_refl_items xs h)
  equal_refl (obj fs) h =
      rw (eqb_refl (count_fields fs)) (equal_refl_fields fs fs h (λ k v found. found))

  equal_refl_items : (xs : Items) → distinct_keys_items xs ≡ true → items_equal xs xs ≡ true
  equal_refl_items nil h = refl
  equal_refl_items (cons x xs) h =
      &&_both (equal_refl x (&&_left _ _ h)) (equal_refl_items xs (&&_right _ _ h))

  equal_refl_fields :
      (fs gs : Fields)
      → distinct_keys_fields fs ≡ true
      → ((k : String) (v : Json) → get_field fs k ≡ some v → get_field gs k ≡ some v)
      → fields_equal fs gs ≡ true
  equal_refl_fields end gs h within = refl
  equal_refl_fields (field k v fs) gs h within =
      let found : get_field gs k ≡ some v = within k v (rw ==_refl refl) in
      let fresh : has_field fs k ≡ false = not-eq_true _ (&&_left _ _ h) in
      let parts : (distinct_keys v && distinct_keys_fields fs) ≡ true = &&_right _ _ h in
      rw found (
        &&_both (equal_refl v (&&_left _ _ parts)) (
          equal_refl_fields fs gs (&&_right _ _ parts)
            (λ j w p. within j w (get_field-tail k j v w fs fresh p))))

-- A JSON value with distinct keys is equal to itself.
pub json_equal_refl : (j : Json) → distinct_keys j ≡ true → json_equal j j ≡ true
json_equal_refl j h = equal_refl j h
